-- ===== src/Bulk/Table.antt =====
-- The bulk cancellations and flags keep the booking table valid, and leave the rest alone.
use room_reserve.Prelude.{◌≡◌, refl, true, String, List, [], ◌∷◌, All, arith}
use room_reserve.Models.Booking.{Booking}
use room_reserve.Models.Db.{Db}
use room_reserve.Bookings.{Context}
use room_reserve.Due.Rows.{Saves, Steps, ReadyRows}
use room_reserve.Due.Table.{loop-IsConsistent}
use room_reserve.Action.{for_each}
use room_reserve.Action.Orderly.{IsOrderlyStep, LeavesRest, loop_orderly}
use room_reserve.Bulk.{dropped, flagged}

pub dropped-Steps :
    (ctx : Context) (reason : String) → Steps (λ d. dropped ctx reason) (λ d x. true)
unfolding dropped
dropped-Steps ctx reason = record {
  key = λ d x. refl;
  row = λ d x r h. record {
    length = r.length;
    aligned = r.aligned;
    dated = r.dated;
    walk_in = ground arith;
    deadline = r.deadline;
    within = r.within;
    checkin = r.checkin;
    cancellation = refl;
    reason = ground arith;
  };
  room = λ d x room start h e. ground arith;
  user = λ d x user start h e. ground arith;
  stays = λ d e x h k. refl;
}

pub flagged-Steps : (note : String) → Steps (λ d. flagged note) (λ d x. true)
unfolding flagged
flagged-Steps note = record {
  key = λ d x. refl;
  row = λ d x r h. record {
    length = r.length;
    aligned = r.aligned;
    dated = r.dated;
    walk_in = r.walk_in;
    deadline = r.deadline;
    within = r.within;
    checkin = r.checkin;
    cancellation = r.cancellation;
    reason = r.reason;
  };
  room = λ d x room start h e. e;
  user = λ d x user start h e. e;
  stays = λ d e x h k. refl;
}

always-All {ℓ} : {A : Type ℓ} (P : A → Type 0) (xs : List A) → ((x : A) → P x) → All P xs
always-All P [] h = tt
always-All P (x ∷ xs) h = (h x, always-All P xs h)

-- A loop whose rounds may write any row, and leave records and policies alone.
pub saved_loop_orderly :
    (f : Booking → Booking → Booking) (body : Booking → Db → Db) (ds : Db → List Booking)
    → Saves f body
    → Steps f (λ d x. true)
    → ((b : Booking) → LeavesRest (body b))
    → IsOrderlyStep (λ db. for_each (ds db) body db)
saved_loop_orderly f body ds saves steps rest =
    loop_orderly body ds
      (λ db t.
        loop-IsConsistent f body (λ d x. true) saves steps (ds db) db
          (always-All (ReadyRows (λ d x. true) db.bookings) (ds db)
            (λ d. always-All (λ x. x.id ≡ d.id → true ≡ true) db.bookings (λ x e. refl)))
          t)
      rest
