-- ===== src/Cancel/Table.antt =====
-- When a cancellation goes through, what it writes, and the constraints of the booking table.
use room_reserve.Prelude.{
  ℕ, ◌<◌, ◌≡◌, refl, ◌⊎◌, inl, inr, Bool, true, false, ◌||◌, some, String, List, update_where,
  Option-cases, arith,
}
use room_reserve.Models.Booking.{Booking}
use room_reserve.Models.Operations.{Fields}
use room_reserve.Models.Db.{Db}
use room_reserve.Audit.{record_audit}
use room_reserve.Outbox.{enqueue}
use room_reserve.Bookings.{
  Context, find_booking, reload_for_update, user_of, room_of, owns, save_booking, is_open_status,
}
use room_reserve.Bookings.Constraints.{IsRow, IsConsistent}
use room_reserve.Bookings.Save.{has_id, row_id, valid_of_found, save-IsTable}
use room_reserve.Action.{ok, reject_if}
use room_reserve.Action.Rules.{bind_ok}
use mathlib.Core.Path.{subst}
use room_reserve.Prelude.{ap, [], ◌∷◌, if◌then◌else◌}
use room_reserve.Prelude.Text.{is_blank}
use room_reserve.Cancel.{
  cancel, cancelled, write_cancel, announce_cancelled, cancel_each, future_occurrences,
  cancel_recurring_reservation, close_series,
}

-- Who may cancel what, and when.
pub record MayCancel (ctx : Context) (staff_action : Bool) (b : Booking) : Type 0 where
  pub permitted : (staff_action || owns ctx.actor b) ≡ true
  pub undone : is_open_status b.status ≡ true
  pub in_time : (staff_action ≡ true) ⊎ (ctx.now < b.slot_start)

-- A cancellation goes through only for the owner or staff, for a booking that waits or is scheduled, and
-- before the hour begins unless staff acts; it then writes that booking alone, as cancelled.
pub cancel_ok :
    (ctx : Context) (id : ℕ) (reason : String) (staff : Bool) (db : Db) {fields : Fields} {db' : Db}
    → cancel ctx id reason staff db ≡ (ok fields, db')
    → (b : Booking) × (find_booking id db ≡ some b)
      × MayCancel ctx staff b
      × (db'.bookings ≡ update_where (has_id b.id) (cancelled ctx reason staff) db.bookings)
      × (db'.next_booking ≡ db.next_booking)
unfolding cancel reload_for_update reject_if user_of room_of write_cancel announce_cancelled enqueue
    record_audit save_booking
cancel_ok ctx id reason staff db h = elim (Option-cases (find_booking id db)) [
  | inl e ↦ ground arith
  | inr (b, e) ↦ (b, e, ground arith, ground arith, ground arith)
]

cancelled-IsRow :
    (ctx : Context) (reason : String) (staff : Bool) (b : Booking)
    → IsRow b
    → is_open_status b.status ≡ true
    → IsRow (cancelled ctx reason staff b)
unfolding cancelled
cancelled-IsRow ctx reason staff b r o = record {
  length = r.length;
  aligned = r.aligned;
  dated = r.dated;
  walk_in = ground (arith, r.walk_in);
  deadline = r.deadline;
  within = r.within;
  checkin = r.checkin;
  cancellation = refl;
  reason = ground arith;
}

-- A cancellation that goes through leaves a booking table that satisfies all its constraints, if
-- the table did before: it gives up the hour and claims nothing.
pub cancel-IsConsistent :
    (ctx : Context) (id : ℕ) (reason : String) (staff : Bool) (db : Db) {fields : Fields} {db' : Db}
    → cancel ctx id reason staff db ≡ (ok fields, db')
    → IsConsistent db
    → IsConsistent db'
unfolding cancelled
cancel-IsConsistent ctx id reason staff db done t =
    let (b, found, may, rows, next) = cancel_ok ctx id reason staff db done in
    let key : b.id ≡ id =
      row_id db.next_booking id db.bookings b (cancelled ctx reason staff) t found in
    rw (rows, next, key)
      (save-IsTable db.next_booking id db.bookings b (cancelled ctx reason staff) t found
        (λ x. refl)
        (cancelled-IsRow ctx reason staff b
          (valid_of_found db.next_booking id db.bookings b (cancelled ctx reason staff) t found)
          may.undone)
        (λ room start h. ground arith) (λ user start h. ground arith))

-- The loop over the occurrences of a series, and the cancellation of the series.
cancel_each-IsConsistent :
    (ctx : Context) (bs : List Booking) (reason : String) (db : Db) {u : Unit {0}} {db' : Db}
    → cancel_each ctx bs reason db ≡ (ok u, db')
    → IsConsistent db
    → IsConsistent db'
unfolding cancel_each
cancel_each-IsConsistent ctx [] reason db h t = subst IsConsistent (ap (λ r. r.1) h) t
cancel_each-IsConsistent ctx (b ∷ bs) reason db h t =
    let (fields, d, first_done, rest) =
      bind_ok (cancel ctx b.id reason false) (λ _. cancel_each ctx bs reason) db h in
    cancel_each-IsConsistent ctx bs reason d rest
      (cancel-IsConsistent ctx b.id reason false db first_done t)

-- The constraints of the booking table after the end of a weekly series.
pub cancel_recurring_reservation-IsConsistent :
    (ctx : Context) (id : ℕ) (reason : String) (db : Db) {fields : Fields} {db' : Db}
    → cancel_recurring_reservation ctx id reason db ≡ (ok fields, db')
    → IsConsistent db
    → IsConsistent db'
unfolding cancel_recurring_reservation close_series record_audit reject_if
cancel_recurring_reservation-IsConsistent ctx id reason db {fields} {db'} h t =
    let future = future_occurrences id ctx.now db in
    let why = if is_blank reason then "SERIES_CANCELLATION" else reason in
    let run = cancel_each ctx future why db in
    let done : cancel_each ctx future why db ≡ (ok tt, run.1) = ground arith in
    let after = cancel_each-IsConsistent ctx future why db done t in
    let rows : (db'.bookings ≡ run.1.bookings) × (db'.next_booking ≡ run.1.next_booking) =
      ground arith in
    rw (rows.0, rows.1) after
