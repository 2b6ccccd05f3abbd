-- ===== src/Closures/Table.antt =====
-- Closures keep the booking table valid, wherever they stop, and leave idempotency records alone.
use room_reserve.Prelude.{ℕ, ◌≡◌, refl, Bool, Option, String, List}
use room_reserve.Models.Booking.{Booking}
use room_reserve.Models.Room.{Room, Closure}
use room_reserve.Models.Db.{Db}
use room_reserve.Audit.{record_audit}
use room_reserve.Outbox.{enqueue}
use room_reserve.Policy.{policy_of}
use room_reserve.Bookings.{Context, save_booking}
use room_reserve.Action.{for_each}
use room_reserve.Action.Orderly.{IsOrderlyStep, IsOrderly, aside_orderly, then_orderly, orderly}
use room_reserve.Due.Rows.{Saves}
use room_reserve.Bulk.{dropped, flagged}
use room_reserve.Bulk.Table.{dropped-Steps, flagged-Steps, saved_loop_orderly}
use room_reserve.Closures.{
  Preview, preview_closure, insert_closure, drop_for_closure, flag, on_site_note, audit_closure,
  write_closure, create_closure, write_revoked, revoke_closure,
}

pub drop_for_closure-Saves :
    (ctx : Context) (closure : ℕ) (reason : String)
    → Saves (λ d. dropped ctx "CLOSURE") (drop_for_closure ctx closure reason)
unfolding drop_for_closure enqueue record_audit save_booking
drop_for_closure-Saves ctx closure reason = record { rows = λ d db. refl; next = λ d db. refl }

drop_rest :
    (ctx : Context) (closure : ℕ) (reason : String) (b : Booking) (db : Db)
    → ((drop_for_closure ctx closure reason b db).requests ≡ db.requests)
      × (policy_of (drop_for_closure ctx closure reason b db) ≡ policy_of db)
unfolding drop_for_closure enqueue record_audit save_booking policy_of
drop_rest ctx closure reason b db = (refl, refl)

pub flag-Saves : (note : String) → Saves (λ d. flagged note) (flag note)
unfolding flag save_booking
flag-Saves note = record { rows = λ d db. refl; next = λ d db. refl }

pub flag_orderly : (note : String) (bs : List Booking) → IsOrderlyStep (for_each bs (flag note))
flag_orderly note bs =
    saved_loop_orderly (λ d. flagged note) (flag note) (λ db. bs) (flag-Saves note)
      (flagged-Steps note) (λ b db. unfold flag save_booking policy_of in (refl, refl))

module _ (ctx : Context) where
  insert_orderly : (c : Closure) → IsOrderlyStep (insert_closure c)
  unfolding insert_closure policy_of
  insert_orderly c = aside_orderly (λ db. (refl, refl, refl, refl))

  audit_orderly :
      (room : Option Room) (c : Closure) (reason : String) (p : Preview)
      → IsOrderlyStep (audit_closure ctx room c reason p)
  unfolding audit_closure record_audit policy_of
  audit_orderly room c reason p = aside_orderly (λ db. (refl, refl, refl, refl))

  write_orderly :
      (room : Option Room) (c : Closure) (reason : String) (p : Preview)
      → IsOrderlyStep (write_closure ctx room c reason p)
  unfolding write_closure
  write_orderly room c reason p = then_orderly (insert_orderly c) (
      then_orderly
        (saved_loop_orderly (λ d. dropped ctx "CLOSURE") (drop_for_closure ctx c.id reason)
          (λ db. p.scheduled) (drop_for_closure-Saves ctx c.id reason) (dropped-Steps ctx "CLOSURE")
          (drop_rest ctx c.id reason))
        (then_orderly (flag_orderly (on_site_note reason) p.in_use)
          (audit_orderly room c reason p)))

  preview_closure-IsOrderly :
      (room : Option Room) (starts_at ends_at : ℕ)
      → IsOrderly (preview_closure room starts_at ends_at)
  unfolding preview_closure
  preview_closure-IsOrderly room starts_at ends_at = search orderly depth 16

  pub create_closure-IsOrderly :
      (room : Option Room) (starts_at ends_at : ℕ) (reason : String) (acknowledged : Bool)
      → IsOrderly (create_closure ctx room starts_at ends_at reason acknowledged)
  unfolding create_closure
  create_closure-IsOrderly room starts_at ends_at reason acknowledged =
      search (orderly, preview_closure-IsOrderly, write_orderly) depth 16

  write_revoked_orderly :
      (c : Closure) (reason : String) → IsOrderlyStep (write_revoked ctx c reason)
  unfolding write_revoked record_audit policy_of
  write_revoked_orderly c reason = aside_orderly (λ db. (refl, refl, refl, refl))

  pub revoke_closure-IsOrderly :
      (id : ℕ) (reason : String) → IsOrderly (revoke_closure ctx id reason)
  unfolding revoke_closure
  revoke_closure-IsOrderly id reason = search (orderly, write_revoked_orderly) depth 16
