-- ===== src/Closures.antt =====
-- core/services/maintenance.py, closures: the preview of what a closure would affect, its creation
-- with the cancellations, and its end.
pub mod Table
pub mod Cleared
use room_reserve.Prelude.{
  ℕ, suc, Bool, true, false, not, ◌&&◌, ◌||◌, Option, none, some, String, List, [], ◌∷◌, ◌++◌,
  filter, first, length, order_by, update_where, ltb, leb, ◌==◌, null_or, is_none, is_some,
}
use room_reserve.Prelude.Text.{is_spaces, strip, append_text}
use room_reserve.Errors.{Code}
use room_reserve.Models.Booking.{Booking, Status, is_in_use}
use room_reserve.Models.Account.{User}
use room_reserve.Models.Room.{Room, Closure}
use room_reserve.Models.Operations.{Value, Fields}
use room_reserve.Models.Db.{Db}
use room_reserve.Audit.{record_audit, actor_pk}
use room_reserve.Outbox.{enqueue}
use room_reserve.Bookings.{Context, save_booking, is_open_status}
use room_reserve.Action.{
  Action, Result, ok, reject_if, get_row, pure, modify, ask, for_each, ◌>>=◌, ◌>>◌,
}
use room_reserve.Due.{user_row}
use room_reserve.Bulk.{dropped, dropped_fields, cancelled_key, flagged}

-- The query of `preview_closure`, with the bookings that open or in use, in the closure's scope, and
-- overlapping it; no room is every room.
unfoldable pub is_affected : Option Room → ℕ → ℕ → Booking → Bool
is_affected room starts_at ends_at b =
    null_or (λ r. b.room == r.id) room
    && ((is_open_status b.status || is_in_use b.status)
        && (ltb b.slot_start ends_at && ltb starts_at b.slot_end))

-- A staff booking whose hour has begun is in use before reconciliation marks it so.
abbrev pub in_progress : ℕ → Booking → Bool
in_progress now b = is_in_use b.status || (b.is_staff_booking && leb b.slot_start now)

abbrev pub is_cancellable : ℕ → Booking → Bool
is_cancellable now b = is_open_status b.status && not (in_progress now b)

unfoldable pub affected : Option Room → ℕ → ℕ → Db → List Booking
affected room starts_at ends_at db =
    order_by (λ a b. leb a.slot_start b.slot_start)
      (filter (is_affected room starts_at ends_at) db.bookings)

-- What the preview returns besides its arguments and the two counts.
pub record Preview : Type 0 where
  pub scheduled : List Booking
  pub in_use : List Booking

unfoldable pub preview_of : Option Room → ℕ → ℕ → Db → Preview
preview_of room starts_at ends_at db = record {
  scheduled = filter (is_cancellable db.wall) (affected room starts_at ends_at db);
  in_use = filter (in_progress db.wall) (affected room starts_at ends_at db);
}

unfoldable pub preview_closure : Option Room → ℕ → ℕ → Action Preview
preview_closure room starts_at ends_at = do
  reject_if (λ _. leb ends_at starts_at) Code.invalid_input []
  ask (preview_of room starts_at ends_at)

-- `create_closure`
unfoldable pub new_closure : Context → Option Room → ℕ → ℕ → String → Bool → Db → Closure
new_closure ctx room starts_at ends_at reason acknowledged db = record {
  id = db.next_closure;
  room = elim room [ none ↦ none | some r ↦ some r.id ];
  starts_at = starts_at;
  ends_at = ends_at;
  reason = strip reason;
  acknowledged_in_use = acknowledged;
  created_by = actor_pk ctx.actor;
  revoked_at = none;
  revoked_by = none;
  revoked_reason = "";
}

unfoldable pub insert_closure : Closure → Db → Db
insert_closure c db = record db {
  closures = db.closures ++ (c ∷ []);
  next_closure = suc db.next_closure;
}

unfoldable pub drop_for_closure : Context → ℕ → String → Booking → Db → Db
drop_for_closure ctx closure reason b db =
    enqueue "booking_cancelled" (user_row b.user db) (cancelled_key b)
      (dropped_fields b "CLOSURE" db ++ (("closure_reason", Value.text reason) ∷ []))
      (record_audit "booking.cancelled" "Booking" b.id ctx.actor ""
        (("status", Value.status Status.cancelled)
          ∷ ("reason", Value.text "CLOSURE")
          ∷ ("closure_id", Value.num closure)
          ∷ [])
        reason (save_booking b.id (dropped ctx "CLOSURE") db))

unfoldable pub on_site_note : String → String
on_site_note reason =
    append_text "Room closed during an active session ("
      (append_text (strip reason) "). Confirm on site whether the student was asked to leave.")

unfoldable pub flag : String → Booking → Db → Db
flag note b db = save_booking b.id (flagged note) db

abbrev pub room_value : Option Room → Value
room_value none = Value.null
room_value (some r) = Value.text r.number

unfoldable pub audit_closure : Context → Option Room → Closure → String → Preview → Db → Db
audit_closure ctx room c reason p db =
    record_audit "closure.created" "Closure" c.id ctx.actor ""
      (("room", room_value room)
        ∷ ("all_rooms", Value.bool (is_none room))
        ∷ ("starts_at", Value.iso c.starts_at)
        ∷ ("ends_at", Value.iso c.ends_at)
        ∷ ("cancelled", Value.num (length p.scheduled))
        ∷ ("flagged_in_use", Value.num (length p.in_use))
        ∷ [])
      reason db

unfoldable pub write_closure : Context → Option Room → Closure → String → Preview → Db → Db
write_closure ctx room c reason p db = audit_closure ctx room c reason p (
    for_each p.in_use (flag (on_site_note reason))
      (for_each p.scheduled (drop_for_closure ctx c.id reason) (insert_closure c db)))

unfoldable pub create_closure : Context → Option Room → ℕ → ℕ → String → Bool → Action Closure
create_closure ctx room starts_at ends_at reason acknowledged = do
  reject_if (λ _. is_spaces reason) Code.invalid_input []
  reject_if (λ _. leb ends_at starts_at) Code.invalid_input []
  p ← preview_closure room starts_at ends_at
  reject_if (λ _. ltb 0 (length p.in_use) && not acknowledged) Code.invalid_input
      (("requires_acknowledgement", Value.bool true)
        ∷ ("in_use_count", Value.num (length p.in_use))
        ∷ [])
  c ← ask (new_closure ctx room starts_at ends_at reason acknowledged)
  modify (write_closure ctx room c reason p)
  pure c

-- `revoke_closure`
unfoldable pub revoked : Context → String → Closure → Closure
revoked ctx reason c = record c {
  revoked_at = some ctx.now;
  revoked_by = actor_pk ctx.actor;
  revoked_reason = strip reason;
}

unfoldable pub write_revoked : Context → Closure → String → Db → Db
write_revoked ctx c reason db =
    record_audit "closure.revoked" "Closure" c.id ctx.actor ""
      (("restores_bookings", Value.bool false) ∷ ("makes_slots_reusable", Value.bool false) ∷ [])
      reason
      (record db { closures = update_where (λ x. x.id == c.id) (revoked ctx reason) db.closures })

unfoldable pub revoke_closure : Context → ℕ → String → Action Closure
revoke_closure ctx id reason = do
  reject_if (λ _. is_spaces reason) Code.invalid_input []
  c ← get_row (λ db. first (λ c. c.id == id) db.closures)
  reject_if (λ _. is_some c.revoked_at) Code.terminal_status (("closure_id", Value.num c.id) ∷ [])
  modify (write_revoked ctx c reason)
  pure (revoked ctx reason c)
