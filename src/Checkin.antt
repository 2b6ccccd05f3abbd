-- ===== src/Checkin.antt =====
-- core/services/checkin.py: the owner, or staff for the owner, starts a reserved hour.
pub mod Table
use room_reserve.Prelude.{
  ℕ, Bool, true, false, not, ◌&&◌, ◌||◌, Option, none, some, String, List, [], ◌∷◌, ltb, leb, ◌==◌,
  is_none, null_or, holds, if◌then◌else◌,
}
use room_reserve.Errors.{Code}
use room_reserve.Models.Booking.{Booking, Status, is_in_use, is_scheduled}
use room_reserve.Models.Account.{User}
use room_reserve.Models.Room.{Room}
use room_reserve.Models.Policy.{PolicyVersion, checkin_grace_minutes}
use room_reserve.Models.Operations.{Value, Fields, optional}
use room_reserve.Models.Db.{Db}
use room_reserve.Slots.{remaining_minutes}
use room_reserve.Audit.{record_audit, actor_pk}
use room_reserve.Policy.{current_policy}
use room_reserve.Eligibility.{assert_can_operate}
use room_reserve.Bookings.{
  Context, Body, reload_for_update, user_of, owns, save_booking, booking_id_fields,
}
use room_reserve.Action.{Action, Result, reject_if, pure, modify, ◌>>=◌, ◌>>◌}

-- `build_payload`
unfoldable pub build_payload : Booking → Fields
build_payload b =
    ("action", Value.text "check_in")
    ∷ ("booking_id", Value.num b.id)
    ∷ ("room_id", Value.num b.room)
    ∷ ("slot", Value.slot b.slot_start)
    ∷ []

abbrev pub is_other_room : Option Room → Booking → Bool
is_other_room none b = false
is_other_room (some r) b = not (b.room == r.id)

unfoldable pub checked_in : Context → Booking → Booking
checked_in ctx b = record b {
  status = Status.in_use;
  checked_in_at = some ctx.now;
  checked_in_by = actor_pk ctx.actor;
}

unfoldable pub write_check_in : Context → Booking → Bool → String → PolicyVersion → Body
write_check_in ctx b staff_assisted reason policy db = (
  Result.ok (
      ("booking_id", Value.num b.id)
      ∷ ("status", Value.status Status.in_use)
      ∷ ("checked_in_at", Value.iso ctx.now)
      ∷ ("slot_end", Value.iso b.slot_end)
      ∷ ("remaining_minutes", Value.num (remaining_minutes ctx.now b.slot_end))
      ∷ []),
  record_audit "booking.checked_in" "Booking" b.id ctx.actor ""
      (("status", Value.status Status.in_use)
        ∷ ("checked_in_at", Value.iso ctx.now)
        ∷ ("staff_assisted", Value.bool staff_assisted)
        ∷ ("grace_minutes", Value.num (checkin_grace_minutes policy))
        ∷ [])
      reason (save_booking b.id (checked_in ctx) db),
)

unfoldable pub check_in : Context → ℕ → Option Room → Bool → String → Body
check_in ctx id room staff_assisted reason = do
  b ← reload_for_update id
  reject_if (λ _. not staff_assisted && not (owns ctx.actor b)) Code.not_owner []
  reject_if (λ _. is_other_room room b) Code.wrong_room []
  reject_if (λ _. is_in_use b.status) Code.already_checked_in (booking_id_fields b)
  reject_if (λ _. not (is_scheduled b.status)) Code.terminal_status (booking_id_fields b)
  policy ← current_policy
  reject_if (λ _. is_none b.deadline) Code.terminal_status (booking_id_fields b)
  reject_if (λ _. ltb ctx.now b.slot_start) Code.check_in_not_open
      (("booking_id", Value.num b.id) ∷ ("opens_at", Value.iso b.slot_start) ∷ [])
  reject_if (λ _. holds (λ d. leb d ctx.now) b.deadline) Code.check_in_closed
      (("booking_id", Value.num b.id) ∷ ("deadline", optional Value.iso b.deadline) ∷ [])
  owner ← user_of b
  assert_can_operate (some owner) ctx.now
  write_check_in ctx b staff_assisted reason policy
