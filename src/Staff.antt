-- ===== src/Staff.antt =====
-- core/services/booking.py: `create_staff_booking`, several consecutive hours held for the department.
pub mod Table
use room_reserve.Prelude.{
  ℕ, ◌+◌, ◌-◌, Bool, true, false, not, ◌&&◌, ◌||◌, Option, none, some, String, List, [], ◌∷◌, map,
  any, length, ltb, leb, ◌==◌, if◌then◌else◌,
}
use room_reserve.Errors.{Code}
use room_reserve.Models.Booking.{Booking, Status, Source, claims_room, advance_deadline}
use room_reserve.Models.Account.{User}
use room_reserve.Models.Room.{Room}
use room_reserve.Models.Policy.{PolicyVersion, checkin_grace_minutes}
use room_reserve.Models.Operations.{Value, Fields}
use room_reserve.Models.Db.{Db}
use room_reserve.Slots.{local_date, day_slot_starts}
use room_reserve.Audit.{record_audit}
use room_reserve.Policy.{current_policy}
use room_reserve.Calendar.{assert_slot_open}
use room_reserve.Eligibility.{is_booking_staff}
use room_reserve.Bookings.{
  Context, Body, acting_user, insert_booking, blank_booking, is_taken, payload_text,
}
use room_reserve.Action.{Action, Result, reject_if, pure, modify, ask, ◌>>=◌, ◌>>◌}

abbrev pub is_staff_actor : Option User → Bool
is_staff_actor none = false
is_staff_actor (some u) = is_booking_staff u

-- `starts[0] <= now`
abbrev pub range_started : ℕ → List ℕ → Bool
range_started now [] = false
range_started now (s ∷ ss) = leb s now

unfoldable pub assert_all_open : List ℕ → Room → Action (Unit {0})
assert_all_open [] room = pure tt
assert_all_open (s ∷ ss) room = assert_slot_open s room >>= λ _. assert_all_open ss room

-- A booking that blocks one of the hours (`slot_start__in=starts`).
unfoldable pub any_taken : ℕ → List ℕ → Db → Bool
any_taken room starts db = any (λ s. is_taken room s db) starts

unfoldable pub staff_row : Context → User → Room → ℕ → PolicyVersion → Db → Booking
staff_row ctx u room slot_start policy db =
    record (blank_booking db.next_booking db.wall u.id room.id slot_start Status.scheduled
      Source.advance) {
        deadline = some (advance_deadline slot_start (checkin_grace_minutes policy));
        is_staff_booking = true;
        approved_at = some ctx.now;
        approved_by = some u.id;
        policy_version = some policy.version;
        title = payload_text "title" ctx.payload;
        purpose = payload_text "purpose" ctx.payload;
        participant_names = payload_text "participant_names" ctx.payload;
      }

unfoldable pub announce_hold : Booking → User → Room → PolicyVersion → Db → Db
announce_hold b u room policy =
    record_audit "booking.created" "Booking" b.id (some u) ""
      (("room", Value.text room.number)
        ∷ ("slot_start", Value.iso b.slot_start)
        ∷ ("slot_end", Value.iso b.slot_end)
        ∷ ("source", Value.source b.source)
        ∷ ("status", Value.status b.status)
        ∷ ("staff_booking", Value.bool true)
        ∷ ("policy_version", Value.num policy.version)
        ∷ ("title", Value.text b.title)
        ∷ ("purpose", Value.text b.purpose)
        ∷ [])
      ""

-- One round of the loop over the hours.
unfoldable pub hold_hour : Context → User → Room → PolicyVersion → ℕ → Db → Db
hold_hour ctx u room policy slot_start db =
    let b : Booking = staff_row ctx u room slot_start policy db in
    announce_hold b u room policy (insert_booking b db)

-- The loop; each booking's key goes into the result.
unfoldable pub hold_hours : Context → User → Room → PolicyVersion → List ℕ → Action (List ℕ)
hold_hours ctx u room policy [] = pure []
hold_hours ctx u room policy (s ∷ ss) = do
  id ← ask (λ db. db.next_booking)
  modify (hold_hour ctx u room policy s)
  ids ← hold_hours ctx u room policy ss
  pure (id ∷ ids)

unfoldable pub create_staff_booking : Context → Room → ℕ → ℕ → ℕ → Body
create_staff_booking ctx room date start_hour end_hour = do
  reject_if (λ _. not (is_staff_actor ctx.actor)) Code.not_eligible []
  reject_if (λ _. not (ltb start_hour end_hour && leb end_hour 24)) Code.invalid_input []
  reject_if (λ _. range_started ctx.now (day_slot_starts date start_hour end_hour))
      Code.range_started []
  days ← ask (λ db. db.settings.staff_booking_horizon_days)
  reject_if (λ _. ltb (local_date ctx.now + days) date) Code.outside_horizon
      (("horizon_days", Value.num days) ∷ [])
  assert_all_open (day_slot_starts date start_hour end_hour) room
  reject_if (any_taken room.id (day_slot_starts date start_hour end_hour)) Code.range_taken []
  policy ← current_policy
  u ← acting_user ctx.actor
  ids ← hold_hours ctx u room policy (day_slot_starts date start_hour end_hour)
  pure (
      ("booking_ids", Value.nums ids)
      ∷ ("room_id", Value.num room.id)
      ∷ ("hours", Value.num (length ids))
      ∷ [])
