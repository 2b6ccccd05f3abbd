-- ===== src/Reserve.antt =====
-- core/services/booking.py: an advance reservation.
pub mod Create
pub mod Table
use room_reserve.Prelude.{
  ℕ, ◌+◌, Bool, true, false, not, ◌&&◌, Option, none, some, String, List, [], ◌∷◌, ◌++◌, ltb, leb,
  if◌then◌else◌,
}
use room_reserve.Errors.{Code}
use room_reserve.Models.Booking.{Booking, Status, Source, advance_deadline}
use room_reserve.Models.Account.{User}
use room_reserve.Models.Room.{Room}
use room_reserve.Models.Policy.{PolicyVersion, horizon_days, checkin_grace_minutes}
use room_reserve.Models.Operations.{Value, Fields, DedupeKey, Generation}
use room_reserve.Models.Db.{Db}
use room_reserve.Slots.{is_hour_aligned, slot_end_for, is_within_horizon, remaining_minutes}
use room_reserve.Audit.{record_audit}
use room_reserve.Outbox.{enqueue}
use room_reserve.Policy.{current_policy}
use room_reserve.Calendar.{assert_slot_open}
use room_reserve.Eligibility.{is_booking_staff, assert_may_reserve_room}
use room_reserve.Quota.{assert_quota_and_adjacency}
use room_reserve.Bookings.{
  Context, Body, Details, acting_user, insert_booking, blank_booking, is_taken, payload_text,
  normalise_details, details_fields,
}
use room_reserve.Action.{Action, Result, reject_if, reject, pure, modify, ask, ◌>>=◌, ◌>>◌}

-- `build_payload`
unfoldable pub build_payload : Room → ℕ → Details → Fields
unfolding normalise_details
build_payload room slot_start details =
    ("action", Value.text "advance_booking")
    ∷ ("room_id", Value.num room.id)
    ∷ ("room_number", Value.text room.number)
    ∷ ("slot", Value.slot slot_start)
    ∷ details_fields (normalise_details details)

-- The fields with which a page that was rendered before the hour began gets its "Use now" offer.
abbrev pub stale_fields : Room → ℕ → ℕ → Fields
stale_fields room slot_start now =
    ("slot", Value.slot slot_start)
    ∷ ("room_id", Value.num room.id)
    ∷ ("remaining_minutes", Value.num (remaining_minutes now (slot_end_for slot_start)))
    ∷ []

abbrev pub horizon_fields : ℕ → Fields
horizon_fields days = ("horizon_days", Value.num days) ∷ []

-- The horizon is always enforced by the modelled callers.
unfoldable pub validate_advance_target : Option User → Room → ℕ → ℕ → Action (Unit {0})
validate_advance_target user room slot_start now = do
  reject_if (λ _. not (is_hour_aligned slot_start)) Code.invalid_slot []
  reject_if (λ _. leb slot_start now && ltb now (slot_end_for slot_start)) Code.stale_hour
      (stale_fields room slot_start now)
  reject_if (λ _. leb slot_start now) Code.slot_elapsed []
  policy ← current_policy
  reject_if (λ _. not (is_within_horizon now slot_start (horizon_days policy))) Code.outside_horizon
      (horizon_fields (horizon_days policy))
  assert_may_reserve_room user room now
  assert_slot_open slot_start room
  u ← acting_user user
  assert_quota_and_adjacency u.id slot_start (some room.id) now

-- A request for a room that needs approval waits, unless staff made it (D-41).
abbrev pub self_approves : Room → User → Bool
self_approves room u = room.requires_approval && is_booking_staff u

abbrev pub created_status : Room → User → Status
created_status room u =
    if room.requires_approval && not (self_approves room u)
    then Status.pending_approval
    else Status.scheduled

-- `_created_kind`
abbrev pub created_kind : Status → String
created_kind Status.pending_approval = "booking_pending"
created_kind _ = "booking_confirmation"

unfoldable pub advance_row : Context → User → Room → ℕ → PolicyVersion → Db → Booking
advance_row ctx u room slot_start policy db =
    record (blank_booking db.next_booking db.wall u.id room.id slot_start (created_status room u)
      Source.advance) {
        deadline = some (advance_deadline slot_start (checkin_grace_minutes policy));
        approved_at = if self_approves room u then some ctx.now else none;
        approved_by = if self_approves room u then some u.id else none;
        is_staff_booking = is_booking_staff u;
        policy_version = some policy.version;
        title = payload_text "title" ctx.payload;
        purpose = payload_text "purpose" ctx.payload;
        participant_names = payload_text "participant_names" ctx.payload;
      }

abbrev pub text_fields : Booking → Fields
text_fields b =
    ("title", Value.text b.title)
    ∷ ("purpose", Value.text b.purpose)
    ∷ ("participant_names", Value.text b.participant_names)
    ∷ []

unfoldable pub created_changes : Booking → Room → ℕ → ℕ → Fields
created_changes b room deadline version =
    ("room", Value.text room.number)
    ∷ ("slot_start", Value.iso b.slot_start)
    ∷ ("slot_end", Value.iso b.slot_end)
    ∷ ("deadline", Value.iso deadline)
    ∷ ("source", Value.source b.source)
    ∷ ("status", Value.status b.status)
    ∷ ("policy_version", Value.num version)
    ∷ text_fields b

unfoldable pub created_payload : Booking → Room → ℕ → ℕ → Fields
created_payload b room deadline grace =
    ("booking_id", Value.num b.id)
    ∷ ("room_number", Value.text room.number)
    ∷ ("room_label", Value.text room.label)
    ∷ ("slot_start", Value.iso b.slot_start)
    ∷ ("slot_end", Value.iso b.slot_end)
    ∷ ("slot_start_local", Value.local_text b.slot_start)
    ∷ ("deadline_local", Value.local_text deadline)
    ∷ ("source", Value.source b.source)
    ∷ ("grace_minutes", Value.num grace)
    ∷ ("title", Value.text b.title)
    ∷ ("purpose", Value.text b.purpose)
    ∷ ("participant_names", Value.text b.participant_names)
    ∷ ("status", Value.status b.status)
    ∷ []

-- The audit event and the message of a new reservation.
unfoldable pub announce_created : Booking → User → Room → ℕ → PolicyVersion → Db → Db
announce_created b u room deadline policy db =
    enqueue (created_kind b.status) (some u)
      (record { name = created_kind b.status; id = b.id; generation = Generation.only })
      (created_payload b room deadline (checkin_grace_minutes policy))
      (record_audit "booking.created" "Booking" b.id (some u) ""
        (created_changes b room deadline policy.version) "" db)

-- The writes, once every check has passed.
unfoldable pub write_advance : Context → User → Room → ℕ → PolicyVersion → Body
write_advance ctx u room slot_start policy db =
    let b : Booking = advance_row ctx u room slot_start policy db in
    let deadline : ℕ = advance_deadline slot_start (checkin_grace_minutes policy) in
    (
      Result.ok (
          ("booking_id", Value.num b.id)
          ∷ ("room_id", Value.num room.id)
          ∷ ("slot", Value.slot slot_start)
          ∷ ("status", Value.status b.status)
          ∷ ("deadline", Value.iso deadline)
          ∷ []),
      announce_created b u room deadline policy (insert_booking b db),
    )

unfoldable pub create_advance_booking : Context → Room → ℕ → Body
create_advance_booking ctx room slot_start = do
  validate_advance_target ctx.actor room slot_start ctx.now
  reject_if (is_taken room.id slot_start) Code.slot_taken []
  policy ← current_policy
  u ← acting_user ctx.actor
  write_advance ctx u room slot_start policy
