-- ===== src/Approval.antt =====
-- core/services/booking.py: the decision on a request for a room that needs approval.
pub mod Table
use room_reserve.Prelude.{
  ℕ, Bool, true, false, not, Option, none, some, String, List, [], ◌∷◌, ◌++◌, if◌then◌else◌,
}
use room_reserve.Prelude.Text.{same_text, strip, take_text, is_blank}
use room_reserve.Errors.{Code}
use room_reserve.Models.Booking.{Booking, Status, is_pending}
use room_reserve.Models.Account.{User}
use room_reserve.Models.Room.{Room}
use room_reserve.Models.Policy.{PolicyVersion, checkin_grace_minutes}
use room_reserve.Models.Operations.{Value, Fields, DedupeKey, Generation, optional}
use room_reserve.Models.Db.{Db}
use room_reserve.Audit.{record_audit, actor_pk}
use room_reserve.Outbox.{enqueue}
use room_reserve.Policy.{current_policy}
use room_reserve.Bookings.{
  Context, Body, reload_for_update, user_of, room_of, save_booking, booking_details, details_fields,
  place_fields, booking_id_fields,
}
use room_reserve.Action.{Action, Result, reject_if, reject, pure, modify, ask, ◌>>=◌, ◌>>◌}

-- `(note or "").strip()[:1000]`
unfoldable pub bounded_note : String → String
bounded_note note = take_text 1000 (strip note)

unfoldable pub approved : Context → String → Booking → Booking
approved ctx note b = record b {
  status = Status.scheduled;
  approved_at = some ctx.now;
  approved_by = actor_pk ctx.actor;
  approval_note = note;
}

unfoldable pub approved_payload : Booking → Room → PolicyVersion → Fields
approved_payload b room policy =
    place_fields b room
    ++ (("slot_start_local", Value.local_text b.slot_start)
        ∷ ("deadline_local", optional Value.local_text b.deadline)
        ∷ ("source", Value.source b.source)
        ∷ ("grace_minutes", Value.num (checkin_grace_minutes policy))
        ∷ [])
    ++ details_fields (booking_details b)

unfoldable pub announce_approved :
    Context → Booking → String → User → Room → PolicyVersion → Db → Db
announce_approved ctx b note owner room policy db =
    enqueue "booking_confirmation" (some owner)
      (record {
        name = "booking_confirmation";
        id = b.id;
        generation = Generation.approved ctx.now;
      })
      (approved_payload b room policy)
      (record_audit "booking.approved" "Booking" b.id ctx.actor ""
        (("status", Value.status b.status) ∷ ("approved_at", Value.iso ctx.now) ∷ []) note db)

abbrev pub decided_result : Booking → Fields
decided_result b = ("booking_id", Value.num b.id) ∷ ("status", Value.status b.status) ∷ []

unfoldable pub approve : Context → Booking → String → Body
approve ctx b note = do
  modify (save_booking b.id (approved ctx note))
  owner ← user_of b
  room ← room_of b
  policy ← current_policy
  modify (announce_approved ctx (approved ctx note b) note owner room policy)
  pure (decided_result (approved ctx note b))

-- `note or "The room administrator did not approve this request."`
abbrev pub rejection_note : String → String
rejection_note note =
    if is_blank note then "The room administrator did not approve this request." else note

unfoldable pub refused : String → Booking → Booking
refused note b = record b { status = Status.rejected; approval_note = rejection_note note }

unfoldable pub announce_refused : Context → Booking → User → Room → Db → Db
announce_refused ctx b owner room db =
    enqueue "booking_rejected" (some owner)
      (record { name = "booking_rejected"; id = b.id; generation = Generation.only })
      (place_fields b room
        ++ (("slot_start_local", Value.local_text b.slot_start)
            ∷ ("reason", Value.text b.approval_note)
            ∷ []))
      (record_audit "booking.rejected" "Booking" b.id ctx.actor ""
        (("status", Value.status b.status) ∷ []) b.approval_note db)

unfoldable pub turn_down : Context → Booking → String → Body
turn_down ctx b note = do
  modify (save_booking b.id (refused note))
  owner ← user_of b
  room ← room_of b
  modify (announce_refused ctx (refused note b) owner room)
  pure (decided_result (refused note b))

-- Any text but the two decisions is refused as invalid input.
unfoldable pub decide_approval : Context → ℕ → String → String → Body
decide_approval ctx id decision note = do
  b ← reload_for_update id
  reject_if (λ _. not (is_pending b.status)) Code.terminal_status (booking_id_fields b)
  (if same_text decision "APPROVED"
      then approve ctx b (bounded_note note)
      else if same_text decision "REJECTED"
      then turn_down ctx b (bounded_note note)
      else reject Code.invalid_input [])
