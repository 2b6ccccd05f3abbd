-- ===== src/Change.antt =====
-- core/services/booking.py: editing the details of a reservation, and moving it to another room.
pub mod Table
use room_reserve.Prelude.{
  ℕ, suc, ◌+◌, Bool, true, false, not, ◌&&◌, ◌||◌, Option, none, some, String, List, [], ◌∷◌, ◌++◌,
  any, leb, ◌==◌, is_some, if◌then◌else◌,
}
use room_reserve.Prelude.Text.{same_text}
use room_reserve.Errors.{Code}
use room_reserve.Models.Booking.{Booking, Status, claims_room, is_pending}
use room_reserve.Models.Account.{User}
use room_reserve.Models.Room.{Room}
use room_reserve.Models.Operations.{Value, Fields, DedupeKey, Generation, optional}
use room_reserve.Models.Db.{Db}
use room_reserve.Audit.{record_audit}
use room_reserve.Outbox.{enqueue}
use room_reserve.Calendar.{assert_slot_open}
use room_reserve.Eligibility.{is_booking_staff, assert_may_reserve_room}
use room_reserve.Quota.{no_show_reclaim}
use room_reserve.Bookings.{
  Context, Body, Details, reload_for_update, user_of, room_of, acting_user, owns, save_booking,
  is_open_status, normalise_details, booking_details, details_fields, place_fields,
  booking_id_fields,
}
use room_reserve.Action.{Action, Result, reject_if, pure, modify, ask, ◌>>=◌, ◌>>◌}

abbrev pub same_details : Details → Details → Bool
same_details a b =
    same_text a.title b.title
    && (same_text a.purpose b.purpose && same_text a.participant_names b.participant_names)

-- A reservation may be changed while it waits or is scheduled, before its hour begins.
abbrev pub is_changeable : ℕ → Booking → Bool
is_changeable now b = is_open_status b.status && not (leb b.slot_start now)

unfoldable pub edited : Details → Booking → Booking
edited d b = record b {
  title = d.title;
  purpose = d.purpose;
  participant_names = d.participant_names;
  details_version = b.details_version + 1;
}

-- `deadline_local` of a booking whose deadline is not null
unfoldable pub changed_payload : Booking → Room → Fields
changed_payload b room =
    place_fields b room
    ++ (("slot_start_local", Value.local_text b.slot_start)
        ∷ ("deadline_local", optional Value.local_text b.deadline)
        ∷ [])
    ++ details_fields (booking_details b)
    ++ (("details_version", Value.num b.details_version) ∷ [])

unfoldable pub announce_edited : Context → Booking → Booking → User → Room → Db → Db
announce_edited ctx before b owner room db =
    enqueue "booking_changed" (some owner)
      (record {
        name = "booking_changed";
        id = b.id;
        generation = Generation.version b.details_version;
      })
      (changed_payload b room)
      (record_audit "booking.updated" "Booking" b.id ctx.actor ""
        (("before", Value.texts (texts (booking_details before)))
          ∷ ("after", Value.texts (texts (booking_details b)))
          ∷ ("details_version", Value.num b.details_version)
          ∷ [])
        "" db)
  where
    texts : Details → List (String × String)
    texts d =
        ("title", d.title)
        ∷ ("purpose", d.purpose)
        ∷ ("participant_names", d.participant_names)
        ∷ []

unfoldable pub update_booking_details : Context → ℕ → Details → Body
update_booking_details ctx id details = do
  b ← reload_for_update id
  reject_if (λ _. not (owns ctx.actor b)) Code.not_owner []
  reject_if (λ _. not (is_changeable ctx.now b)) Code.terminal_status (booking_id_fields b)
  reject_if (λ _. same_details (booking_details b) (normalise_details details)) Code.invalid_input
      []
  owner ← user_of b
  room ← room_of b
  modify (save_booking id (edited (normalise_details details)))
  modify (announce_edited ctx b (edited (normalise_details details) b) owner room)
  pure
      (("booking_id", Value.num b.id) ∷ ("details_version", Value.num (b.details_version + 1)) ∷ [])

-- `build_update_payload` and `build_move_payload`
unfoldable pub build_update_payload : Booking → Details → Fields
build_update_payload b details =
    ("action", Value.text "update_booking_details")
    ∷ ("booking_id", Value.num b.id)
    ∷ details_fields (normalise_details details)

unfoldable pub build_move_payload : Booking → Room → Fields
build_move_payload b room =
    ("action", Value.text "move_booking")
    ∷ ("booking_id", Value.num b.id)
    ∷ ("room_id", Value.num room.id)
    ∷ []

-- Another booking that holds the target hour (`.exclude(pk=booking.pk)`).
unfoldable pub is_taken_by_other : ℕ → ℕ → ℕ → Db → Bool
is_taken_by_other room slot_start id db =
    any (λ b. claims_room room slot_start b && not (b.id == id)) db.bookings

-- Staff approve their own move into an approval room; anyone else's waits again.
abbrev pub waits_again : Room → User → Bool
waits_again room u = room.requires_approval && not (is_booking_staff u)

-- The columns that a move writes.
unfoldable pub moved : ℕ → User → Room → Booking → Booking
moved now u room b = record b {
  room = room.id;
  status = if waits_again room u then Status.pending_approval else Status.scheduled;
  details_version = b.details_version + 1;
  approved_at =
      if waits_again room u
      then none
      else (if room.requires_approval then some now else b.approved_at);
  approved_by =
      if waits_again room u
      then none
      else (if room.requires_approval then some u.id else b.approved_by);
}

abbrev pub moved_kind : Status → String
moved_kind Status.pending_approval = "booking_pending"
moved_kind _ = "booking_changed"

unfoldable pub moved_payload : Booking → Room → Room → Fields
moved_payload b room previous =
    ("booking_id", Value.num b.id)
    ∷ ("room_number", Value.text room.number)
    ∷ ("room_label", Value.text room.label)
    ∷ ("previous_room_number", Value.text previous.number)
    ∷ ("previous_room_label", Value.text previous.label)
    ∷ ("slot_start", Value.iso b.slot_start)
    ∷ ("slot_end", Value.iso b.slot_end)
    ∷ ("slot_start_local", Value.local_text b.slot_start)
    ∷ ("deadline_local", optional Value.local_text b.deadline)
    ∷ ("title", Value.text b.title)
    ∷ ("purpose", Value.text b.purpose)
    ∷ ("participant_names", Value.text b.participant_names)
    ∷ ("details_version", Value.num b.details_version)
    ∷ ("status", Value.status b.status)
    ∷ []

unfoldable pub announce_moved : Booking → User → User → Room → Room → Db → Db
announce_moved b u owner room previous db =
    enqueue (moved_kind b.status) (some owner)
      (record {
        name = moved_kind b.status;
        id = b.id;
        generation = Generation.version b.details_version;
      })
      (moved_payload b room previous)
      (record_audit "booking.moved" "Booking" b.id (some u) ""
        (("from_room", Value.text previous.number)
          ∷ ("to_room", Value.text room.number)
          ∷ ("slot_start", Value.iso b.slot_start)
          ∷ ("status", Value.status b.status)
          ∷ ("details_version", Value.num b.details_version)
          ∷ [])
        "" db)

unfoldable pub moved_result : Booking → Room → Room → Fields
moved_result b room previous =
    ("booking_id", Value.num b.id)
    ∷ ("room_id", Value.num room.id)
    ∷ ("previous_room_id", Value.num previous.id)
    ∷ ("status", Value.status b.status)
    ∷ ("details_version", Value.num b.details_version)
    ∷ []

-- The writes of a move, once every check has passed.
unfoldable pub write_move : Context → Booking → User → User → Room → Room → Body
write_move ctx b u owner room previous db = (
  Result.ok (moved_result (moved ctx.now u room b) room previous),
  announce_moved (moved ctx.now u room b) u owner room previous
      (save_booking b.id (moved ctx.now u room) db),
)

unfoldable pub move_booking : Context → ℕ → Room → Body
move_booking ctx id room = do
  b ← reload_for_update id
  reject_if (λ _. not (owns ctx.actor b)) Code.not_owner []
  reject_if (λ _. not (is_changeable ctx.now b)) Code.terminal_status (booking_id_fields b)
  reject_if (λ _. is_some b.recurrence) Code.recurring_occurrence (booking_id_fields b)
  previous ← room_of b
  reject_if (λ _. previous.id == room.id) Code.same_room (booking_id_fields b)
  assert_may_reserve_room ctx.actor room ctx.now
  assert_slot_open b.slot_start room
  u ← acting_user ctx.actor
  reject_if (no_show_reclaim u.id room.id b.slot_start) Code.no_show_reclaim []
  reject_if (is_taken_by_other room.id b.slot_start b.id) Code.slot_taken []
  owner ← user_of b
  write_move ctx b u owner room previous
