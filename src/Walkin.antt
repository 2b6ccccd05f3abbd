-- ===== src/Walkin.antt =====
-- core/services/walkin.py: taking a free room for the rest of the current hour.
pub mod Table
use room_reserve.Prelude.{
  ℕ, Bool, true, false, not, ◌&&◌, ◌||◌, Option, none, some, String, List, [], ◌∷◌, first, ltb,
  ◌==◌, holds, if◌then◌else◌,
}
use room_reserve.Errors.{Code}
use room_reserve.Models.Booking.{Booking, Status, Source, claims_room, is_scheduled, is_no_show}
use room_reserve.Models.Account.{User}
use room_reserve.Models.Room.{Room}
use room_reserve.Models.Policy.{PolicyVersion}
use room_reserve.Models.Operations.{Value, Fields, DedupeKey, Generation, optional}
use room_reserve.Models.Db.{Db}
use room_reserve.Slots.{floor_to_slot, slot_end_for, remaining_minutes}
use room_reserve.Audit.{record_audit}
use room_reserve.Outbox.{enqueue}
use room_reserve.Policy.{current_policy}
use room_reserve.Calendar.{assert_slot_open}
use room_reserve.Eligibility.{assert_may_use_room}
use room_reserve.Quota.{assert_quota_and_adjacency}
use room_reserve.Bookings.{Context, Body, acting_user, insert_booking, blank_booking}
use room_reserve.Action.{
  Action, Failure, Result, rejection, reject_if, pure, modify, ask, ◌>>=◌, ◌>>◌,
}

abbrev pub short_warning_minutes : ℕ
short_warning_minutes = 5

-- `build_payload`
unfoldable pub build_payload : Room → ℕ → Fields
build_payload room slot_start =
    ("action", Value.text "use_now")
    ∷ ("room_id", Value.num room.id)
    ∷ ("room_number", Value.text room.number)
    ∷ ("slot", Value.slot slot_start)
    ∷ []

-- Why the hour is not free: a reservation inside its grace holds it, or it is simply taken.
abbrev pub blocker_code : ℕ → Booking → Code
blocker_code now b =
    if is_scheduled b.status && holds (λ d. ltb now d) b.deadline
    then Code.reservation_held
    else Code.slot_taken

-- `room_availability_for_now`: the refusal and the booking that causes it
unfoldable pub room_availability_for_now : ℕ → ℕ → ℕ → Db → Option (Code × Booking)
room_availability_for_now room slot_start now db =
    elim (first (claims_room room slot_start) db.bookings) [
      | none ↦ none
      | some b ↦ some (blocker_code now b, b)
    ]

unfoldable pub assert_available : ℕ → ℕ → ℕ → Action (Unit {0})
assert_available room slot_start now db = elim (room_availability_for_now room slot_start now db) [
  | none ↦ (Result.ok tt, db)
  | some (code, b) ↦ (
    Result.err (
        Failure.rejected
          (rejection code (("room_id", Value.num room) ∷ ("booking_id", Value.num b.id) ∷ []))),
    db,
  )
]

abbrev pub released : ℕ → ℕ → ℕ → Booking → Bool
released user room slot_start b =
    b.room == room && (b.slot_start == slot_start && (is_no_show b.status && not (b.user == user)))

abbrev pub row_id : Option Booking → Option ℕ
row_id none = none
row_id (some b) = some b.id

-- The forfeited booking whose remaining time this walk-in takes.
unfoldable pub released_from : ℕ → ℕ → ℕ → Db → Option ℕ
released_from user room slot_start db = row_id (first (released user room slot_start) db.bookings)

unfoldable pub walk_in_row : Context → User → Room → ℕ → Option ℕ → PolicyVersion → Db → Booking
walk_in_row ctx u room slot_start from policy db =
    record (blank_booking db.next_booking db.wall u.id room.id slot_start Status.in_use
      Source.walk_in) {
        checked_in_at = some ctx.now;
        checked_in_by = some u.id;
        original_no_show = from;
        policy_version = some policy.version;
      }

unfoldable pub announce_walk_in : Booking → User → Room → ℕ → Option ℕ → PolicyVersion → Db → Db
announce_walk_in b u room remaining from policy db =
    enqueue "booking_confirmation" (some u)
      (record { name = "booking_confirmation"; id = b.id; generation = Generation.only })
      (("booking_id", Value.num b.id)
        ∷ ("room_number", Value.text room.number)
        ∷ ("room_label", Value.text room.label)
        ∷ ("slot_start", Value.iso b.slot_start)
        ∷ ("slot_end", Value.iso b.slot_end)
        ∷ ("slot_start_local", Value.local_text b.slot_start)
        ∷ ("source", Value.source b.source)
        ∷ ("remaining_minutes", Value.num remaining)
        ∷ [])
      (record_audit "booking.walk_in" "Booking" b.id (some u) ""
        (("room", Value.text room.number)
          ∷ ("slot_start", Value.iso b.slot_start)
          ∷ ("slot_end", Value.iso b.slot_end)
          ∷ ("remaining_minutes", Value.num remaining)
          ∷ ("released_from_booking", optional Value.num from)
          ∷ ("policy_version", Value.num policy.version)
          ∷ [])
        "Current-slot use-now confirmation." db)

unfoldable pub write_walk_in : Context → User → Room → ℕ → Option ℕ → PolicyVersion → Body
write_walk_in ctx u room slot_start from policy db =
    let b : Booking = walk_in_row ctx u room slot_start from policy db in
    let remaining : ℕ = remaining_minutes ctx.now (slot_end_for slot_start) in
    (
      Result.ok (
          ("booking_id", Value.num b.id)
          ∷ ("room_id", Value.num room.id)
          ∷ ("status", Value.status b.status)
          ∷ ("slot", Value.slot slot_start)
          ∷ ("slot_end", Value.iso (slot_end_for slot_start))
          ∷ ("remaining_minutes", Value.num remaining)
          ∷ ("short_warning", Value.bool (ltb remaining short_warning_minutes))
          ∷ []),
      announce_walk_in b u room remaining from policy (insert_booking b db),
    )

unfoldable pub use_now : Context → Room → Body
use_now ctx room = do
  assert_may_use_room ctx.actor room ctx.now
  reject_if (λ _. room.requires_approval) Code.approval_room_no_walk_in
      (("room_id", Value.num room.id) ∷ [])
  reject_if (λ _. room.members_only) Code.members_room_no_walk_in
      (("room_id", Value.num room.id) ∷ [])
  assert_slot_open (floor_to_slot ctx.now) room
  assert_available room.id (floor_to_slot ctx.now) ctx.now
  u ← acting_user ctx.actor
  assert_quota_and_adjacency u.id (floor_to_slot ctx.now) (some room.id) ctx.now
  from ← ask (released_from u.id room.id (floor_to_slot ctx.now))
  policy ← current_policy
  write_walk_in ctx u room (floor_to_slot ctx.now) from policy
