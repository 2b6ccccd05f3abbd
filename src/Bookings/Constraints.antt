-- ===== src/Bookings/Constraints.antt =====
-- What holds of the booking table between operations: every constraint that the model declares, and
-- what the services rely on besides.
use room_reserve.Prelude.{
  ℕ, ◌≤◌, ◌<◌, ◌≡◌, true, not, ◌&&◌, ◌||◌, List, count, All, ltb, leb, ◌==◌, null_or,
}
use room_reserve.Models.Booking.{
  Booking, is_advance, slot_length_one_hour, starts_on_hour, deadline_matches_source,
  checkin_within_slot, cancellation_requires_metadata, cancel_reason_requires_cancellation,
  claims_room, claims_user,
}
use room_reserve.Models.Db.{Db}
use room_reserve.Slots.{local_date}
use room_reserve.Bookings.{is_open_status}

-- The check constraints of one row, with the start on the hour to the microsecond, the stored date, the deadline inside the slot, and no
-- walk-in waiting for approval or for its hour, which is more than the constraint says.
pub record IsRow (b : Booking) : Type 0 where
  pub length : slot_length_one_hour b ≡ true
  pub aligned : starts_on_hour b ≡ true
  pub dated : b.slot_date ≡ local_date b.slot_start
  pub walk_in : (is_advance b.source || not (is_open_status b.status)) ≡ true
  pub deadline : deadline_matches_source b ≡ true
  pub within : null_or (λ d. ltb b.slot_start d && leb d b.slot_end) b.deadline ≡ true
  pub checkin : checkin_within_slot b ≡ true
  pub cancellation : cancellation_requires_metadata b ≡ true
  pub reason : cancel_reason_requires_cancellation b ≡ true

-- The table: valid rows under distinct keys that are below the next key, at most one row that claims
-- a room's hour, and at most one, staff holds aside, that claims a user's hour.
pub record IsTable (next : ℕ) (rows : List Booking) : Type 0 where
  pub valid : All IsRow rows
  pub fresh : All (λ b. b.id < next) rows
  pub keys : (i : ℕ) → count (λ b. b.id == i) rows ≤ 1
  pub room_slot_unique : (room start : ℕ) → count (claims_room room start) rows ≤ 1
  pub user_slot_unique : (user start : ℕ) → count (claims_user user start) rows ≤ 1

abbrev pub IsConsistent : Db → Type 0
IsConsistent db = IsTable db.next_booking db.bookings
