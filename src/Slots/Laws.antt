-- ===== src/Slots/Laws.antt =====
-- The geometry of the hourly slots.
use room_reserve.Prelude.{ℕ, ◌+◌, ◌%◌, ◌≤◌, ◌<◌, ◌≡◌, true, arith}
use room_reserve.Settings.{hour}
use room_reserve.Slots.{
  local_date, local_hour, slot_start_for, slot_end_for, is_hour_aligned, floor_to_slot,
  bangkok_offset,
}

-- The slot of an instant starts on the hour and contains the instant, and the start of the slot
-- that contains the start of a slot is that start itself.
pub floor_to_slot_lem :
    (moment : ℕ)
    → (is_hour_aligned (floor_to_slot moment) ≡ true)
      × (floor_to_slot moment ≤ moment)
      × (moment < slot_end_for (floor_to_slot moment))
      × (floor_to_slot (floor_to_slot moment) ≡ floor_to_slot moment)
unfolding is_hour_aligned floor_to_slot slot_end_for
floor_to_slot_lem moment = (ground arith, omega arith, omega arith, omega arith)

-- A Bangkok date after the first one and an hour below 24 name one instant: it is on the hour, and
-- its local date and hour are the ones that named it.
pub slot_start_for_lem :
    (date h : ℕ)
    → 0 < date
    → h < 24
    → (local_date (slot_start_for date h) ≡ date)
      × (local_hour (slot_start_for date h) ≡ h)
      × (is_hour_aligned (slot_start_for date h) ≡ true)
unfolding local_date local_hour slot_start_for is_hour_aligned
slot_start_for_lem date h p q = (omega arith, omega arith, ground arith)

-- An aligned instant is the start that its own local date and hour name.
pub slot_start_for-local :
    (moment : ℕ)
    → is_hour_aligned moment ≡ true
    → slot_start_for (local_date moment) (local_hour moment) ≡ moment
unfolding local_date local_hour slot_start_for is_hour_aligned
slot_start_for-local moment h =
    let e : (moment + bangkok_offset) % hour ≡ 0 = ground arith in omega arith

-- An instant on the hour of Bangkok time is on the hour of UTC, as the database constraint has it.
pub aligned_utc : (moment : ℕ) → is_hour_aligned moment ≡ true → moment % hour ≡ 0
unfolding is_hour_aligned
aligned_utc moment h = let e : (moment + bangkok_offset) % hour ≡ 0 = ground arith in omega arith
