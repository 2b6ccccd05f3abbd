-- ===== src/Slots.antt =====
-- core/services/slots.py and the local views of core/services/clock.py.
--
-- An instant is the count of microseconds since 0001-01-01 00:00 UTC, and a local date the count of
-- days since 0001-01-01, which is a Monday. Asia/Bangkok is UTC+7 without daylight saving, as the
-- code itself relies on.
pub mod Laws
use room_reserve.Prelude.{
  ℕ, zero, suc, ◌+◌, ◌-◌, ◌*◌, ◌/◌, ◌%◌, Bool, Option, none, some, List, [], ◌∷◌, map, leb, ◌==◌,
  if◌then◌else◌,
}
use room_reserve.Settings.{minute, hour, day, opening_slot_start_hour, last_slot_start_hour}

abbrev pub bangkok_offset : ℕ
bangkok_offset = 7 * hour

-- `moment.astimezone(BANGKOK)`, as the wall clock's microseconds
abbrev pub local_time : ℕ → ℕ
local_time moment = moment + bangkok_offset

unfoldable pub local_date : ℕ → ℕ
local_date moment = local_time moment / day

-- `local_time(moment).hour`
unfoldable pub local_hour : ℕ → ℕ
local_hour moment = (local_time moment % day) / hour

-- `local_date.weekday()`
unfoldable pub weekday : ℕ → ℕ
weekday date = date % 7

-- Before 0001-01-01 07:00 local time there is no UTC instant; Python raises there.
unfoldable pub slot_start_for : ℕ → ℕ → ℕ
slot_start_for date h = (date * day + h * hour) - bangkok_offset

unfoldable pub slot_end_for : ℕ → ℕ
slot_end_for slot_start = slot_start + hour

unfoldable pub is_hour_aligned : ℕ → Bool
is_hour_aligned moment = local_time moment % hour == 0

unfoldable pub floor_to_slot : ℕ → ℕ
floor_to_slot moment = (local_time moment - local_time moment % hour) - bangkok_offset

unfoldable pub range : ℕ → ℕ → List ℕ
range first zero = []
range first (suc n) = first ∷ range (first + 1) n

-- `close_hour` is exclusive; the range is empty unless it is above `open_hour`.
unfoldable pub day_slot_starts : ℕ → ℕ → ℕ → List ℕ
unfolding range
day_slot_starts date open_hour close_hour =
    map (slot_start_for date) (range open_hour (close_hour - open_hour))

unfoldable pub default_opening_hours : ℕ → Option (ℕ × ℕ)
unfolding weekday
default_opening_hours date =
    if leb 5 (weekday date) then none else some (opening_slot_start_hour, last_slot_start_hour + 1)

unfoldable pub dates_within_horizon : ℕ → ℕ → List ℕ
unfolding range
dates_within_horizon now horizon_days = range (local_date now) (horizon_days + 1)

unfoldable pub is_within_horizon : ℕ → ℕ → ℕ → Bool
is_within_horizon now slot_start horizon_days =
    leb (local_date slot_start) (local_date now + horizon_days)

-- The truncated difference is the `max(0, …)` of the source.
unfoldable pub remaining_minutes : ℕ → ℕ → ℕ
remaining_minutes now slot_end = (slot_end - now) / minute
