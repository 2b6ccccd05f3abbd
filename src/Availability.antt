-- ===== src/Availability.antt =====
-- core/services/availability.py: the cells of the public grid. The cells are derived from the rows and
-- nothing is written.
pub mod Bookable
pub mod Current
use room_reserve.Prelude.{
  ℕ, ◌+◌, ◌*◌, Bool, true, false, not, ◌&&◌, ◌||◌, Option, none, some, String, List, [], ◌∷◌, map,
  filter, first, ltb, leb, ◌==◌, null_or, holds, is_none, if◌then◌else◌,
}
use room_reserve.Prelude.Text.{same_text}
use room_reserve.Settings.{hour, opening_slot_start_hour, last_slot_start_hour}
use room_reserve.Models.Booking.{Booking, Status, is_blocking, is_pending, is_completed, is_in_use}
use room_reserve.Models.Account.{User}
use room_reserve.Models.Room.{Room, Closure, WeeklyBlock}
use room_reserve.Models.Db.{Db}
use room_reserve.Slots.{
  local_date, local_hour, weekday, slot_start_for, slot_end_for, day_slot_starts, floor_to_slot,
  remaining_minutes,
}
use room_reserve.Calendar.{day_hours}
use room_reserve.Eligibility.{category_for_user, is_member_room, may_be_reserved_by}

pub data SlotState : Type 0 where
  past closed in_use held completed free_now bookable restricted view_only taken outside_horizon :
      SlotState

pub record SlotCell : Type 0 where
  pub room : Room
  pub slot_start : ℕ
  pub slot_end : ℕ
  pub state : SlotState
  pub booking : Option Booking
  pub is_mine : Bool
  pub remaining : ℕ
  pub closed_reason : String
  pub block_reason : String

-- `can_reserve`
abbrev pub is_bookable_state : SlotState → Bool
is_bookable_state SlotState.bookable = true
is_bookable_state _ = false

abbrev pub is_free_now : SlotState → Bool
is_free_now SlotState.free_now = true
is_free_now _ = false

unfoldable pub can_use_now : SlotCell → Bool
can_use_now c = is_free_now c.state && (not c.room.requires_approval && not c.room.members_only)

-- The last row that passes: a later row takes the place of an earlier one in a dictionary.
abbrev pub last_where : (Booking → Bool) → List Booking → Option Booking
last_where p [] = none
last_where p (x ∷ xs) = elim (last_where p xs) [
  | some y ↦ some y
  | none ↦ if p x then some x else none
]

-- `_bookings_by_slot(local_date, [room]).get((room, slot_start))`
abbrev pub fills : ℕ → ℕ → ℕ → Booking → Bool
fills date room slot_start b =
    (b.slot_date == date && is_blocking b.status) && (b.room == room && b.slot_start == slot_start)

unfoldable pub booking_at : ℕ → ℕ → ℕ → Db → Option Booking
booking_at date room slot_start db = last_where (fills date room slot_start) db.bookings

-- `_closures_for`, before it is grouped by room
abbrev pub meets_day : ℕ → Closure → Bool
meets_day date c =
    is_none c.revoked_at
    && (ltb c.starts_at (slot_start_for date 0 + 24 * hour)
        && ltb (slot_start_for date 0) c.ends_at)

unfoldable pub closures_for : ℕ → Db → List Closure
closures_for date db = filter (meets_day date) db.closures

abbrev pub overlaps : ℕ → ℕ → Closure → Bool
overlaps slot_start slot_end c = ltb c.starts_at slot_end && ltb slot_start c.ends_at

-- `_closure_reason_for`: the closures of every room come before those of this one.
unfoldable pub closure_reason_for : ℕ → ℕ → ℕ → List Closure → String
closure_reason_for room slot_start slot_end cs =
    elim (first (λ c. is_none c.room && overlaps slot_start slot_end c) cs) [
      | some c ↦ c.reason
      | none ↦
          elim (first (λ c. holds (λ r. r == room) c.room && overlaps slot_start slot_end c) cs) [
            | some c ↦ c.reason
            | none ↦ ""
          ]
    ]

-- `weekly_blocks_for_date(local_date, [room])`, the blocks of the room
abbrev pub applies_on : ℕ → ℕ → WeeklyBlock → Bool
applies_on date room w =
    w.room == room
    && (w.weekday == weekday date
        && (null_or (λ d. leb d date) w.valid_from && null_or (λ d. leb date d) w.valid_until))

unfoldable pub weekly_blocks_for_date : ℕ → ℕ → Db → List WeeklyBlock
weekly_blocks_for_date date room db = filter (applies_on date room) db.weekly_blocks

abbrev pub holds_hour : ℕ → WeeklyBlock → Bool
holds_hour h w = leb w.start_hour h && ltb h w.end_hour

-- `_block_reason_for`
unfoldable pub block_reason_for : ℕ → List WeeklyBlock → String
block_reason_for slot_start ws = elim (first (holds_hour (local_hour slot_start)) ws) [
  | some w ↦ w.reason
  | none ↦ ""
]

-- The branches of `_classify` for a slot that somebody holds, and for one that is free.
unfoldable pub classify_booked : ℕ → ℕ → Booking → SlotState
classify_booked now slot_start b =
    if is_pending b.status
    then SlotState.held
    else if is_completed b.status
    then SlotState.completed
    else if is_in_use b.status
    then SlotState.in_use
    else if holds (λ d. leb slot_start now && ltb now d) b.deadline
    then SlotState.held
    else SlotState.taken

unfoldable pub classify_free : ℕ → ℕ → String → ℕ → Bool → Bool → SlotState
classify_free now slot_start block horizon_last can_reserve_here availability_only =
    if not (same_text block "")
    then SlotState.closed
    else if availability_only
    then SlotState.view_only
    else if leb slot_start now
    then SlotState.free_now
    else if leb (local_date slot_start) horizon_last
    then (if can_reserve_here then SlotState.bookable else SlotState.restricted)
    else SlotState.outside_horizon

unfoldable pub classify :
    ℕ → ℕ → ℕ → Bool → Bool → String → Option Booking → ℕ → String → Bool → Bool → SlotState
classify now slot_start slot_end active day_closed closure booking horizon_last block
      can_reserve_here availability_only =
    if leb slot_end now
    then SlotState.past
    else if not active || (day_closed || not (same_text closure ""))
    then SlotState.closed
    else (elim booking [
      | some b ↦ classify_booked now slot_start b
      | none ↦ classify_free now slot_start block horizon_last can_reserve_here availability_only
    ])

-- `room.admits(category_for_user(user), member_room_ids(user))`
unfoldable pub admits : Room → Option User → Db → Bool
admits room none db = not room.members_only && may_be_reserved_by room none db
admits room (some u) db =
    (not room.members_only || is_member_room room u db)
    && may_be_reserved_by room (category_for_user u db) db

abbrev pub is_mine_of : Option User → Option Booking → Bool
is_mine_of (some u) (some b) = b.user == u.id
is_mine_of _ _ = false

-- The body of the loop of `room_day_cells`.
unfoldable pub day_cell : Room → ℕ → ℕ → Option User → Db → ℕ → SlotCell
day_cell room date now user db slot_start =
    let slot_end : ℕ = slot_end_for slot_start in
    let booking : Option Booking = booking_at date room.id slot_start db in
    let reason : String = closure_reason_for room.id slot_start slot_end (closures_for date db) in
    let block : String = block_reason_for slot_start (weekly_blocks_for_date date room.id db) in
    record {
      room = room;
      slot_start = slot_start;
      slot_end = slot_end;
      state =
          classify now slot_start slot_end room.is_active (is_none (day_hours date db)) reason
            booking (local_date now + db.settings.horizon_days) block (admits room user db)
            room.availability_only;
      booking = booking;
      is_mine = is_mine_of user booking;
      remaining = remaining_minutes now slot_end;
      closed_reason = reason;
      block_reason = block;
    }

-- A closed day still shows the columns of the default hours.
unfoldable pub column_starts : ℕ → Db → List ℕ
column_starts date db = elim (day_hours date db) [
  | none ↦ day_slot_starts date opening_slot_start_hour (last_slot_start_hour + 1)
  | some (open_hour, close_hour) ↦ day_slot_starts date open_hour close_hour
]

unfoldable pub room_day_cells : Room → ℕ → ℕ → Option User → Db → List SlotCell
room_day_cells room date now user db = map (day_cell room date now user db) (column_starts date db)

-- `current_slot_cell`: the first cell of the hour, or a closed one outside the day's columns
unfoldable pub current_slot_cell : Room → ℕ → Option User → Db → SlotCell
current_slot_cell room now user db =
    let slot_start : ℕ = floor_to_slot now in
    elim (first (λ c. c.slot_start == slot_start)
      (room_day_cells room (local_date now) now user db)) [
        | some c ↦ c
        | none ↦ record {
          room = room;
          slot_start = slot_start;
          slot_end = slot_end_for slot_start;
          state = SlotState.closed;
          booking = none;
          is_mine = false;
          remaining = 0;
          closed_reason = "";
          block_reason = "";
        }
      ]
