-- ===== src/Calendar.antt =====
-- core/services/calendar.py: closures, then date overrides, then the weekly timetable and classes.
use room_reserve.Prelude.{
  ℕ, Bool, false, not, ◌&&◌, ◌||◌, Option, none, some, List, [], ◌∷◌, any, first, filter, ltb, leb,
  ◌==◌, null_or, is_none, if◌then◌else◌,
}
use room_reserve.Errors.{Code}
use room_reserve.Models.Room.{Room, Closure, CalendarOverride, WeeklyBlock}
use room_reserve.Models.Operations.{Value, Fields}
use room_reserve.Models.Db.{Db}
use room_reserve.Slots.{
  local_date, local_hour, weekday, slot_end_for, default_opening_hours, day_slot_starts,
}
use room_reserve.Action.{Action, Failure, Result, ok, err, rejection}

-- The hours of an open override are never null, by the table's constraint.
abbrev pub both_hours : Option ℕ → Option ℕ → Option (ℕ × ℕ)
both_hours (some open_hour) (some close_hour) = some (open_hour, close_hour)
both_hours _ _ = none

abbrev pub override_hours : CalendarOverride → Option (ℕ × ℕ)
override_hours o = if o.is_open then both_hours o.open_hour o.close_hour else none

unfoldable pub day_hours : ℕ → Db → Option (ℕ × ℕ)
unfolding default_opening_hours
day_hours date db = elim (first (λ o. o.local_date == date) db.overrides) [
  | none ↦ default_opening_hours date
  | some o ↦ override_hours o
]

-- The filter of `active_closures`.
abbrev pub closes : ℕ → ℕ → ℕ → Closure → Bool
closes slot_start slot_end room c =
    is_none c.revoked_at
    && (ltb c.starts_at slot_end && (ltb slot_start c.ends_at && null_or (λ r. r == room) c.room))

unfoldable pub is_slot_closed : ℕ → ℕ → Db → Bool
is_slot_closed slot_start room db =
    any (closes slot_start (slot_end_for slot_start) room) db.closures

-- The filter of `weekly_block_for`.
unfoldable pub blocks_slot : ℕ → ℕ → WeeklyBlock → Bool
blocks_slot slot_start room w =
    w.room == room
    && (w.weekday == weekday (local_date slot_start)
        && (leb w.start_hour (local_hour slot_start)
            && (ltb (local_hour slot_start) w.end_hour
                && (null_or (λ d. leb d (local_date slot_start)) w.valid_from
                    && null_or (λ d. leb (local_date slot_start) d) w.valid_until))))

unfoldable pub weekly_block_for : ℕ → ℕ → Db → Option WeeklyBlock
unfolding blocks_slot
weekly_block_for slot_start room db = first (blocks_slot slot_start room) db.weekly_blocks

-- Whether the opening hours of the slot's day hold the slot's hour.
unfoldable pub within_hours : ℕ → Option (ℕ × ℕ) → Bool
within_hours h none = false
within_hours h (some (open_hour, close_hour)) = leb open_hour h && ltb h close_hour

abbrev pub class_details : ℕ → WeeklyBlock → Fields
class_details room w = ("room_id", Value.num room) ∷ ("reason", Value.text w.reason) ∷ []

-- It reads the calendar and changes nothing, so it is a result in the database that it reads.
unfoldable pub slot_open : ℕ → Room → Db → Result (Unit {0})
slot_open slot_start room db =
    if not room.is_active
    then err (Failure.rejected (rejection Code.closed []))
    else if not (within_hours (local_hour slot_start) (day_hours (local_date slot_start) db))
    then err (Failure.rejected (rejection Code.closed []))
    else if is_slot_closed slot_start room.id db
    then err (Failure.rejected (rejection Code.closed []))
    else (elim (weekly_block_for slot_start room.id db) [
      | none ↦ ok tt
      | some w ↦ err (Failure.rejected (rejection Code.class_in_session (class_details room.id w)))
    ])

unfoldable pub assert_slot_open : ℕ → Room → Action (Unit {0})
assert_slot_open slot_start room db = (slot_open slot_start room db, db)

abbrev pub span_end : ℕ → List ℕ → ℕ
span_end t [] = t
span_end t (x ∷ xs) = span_end x xs

-- `active_closures(starts[0], slot_end_for(starts[-1]), room).exists()`
unfoldable pub has_closures : ℕ → List ℕ → Db → Bool
has_closures room [] db = false
has_closures room (t ∷ ts) db = any (closes t (slot_end_for (span_end t ts)) room) db.closures

abbrev pub is_bookable : ℕ → Db → ℕ → Bool
is_bookable room db start =
    not (is_slot_closed start room db) && is_none (weekly_block_for start room db)

-- With neither closures nor blocks the source skips the filter.
unfoldable pub filter_starts : ℕ → Room → List ℕ → Db → List ℕ
filter_starts date room starts db =
    if has_closures room.id starts db
      || any (λ w. w.room == room.id && w.weekday == weekday date) db.weekly_blocks
    then filter (is_bookable room.id db) starts
    else starts

unfoldable pub bookable_slot_starts : ℕ → Room → Db → List ℕ
bookable_slot_starts date room db = if not room.is_active then [] else (elim (day_hours date db) [
  | none ↦ []
  | some (open_hour, close_hour) ↦
      filter_starts date room (day_slot_starts date open_hour close_hour) db
])
