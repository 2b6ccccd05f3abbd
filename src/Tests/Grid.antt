-- ===== src/Tests/Grid.antt =====
-- The grid on a day with a closure of every room and a class.
use room_reserve.Prelude.{arith, ◌+◌, ◌≡◌, ◌&&◌, refl, none, some, [], ◌∷◌, ltb, leb, false}
use room_reserve.Models.Room.{Closure, WeeklyBlock}
use room_reserve.Models.Db.{Db}
use room_reserve.Slots.{
  floor_to_slot, local_date, local_hour, weekday, default_opening_hours, is_hour_aligned,
  slot_end_for, is_within_horizon,
}
use room_reserve.Calendar.{day_hours, within_hours}
use room_reserve.Availability.{is_bookable_state, is_free_now, admits, day_cell, current_slot_cell}
use room_reserve.Availability.Bookable.{is_free, day_cell_offers}
use room_reserve.Availability.Current.{current_slot_cell_free}
use room_reserve.Bookings.Constraints.{IsConsistent}
use room_reserve.Tests.Data.{student, piano_room, at_hour, empty_db}
use room_reserve.Tests.Bookings.{empty_IsConsistent}

abbrev cleaning : Closure
cleaning = record {
  id = 1;
  room = none;
  starts_at = at_hour 9;
  ends_at = at_hour 10;
  reason = "Cleaning";
  acknowledged_in_use = false;
  created_by = none;
  revoked_at = none;
  revoked_by = none;
  revoked_reason = "";
}

abbrev lesson : WeeklyBlock
lesson = record {
  room = piano_room.id;
  weekday = 0;
  start_hour = 13;
  end_hour = 15;
  reason = "Harmony";
  valid_from = none;
  valid_until = none;
}

abbrev grid_db : Db
grid_db = record empty_db { closures = cleaning ∷ []; weekly_blocks = lesson ∷ [] }

grid_IsConsistent : IsConsistent grid_db
grid_IsConsistent = record {
  valid = tt;
  fresh = tt;
  keys = empty_IsConsistent.keys;
  room_slot_unique = empty_IsConsistent.room_slot_unique;
  user_slot_unique = empty_IsConsistent.user_slot_unique;
}

day_cell_offers_example :
    (is_bookable_state
        (day_cell piano_room
          (local_date (at_hour 11))
          (at_hour 8 + 1)
          (some student)
          grid_db
          (at_hour 11)).state
      ≡ (is_free piano_room (at_hour 11) grid_db
          && (ltb (at_hour 8 + 1) (at_hour 11)
              && (is_within_horizon (at_hour 8 + 1) (at_hour 11) grid_db.settings.horizon_days
                  && admits piano_room (some student) grid_db))))
    × (is_free_now
          (day_cell piano_room
            (local_date (at_hour 11))
            (at_hour 8 + 1)
            (some student)
            grid_db
            (at_hour 11)).state
        ≡ (is_free piano_room (at_hour 11) grid_db
            && (leb (at_hour 11) (at_hour 8 + 1)
                && ltb (at_hour 8 + 1) (slot_end_for (at_hour 11)))))
unfolding day_hours local_date local_hour within_hours is_hour_aligned default_opening_hours weekday
day_cell_offers_example =
    day_cell_offers piano_room (at_hour 8 + 1) (at_hour 11) (some student) grid_db grid_IsConsistent
      (refl, tt) (refl, tt) refl refl

current_slot_cell_free_example :
    is_free_now (current_slot_cell piano_room (at_hour 10 + 5) (some student) grid_db).state
    ≡ is_free piano_room (floor_to_slot (at_hour 10 + 5)) grid_db
unfolding local_date
current_slot_cell_free_example =
    current_slot_cell_free piano_room (at_hour 10 + 5) (some student) grid_db grid_IsConsistent
      (refl, tt) (refl, tt) (omega arith)
