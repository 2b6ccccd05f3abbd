-- ===== src/Tests/Bookings.antt =====
-- Reservations in an empty database.
use room_reserve.Prelude.{◌+◌, ◌≤◌, ◌≡◌, refl, false, arith}
use room_reserve.Models.Policy.{daily_quota, max_upcoming_hours}
use room_reserve.Models.Operations.{Fields}
use room_reserve.Models.Db.{Db}
use room_reserve.Action.{Result, ok, reject_if}
use room_reserve.Audit.{record_audit}
use room_reserve.Outbox.{enqueue}
use room_reserve.Policy.{snapshot_from_settings, latest, policy_of, with_policy, current_policy}
use room_reserve.Slots.{
  local_date, local_hour, weekday, slot_end_for, is_hour_aligned, default_opening_hours,
  is_within_horizon,
}
use room_reserve.Calendar.{
  day_hours, is_slot_closed, weekly_block_for, within_hours, slot_open, assert_slot_open,
}
use room_reserve.Eligibility.{
  category_for_user, may_be_reserved_by, is_suspended, account_block_code, can_operate,
  may_use_room, may_reserve_room, assert_may_reserve_room,
}
use room_reserve.Quota.{
  quota_used, has_blocking_bookings, upcoming_hours, no_show_reclaim, quota_and_adjacency,
  assert_quota_and_adjacency,
}
use room_reserve.Bookings.{acting_user, insert_booking, blank_booking, is_taken}
use room_reserve.Bookings.Constraints.{IsConsistent}
use room_reserve.Reserve.{
  validate_advance_target, advance_row, announce_created, write_advance, create_advance_booking,
}
use room_reserve.Reserve.Table.{
  HasGrace, create_advance_booking-IsConsistent, create_advance_booking_limits,
}
use room_reserve.Tests.Data.{student, piano_room, at_hour, empty_db, context_at, fields_of}

pub empty_IsConsistent : IsConsistent empty_db
empty_IsConsistent = record {
  valid = tt;
  fresh = tt;
  keys = λ i. omega arith;
  room_slot_unique = λ room start. omega arith;
  user_slot_unique = λ user start. omega arith;
}

pub empty_HasGrace : HasGrace empty_db
unfolding policy_of latest snapshot_from_settings
empty_HasGrace = record { some_grace = omega arith; within_hour = omega arith }

abbrev pub reserving : Result Fields × Db
reserving =
    create_advance_booking (context_at (at_hour 8 + 1) student) piano_room (at_hour 10) empty_db

pub reserving_ok : reserving ≡ (ok (fields_of reserving.0), reserving.1)
unfolding create_advance_booking validate_advance_target reject_if is_hour_aligned slot_end_for
    current_policy with_policy policy_of latest snapshot_from_settings is_within_horizon local_date
    assert_may_reserve_room may_reserve_room may_use_room can_operate account_block_code
    is_suspended may_be_reserved_by category_for_user assert_slot_open slot_open within_hours
    local_hour day_hours default_opening_hours weekday is_slot_closed weekly_block_for acting_user
    assert_quota_and_adjacency quota_and_adjacency has_blocking_bookings quota_used upcoming_hours
    no_show_reclaim is_taken write_advance announce_created record_audit enqueue insert_booking
    advance_row blank_booking
reserving_ok = refl

pub reserved_IsConsistent : IsConsistent reserving.1
reserved_IsConsistent =
    create_advance_booking-IsConsistent (context_at (at_hour 8 + 1) student) piano_room (at_hour 10)
      empty_db (fields_of reserving.0) reserving.1 reserving_ok empty_IsConsistent empty_HasGrace

create_advance_booking-IsConsistent_example : IsConsistent reserving.1
create_advance_booking-IsConsistent_example =
    create_advance_booking-IsConsistent (context_at (at_hour 8 + 1) student) piano_room (at_hour 10)
      empty_db (fields_of reserving.0) reserving.1 reserving_ok empty_IsConsistent empty_HasGrace

create_advance_booking_limits_example :
    (quota_used 1 (local_date (at_hour 10)) reserving.1 ≤ daily_quota (policy_of empty_db))
    × (upcoming_hours 1 (at_hour 8 + 1) reserving.1
        ≤ max_upcoming_hours empty_db.settings (policy_of empty_db))
    × (has_blocking_bookings 1 (at_hour 10) empty_db ≡ false)
create_advance_booking_limits_example =
    create_advance_booking_limits (context_at (at_hour 8 + 1) student) piano_room (at_hour 10)
      empty_db (fields_of reserving.0) reserving.1 reserving_ok student refl
