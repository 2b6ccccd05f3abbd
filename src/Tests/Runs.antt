-- ===== src/Tests/Runs.antt =====
-- Runs of the operations on the reservation of a student, and of those in an empty database.
use room_reserve.Prelude.{
  any, ◌&&◌, false, ◌+◌, ◌*◌, ◌≡◌, refl, false, none, some, [], ◌∷◌, update_where, ◌==◌, order_by,
  insert_by,
}
use room_reserve.Settings.{minute}
use room_reserve.Outbox.{enqueue}
use room_reserve.Models.Booking.{SeriesStatus}
use room_reserve.Models.Operations.{Fields}
use room_reserve.Models.Db.{Db}
use room_reserve.Bookings.{Details}
use room_reserve.Action.{Result, ok, reject_if}
use room_reserve.Audit.{record_audit}
use room_reserve.Policy.{snapshot_from_settings, latest, policy_of, with_policy, current_policy}
use room_reserve.Slots.{
  local_date, local_hour, weekday, slot_start_for, slot_end_for, is_hour_aligned, floor_to_slot,
  range, day_slot_starts, default_opening_hours, is_within_horizon, remaining_minutes,
}
use room_reserve.Calendar.{
  day_hours, is_slot_closed, blocks_slot, weekly_block_for, within_hours, slot_open,
  assert_slot_open,
}
use room_reserve.Eligibility.{
  is_booking_staff, category_for_user, may_be_reserved_by, is_suspended, account_block_code,
  can_operate, may_use_room, may_reserve_room, assert_can_operate, assert_may_use_room,
  assert_may_reserve_room,
}
use room_reserve.Quota.{
  quota_used, has_blocking_bookings, upcoming_hours, no_show_reclaim, quota_and_adjacency,
  assert_quota_and_adjacency,
}
use room_reserve.Bookings.{
  reload_for_update, user_of, room_of, acting_user, save_booking, insert_booking, blank_booking,
  is_taken, payload_text, normalise_details,
}
use room_reserve.Reserve.{
  validate_advance_target, advance_row, created_changes, created_payload, announce_created,
  write_advance, create_advance_booking,
}
use room_reserve.Change.{
  edited, changed_payload, announce_edited, update_booking_details, is_taken_by_other, moved,
  moved_payload, announce_moved, moved_result, write_move, move_booking,
}
use room_reserve.Approval.{
  bounded_note, approved, approved_payload, announce_approved, approve, refused, announce_refused,
  turn_down, decide_approval,
}
use room_reserve.Cancel.{
  cancelled, announce_cancelled, write_cancel, cancel, cancel_each, future_occurrences,
  close_series, cancel_recurring_reservation,
}
use room_reserve.Checkin.{checked_in, write_check_in, check_in}
use room_reserve.Walkin.{
  room_availability_for_now, assert_available, released_from, walk_in_row, announce_walk_in,
  write_walk_in, use_now,
}
use room_reserve.Staff.{
  assert_all_open, any_taken, staff_row, announce_hold, hold_hour, hold_hours, create_staff_booking,
}
use room_reserve.Prelude.Text.{is_space, lstrip, rstrip, strip, take_text}
use room_reserve.Cancel.Series.{lies_ahead}
use room_reserve.Tests.Data.{
  student, staff, piano_room, other_room, approval_room, monday, at_hour, empty_db, context_at,
  fields_of,
}
use room_reserve.Tests.Bookings.{reserving}

abbrev pub duo : Details
duo = record { title = " Duo "; purpose = "rehearsal"; participant_names = "" }

-- The reservation as an occurrence of a weekly series.
abbrev pub weekly_db : Db
weekly_db = record reserving.1 {
  bookings =
      update_where (λ b. b.id == 1) (λ b. record b { recurrence = some 3 }) reserving.1.bookings;
  series =
      record { id = 3; user = 1; room = 7; status = SeriesStatus.active; cancelled_at = none } ∷ [];
}

abbrev pub cancelling : Result Fields × Db
cancelling = cancel (context_at (at_hour 8 + 2) student) 1 "ill" false reserving.1

abbrev pub editing : Result Fields × Db
editing = update_booking_details (context_at (at_hour 8 + 2) student) 1 duo reserving.1

abbrev pub moving : Result Fields × Db
moving = move_booking (context_at (at_hour 8 + 2) student) 1 other_room reserving.1

abbrev pub checking_in : Result Fields × Db
checking_in = check_in (context_at (at_hour 10 + 1) student) 1 none false "" reserving.1

abbrev pub asking : Result Fields × Db
asking =
    create_advance_booking (context_at (at_hour 8 + 1) student) approval_room (at_hour 10) empty_db

abbrev pub deciding : Result Fields × Db
deciding = decide_approval (context_at (at_hour 8 + 2) staff) 1 "APPROVED" "" asking.1

abbrev pub walking_in : Result Fields × Db
walking_in = use_now (context_at (at_hour 10 + 5 * minute) student) piano_room empty_db

abbrev pub holding : Result Fields × Db
holding = create_staff_booking (context_at (at_hour 8 + 1) staff) piano_room monday 13 15 empty_db

abbrev pub ending_series : Result Fields × Db
ending_series = cancel_recurring_reservation (context_at (at_hour 8 + 2) student) 3 "" weekly_db

pub cancelling_ok : cancelling ≡ (ok (fields_of cancelling.0), cancelling.1)
unfolding reject_if record_audit snapshot_from_settings latest policy_of with_policy current_policy
    local_date local_hour weekday slot_start_for slot_end_for is_hour_aligned floor_to_slot range
    day_slot_starts default_opening_hours is_within_horizon remaining_minutes day_hours
    is_slot_closed blocks_slot weekly_block_for within_hours slot_open assert_slot_open
    is_booking_staff category_for_user may_be_reserved_by is_suspended account_block_code
    can_operate may_use_room may_reserve_room assert_can_operate assert_may_use_room
    assert_may_reserve_room quota_used has_blocking_bookings upcoming_hours no_show_reclaim
    quota_and_adjacency assert_quota_and_adjacency reload_for_update user_of room_of acting_user
    save_booking insert_booking blank_booking is_taken payload_text normalise_details
    validate_advance_target advance_row created_changes created_payload announce_created
    write_advance create_advance_booking cancelled announce_cancelled write_cancel cancel
    cancel_each future_occurrences close_series cancel_recurring_reservation enqueue order_by
    insert_by
cancelling_ok = refl

pub editing_ok : editing ≡ (ok (fields_of editing.0), editing.1)
unfolding reject_if record_audit snapshot_from_settings latest policy_of with_policy current_policy
    local_date local_hour weekday slot_start_for slot_end_for is_hour_aligned floor_to_slot range
    day_slot_starts default_opening_hours is_within_horizon remaining_minutes day_hours
    is_slot_closed blocks_slot weekly_block_for within_hours slot_open assert_slot_open
    is_booking_staff category_for_user may_be_reserved_by is_suspended account_block_code
    can_operate may_use_room may_reserve_room assert_can_operate assert_may_use_room
    assert_may_reserve_room quota_used has_blocking_bookings upcoming_hours no_show_reclaim
    quota_and_adjacency assert_quota_and_adjacency reload_for_update user_of room_of acting_user
    save_booking insert_booking blank_booking is_taken payload_text normalise_details
    validate_advance_target advance_row created_changes created_payload announce_created
    write_advance create_advance_booking edited changed_payload announce_edited
    update_booking_details is_taken_by_other moved moved_payload announce_moved moved_result
    write_move move_booking is_space lstrip rstrip strip take_text enqueue order_by insert_by
editing_ok = refl

pub moving_ok : moving ≡ (ok (fields_of moving.0), moving.1)
unfolding reject_if record_audit snapshot_from_settings latest policy_of with_policy current_policy
    local_date local_hour weekday slot_start_for slot_end_for is_hour_aligned floor_to_slot range
    day_slot_starts default_opening_hours is_within_horizon remaining_minutes day_hours
    is_slot_closed blocks_slot weekly_block_for within_hours slot_open assert_slot_open
    is_booking_staff category_for_user may_be_reserved_by is_suspended account_block_code
    can_operate may_use_room may_reserve_room assert_can_operate assert_may_use_room
    assert_may_reserve_room quota_used has_blocking_bookings upcoming_hours no_show_reclaim
    quota_and_adjacency assert_quota_and_adjacency reload_for_update user_of room_of acting_user
    save_booking insert_booking blank_booking is_taken payload_text normalise_details
    validate_advance_target advance_row created_changes created_payload announce_created
    write_advance create_advance_booking edited changed_payload announce_edited
    update_booking_details is_taken_by_other moved moved_payload announce_moved moved_result
    write_move move_booking enqueue order_by insert_by
moving_ok = refl

pub checking_in_ok : checking_in ≡ (ok (fields_of checking_in.0), checking_in.1)
unfolding reject_if record_audit snapshot_from_settings latest policy_of with_policy current_policy
    local_date local_hour weekday slot_start_for slot_end_for is_hour_aligned floor_to_slot range
    day_slot_starts default_opening_hours is_within_horizon remaining_minutes day_hours
    is_slot_closed blocks_slot weekly_block_for within_hours slot_open assert_slot_open
    is_booking_staff category_for_user may_be_reserved_by is_suspended account_block_code
    can_operate may_use_room may_reserve_room assert_can_operate assert_may_use_room
    assert_may_reserve_room quota_used has_blocking_bookings upcoming_hours no_show_reclaim
    quota_and_adjacency assert_quota_and_adjacency reload_for_update user_of room_of acting_user
    save_booking insert_booking blank_booking is_taken payload_text normalise_details
    validate_advance_target advance_row created_changes created_payload announce_created
    write_advance create_advance_booking checked_in write_check_in check_in enqueue order_by
    insert_by
checking_in_ok = refl

pub asking_ok : asking ≡ (ok (fields_of asking.0), asking.1)
unfolding reject_if record_audit snapshot_from_settings latest policy_of with_policy current_policy
    local_date local_hour weekday slot_start_for slot_end_for is_hour_aligned floor_to_slot range
    day_slot_starts default_opening_hours is_within_horizon remaining_minutes day_hours
    is_slot_closed blocks_slot weekly_block_for within_hours slot_open assert_slot_open
    is_booking_staff category_for_user may_be_reserved_by is_suspended account_block_code
    can_operate may_use_room may_reserve_room assert_can_operate assert_may_use_room
    assert_may_reserve_room quota_used has_blocking_bookings upcoming_hours no_show_reclaim
    quota_and_adjacency assert_quota_and_adjacency reload_for_update user_of room_of acting_user
    save_booking insert_booking blank_booking is_taken payload_text normalise_details
    validate_advance_target advance_row created_changes created_payload announce_created
    write_advance create_advance_booking enqueue order_by insert_by
asking_ok = refl

pub deciding_ok : deciding ≡ (ok (fields_of deciding.0), deciding.1)
unfolding reject_if record_audit snapshot_from_settings latest policy_of with_policy current_policy
    local_date local_hour weekday slot_start_for slot_end_for is_hour_aligned floor_to_slot range
    day_slot_starts default_opening_hours is_within_horizon remaining_minutes day_hours
    is_slot_closed blocks_slot weekly_block_for within_hours slot_open assert_slot_open
    is_booking_staff category_for_user may_be_reserved_by is_suspended account_block_code
    can_operate may_use_room may_reserve_room assert_can_operate assert_may_use_room
    assert_may_reserve_room quota_used has_blocking_bookings upcoming_hours no_show_reclaim
    quota_and_adjacency assert_quota_and_adjacency reload_for_update user_of room_of acting_user
    save_booking insert_booking blank_booking is_taken payload_text normalise_details
    validate_advance_target advance_row created_changes created_payload announce_created
    write_advance create_advance_booking bounded_note approved approved_payload announce_approved
    approve refused announce_refused turn_down decide_approval is_space lstrip rstrip strip
    take_text enqueue order_by insert_by
deciding_ok = refl

pub walking_in_ok : walking_in ≡ (ok (fields_of walking_in.0), walking_in.1)
unfolding reject_if record_audit snapshot_from_settings latest policy_of with_policy current_policy
    local_date local_hour weekday slot_start_for slot_end_for is_hour_aligned floor_to_slot range
    day_slot_starts default_opening_hours is_within_horizon remaining_minutes day_hours
    is_slot_closed blocks_slot weekly_block_for within_hours slot_open assert_slot_open
    is_booking_staff category_for_user may_be_reserved_by is_suspended account_block_code
    can_operate may_use_room may_reserve_room assert_can_operate assert_may_use_room
    assert_may_reserve_room quota_used has_blocking_bookings upcoming_hours no_show_reclaim
    quota_and_adjacency assert_quota_and_adjacency reload_for_update user_of room_of acting_user
    save_booking insert_booking blank_booking is_taken payload_text normalise_details
    room_availability_for_now assert_available released_from walk_in_row announce_walk_in
    write_walk_in use_now enqueue order_by insert_by
walking_in_ok = refl

pub holding_ok : holding ≡ (ok (fields_of holding.0), holding.1)
unfolding reject_if record_audit snapshot_from_settings latest policy_of with_policy current_policy
    local_date local_hour weekday slot_start_for slot_end_for is_hour_aligned floor_to_slot range
    day_slot_starts default_opening_hours is_within_horizon remaining_minutes day_hours
    is_slot_closed blocks_slot weekly_block_for within_hours slot_open assert_slot_open
    is_booking_staff category_for_user may_be_reserved_by is_suspended account_block_code
    can_operate may_use_room may_reserve_room assert_can_operate assert_may_use_room
    assert_may_reserve_room quota_used has_blocking_bookings upcoming_hours no_show_reclaim
    quota_and_adjacency assert_quota_and_adjacency reload_for_update user_of room_of acting_user
    save_booking insert_booking blank_booking is_taken payload_text normalise_details
    assert_all_open any_taken staff_row announce_hold hold_hour hold_hours create_staff_booking
    enqueue order_by insert_by
holding_ok = refl

pub ending_series_ok : ending_series ≡ (ok (fields_of ending_series.0), ending_series.1)
unfolding reject_if record_audit snapshot_from_settings latest policy_of with_policy current_policy
    local_date local_hour weekday slot_start_for slot_end_for is_hour_aligned floor_to_slot range
    day_slot_starts default_opening_hours is_within_horizon remaining_minutes day_hours
    is_slot_closed blocks_slot weekly_block_for within_hours slot_open assert_slot_open
    is_booking_staff category_for_user may_be_reserved_by is_suspended account_block_code
    can_operate may_use_room may_reserve_room assert_can_operate assert_may_use_room
    assert_may_reserve_room quota_used has_blocking_bookings upcoming_hours no_show_reclaim
    quota_and_adjacency assert_quota_and_adjacency reload_for_update user_of room_of acting_user
    save_booking insert_booking blank_booking is_taken payload_text normalise_details
    validate_advance_target advance_row created_changes created_payload announce_created
    write_advance create_advance_booking cancelled announce_cancelled write_cancel cancel
    cancel_each future_occurrences close_series cancel_recurring_reservation enqueue order_by
    insert_by
ending_series_ok = refl

-- No occurrence ahead stands under the key 2.
pub none_under_two :
    any (λ b. lies_ahead 3 (at_hour 8 + 2) b && b.id == 2) weekly_db.bookings ≡ false
unfolding reject_if record_audit snapshot_from_settings latest policy_of with_policy current_policy
    local_date local_hour weekday slot_start_for slot_end_for is_hour_aligned floor_to_slot range
    day_slot_starts default_opening_hours is_within_horizon remaining_minutes day_hours
    is_slot_closed blocks_slot weekly_block_for within_hours slot_open assert_slot_open
    is_booking_staff category_for_user may_be_reserved_by is_suspended account_block_code
    can_operate may_use_room may_reserve_room assert_can_operate assert_may_use_room
    assert_may_reserve_room quota_used has_blocking_bookings upcoming_hours no_show_reclaim
    quota_and_adjacency assert_quota_and_adjacency reload_for_update user_of room_of acting_user
    save_booking insert_booking blank_booking is_taken payload_text normalise_details
    validate_advance_target advance_row created_changes created_payload announce_created
    write_advance create_advance_booking cancelled announce_cancelled write_cancel cancel
    cancel_each future_occurrences close_series cancel_recurring_reservation enqueue order_by
    insert_by
none_under_two = refl
