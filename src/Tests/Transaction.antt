-- ===== src/Tests/Transaction.antt =====
-- Requests in the transaction, and reconciliation after a missed check-in.
use room_reserve.Prelude.{
  leb, ℕ, ◌+◌, ◌*◌, ◌≡◌, refl, true, none, some, String, List, [], ◌∷◌, order_by, insert_by,
}
use room_reserve.Settings.{minute}
use room_reserve.Errors.{Code}
use room_reserve.Outbox.{enqueue}
use room_reserve.Models.Operations.{Fields}
use room_reserve.Models.Db.{Db}
use room_reserve.Bookings.Constraints.{IsConsistent}
use room_reserve.Action.{Result, ok, err, Outcome, replay, rejection, success, reject_if, for_each}
use room_reserve.Audit.{record_audit}
use room_reserve.Policy.{snapshot_from_settings, latest, policy_of, with_policy, current_policy}
use room_reserve.Slots.{
  local_date, local_hour, weekday, slot_start_for, slot_end_for, is_hour_aligned, floor_to_slot,
  range, day_slot_starts, default_opening_hours, is_within_horizon, remaining_minutes,
}
use room_reserve.Calendar.{
  day_hours, is_slot_closed, blocks_slot, weekly_block_for, within_hours, slot_open,
  assert_slot_open,
}
use room_reserve.Eligibility.{
  is_booking_staff, category_for_user, may_be_reserved_by, is_suspended, account_block_code,
  can_operate, may_use_room, may_reserve_room, assert_can_operate, assert_may_use_room,
  assert_may_reserve_room,
}
use room_reserve.Quota.{
  quota_used, has_blocking_bookings, upcoming_hours, no_show_reclaim, quota_and_adjacency,
  assert_quota_and_adjacency,
}
use room_reserve.Bookings.{
  reload_for_update, user_of, room_of, acting_user, save_booking, insert_booking, blank_booking,
  is_taken, payload_text,
}
use room_reserve.Reserve.{
  validate_advance_target, advance_row, created_changes, created_payload, announce_created,
  write_advance, create_advance_booking,
}
use room_reserve.Cancel.{cancelled, announce_cancelled, write_cancel, cancel}
use room_reserve.Due.{
  booking_payload, work_off, expired_approvals, expired, expire_approval,
  reconcile_expired_approvals, incident_covers, due_no_shows, missed, add_no_show, record_no_show,
  reconcile_no_shows, starting_holds, hold_started, start_hold, start_staff_holds, ended_sessions,
  completed, complete, reconcile_completions,
}
use room_reserve.Strikes.{
  open_bookings, suspended_booking, cancel_for_suspension, cancel_scheduled_for_suspension,
  suspension_reason, automatic_suspension, strike_count, announce_suspension, insert_suspension,
  create_automatic_suspension, has_active_suspension, suspend_if_free, apply_strike_thresholds,
  notify_finished, notify_finished_suspensions,
}
use room_reserve.Reconcile.{reconcile_bookings, reconcile}
use room_reserve.Protocol.{
  Request, Try, run_operation, new_request, record_request, record_if_ok, answer, run_once,
  prior_request, in_savepoint, context_of,
}
use room_reserve.Protocol.Operations.{Operation, request_of}
use room_reserve.Protocol.Table.{run_once-IsConsistent}
use room_reserve.Protocol.Quiet.{request_of-IsQuiet}
use room_reserve.Protocol.Outcomes.{IsQuiet, run_once_rejected, run_operation_lem}
use room_reserve.Protocol.Replay.{run_once_again}
use room_reserve.Reconcile.Table.{reconcile-IsConsistent}
use room_reserve.Reconcile.Overdue.{Settled, reconcile-Settled}
use room_reserve.Reconcile.Keeps.{reconcile-policy_of}
use room_reserve.Tests.Data.{student, piano_room, at_hour, empty_db}
use room_reserve.Tests.Bookings.{
  reserving, reserved_IsConsistent, empty_IsConsistent, empty_HasGrace,
}

abbrev pub digest : Fields → String
digest fields = "digest"

abbrev pub early : ℕ
early = at_hour 8 + 1

-- A quarter of an hour and a minute after the start: the check-in deadline has passed.
abbrev pub late : ℕ
late = at_hour 10 + 16 * minute

abbrev counts_of : Result (List ℕ) → List ℕ
counts_of (ok counts) = counts
counts_of (err e) = []

abbrev outcome_of : Result Outcome → Outcome
outcome_of (ok o) = o
outcome_of (err e) = success []

abbrev asked : String → Request
asked key = request_of (Operation.reserve piano_room (at_hour 10)) (some student) [] "create" key

abbrev pub reconciling : Result (List ℕ) × Db
reconciling = reconcile late none none reserving.1

abbrev asking_once : Result Outcome × Db
asking_once = run_once digest true early (asked "k") empty_db

abbrev reconciling_again : Result (List ℕ) × Db
reconciling_again = reconcile (early + 1) (some student) none asking_once.1

abbrev asking_twice : Result Outcome × Db
asking_twice = run_once digest true (early + 1) (asked "other") asking_once.1

pub reconciling_ok : reconciling ≡ (ok (0 ∷ 1 ∷ 0 ∷ 0 ∷ []), reconciling.1)
unfolding reject_if for_each record_audit snapshot_from_settings latest policy_of with_policy
    current_policy local_date local_hour weekday slot_start_for slot_end_for is_hour_aligned
    floor_to_slot range day_slot_starts default_opening_hours is_within_horizon remaining_minutes
    day_hours is_slot_closed blocks_slot weekly_block_for within_hours slot_open assert_slot_open
    is_booking_staff category_for_user may_be_reserved_by is_suspended account_block_code
    can_operate may_use_room may_reserve_room assert_can_operate assert_may_use_room
    assert_may_reserve_room quota_used has_blocking_bookings upcoming_hours no_show_reclaim
    quota_and_adjacency assert_quota_and_adjacency reload_for_update user_of room_of acting_user
    save_booking insert_booking blank_booking is_taken payload_text validate_advance_target
    advance_row created_changes created_payload announce_created write_advance
    create_advance_booking cancelled announce_cancelled write_cancel cancel booking_payload work_off
    expired_approvals expired expire_approval reconcile_expired_approvals incident_covers
    due_no_shows missed add_no_show record_no_show reconcile_no_shows starting_holds hold_started
    start_hold start_staff_holds ended_sessions completed complete reconcile_completions
    open_bookings suspended_booking cancel_for_suspension cancel_scheduled_for_suspension
    suspension_reason automatic_suspension strike_count announce_suspension insert_suspension
    create_automatic_suspension has_active_suspension suspend_if_free apply_strike_thresholds
    notify_finished notify_finished_suspensions reconcile_bookings reconcile new_request
    record_request record_if_ok answer run_once prior_request in_savepoint context_of enqueue
    order_by insert_by
reconciling_ok = refl

asking_once_ok : asking_once ≡ (ok (outcome_of asking_once.0), asking_once.1)
unfolding reject_if for_each record_audit snapshot_from_settings latest policy_of with_policy
    current_policy local_date local_hour weekday slot_start_for slot_end_for is_hour_aligned
    floor_to_slot range day_slot_starts default_opening_hours is_within_horizon remaining_minutes
    day_hours is_slot_closed blocks_slot weekly_block_for within_hours slot_open assert_slot_open
    is_booking_staff category_for_user may_be_reserved_by is_suspended account_block_code
    can_operate may_use_room may_reserve_room assert_can_operate assert_may_use_room
    assert_may_reserve_room quota_used has_blocking_bookings upcoming_hours no_show_reclaim
    quota_and_adjacency assert_quota_and_adjacency reload_for_update user_of room_of acting_user
    save_booking insert_booking blank_booking is_taken payload_text validate_advance_target
    advance_row created_changes created_payload announce_created write_advance
    create_advance_booking cancelled announce_cancelled write_cancel cancel booking_payload work_off
    expired_approvals expired expire_approval reconcile_expired_approvals incident_covers
    due_no_shows missed add_no_show record_no_show reconcile_no_shows starting_holds hold_started
    start_hold start_staff_holds ended_sessions completed complete reconcile_completions
    open_bookings suspended_booking cancel_for_suspension cancel_scheduled_for_suspension
    suspension_reason automatic_suspension strike_count announce_suspension insert_suspension
    create_automatic_suspension has_active_suspension suspend_if_free apply_strike_thresholds
    notify_finished notify_finished_suspensions reconcile_bookings reconcile new_request
    record_request record_if_ok answer run_once prior_request in_savepoint context_of enqueue
    order_by insert_by
asking_once_ok = refl

reconciling_again_ok : reconciling_again ≡ (ok (counts_of reconciling_again.0), reconciling_again.1)
unfolding reject_if for_each record_audit snapshot_from_settings latest policy_of with_policy
    current_policy local_date local_hour weekday slot_start_for slot_end_for is_hour_aligned
    floor_to_slot range day_slot_starts default_opening_hours is_within_horizon remaining_minutes
    day_hours is_slot_closed blocks_slot weekly_block_for within_hours slot_open assert_slot_open
    is_booking_staff category_for_user may_be_reserved_by is_suspended account_block_code
    can_operate may_use_room may_reserve_room assert_can_operate assert_may_use_room
    assert_may_reserve_room quota_used has_blocking_bookings upcoming_hours no_show_reclaim
    quota_and_adjacency assert_quota_and_adjacency reload_for_update user_of room_of acting_user
    save_booking insert_booking blank_booking is_taken payload_text validate_advance_target
    advance_row created_changes created_payload announce_created write_advance
    create_advance_booking cancelled announce_cancelled write_cancel cancel booking_payload work_off
    expired_approvals expired expire_approval reconcile_expired_approvals incident_covers
    due_no_shows missed add_no_show record_no_show reconcile_no_shows starting_holds hold_started
    start_hold start_staff_holds ended_sessions completed complete reconcile_completions
    open_bookings suspended_booking cancel_for_suspension cancel_scheduled_for_suspension
    suspension_reason automatic_suspension strike_count announce_suspension insert_suspension
    create_automatic_suspension has_active_suspension suspend_if_free apply_strike_thresholds
    notify_finished notify_finished_suspensions reconcile_bookings reconcile new_request
    record_request record_if_ok answer run_once prior_request in_savepoint context_of enqueue
    order_by insert_by
reconciling_again_ok = refl

asking_twice_refused : asking_twice ≡ (ok (rejection Code.adjacency_conflict []), asking_twice.1)
unfolding reject_if for_each record_audit snapshot_from_settings latest policy_of with_policy
    current_policy local_date local_hour weekday slot_start_for slot_end_for is_hour_aligned
    floor_to_slot range day_slot_starts default_opening_hours is_within_horizon remaining_minutes
    day_hours is_slot_closed blocks_slot weekly_block_for within_hours slot_open assert_slot_open
    is_booking_staff category_for_user may_be_reserved_by is_suspended account_block_code
    can_operate may_use_room may_reserve_room assert_can_operate assert_may_use_room
    assert_may_reserve_room quota_used has_blocking_bookings upcoming_hours no_show_reclaim
    quota_and_adjacency assert_quota_and_adjacency reload_for_update user_of room_of acting_user
    save_booking insert_booking blank_booking is_taken payload_text validate_advance_target
    advance_row created_changes created_payload announce_created write_advance
    create_advance_booking cancelled announce_cancelled write_cancel cancel booking_payload work_off
    expired_approvals expired expire_approval reconcile_expired_approvals incident_covers
    due_no_shows missed add_no_show record_no_show reconcile_no_shows starting_holds hold_started
    start_hold start_staff_holds ended_sessions completed complete reconcile_completions
    open_bookings suspended_booking cancel_for_suspension cancel_scheduled_for_suspension
    suspension_reason automatic_suspension strike_count announce_suspension insert_suspension
    create_automatic_suspension has_active_suspension suspend_if_free apply_strike_thresholds
    notify_finished notify_finished_suspensions reconcile_bookings reconcile new_request
    record_request record_if_ok answer run_once prior_request in_savepoint context_of enqueue
    order_by insert_by
asking_twice_refused = refl

asking_good : (outcome_of asking_once.0).ok ≡ true
unfolding reject_if for_each record_audit snapshot_from_settings latest policy_of with_policy
    current_policy local_date local_hour weekday slot_start_for slot_end_for is_hour_aligned
    floor_to_slot range day_slot_starts default_opening_hours is_within_horizon remaining_minutes
    day_hours is_slot_closed blocks_slot weekly_block_for within_hours slot_open assert_slot_open
    is_booking_staff category_for_user may_be_reserved_by is_suspended account_block_code
    can_operate may_use_room may_reserve_room assert_can_operate assert_may_use_room
    assert_may_reserve_room quota_used has_blocking_bookings upcoming_hours no_show_reclaim
    quota_and_adjacency assert_quota_and_adjacency reload_for_update user_of room_of acting_user
    save_booking insert_booking blank_booking is_taken payload_text validate_advance_target
    advance_row created_changes created_payload announce_created write_advance
    create_advance_booking cancelled announce_cancelled write_cancel cancel booking_payload work_off
    expired_approvals expired expire_approval reconcile_expired_approvals incident_covers
    due_no_shows missed add_no_show record_no_show reconcile_no_shows starting_holds hold_started
    start_hold start_staff_holds ended_sessions completed complete reconcile_completions
    open_bookings suspended_booking cancel_for_suspension cancel_scheduled_for_suspension
    suspension_reason automatic_suspension strike_count announce_suspension insert_suspension
    create_automatic_suspension has_active_suspension suspend_if_free apply_strike_thresholds
    notify_finished notify_finished_suspensions reconcile_bookings reconcile new_request
    record_request record_if_ok answer run_once prior_request in_savepoint context_of enqueue
    order_by insert_by
asking_good = refl

reconcile-Settled_example : Settled late reserving.1.incidents reconciling.1
reconcile-Settled_example = reconcile-Settled late none none reserving.1 reconciling_ok

reconcile-IsConsistent_example : IsConsistent (reconcile late none none reserving.1).1
reconcile-IsConsistent_example =
    reconcile-IsConsistent late none none reserving.1 reserved_IsConsistent

reconcile-policy_of_example :
    policy_of (reconcile late none none reserving.1).1 ≡ policy_of reserving.1
reconcile-policy_of_example = reconcile-policy_of late none none reserving.1

run_once-IsConsistent_example : IsConsistent (run_once digest true early (asked "k") empty_db).1
run_once-IsConsistent_example =
    run_once-IsConsistent digest true early (Operation.reserve piano_room (at_hour 10))
      (some student) [] "create" "k" empty_db empty_IsConsistent empty_HasGrace

asked-IsQuiet : (key : String) → IsQuiet (asked key).body
asked-IsQuiet =
    request_of-IsQuiet (Operation.reserve piano_room (at_hour 10)) (some student) [] "create"

run_once_again_example : run_once digest true (early + 1) (asked "k") asking_once.1 ≡ (
  ok (replay (outcome_of asking_once.0).code (outcome_of asking_once.0).fields),
  reconciling_again.1,
)
run_once_again_example =
    run_once_again digest (asked "k") student refl early (early + 1) empty_db (asked-IsQuiet "k")
      asking_once_ok asking_good reconciling_again_ok

run_once_rejected_example : asking_twice.1 ≡ reconciling_again.1
run_once_rejected_example =
    run_once_rejected digest true (early + 1) (asked "other") asking_once.1 (asked-IsQuiet "other")
      asking_twice_refused refl

-- The first attempt fails, the second one runs.
abbrev tries : ℕ → Try
tries k = record { fails = leb k 1; lock_free = true; now = early + k }

run_operation_lem_example :
    run_operation digest tries (asked "k") empty_db
    ≡ run_once digest true (early + 2) (asked "k") empty_db
run_operation_lem_example = run_operation_lem digest tries (asked "k") empty_db
