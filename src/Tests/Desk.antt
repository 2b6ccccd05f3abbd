-- ===== src/Tests/Desk.antt =====
-- Runs of the staff pages, of the worker and of the tick, and the theorems about them.
use room_reserve.Prelude.{
  ◌≤◌, ℕ, ◌+◌, ◌*◌, ◌≡◌, refl, Bool, true, false, Option, none, some, String, [], ◌∷◌, order_by,
  insert_by, any, ◌≤◌, ◌<◌, if◌then◌else◌, arith,
}
use room_reserve.Settings.{minute, day}
use room_reserve.Outbox.{
  new_notification, enqueue, claim_due, due_rows, take, mark_sent, cancel, sanitize_error,
}
use room_reserve.Prelude.Text.{strip, lstrip, rstrip, is_space, append_text, squeeze}
use room_reserve.Models.Booking.{Booking, Status, Source}
use room_reserve.Models.Room.{Closure, CalendarOverride, ServiceIncident}
use room_reserve.Models.Sanctions.{Violation, Suspension, SuspensionSource}
use room_reserve.Models.Operations.{Fields, Notification, Value, Generation}
use room_reserve.Models.Db.{Db}
use room_reserve.Action.{violate_if, Result, ok, err, reject_if, for_each}
use room_reserve.Audit.{record_audit}
use room_reserve.Policy.{snapshot_from_settings, latest, policy_of, with_policy, current_policy}
use room_reserve.Slots.{
  local_date, local_hour, weekday, slot_start_for, slot_end_for, is_hour_aligned, floor_to_slot,
  range, day_slot_starts, default_opening_hours, is_within_horizon, remaining_minutes,
}
use room_reserve.Calendar.{
  both_hours, day_hours, is_slot_closed, blocks_slot, weekly_block_for, within_hours, slot_open,
  assert_slot_open,
}
use room_reserve.Eligibility.{
  is_booking_staff, category_for_user, may_be_reserved_by, is_suspended, account_block_code,
  can_operate, may_use_room, may_reserve_room, assert_can_operate, assert_may_use_room,
  assert_may_reserve_room,
}
use room_reserve.Quota.{
  quota_used, has_blocking_bookings, upcoming_hours, no_show_reclaim, quota_and_adjacency,
  assert_quota_and_adjacency,
}
use room_reserve.Bookings.{
  find_booking, reload_for_update, user_of, room_of, acting_user, save_booking, insert_booking,
  blank_booking, is_taken, payload_text,
}
use room_reserve.Reserve.{
  validate_advance_target, advance_row, created_changes, created_payload, announce_created,
  write_advance, create_advance_booking,
}
use room_reserve.Due.{
  no_show_violation, booking_payload, work_off, expired_approvals, expired, expire_approval,
  reconcile_expired_approvals, incident_covers, due_no_shows, missed, add_no_show, record_no_show,
  reconcile_no_shows, starting_holds, hold_started, start_hold, start_staff_holds, ended_sessions,
  completed, complete, reconcile_completions,
}
use room_reserve.Strikes.{
  open_bookings, suspended_booking, cancel_for_suspension, cancel_scheduled_for_suspension,
  suspension_reason, automatic_suspension, strike_count, announce_suspension, insert_suspension,
  create_automatic_suspension, has_active_suspension, suspend_if_free, apply_strike_thresholds,
  notify_finished, notify_finished_suspensions,
}
use room_reserve.Reconcile.{reconcile_bookings, reconcile, remind, enqueue_due_reminders}
use room_reserve.Bulk.{dropped, flagged, latest_first}
use room_reserve.Closures.{
  is_affected, affected, preview_of, preview_closure, new_closure, insert_closure, drop_for_closure,
  on_site_note, flag, audit_closure, write_closure, create_closure, revoked, write_revoked,
  revoke_closure,
}
use room_reserve.Sanctions.{
  adjusted, manual_violation, insert_violation, record_manual_violation, voided, write_void,
  under_review, ask_review, void_violation, adjusted, write_adjusted, extend_or_shorten_suspension,
  drop_for_suspension, cancel_scheduled, active_of, manual_suspension, insert_manual, create_manual,
  suspend_or_adjust, apply_manual_suspension, lifted, write_lifted, lift_suspension,
}
use room_reserve.Incidents.{
  new_incident, insert_incident, is_hit, linked, excused, stays_linked, settle_hit, work_hit,
  audit_incident, create_incident, is_explained, explains, explained_away, has_unlifted, to_review,
  write_voids, void_incident_violations,
}
use room_reserve.Overrides.{
  OverrideForm, overridden, override_row, save_override, audit_override, set_calendar_override,
}
use room_reserve.Delivery.{
  Attempt, payload_number, payload_number, is_booking_kind, first_reason, booking_stale, missing_or,
  sanction_stale, lifting_stale, settle, revalidate, deliver, work, drain,
}
use room_reserve.Scheduler.{Tick, beat, control_block, after_block, run_tick}
use room_reserve.Strikes.Over.{HasOneActive}
use room_reserve.Sanctions.Laws.{apply_manual_suspension-HasOneActive}
use room_reserve.Closures.Cleared.{IsCleared, create_closure-IsCleared}
use room_reserve.Incidents.Voided.{void_incident_violations_ok}
use room_reserve.Overrides.Laws.{set_calendar_override_hours}
use room_reserve.Delivery.Stale.{IsTimely, deliver-IsTimely}
use room_reserve.Delivery.Progress.{is_left, drain_progress}
use room_reserve.Reconcile.Overdue.{Settled}
use room_reserve.Scheduler.Ticks.{run_tick-Settled}
use room_reserve.Tests.Data.{student, staff, piano_room, monday, at_hour, empty_db, context_at}
use room_reserve.Tests.Bookings.{reserving}

-- What a run returned, if it did.
abbrev returned {ℓ} : {A : Type ℓ} → A → Result A → A
returned default (ok a) = a
returned default (err e) = default

abbrev desk : ℕ → Db → Db
desk h db = record db { wall = at_hour h }

-- A closure of the room for the morning, with a reservation in it.
abbrev morning : Closure
morning = record {
  id = 1;
  room = some 7;
  starts_at = at_hour 9;
  ends_at = at_hour 12;
  reason = "repair";
  acknowledged_in_use = false;
  created_by = some 2;
  revoked_at = none;
  revoked_by = none;
  revoked_reason = "";
}

abbrev closing : Result Closure × Db
closing =
    create_closure (context_at (at_hour 8 + 2) staff) (some piano_room) (at_hour 9) (at_hour 12)
      "repair" false reserving.1

closing_ok : closing ≡ (ok morning, closing.1)
unfolding reject_if violate_if for_each record_audit snapshot_from_settings latest policy_of
    with_policy current_policy local_date local_hour weekday slot_start_for slot_end_for
    is_hour_aligned floor_to_slot range day_slot_starts default_opening_hours is_within_horizon
    remaining_minutes day_hours is_slot_closed blocks_slot weekly_block_for within_hours slot_open
    assert_slot_open is_booking_staff category_for_user may_be_reserved_by is_suspended
    account_block_code can_operate may_use_room may_reserve_room assert_can_operate
    assert_may_use_room assert_may_reserve_room quota_used has_blocking_bookings upcoming_hours
    no_show_reclaim quota_and_adjacency assert_quota_and_adjacency reload_for_update user_of room_of
    acting_user save_booking insert_booking blank_booking is_taken payload_text
    validate_advance_target advance_row created_changes created_payload announce_created
    write_advance create_advance_booking booking_payload work_off expired_approvals expired
    expire_approval reconcile_expired_approvals incident_covers due_no_shows missed add_no_show
    record_no_show reconcile_no_shows starting_holds hold_started start_hold start_staff_holds
    ended_sessions completed complete reconcile_completions dropped flagged latest_first is_affected
    affected preview_of preview_closure new_closure insert_closure drop_for_closure on_site_note
    flag audit_closure write_closure create_closure revoked write_revoked revoke_closure enqueue
    order_by insert_by append_text strip lstrip rstrip is_space
closing_ok = refl

abbrev ban : Suspension
ban = record {
  id = 1;
  user = 1;
  starts_at = at_hour 8 + 2;
  ends_at = none;
  lifted_at = none;
  lifted_by = none;
  lift_reason = "";
  reason = "noise";
  source = SuspensionSource.manual;
  created_by = some 2;
  start_notified_at = some (at_hour 8 + 2);
  end_notified_at = none;
}

abbrev suspending : Result Suspension × Db
suspending = apply_manual_suspension (context_at (at_hour 8 + 2) staff) 1 "noise" none reserving.1

suspending_ok : suspending ≡ (ok ban, suspending.1)
unfolding reject_if violate_if for_each record_audit snapshot_from_settings latest policy_of
    with_policy current_policy local_date local_hour weekday slot_start_for slot_end_for
    is_hour_aligned floor_to_slot range day_slot_starts default_opening_hours is_within_horizon
    remaining_minutes day_hours is_slot_closed blocks_slot weekly_block_for within_hours slot_open
    assert_slot_open is_booking_staff category_for_user may_be_reserved_by is_suspended
    account_block_code can_operate may_use_room may_reserve_room assert_can_operate
    assert_may_use_room assert_may_reserve_room quota_used has_blocking_bookings upcoming_hours
    no_show_reclaim quota_and_adjacency assert_quota_and_adjacency reload_for_update user_of room_of
    acting_user save_booking insert_booking blank_booking is_taken payload_text
    validate_advance_target advance_row created_changes created_payload announce_created
    write_advance create_advance_booking booking_payload work_off expired_approvals expired
    expire_approval reconcile_expired_approvals incident_covers due_no_shows missed add_no_show
    record_no_show reconcile_no_shows starting_holds hold_started start_hold start_staff_holds
    ended_sessions completed complete reconcile_completions dropped flagged latest_first
    open_bookings suspended_booking cancel_for_suspension cancel_scheduled_for_suspension
    suspension_reason automatic_suspension strike_count announce_suspension insert_suspension
    create_automatic_suspension has_active_suspension suspend_if_free apply_strike_thresholds
    notify_finished notify_finished_suspensions manual_violation insert_violation
    record_manual_violation voided write_void under_review ask_review void_violation adjusted
    write_adjusted extend_or_shorten_suspension drop_for_suspension cancel_scheduled active_of
    manual_suspension insert_manual create_manual suspend_or_adjust apply_manual_suspension lifted
    write_lifted lift_suspension enqueue order_by insert_by strip lstrip rstrip is_space
suspending_ok = refl

-- A booking that was missed, and its violation.
abbrev missed_row : Booking
missed_row = record (blank_booking 1 (at_hour 7) 1 7 (at_hour 9) Status.no_show Source.advance) {
  deadline = some (at_hour 9 + 15 * minute);
}

abbrev missed_db : Db
missed_db = record empty_db {
  bookings = missed_row ∷ [];
  next_booking = 2;
  violations = no_show_violation 1 missed_row (at_hour 9 + 30 * day) ∷ [];
  next_violation = 2;
}

abbrev outage : ServiceIncident
outage = record {
  id = 1;
  starts_at = at_hour 9;
  ends_at = at_hour 11;
  rooms = [];
  reason = "power cut";
  created_by = some 2;
}

abbrev voiding : Result Fields × Db
voiding = void_incident_violations (context_at (at_hour 12) staff) outage "power cut" missed_db

voiding_ok : voiding ≡ (ok (returned [] voiding.0), voiding.1)
unfolding reject_if violate_if for_each record_audit reload_for_update user_of room_of acting_user
    save_booking insert_booking blank_booking is_taken payload_text local_date local_hour weekday
    slot_start_for slot_end_for is_hour_aligned floor_to_slot range day_slot_starts
    default_opening_hours is_within_horizon remaining_minutes booking_payload work_off
    expired_approvals expired expire_approval reconcile_expired_approvals incident_covers
    due_no_shows missed add_no_show record_no_show reconcile_no_shows starting_holds hold_started
    start_hold start_staff_holds ended_sessions completed complete reconcile_completions
    new_incident insert_incident is_hit linked excused stays_linked settle_hit work_hit
    audit_incident create_incident is_explained explains explained_away has_unlifted to_review
    write_voids void_incident_violations enqueue order_by insert_by strip lstrip rstrip is_space
voiding_ok = refl

abbrev reporting : Result Violation × Db
reporting =
    record_manual_violation (context_at (at_hour 12) staff) student "noise" true none none missed_db

abbrev holiday : OverrideForm
holiday = record {
  local_date = monday;
  is_open = true;
  open_hour = some 10;
  close_hour = some 14;
  reason = "exam";
}

abbrev opening : Result CalendarOverride × Db
opening = set_calendar_override (context_at (at_hour 8) staff) holiday empty_db

abbrev exam_hours : CalendarOverride
exam_hours = record {
  id = 1;
  local_date = monday;
  is_open = true;
  open_hour = some 10;
  close_hour = some 14;
  reason = "exam";
  created_by = some 2;
}

opening_ok : opening ≡ (ok exam_hours, opening.1)
unfolding reject_if violate_if for_each record_audit overridden override_row save_override
    audit_override set_calendar_override
opening_ok = refl

-- A mail server that takes everything, and no invitations.
abbrev pub mailed : Notification → Attempt
mailed n = Attempt.delivered

abbrev pub none_stale : Notification → ℕ → Option String
none_stale n now = none

abbrev confirmation : Notification
confirmation =
    new_notification 1 (at_hour 8 + 1) "booking_confirmation" (some student)
      (record { name = "booking_confirmation"; id = 1; generation = Generation.only })
      (("booking_id", Value.num 1) ∷ [])

abbrev planned_db : Db
planned_db = record empty_db {
  bookings =
      record (blank_booking 1 (at_hour 7) 1 7 (at_hour 10) Status.scheduled Source.advance) {
        deadline = some (at_hour 10 + 15 * minute);
      }
      ∷ [];
  next_booking = 2;
  outbox = confirmation ∷ [];
  next_notification = 2;
}

confirmation_sent :
    deliver none_stale mailed confirmation (at_hour 9) planned_db ≡ Attempt.delivered
unfolding deliver revalidate is_booking_kind missing_or booking_stale first_reason payload_number
    blank_booking slot_end_for local_date
confirmation_sent = refl

abbrev pub unlocked : Notification → Bool
unlocked n = false

abbrev pub token : ℕ → ℕ
token id = id + 100

abbrev ticking : Result Tick × Db
ticking =
    run_tick none_stale mailed unlocked token true true (at_hour 10 + 20 * minute)
      (at_hour 10 + 20 * minute + 5) planned_db

ticking_ok : ticking ≡ (ok (Tick.ticked (0 ∷ 1 ∷ 0 ∷ 0 ∷ [])), ticking.1)
unfolding reject_if violate_if for_each record_audit snapshot_from_settings latest policy_of
    with_policy current_policy reload_for_update user_of room_of acting_user save_booking
    insert_booking blank_booking is_taken payload_text local_date local_hour weekday slot_start_for
    slot_end_for is_hour_aligned floor_to_slot range day_slot_starts default_opening_hours
    is_within_horizon remaining_minutes booking_payload work_off expired_approvals expired
    expire_approval reconcile_expired_approvals incident_covers due_no_shows missed add_no_show
    record_no_show reconcile_no_shows starting_holds hold_started start_hold start_staff_holds
    ended_sessions completed complete reconcile_completions open_bookings suspended_booking
    cancel_for_suspension cancel_scheduled_for_suspension suspension_reason automatic_suspension
    strike_count announce_suspension insert_suspension create_automatic_suspension
    has_active_suspension suspend_if_free apply_strike_thresholds notify_finished
    notify_finished_suspensions reconcile_bookings reconcile remind enqueue_due_reminders enqueue
    order_by insert_by payload_number is_booking_kind first_reason booking_stale missing_or
    sanction_stale lifting_stale settle revalidate deliver work drain beat control_block after_block
    run_tick claim_due due_rows take mark_sent cancel sanitize_error squeeze append_text
ticking_ok = refl

create_closure-IsCleared_example :
    IsCleared (some piano_room) (at_hour 9) (at_hour 12) reserving.1.wall false closing.1
create_closure-IsCleared_example =
    create_closure-IsCleared (context_at (at_hour 8 + 2) staff) (some piano_room) (at_hour 9)
      (at_hour 12) "repair" false reserving.1 closing_ok

no_suspension : HasOneActive (at_hour 8 + 2) reserving.1
unfolding HasOneActive reject_if violate_if for_each record_audit snapshot_from_settings latest
    policy_of with_policy current_policy local_date local_hour weekday slot_start_for slot_end_for
    is_hour_aligned floor_to_slot range day_slot_starts default_opening_hours is_within_horizon
    remaining_minutes day_hours is_slot_closed blocks_slot weekly_block_for within_hours slot_open
    assert_slot_open is_booking_staff category_for_user may_be_reserved_by is_suspended
    account_block_code can_operate may_use_room may_reserve_room assert_can_operate
    assert_may_use_room assert_may_reserve_room quota_used has_blocking_bookings upcoming_hours
    no_show_reclaim quota_and_adjacency assert_quota_and_adjacency reload_for_update user_of room_of
    acting_user save_booking insert_booking blank_booking is_taken payload_text
    validate_advance_target advance_row created_changes created_payload announce_created
    write_advance create_advance_booking enqueue order_by insert_by
no_suspension user = omega arith

apply_manual_suspension-HasOneActive_example : HasOneActive (at_hour 8 + 2) suspending.1
unfolding reject_if violate_if for_each record_audit snapshot_from_settings latest policy_of
    with_policy current_policy local_date local_hour weekday slot_start_for slot_end_for
    is_hour_aligned floor_to_slot range day_slot_starts default_opening_hours is_within_horizon
    remaining_minutes day_hours is_slot_closed blocks_slot weekly_block_for within_hours slot_open
    assert_slot_open is_booking_staff category_for_user may_be_reserved_by is_suspended
    account_block_code can_operate may_use_room may_reserve_room assert_can_operate
    assert_may_use_room assert_may_reserve_room quota_used has_blocking_bookings upcoming_hours
    no_show_reclaim quota_and_adjacency assert_quota_and_adjacency reload_for_update user_of room_of
    acting_user save_booking insert_booking blank_booking is_taken payload_text
    validate_advance_target advance_row created_changes created_payload announce_created
    write_advance create_advance_booking enqueue order_by insert_by
apply_manual_suspension-HasOneActive_example =
    apply_manual_suspension-HasOneActive (context_at (at_hour 8 + 2) staff) 1 "noise" none
      reserving.1 suspending_ok (λ i. omega arith) no_suspension

void_incident_violations_ok_example :
    (any (explains outage voiding.1.bookings) voiding.1.violations ≡ false)
    × ((now user : ℕ) → strike_count now user voiding.1 ≤ strike_count now user missed_db)
    × (voiding.1.bookings ≡ missed_db.bookings)
    × (voiding.1.suspensions ≡ missed_db.suspensions)
void_incident_violations_ok_example =
    void_incident_violations_ok (context_at (at_hour 12) staff) outage "power cut" missed_db
      voiding_ok

set_calendar_override_hours_example :
    (day_hours monday opening.1 ≡ (if true then both_hours (some 10) (some 14) else none))
    × (true ≡ true
        → (open_at : ℕ) × (close : ℕ) × (some 10 ≡ some open_at)
          × (some 14 ≡ some close)
          × (open_at < close)
          × (close ≤ 24))
set_calendar_override_hours_example =
    set_calendar_override_hours (context_at (at_hour 8) staff) holiday empty_db opening_ok

deliver-IsTimely_example :
    (id : ℕ) × (b : Booking) × (payload_number "booking_id" confirmation.payload ≡ some id)
    × (find_booking id planned_db ≡ some b)
    × IsTimely confirmation.kind (at_hour 9) b
unfolding is_booking_kind
deliver-IsTimely_example =
    deliver-IsTimely none_stale mailed confirmation (at_hour 9) planned_db refl confirmation_sent

drain_progress_example :
    any
      (is_left (at_hour 9) unlocked (claim_due (at_hour 9) none none unlocked token planned_db).0)
      (drain none_stale mailed true (at_hour 9) none unlocked token planned_db).outbox
    ≡ false
drain_progress_example =
    drain_progress (at_hour 9) unlocked none_stale mailed none unlocked token planned_db

run_tick-Settled_example : Settled (at_hour 10 + 20 * minute) planned_db.incidents ticking.1
run_tick-Settled_example =
    run_tick-Settled none_stale mailed unlocked token true (at_hour 10 + 20 * minute)
      (at_hour 10 + 20 * minute + 5) planned_db ticking_ok
