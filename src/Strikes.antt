-- ===== src/Strikes.antt =====
-- core/services/reconcile.py, the sanctions that are due: an automatic suspension for an account with
-- enough strikes, with its open bookings cancelled, and the notice of a suspension that ran out.
pub mod Table
pub mod Over
use room_reserve.Prelude.{
  ℕ, suc, ◌+◌, ◌*◌, Bool, true, false, not, ◌&&◌, ◌||◌, Option, none, some, String, List, [], ◌∷◌,
  ◌++◌, any, filter, count, first, map, length, order_by, update_where, ltb, leb, ◌==◌, holds,
  is_none, if◌then◌else◌,
}
use room_reserve.Prelude.Text.{decimal, append_text}
use room_reserve.Settings.{day}
use room_reserve.Models.Booking.{Booking, Status}
use room_reserve.Models.Account.{User}
use room_reserve.Models.Policy.{
  PolicyVersion, strike_window_days, strike_threshold, auto_suspension_days,
}
use room_reserve.Models.Sanctions.{
  Violation, is_eligible_strike, Suspension, SuspensionSource, is_active_suspension,
}
use room_reserve.Models.Operations.{Value, Fields, DedupeKey, Generation, optional}
use room_reserve.Models.Db.{Db}
use room_reserve.Audit.{record_audit, actor_pk, reconciler_label}
use room_reserve.Outbox.{enqueue}
use room_reserve.Policy.{policy_of, with_policy, current_policy}
use room_reserve.Bookings.{save_booking, is_open_status}
use room_reserve.Action.{Action, for_each, ask, modify, pure, ◌>>=◌, ◌>>◌}
use room_reserve.Due.{booking_payload, reason_field, user_row}

-- `_cancel_scheduled_for_suspension`
abbrev pub is_open_of : ℕ → Booking → Bool
is_open_of user b = b.user == user && is_open_status b.status

unfoldable pub open_bookings : ℕ → Db → List Booking
open_bookings user db =
    order_by (λ a b. leb a.slot_start b.slot_start) (filter (is_open_of user) db.bookings)

unfoldable pub suspended_booking : ℕ → Option User → Booking → Booking
suspended_booking now actor b = record b {
  status = Status.cancelled;
  cancelled_at = some now;
  cancelled_by = actor_pk actor;
  cancel_reason = "SUSPENSION";
  late_cancel = false;
}

unfoldable pub cancel_for_suspension : ℕ → Option User → User → Booking → Db → Db
cancel_for_suspension now actor user b db =
    enqueue "booking_cancelled" (some user)
      (record { name = "booking_cancelled"; id = b.id; generation = Generation.only })
      (booking_payload b db ++ reason_field "SUSPENSION")
      (record_audit "booking.cancelled" "Booking" b.id actor (reconciler_label actor)
        (("status", Value.status Status.cancelled) ∷ ("reason", Value.text "SUSPENSION") ∷ [])
        "Remaining bookings cancelled on suspension; no extra penalty."
        (save_booking b.id (suspended_booking now actor) db))

unfoldable pub cancel_scheduled_for_suspension : ℕ → Option User → User → Db → Db
cancel_scheduled_for_suspension now actor user db =
    for_each (open_bookings user.id db) (cancel_for_suspension now actor user) db

-- `_create_automatic_suspension`
unfoldable pub suspension_reason : PolicyVersion → String
suspension_reason policy = append_text (decimal (strike_threshold policy)) (
    append_text " eligible strikes within "
      (append_text (decimal (strike_window_days policy)) " days."))

unfoldable pub automatic_suspension : ℕ → ℕ → Option User → User → PolicyVersion → Suspension
automatic_suspension id now actor user policy = record {
  id = id;
  user = user.id;
  starts_at = now;
  ends_at = some (now + auto_suspension_days policy * day);
  lifted_at = none;
  lifted_by = none;
  lift_reason = "";
  reason = suspension_reason policy;
  source = SuspensionSource.auto;
  created_by = actor_pk actor;
  start_notified_at = some now;
  end_notified_at = none;
}

abbrev pub is_strike_of : ℕ → ℕ → Violation → Bool
is_strike_of now user v = is_eligible_strike now v && v.user == user

unfoldable pub strike_count : ℕ → ℕ → Db → ℕ
strike_count now user db = count (is_strike_of now user) db.violations

abbrev pub consume : ℕ → Violation → Violation
consume suspension v = record v { consumed_by = some suspension }

unfoldable pub announce_suspension : ℕ → Option User → User → Suspension → List ℕ → Db → Db
announce_suspension now actor user s consumed db =
    enqueue "sanction_applied" (some user)
      (record { name = "suspension_applied"; id = s.id; generation = Generation.only })
      (("suspension_id", Value.num s.id)
        ∷ ("starts_at", Value.iso s.starts_at)
        ∷ ("ends_at", optional Value.iso s.ends_at)
        ∷ ("strike_count", Value.num (length consumed))
        ∷ ("reason", Value.text s.reason)
        ∷ [])
      (record_audit "suspension.applied" "Suspension" s.id actor (reconciler_label actor)
        (("starts_at", Value.iso s.starts_at)
          ∷ ("ends_at", optional Value.iso s.ends_at)
          ∷ ("consumed_violations", Value.nums consumed)
          ∷ [])
        s.reason db)

-- The row, with all the account's strikes that count consumed.
unfoldable pub insert_suspension : ℕ → Suspension → Db → Db
insert_suspension now s db = record db {
  suspensions = db.suspensions ++ (s ∷ []);
  next_suspension = suc db.next_suspension;
  violations = update_where (is_strike_of now s.user) (consume s.id) db.violations;
}

unfoldable pub create_automatic_suspension : ℕ → Option User → PolicyVersion → User → Db → Db
create_automatic_suspension now actor policy user db =
    let s : Suspension = automatic_suspension db.next_suspension now actor user policy in
    let consumed : List ℕ = map (λ v. v.id) (filter (is_strike_of now user.id) db.violations) in
    cancel_scheduled_for_suspension now actor user
      (announce_suspension now actor user s consumed (insert_suspension now s db))

-- `_apply_strike_thresholds`: an account counts when it has a strike at all, and enough of them. The
-- source leaves the order of the accounts open; here it is that of the account table.
abbrev pub is_over_threshold : ℕ → PolicyVersion → Db → User → Bool
is_over_threshold now policy db u =
    ltb 0 (strike_count now u.id db) && leb (strike_threshold policy) (strike_count now u.id db)

unfoldable pub has_active_suspension : ℕ → ℕ → Db → Bool
has_active_suspension now user db =
    any (λ s. s.user == user && is_active_suspension now s) db.suspensions

unfoldable pub suspend_if_free : ℕ → Option User → PolicyVersion → User → Db → Db
suspend_if_free now actor policy user db =
    if has_active_suspension now user.id db
    then db
    else create_automatic_suspension now actor policy user db

-- The count that the source returns goes only into the log.
unfoldable pub apply_strike_thresholds : ℕ → Option User → Db → Db
apply_strike_thresholds now actor db =
    for_each (filter (is_over_threshold now (policy_of db) (with_policy db)) db.users)
      (suspend_if_free now actor (policy_of db)) (with_policy db)

-- `_notify_finished_suspensions`
abbrev pub is_finished : ℕ → Suspension → Bool
is_finished now s =
    is_none s.lifted_at && (holds (λ e. leb e now) s.ends_at && is_none s.end_notified_at)

unfoldable pub notify_finished : ℕ → Suspension → Db → Db
notify_finished now s db =
    enqueue "sanction_lifted" (user_row s.user db)
      (record { name = "suspension_ended"; id = s.id; generation = Generation.only })
      (("suspension_id", Value.num s.id)
        ∷ ("ends_at", optional Value.iso s.ends_at)
        ∷ ("automatic", Value.bool true)
        ∷ [])
      (record db {
        suspensions =
            update_where (λ x. x.id == s.id) (λ x. record x { end_notified_at = some now })
              db.suspensions;
      })

unfoldable pub notify_finished_suspensions : ℕ → Db → Db
notify_finished_suspensions now db =
    for_each (filter (is_finished now) db.suspensions) (notify_finished now) db
