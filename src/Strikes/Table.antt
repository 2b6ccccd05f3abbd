-- ===== src/Strikes/Table.antt =====
-- The sanctions that reconciliation applies keep the constraints of the booking table.
use room_reserve.Prelude.{ℕ, refl, true, Option, filter, leb, arith}
use room_reserve.Prelude.Count
use room_reserve.Models.Account.{User}
use room_reserve.Models.Policy.{PolicyVersion}
use room_reserve.Models.Db.{Db}
use room_reserve.Audit.{record_audit}
use room_reserve.Outbox.{enqueue}
use room_reserve.Policy.{policy_of, with_policy}
use room_reserve.Bookings.{save_booking}
use room_reserve.Bookings.Constraints.{IsConsistent}
use room_reserve.Action.Rules.{for_each_keeps}
use room_reserve.Due.Rows.{Saves, Steps}
use room_reserve.Due.Found.{found_ready}
use room_reserve.Due.Table.{loop-IsConsistent}
use room_reserve.Strikes.{
  is_open_of, open_bookings, suspended_booking, cancel_for_suspension,
  cancel_scheduled_for_suspension, announce_suspension, insert_suspension,
  create_automatic_suspension, is_over_threshold, has_active_suspension, suspend_if_free,
  apply_strike_thresholds, is_finished, notify_finished, notify_finished_suspensions,
}

module _ (now : ℕ) (actor : Option User) where
  pub suspended_booking-Saves :
      (user : User)
      → Saves (λ d. suspended_booking now actor) (cancel_for_suspension now actor user)
  unfolding cancel_for_suspension enqueue record_audit save_booking
  suspended_booking-Saves user = record { rows = λ d db. refl; next = λ d db. refl }

  suspended_booking-Steps : Steps (λ d. suspended_booking now actor) (λ d x. true)
  unfolding suspended_booking
  suspended_booking-Steps = record {
    key = λ d x. refl;
    row = λ d x r h. record {
      length = r.length;
      aligned = r.aligned;
      dated = r.dated;
      walk_in = ground arith;
      deadline = r.deadline;
      within = r.within;
      checkin = r.checkin;
      cancellation = refl;
      reason = refl;
    };
    room = λ d x room start h e. ground arith;
    user = λ d x user start h e. ground arith;
    stays = λ d e x h k. refl;
  }

  cancel_scheduled-IsConsistent :
      (user : User) (db : Db)
      → IsConsistent db
      → IsConsistent (cancel_scheduled_for_suspension now actor user db)
  unfolding cancel_scheduled_for_suspension open_bookings
  cancel_scheduled-IsConsistent user db t =
      loop-IsConsistent (λ d. suspended_booking now actor) (cancel_for_suspension now actor user)
        (λ d x. true) (suspended_booking-Saves user) suspended_booking-Steps
        (open_bookings user.id db) db
        (found_ready (λ d x. true) (is_open_of user.id) (λ a b. leb a.slot_start b.slot_start)
          db.bookings (λ d e. refl) t.keys)
        t

  suspend_if_free-IsConsistent :
      (policy : PolicyVersion) (user : User) (db : Db)
      → IsConsistent db
      → IsConsistent (suspend_if_free now actor policy user db)
  unfolding suspend_if_free create_automatic_suspension
  suspend_if_free-IsConsistent policy user db t =
      Count.if_both IsConsistent (has_active_suspension now user.id db) db
        (create_automatic_suspension now actor policy user db) (λ e. t)
        (cancel_scheduled-IsConsistent user _
          (unfold announce_suspension insert_suspension enqueue record_audit in t))

  pub apply_strike_thresholds-IsConsistent :
      (db : Db) → IsConsistent db → IsConsistent (apply_strike_thresholds now actor db)
  unfolding apply_strike_thresholds
  apply_strike_thresholds-IsConsistent db t =
      for_each_keeps IsConsistent (suspend_if_free now actor (policy_of db))
        (suspend_if_free-IsConsistent (policy_of db))
        (filter (is_over_threshold now (policy_of db) (with_policy db)) db.users) (with_policy db)
        (unfold with_policy in t)

pub notify_finished_suspensions-IsConsistent :
    (now : ℕ) (db : Db) → IsConsistent db → IsConsistent (notify_finished_suspensions now db)
unfolding notify_finished_suspensions
notify_finished_suspensions-IsConsistent now db t =
    for_each_keeps IsConsistent (notify_finished now)
      (λ s db t. unfold notify_finished enqueue in t) (filter (is_finished now) db.suspensions) db t
