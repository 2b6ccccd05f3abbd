-- ===== src/Reconcile/Loops.antt =====
-- The loops of reconciliation, by the tests that no booking passes afterwards.
use room_reserve.Prelude.{ℕ, ◌≡◌, ap, ◌∙◌, Bool, false, Option, List, any, filter, All, arith}
use room_reserve.Prelude.Count
use room_reserve.Models.Booking.{Booking}
use room_reserve.Models.Account.{User}
use room_reserve.Models.Policy.{PolicyVersion}
use room_reserve.Models.Db.{Db}
use room_reserve.Audit.{record_audit}
use room_reserve.Outbox.{enqueue}
use room_reserve.Policy.{policy_of, with_policy}
use room_reserve.Action.{ok, for_each}
use room_reserve.Action.Rules.{for_each_keeps}
use room_reserve.Due.{work_off, due_no_shows, record_no_show, reconcile_no_shows, unexcused}
use room_reserve.Due.Rows.{Saves, for_each_rows}
use room_reserve.Due.Left.{Listed, updates_none, updates_keep_none}
use room_reserve.Strikes.{
  suspended_booking, open_bookings, cancel_for_suspension, cancel_scheduled_for_suspension,
  create_automatic_suspension, announce_suspension, insert_suspension, has_active_suspension,
  suspend_if_free, is_over_threshold, apply_strike_thresholds, is_finished, notify_finished,
  notify_finished_suspensions,
}
use room_reserve.Strikes.Table.{suspended_booking-Saves}

-- No row passes the test.
abbrev pub None : (Booking → Bool) → Db → Type 0
None p db = any p db.bookings ≡ false

module _ (p : Booking → Bool) (f : Booking → Booking → Booking) (body : Booking → Db → Db)
    (s : Saves f body) (gone : (d x : Booking) → p (f d x) ≡ false) where
  pub loop_none :
      (ds : List Booking) (db : Db) → All (Listed p ds) db.bookings → None p (for_each ds body db)
  loop_none ds db l =
      ap (any p) (for_each_rows f body s ds db).0 ∙ updates_none p f gone ds db.bookings l

  pub loop_keeps_none : (ds : List Booking) (db : Db) → None p db → None p (for_each ds body db)
  loop_keeps_none ds db h =
      ap (any p) (for_each_rows f body s ds db).0 ∙ updates_keep_none p f gone ds db.bookings h

pub work_off_ok :
    (budget : ℕ) (due : List Booking) (body : Booking → Db → Db) (db : Db) {n : ℕ} {db' : Db}
    → work_off budget due body db ≡ (ok n, db')
    → for_each due body db ≡ db'
unfolding work_off
work_off_ok budget due body db h = ground arith

pub no_shows_ok :
    (now budget : ℕ) (actor : Option User) (db : Db) {n : ℕ} {db' : Db}
    → reconcile_no_shows now budget actor db ≡ (ok n, db')
    → for_each
        (unexcused (due_no_shows now db) db)
        (record_no_show (policy_of db) actor)
        (with_policy db)
      ≡ db'
unfolding reconcile_no_shows
no_shows_ok now budget actor db h = ground arith

-- The sanctions cancel bookings, so a test that no cancelled booking passes lets no row pass that did
-- not before.
module _ (now : ℕ) (actor : Option User) (p : Booking → Bool)
    (gone : (x : Booking) → p (suspended_booking now actor x) ≡ false) where
  suspend_keeps_none :
      (policy : PolicyVersion) (user : User) (db : Db)
      → None p db
      → None p (suspend_if_free now actor policy user db)
  unfolding suspend_if_free create_automatic_suspension cancel_scheduled_for_suspension
  suspend_keeps_none policy user db h =
      Count.if_both (None p) (has_active_suspension now user.id db) db
        (create_automatic_suspension now actor policy user db) (λ e. h)
        (loop_keeps_none p (λ d. suspended_booking now actor) (cancel_for_suspension now actor user)
          (suspended_booking-Saves now actor user) (λ d x. gone x) (open_bookings user.id _) _
          (unfold announce_suspension insert_suspension enqueue record_audit in h))

  pub sanctions_keep_none :
      (db : Db)
      → None p db
      → None p (notify_finished_suspensions now (apply_strike_thresholds now actor db))
  unfolding apply_strike_thresholds notify_finished_suspensions with_policy
  sanctions_keep_none db h =
      for_each_keeps (None p) (notify_finished now) (λ s db h. unfold notify_finished enqueue in h)
        (filter (is_finished now) (apply_strike_thresholds now actor db).suspensions)
        (apply_strike_thresholds now actor db)
        (for_each_keeps (None p) (suspend_if_free now actor (policy_of db))
          (suspend_keeps_none (policy_of db))
          (filter (is_over_threshold now (policy_of db) (with_policy db)) db.users) (with_policy db)
          h)
