-- ===== src/Reconcile/Overdue.antt =====
-- What reconciliation brings about: nothing is overdue any more.
use room_reserve.Prelude.{ℕ, ◌≡◌, refl, ap, Bool, false, not, ◌&&◌, Option, List, [], ◌∷◌}
use mathlib.Core.Path.{subst}
use room_reserve.Models.Booking.{Booking}
use room_reserve.Models.Account.{User}
use room_reserve.Models.Room.{ServiceIncident}
use room_reserve.Models.Db.{Db}
use room_reserve.Audit.{record_audit}
use room_reserve.Outbox.{enqueue, or_default}
use room_reserve.Bookings.{save_booking}
use room_reserve.Policy.{policy_of, with_policy}
use room_reserve.Action.{Action, ok, for_each, pure, ◌>>=◌}
use room_reserve.Action.Rules.{bind_ok, for_each_keeps}
use room_reserve.Due.{
  is_expired_approval, expired_approvals, expired, expire_approval, reconcile_expired_approvals,
  is_due_no_show, due_no_shows, missed, record_no_show, reconcile_no_shows, unexcused,
  incident_covers, is_starting_hold, starting_holds, hold_started, start_hold, start_staff_holds,
  is_ended, ended_sessions, completed, complete, reconcile_completions, earlier, deadline_or_zero,
}
use room_reserve.Due.Left.{found_Listed, kept_Listed}
use room_reserve.Due.Table.{expired-Saves, missed-Saves, hold_started-Saves, completed-Saves}
use room_reserve.Strikes.{suspended_booking, apply_strike_thresholds, notify_finished_suspensions}
use room_reserve.Reconcile.{reconcile_bookings, reconcile}
use room_reserve.Reconcile.Loops.{
  None, loop_none, loop_keeps_none, work_off_ok, no_shows_ok, sanctions_keep_none,
}

abbrev pub is_overdue_no_show : ℕ → List ServiceIncident → Booking → Bool
is_overdue_no_show now incidents b = is_due_no_show now b && not (incident_covers b incidents)

-- Nothing waits that should have been expired, missed, started or completed.
pub record Settled (now : ℕ) (incidents : List ServiceIncident) (db : Db) : Type 0 where
  pub approvals : None (is_expired_approval now) db
  pub no_shows : None (is_overdue_no_show now incidents) db
  pub holds : None (is_starting_hold now) db
  pub sessions : None (is_ended now) db

same_incidents :
    (now : ℕ) (actor : Option User) (incidents : List ServiceIncident) (ds : List Booking) (db : Db)
    → db.incidents ≡ incidents
    → (for_each ds (expire_approval actor) db).incidents ≡ incidents
same_incidents now actor incidents ds db h =
    for_each_keeps (λ d. d.incidents ≡ incidents) (expire_approval actor)
      (λ b d e. unfold expire_approval enqueue record_audit save_booking in e) ds db h

module _ (now budget : ℕ) (actor : Option User) (incidents : List ServiceIncident) where
  -- The four phases, one after the other: each leaves none of its own, and none of the earlier ones.
  approvals_phase :
      (db : Db) {n : ℕ} {db' : Db}
      → reconcile_expired_approvals now budget actor db ≡ (ok n, db')
      → db.incidents ≡ incidents
      → None (is_expired_approval now) db' × (db'.incidents ≡ incidents)
  unfolding reconcile_expired_approvals expired_approvals expired
  approvals_phase db h same =
      let due = expired_approvals now db in
      let w = work_off_ok budget due (expire_approval actor) db h in
      (
        subst (None (is_expired_approval now)) w (
            loop_none (is_expired_approval now) (λ d. expired) (expire_approval actor)
              (expired-Saves actor) (λ d x. refl) due db
              (found_Listed (is_expired_approval now) (earlier (λ b. b.slot_start)) db.bookings)),
        subst (λ d. d.incidents ≡ incidents) w (same_incidents now actor incidents due db same),
      )

  no_shows_phase :
      (db : Db) {n : ℕ} {db' : Db}
      → reconcile_no_shows now budget actor db ≡ (ok n, db')
      → db.incidents ≡ incidents
      → None (is_expired_approval now) db
      → None (is_expired_approval now) db' × None (is_overdue_no_show now incidents) db'
  unfolding due_no_shows missed with_policy
  no_shows_phase db h same a =
      let due = due_no_shows now db in
      let ds = unexcused due db in
      let body = record_no_show (policy_of db) actor in
      let saves = missed-Saves (policy_of db) actor in
      let w = no_shows_ok now budget actor db h in
      let p = is_overdue_no_show now in
      (
        subst (None (is_expired_approval now)) w (
            loop_keeps_none (is_expired_approval now) (λ d. missed) body saves (λ d x. refl) ds
              (with_policy db) a),
        subst (None (p incidents)) w (
            subst (λ i. None (p i) (for_each ds body (with_policy db))) same
              (loop_none (p db.incidents) (λ d. missed) body saves (λ d x. refl) ds (with_policy db)
                (kept_Listed (is_due_no_show now) (λ b. not (incident_covers b db.incidents))
                  (earlier deadline_or_zero) db.bookings))),
      )

  holds_phase :
      (db : Db) {n : ℕ} {db' : Db}
      → start_staff_holds now budget actor db ≡ (ok n, db')
      → None (is_expired_approval now) db
      → None (is_overdue_no_show now incidents) db
      → None (is_expired_approval now) db'
        × None (is_overdue_no_show now incidents) db'
        × None (is_starting_hold now) db'
  unfolding start_staff_holds starting_holds hold_started
  holds_phase db h a n =
      let due = starting_holds now db in
      let w = work_off_ok budget due (start_hold actor) db h in
      let saves = hold_started-Saves actor in
      let kept =
        λ (p : Booking → Bool) (gone : (d x : Booking) → p (hold_started d x) ≡ false)
            (e : None p db).
          subst (None p) w
            (loop_keeps_none p hold_started (start_hold actor) saves gone due db e) in
      (
        kept (is_expired_approval now) (λ d x. refl) a,
        kept (is_overdue_no_show now incidents) (λ d x. refl) n,
        subst (None (is_starting_hold now)) w (
            loop_none (is_starting_hold now) hold_started (start_hold actor) saves (λ d x. refl) due
              db (found_Listed (is_starting_hold now) (earlier (λ b. b.slot_start)) db.bookings)),
      )

  completions_phase :
      (db : Db) {n : ℕ} {db' : Db}
      → reconcile_completions now budget actor db ≡ (ok n, db')
      → None (is_expired_approval now) db
      → None (is_overdue_no_show now incidents) db
      → None (is_starting_hold now) db
      → Settled now incidents db'
  unfolding reconcile_completions ended_sessions completed
  completions_phase db h a n s =
      let due = ended_sessions now db in
      let w = work_off_ok budget due (complete actor) db h in
      let saves = completed-Saves actor in
      let kept =
        λ (p : Booking → Bool) (gone : (d x : Booking) → p (completed d x) ≡ false) (e : None p db).
          subst (None p) w (loop_keeps_none p completed (complete actor) saves gone due db e) in
      record {
        approvals = kept (is_expired_approval now) (λ d x. refl) a;
        no_shows = kept (is_overdue_no_show now incidents) (λ d x. refl) n;
        holds = kept (is_starting_hold now) (λ d x. refl) s;
        sessions = subst (None (is_ended now)) w (
            loop_none (is_ended now) completed (complete actor) saves (λ d x. refl) due db
              (found_Listed (is_ended now) (earlier (λ b. b.slot_end)) db.bookings));
      }

  bookings_Settled :
      (db : Db) {summary : List ℕ} {db' : Db}
      → db.incidents ≡ incidents
      → reconcile_bookings now budget actor db ≡ (ok summary, db')
      → Settled now incidents db'
  unfolding reconcile_bookings
  bookings_Settled db {db' = db'} same h =
      let end : ℕ → ℕ → ℕ → Action (List ℕ) =
        λ a n s. reconcile_completions now budget actor >>= λ c. pure (a ∷ n ∷ s ∷ c ∷ []) in
      let holds : ℕ → ℕ → Action (List ℕ) = λ a n. start_staff_holds now budget actor >>= end a n in
      let missed : ℕ → Action (List ℕ) = λ a. reconcile_no_shows now budget actor >>= holds a in
      let (a, d1, r1, h1) = bind_ok (reconcile_expired_approvals now budget actor) missed db h in
      let (n, d2, r2, h2) = bind_ok (reconcile_no_shows now budget actor) (holds a) d1 h1 in
      let (s, d3, r3, h3) = bind_ok (start_staff_holds now budget actor) (end a n) d2 h2 in
      let (c, d4, r4, h4) =
        bind_ok (reconcile_completions now budget actor) (λ c. pure (a ∷ n ∷ s ∷ c ∷ [])) d3 h3 in
      let (one, still) = approvals_phase db r1 same in
      let two = no_shows_phase d1 r2 still one in
      let three = holds_phase d2 r3 two.0 two.1 in
      subst (Settled now incidents) (ap (λ r. r.1) h4)
        (completions_phase d3 r4 three.0 three.1 three.2)

-- After a reconciliation that met no backlog, no request for approval is pending at or past its
-- start, no scheduled booking that no incident excuses is at or past its deadline unless it is a
-- staff hold, no staff hold whose hour runs is still scheduled, and no session or staff hold past
-- its end waits to be completed.
pub reconcile-Settled :
    (now : ℕ) (actor : Option User) (budget : Option ℕ) (db : Db) {summary : List ℕ} {db' : Db}
    → reconcile now actor budget db ≡ (ok summary, db')
    → Settled now db.incidents db'
unfolding reconcile suspended_booking
reconcile-Settled now actor budget db h =
    let limit = or_default budget db.settings.reconcile_budget in
    let (s, d, run, rest) =
      bind_ok (reconcile_bookings now limit actor)
        (λ s d. (ok s, notify_finished_suspensions now (apply_strike_thresholds now actor d))) db
        h in
    let t = bookings_Settled now limit actor db.incidents db refl run in
    let kept =
      λ (p : Booking → Bool) (gone : (x : Booking) → p (suspended_booking now actor x) ≡ false)
          (e : None p d).
        subst (None p) (ap (λ r. r.1) rest) (sanctions_keep_none now actor p gone d e) in
    record {
      approvals = kept (is_expired_approval now) (λ x. refl) t.approvals;
      no_shows = kept (is_overdue_no_show now db.incidents) (λ x. refl) t.no_shows;
      holds = kept (is_starting_hold now) (λ x. refl) t.holds;
      sessions = kept (is_ended now) (λ x. refl) t.sessions;
    }
