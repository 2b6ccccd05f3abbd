-- ===== src/Reconcile/Keeps.antt =====
-- What reconciliation leaves alone: the idempotency records, and the policy in force.
use room_reserve.Prelude.{ℕ, ◌≡◌, refl, ◌∙◌, Option, List, [], ◌∷◌, filter, length, ltb, arith}
use room_reserve.Prelude.Count
use room_reserve.Models.Booking.{Booking}
use room_reserve.Models.Account.{User}
use room_reserve.Models.Policy.{PolicyVersion}
use room_reserve.Models.Sanctions.{Suspension}
use room_reserve.Models.Operations.{OperationRequest}
use room_reserve.Models.Db.{Db}
use room_reserve.Audit.{record_audit}
use room_reserve.Outbox.{enqueue, or_default}
use room_reserve.Policy.{policy_of, with_policy}
use room_reserve.Policy.Laws.{policy_of-with_policy}
use room_reserve.Bookings.{save_booking}
use room_reserve.Action.{Action, Result, Failure, ok, err, for_each, pure, ◌>>=◌}
use room_reserve.Action.Rules.{bind_keeps, for_each_keeps}
use room_reserve.Due.{
  expired_approvals, expire_approval, reconcile_expired_approvals, due_no_shows, record_no_show,
  add_no_show, reconcile_no_shows, unexcused, starting_holds, start_hold, start_staff_holds,
  ended_sessions, complete, reconcile_completions,
}
use room_reserve.Due.Table.{work_off_keeps}
use room_reserve.Strikes.{
  open_bookings, cancel_for_suspension, cancel_scheduled_for_suspension,
  create_automatic_suspension, announce_suspension, insert_suspension, has_active_suspension,
  suspend_if_free, is_over_threshold, apply_strike_thresholds, is_finished, notify_finished,
  notify_finished_suspensions,
}
use room_reserve.Reconcile.{reconcile_bookings, reconcile}

-- Every round of every loop keeps a property, and so does the first use of the policy.
pub record IsStable (now : ℕ) (actor : Option User) (P : Db → Type 0) : Type 0 where
  pub policy : (db : Db) → P db → P (with_policy db)
  pub approval : (b : Booking) (db : Db) → P db → P (expire_approval actor b db)
  pub no_show : (p : PolicyVersion) (b : Booking) (db : Db) → P db → P (record_no_show p actor b db)
  pub hold : (b : Booking) (db : Db) → P db → P (start_hold actor b db)
  pub completion : (b : Booking) (db : Db) → P db → P (complete actor b db)
  pub suspension :
      (u : User) (s : Suspension) (ids : List ℕ) (db : Db)
      → P db
      → P (announce_suspension now actor u s ids (insert_suspension now s db))
  pub cancellation :
      (u : User) (b : Booking) (db : Db) → P db → P (cancel_for_suspension now actor u b db)
  pub notice : (s : Suspension) (db : Db) → P db → P (notify_finished now s db)

module _ (now : ℕ) (actor : Option User) (P : Db → Type 0) (s : IsStable now actor P) where
  suspend_keeps :
      (p : PolicyVersion) (u : User) (db : Db) → P db → P (suspend_if_free now actor p u db)
  unfolding suspend_if_free create_automatic_suspension cancel_scheduled_for_suspension
  suspend_keeps p u db h =
      Count.if_both P (has_active_suspension now u.id db) db
        (create_automatic_suspension now actor p u db) (λ e. h)
        (for_each_keeps P (cancel_for_suspension now actor u) (s.cancellation u)
          (open_bookings u.id _) _ (s.suspension u _ _ db h))

  no_shows_keep : (budget : ℕ) (db : Db) → P db → P (reconcile_no_shows now budget actor db).1
  unfolding reconcile_no_shows
  no_shows_keep budget db h =
      let due = due_no_shows now db in
      let body = record_no_show (policy_of db) actor in
      Count.if_both {A = Result ℕ × Db} (λ r. P r.1) (ltb budget (length due))
        (err Failure.backlog, db)
        (ok (length (unexcused due db)), for_each (unexcused due db) body (with_policy db)) (λ e. h)
        (for_each_keeps P body (s.no_show (policy_of db)) (unexcused due db) (with_policy db)
          (s.policy db h))

  pub bookings_keep : (budget : ℕ) (db : Db) → P db → P (reconcile_bookings now budget actor db).1
  unfolding reconcile_bookings reconcile_expired_approvals start_staff_holds reconcile_completions
  bookings_keep budget db h =
      let end : ℕ → ℕ → ℕ → Action (List ℕ) =
        λ a n s. reconcile_completions now budget actor >>= λ c. pure (a ∷ n ∷ s ∷ c ∷ []) in
      let holds : ℕ → ℕ → Action (List ℕ) = λ a n. start_staff_holds now budget actor >>= end a n in
      let missed : ℕ → Action (List ℕ) = λ a. reconcile_no_shows now budget actor >>= holds a in
      let works =
        λ (due : List Booking) (body : Booking → Db → Db) (d : Db)
            (keep : (b : Booking) (d : Db) → P d → P (body b d)) (k : P d).
          work_off_keeps P budget due body d k (for_each_keeps P body keep due d k) in
      bind_keeps P (reconcile_expired_approvals now budget actor) missed db
        (works (expired_approvals now db) (expire_approval actor) db s.approval h)
        λ a d1 h1.
          bind_keeps P (reconcile_no_shows now budget actor) (holds a) d1
            (no_shows_keep budget d1 h1)
            λ n d2 h2.
              bind_keeps P (start_staff_holds now budget actor) (end a n) d2
                (works (starting_holds now d2) (start_hold actor) d2 s.hold h2)
                λ t d3 h3.
                  bind_keeps P (reconcile_completions now budget actor)
                    (λ c. pure (a ∷ n ∷ t ∷ c ∷ [])) d3
                    (works (ended_sessions now d3) (complete actor) d3 s.completion h3)
                    λ c d4 h4. h4

  pub thresholds_keep : (db : Db) → P db → P (apply_strike_thresholds now actor db)
  unfolding apply_strike_thresholds
  thresholds_keep d k =
      for_each_keeps P (suspend_if_free now actor (policy_of d)) (suspend_keeps (policy_of d))
        (filter (is_over_threshold now (policy_of d) (with_policy d)) d.users) (with_policy d)
        (s.policy d k)

  pub reconcile_keeps : (budget : Option ℕ) (db : Db) → P db → P (reconcile now actor budget db).1
  unfolding reconcile notify_finished_suspensions
  reconcile_keeps budget db h =
      let limit = or_default budget db.settings.reconcile_budget in
      bind_keeps P (reconcile_bookings now limit actor)
        (λ sum d. (ok sum, notify_finished_suspensions now (apply_strike_thresholds now actor d)))
        db (bookings_keep limit db h)
        λ sum d k.
          for_each_keeps P (notify_finished now) s.notice
            (filter (is_finished now) (apply_strike_thresholds now actor d).suspensions)
            (apply_strike_thresholds now actor d) (thresholds_keep d k)

pub requests-IsStable :
    (now : ℕ) (actor : Option User) (rows : List OperationRequest)
    → IsStable now actor (λ d. d.requests ≡ rows)
unfolding with_policy expire_approval record_no_show add_no_show start_hold complete
    announce_suspension insert_suspension cancel_for_suspension notify_finished enqueue record_audit
    save_booking
requests-IsStable now actor rows = record {
  policy = λ db h. h;
  approval = λ b db h. h;
  no_show = λ p b db h. ground (arith, h);
  hold = λ b db h. h;
  completion = λ b db h. h;
  suspension = λ u s ids db h. h;
  cancellation = λ u b db h. h;
  notice = λ s db h. h;
}

pub reconcile-requests :
    (now : ℕ) (actor : Option User) (budget : Option ℕ) (db : Db)
    → (reconcile now actor budget db).1.requests ≡ db.requests
reconcile-requests now actor budget db =
    reconcile_keeps now actor (λ d. d.requests ≡ db.requests)
      (requests-IsStable now actor db.requests) budget db refl

pub policy-IsStable :
    (now : ℕ) (actor : Option User) (p : PolicyVersion) → IsStable now actor (λ d. policy_of d ≡ p)
unfolding policy_of expire_approval record_no_show add_no_show start_hold complete
    announce_suspension insert_suspension cancel_for_suspension notify_finished enqueue record_audit
    save_booking
policy-IsStable now actor p = record {
  policy = λ db h. policy_of-with_policy db ∙ h;
  approval = λ b db h. h;
  no_show = λ q b db h. ground (arith, h);
  hold = λ b db h. h;
  completion = λ b db h. h;
  suspension = λ u s ids db h. h;
  cancellation = λ u b db h. h;
  notice = λ s db h. h;
}

-- Reconciliation runs under one policy, which is the one in force afterwards.
pub reconcile-policy_of :
    (now : ℕ) (actor : Option User) (budget : Option ℕ) (db : Db)
    → policy_of (reconcile now actor budget db).1 ≡ policy_of db
reconcile-policy_of now actor budget db =
    reconcile_keeps now actor (λ d. policy_of d ≡ policy_of db)
      (policy-IsStable now actor (policy_of db)) budget db refl
