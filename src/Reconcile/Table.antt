-- ===== src/Reconcile/Table.antt =====
-- Reconciliation keeps the constraints of the booking table, also when it stops at a backlog.
use room_reserve.Prelude.{ℕ, Option, List, [], ◌∷◌}
use room_reserve.Models.Account.{User}
use room_reserve.Models.Db.{Db}
use room_reserve.Bookings.Constraints.{IsConsistent}
use room_reserve.Action.{Action, ok, ◌>>=◌}
use room_reserve.Action.Rules.{bind_keeps}
use room_reserve.Due.Table.{
  reconcile_expired_approvals-IsConsistent, reconcile_no_shows-IsConsistent,
  start_staff_holds-IsConsistent, reconcile_completions-IsConsistent,
}
use room_reserve.Due.{
  reconcile_expired_approvals, reconcile_no_shows, start_staff_holds, reconcile_completions,
}
use room_reserve.Strikes.Table.{
  apply_strike_thresholds-IsConsistent, notify_finished_suspensions-IsConsistent,
}
use room_reserve.Outbox.{or_default}
use room_reserve.Action.{pure}
use room_reserve.Strikes.{apply_strike_thresholds, notify_finished_suspensions}
use room_reserve.Reconcile.{reconcile_bookings, reconcile}

reconcile_bookings-IsConsistent :
    (now budget : ℕ) (actor : Option User) (db : Db)
    → IsConsistent db
    → IsConsistent (reconcile_bookings now budget actor db).1
unfolding reconcile_bookings
reconcile_bookings-IsConsistent now budget actor db t =
    let end : ℕ → ℕ → ℕ → Action (List ℕ) =
      λ a n h. reconcile_completions now budget actor >>= λ c. pure (a ∷ n ∷ h ∷ c ∷ []) in
    let holds : ℕ → ℕ → Action (List ℕ) = λ a n. start_staff_holds now budget actor >>= end a n in
    let missed : ℕ → Action (List ℕ) = λ a. reconcile_no_shows now budget actor >>= holds a in
    bind_keeps IsConsistent (reconcile_expired_approvals now budget actor) missed db
      (reconcile_expired_approvals-IsConsistent now budget actor db t)
      λ a d1 t1.
        bind_keeps IsConsistent (reconcile_no_shows now budget actor) (holds a) d1
          (reconcile_no_shows-IsConsistent now budget actor d1 t1)
          λ n d2 t2.
            bind_keeps IsConsistent (start_staff_holds now budget actor) (end a n) d2
              (start_staff_holds-IsConsistent now budget actor d2 t2)
              λ h d3 t3.
                bind_keeps IsConsistent (reconcile_completions now budget actor)
                  (λ c. pure (a ∷ n ∷ h ∷ c ∷ [])) d3
                  (reconcile_completions-IsConsistent now budget actor d3 t3) λ c d4 t4. t4

-- Reconciliation of a booking table that satisfies all its constraints leaves such a table,
-- whether it returns or stops at a backlog, where the transaction commits what it has done so far.
pub reconcile-IsConsistent :
    (now : ℕ) (actor : Option User) (budget : Option ℕ) (db : Db)
    → IsConsistent db
    → IsConsistent (reconcile now actor budget db).1
unfolding reconcile
reconcile-IsConsistent now actor budget db t =
    bind_keeps IsConsistent
      (reconcile_bookings now (or_default budget db.settings.reconcile_budget) actor)
      (λ summary d.
        (ok summary, notify_finished_suspensions now (apply_strike_thresholds now actor d)))
      db
      (reconcile_bookings-IsConsistent now (or_default budget db.settings.reconcile_budget) actor db
        t)
      λ summary d u.
        notify_finished_suspensions-IsConsistent now _
          (apply_strike_thresholds-IsConsistent now actor d u)
