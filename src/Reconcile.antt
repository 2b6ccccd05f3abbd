-- ===== src/Reconcile.antt =====
-- core/services/reconcile.py: `reconcile`, run under the control lock before each operation, and the
-- reminders of the scheduler's tick.
pub mod Table
pub mod Loops
pub mod Overdue
pub mod Keeps
pub mod Sanctioned
use room_reserve.Prelude.{
  ℕ, ◌+◌, ◌*◌, Bool, true, false, not, ◌&&◌, Option, none, some, List, [], ◌∷◌, filter, order_by,
  ltb, leb,
}
use room_reserve.Settings.{minute}
use room_reserve.Models.Booking.{Booking, is_advance, is_scheduled}
use room_reserve.Models.Account.{User}
use room_reserve.Models.Policy.{PolicyVersion, reminder_lead_minutes}
use room_reserve.Models.Operations.{DedupeKey, Generation}
use room_reserve.Models.Db.{Db}
use room_reserve.Outbox.{enqueue, or_default}
use room_reserve.Policy.{policy_of, with_policy}
use room_reserve.Action.{Action, for_each, ask, modify, pure, ◌>>=◌, ◌>>◌}
use room_reserve.Due.{
  reconcile_expired_approvals, reconcile_no_shows, start_staff_holds, reconcile_completions,
  booking_payload, user_row,
}
use room_reserve.Strikes.{apply_strike_thresholds, notify_finished_suspensions}

-- The four phases on bookings, which may find a backlog; the summary of the counts is their list.
unfoldable pub reconcile_bookings : ℕ → ℕ → Option User → Action (List ℕ)
reconcile_bookings now budget actor = do
  approvals ← reconcile_expired_approvals now budget actor
  no_shows ← reconcile_no_shows now budget actor
  holds ← start_staff_holds now budget actor
  completions ← reconcile_completions now budget actor
  pure (approvals ∷ no_shows ∷ holds ∷ completions ∷ [])

-- `reconcile(now, actor=…, budget=…)`; the counts of the sanctions are left out of the summary.
unfoldable pub reconcile : ℕ → Option User → Option ℕ → Action (List ℕ)
reconcile now actor budget = do
  limit ← ask (λ db. or_default budget db.settings.reconcile_budget)
  summary ← reconcile_bookings now limit actor
  modify (apply_strike_thresholds now actor)
  modify (notify_finished_suspensions now)
  pure summary

-- `enqueue_due_reminders`
abbrev pub is_reminded : ℕ → ℕ → Booking → Bool
is_reminded now until b =
    is_scheduled b.status
    && (is_advance b.source
        && (not b.is_staff_booking && (ltb now b.slot_start && leb b.slot_start until)))

unfoldable pub remind : Booking → Db → Db
remind b db =
    enqueue "booking_reminder" (user_row b.user db)
      (record { name = "booking_reminder"; id = b.id; generation = Generation.only })
      (booking_payload b db) db

unfoldable pub enqueue_due_reminders : ℕ → Db → Db
enqueue_due_reminders now db =
    let until : ℕ = now + reminder_lead_minutes (policy_of db) * minute in
    for_each
      (order_by (λ a b. leb a.slot_start b.slot_start) (filter (is_reminded now until) db.bookings))
      remind (with_policy db)
