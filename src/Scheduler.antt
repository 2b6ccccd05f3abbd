-- ===== src/Scheduler.antt =====
-- core/services/scheduler.py: one tick. Reconciliation and the reminders run in one transaction under
-- the control lock, the queue is drained behind it, and the heartbeat is written.
pub mod Ticks
use room_reserve.Prelude.{
  ℕ, Bool, true, false, not, Option, none, some, String, List, [], ◌∷◌, ◌++◌, any, update_where,
  ◌==◌, if◌then◌else◌,
}
use room_reserve.Prelude.Text.{same_text}
use room_reserve.Models.Operations.{Notification, JobHeartbeat}
use room_reserve.Models.Db.{Db}
use room_reserve.Action.{Action, Result, ok, err, Failure, modify, pure, ◌>>=◌, ◌>>◌}
use room_reserve.Reconcile.{reconcile, enqueue_due_reminders}
use room_reserve.Delivery.{Attempt, drain}

abbrev pub heartbeat_name : String
heartbeat_name = "tick"

-- `JobHeartbeat.objects.update_or_create(…)`; the detail, which is a list of counts, is left out.
unfoldable pub beat : ℕ → Db → Db
beat moment db = record db {
  heartbeats =
      if any (λ h. same_text h.name heartbeat_name) db.heartbeats
      then update_where (λ h. same_text h.name heartbeat_name)
          (λ h. record h { last_run_at = moment }) db.heartbeats
      else db.heartbeats ++ (record { name = heartbeat_name; last_run_at = moment } ∷ []);
}

-- The block of the transaction: an exception takes back all of it.
unfoldable pub control_block : ℕ → Action (List ℕ)
control_block now = do
  summary ← reconcile now none none
  modify (enqueue_due_reminders now)
  pure summary

abbrev pub atomically : Action (List ℕ) → Action (List ℕ)
atomically body db = let (r, d) = body db in elim r [ ok s ↦ (ok s, d) | err e ↦ (err e, db) ]

pub data Tick : Type 0 where
  skipped : Tick
  ticked : List ℕ → Tick

module _ (invitation_stale : Notification → ℕ → Option String) (send : Notification → Attempt)
    (locked : Notification → Bool) (fresh : ℕ → ℕ) where
  -- What follows the transaction. `mail_time` is the wall clock behind it.
  unfoldable pub after_block : Bool → ℕ → ℕ → Result (List ℕ) × Db → Result Tick × Db
  after_block enabled captured mail_time (ok summary, db) = (
    ok (Tick.ticked summary),
    beat captured (drain invitation_stale send enabled mail_time none locked fresh db),
  )
  after_block enabled captured mail_time (err e, db) = (err e, db)

  -- `run_tick()`: the advisory lock was got or not, the clock reads `captured` under the control
  -- lock, and `enabled` is the setting OUTBOX_ENABLED. The advisory lock is given back in any case.
  unfoldable pub run_tick : Bool → Bool → ℕ → ℕ → Action Tick
  run_tick false enabled captured mail_time db = (ok Tick.skipped, db)
  run_tick true enabled captured mail_time db =
      after_block enabled captured mail_time (atomically (control_block captured) db)
