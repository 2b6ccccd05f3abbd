-- ===== src/Lifetime.antt =====
-- The life of a deployment: requests, ticks, the passing of time, and the worker, in any order.
use room_reserve.Prelude.{ℕ, Bool, Option, String}
use room_reserve.Models.Account.{User}
use room_reserve.Models.Operations.{Fields, Notification}
use room_reserve.Models.Db.{Db}
use room_reserve.Policy.{policy_of}
use room_reserve.Protocol.{run_once}
use room_reserve.Protocol.Operations.{Operation, request_of}
use room_reserve.Protocol.Table.{IsSound, run_once-IsSound}
use room_reserve.Delivery.{Attempt, drain}
use room_reserve.Scheduler.{run_tick}
use room_reserve.Scheduler.Ticks.{run_tick-IsSound, drain-IsSound}

module _ (digest : Fields → String) (invitation_stale : Notification → ℕ → Option String)
    (send : Notification → Attempt) where
  infix 40 ◌⟶◌ ◌⟶*◌
  -- One step: a request of any operation by anyone, at any time and with any key; a tick; a worker that
  -- is run by hand; or the clock.
  pub data ◌⟶◌ : Db → Db → Type 0 where
    request :
        (lock_free : Bool) (now : ℕ) (op : Operation) (actor : Option User) (payload : Fields)
        (name key : String) (db : Db)
        → db ⟶ (run_once digest lock_free now (request_of op actor payload name key) db).1
    tick :
        (locked : Notification → Bool) (fresh : ℕ → ℕ) (lock_free enabled : Bool)
        (captured mail_time : ℕ) (db : Db)
        → db
          ⟶ (run_tick invitation_stale send locked fresh lock_free enabled captured mail_time db).1
    worker :
        (locked : Notification → Bool) (fresh : ℕ → ℕ) (enabled : Bool) (now : ℕ) (limit : Option ℕ)
        (db : Db)
        → db ⟶ drain invitation_stale send enabled now limit locked fresh db
    clock : (wall : ℕ) (db : Db) → db ⟶ record db { wall = wall }

  pub data ◌⟶*◌ : Db → Db → Type 0 where
    here : {db : Db} → db ⟶* db
    step : {a b c : Db} → a ⟶ b → b ⟶* c → a ⟶* c

  step-IsSound : {a b : Db} → a ⟶ b → IsSound a → IsSound b
  unfolding policy_of
  step-IsSound (request lock_free now op actor payload name key db) s =
      run_once-IsSound digest lock_free now op actor payload name key db s
  step-IsSound (tick locked fresh lock_free enabled captured mail_time db) s =
      run_tick-IsSound invitation_stale send locked fresh lock_free enabled captured mail_time db s
  step-IsSound (worker locked fresh enabled now limit db) s =
      drain-IsSound invitation_stale send locked fresh enabled now limit db s
  step-IsSound (clock wall db) s = record {
    consistent = s.consistent;
    grace = record { some_grace = s.grace.some_grace; within_hour = s.grace.within_hour };
  }

  -- Whatever requests, ticks and workers follow on one another, from a database with a consistent
  -- booking table and a policy whose grace period is 1 to 60 minutes only such databases are reached: no
  -- two bookings that hold a room ever share its hour, no account but staff ever holds an hour twice,
  -- and every row satisfies the constraints.
  pub reached-IsSound : {a b : Db} → a ⟶* b → IsSound a → IsSound b
  reached-IsSound here s = s
  reached-IsSound (step s rest) t = reached-IsSound rest (step-IsSound s t)
