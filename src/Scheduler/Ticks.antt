-- ===== src/Scheduler/Ticks.antt =====
-- What a tick leaves: valid tables, whatever it meets, and nothing overdue when it ran.
use room_reserve.Prelude.{ℕ, ◌≡◌, refl, sym, ap, ◌∙◌, Bool, true, false, Option, none, String, List}
use room_reserve.Models.Booking.{Booking}
use room_reserve.Models.Room.{ServiceIncident}
use room_reserve.Models.Operations.{Notification}
use room_reserve.Models.Db.{Db}
use room_reserve.Outbox.{enqueue, claim_due, mark_sent, mark_failed, cancel}
use room_reserve.Policy.{policy_of, with_policy}
use room_reserve.Policy.Laws.{policy_of-with_policy}
use room_reserve.Action.{Result, ok, err}
use room_reserve.Action.Rules.{for_each_keeps}
use room_reserve.Reconcile.{reconcile, remind, enqueue_due_reminders}
use room_reserve.Reconcile.Overdue.{Settled, reconcile-Settled}
use room_reserve.Delivery.{Attempt, settle, deliver, work, drain}
use room_reserve.Protocol.Table.{IsSound, reconcile-IsSound}
use room_reserve.Scheduler.{beat, control_block, Tick, after_block, run_tick}

-- The tables that neither reminders nor the worker touch.
IsAside : Db → Db → Type 0
IsAside db d =
    (d.bookings ≡ db.bookings)
    × (d.next_booking ≡ db.next_booking)
    × (d.requests ≡ db.requests)
    × (policy_of d ≡ policy_of db)

remind-IsAside : (db : Db) (b : Booking) (d : Db) → IsAside db d → IsAside db (remind b d)
unfolding IsAside remind enqueue policy_of
remind-IsAside db b d h = h

settle-IsAside :
    (n : Notification) (now : ℕ) (a : Attempt) (db d : Db)
    → IsAside db d
    → IsAside db (settle n now a d)
unfolding IsAside settle mark_sent mark_failed cancel policy_of
settle-IsAside n now Attempt.delivered db d h = h
settle-IsAside n now (Attempt.stale why) db d h = h
settle-IsAside n now (Attempt.failed error) db d h = h

enqueue_due_reminders-IsAside : (now : ℕ) (db : Db) → IsAside db (enqueue_due_reminders now db)
unfolding enqueue_due_reminders
enqueue_due_reminders-IsAside now db =
    for_each_keeps (IsAside db) remind (remind-IsAside db) _ (with_policy db)
      (unfold IsAside with_policy in (refl, refl, refl, policy_of-with_policy db))

aside-IsSound : (db d : Db) → IsAside db d → IsSound db → IsSound d
unfolding IsAside
aside-IsSound db d a s = record {
  consistent = rw (a.0, a.1) s.consistent;
  grace = record {
    some_grace = rw (a.3) s.grace.some_grace;
    within_hour = rw (a.3) s.grace.within_hour;
  };
}

bookings_of : (a b : Db) → IsAside a b → b.bookings ≡ a.bookings
unfolding IsAside
bookings_of a b h = h.0

aside-Settled :
    (now : ℕ) (incidents : List ServiceIncident) (db d : Db)
    → d.bookings ≡ db.bookings
    → Settled now incidents db
    → Settled now incidents d
aside-Settled now incidents db d same t = record {
  approvals = rw same t.approvals;
  no_shows = rw same t.no_shows;
  holds = rw same t.holds;
  sessions = rw same t.sessions;
}

module _ (invitation_stale : Notification → ℕ → Option String) (send : Notification → Attempt)
    (locked : Notification → Bool) (fresh : ℕ → ℕ) where
  drain-IsAside :
      (enabled : Bool) (now : ℕ) (limit : Option ℕ) (db : Db)
      → IsAside db (drain invitation_stale send enabled now limit locked fresh db)
  unfolding drain
  drain-IsAside false now limit db = unfold IsAside in (refl, refl, refl, refl)
  drain-IsAside true now limit db =
      for_each_keeps (IsAside db) (work invitation_stale send now)
        (λ n d h.
          unfold work in settle-IsAside n now (deliver invitation_stale send n now d) db d h)
        (claim_due now limit none locked fresh db).0 (claim_due now limit none locked fresh db).1
        (unfold IsAside claim_due policy_of in (refl, refl, refl, refl))

  pub drain-IsSound :
      (enabled : Bool) (now : ℕ) (limit : Option ℕ) (db : Db)
      → IsSound db
      → IsSound (drain invitation_stale send enabled now limit locked fresh db)
  drain-IsSound enabled now limit db t = aside-IsSound db _ (drain-IsAside enabled now limit db) t

  -- What follows the transaction leaves the bookings alone as well.
  after_block-IsAside :
      (enabled : Bool) (captured mail_time : ℕ) (summary : List ℕ) (db : Db)
      → IsAside db
          (after_block invitation_stale send locked fresh enabled captured mail_time
            (ok summary, db)).1
  unfolding after_block beat IsAside policy_of
  after_block-IsAside enabled captured mail_time summary db =
      unfold IsAside policy_of in drain-IsAside enabled mail_time none db

  -- A tick, run on sound tables, leaves sound tables, whether it is skipped, meets a backlog or ends.
  pub run_tick-IsSound :
      (lock_free enabled : Bool) (captured mail_time : ℕ) (db : Db)
      → IsSound db
      → IsSound
          (run_tick invitation_stale send locked fresh lock_free enabled captured mail_time db).1
  unfolding run_tick control_block
  run_tick-IsSound false enabled captured mail_time db t = t
  run_tick-IsSound true enabled captured mail_time db t =
      go (reconcile captured none none db).0 (reconcile captured none none db).1
        (reconcile-IsSound captured none db t)
    where
      go :
          (x : Result (List ℕ)) (d : Db)
          → IsSound d
          → IsSound
              (after_block invitation_stale send locked fresh enabled captured mail_time (
                let y : Result (List ℕ) × Db = elim x [
                  | ok s ↦ (ok s, enqueue_due_reminders captured d)
                  | err e ↦ (err e, d)
                ] in
                elim (y.0) as (λ _. Result (List ℕ) × Db) [
                  | ok s ↦ (ok s, y.1)
                  | err e ↦ (err e, db)
                ])).1
      go (ok s) d u =
          aside-IsSound _ _
            (after_block-IsAside enabled captured mail_time s (enqueue_due_reminders captured d))
            (aside-IsSound d _ (enqueue_due_reminders-IsAside captured d) u)
      go (err e) d u = unfold after_block in t

  -- After a tick that ran, nothing waits that was due at its instant: no pending approval, no missed
  -- check-in that no incident excuses, no staff hold to begin, and no session to end.
  pub run_tick-Settled :
      (enabled : Bool) (captured mail_time : ℕ) (db : Db) {summary : List ℕ} {db' : Db}
      → run_tick invitation_stale send locked fresh true enabled captured mail_time db
        ≡ (ok (Tick.ticked summary), db')
      → Settled captured db.incidents db'
  unfolding run_tick control_block
  run_tick-Settled enabled captured mail_time db {summary} {db'} h =
      go (reconcile captured none none db).0 (reconcile captured none none db).1 refl h
    where
      go :
          (x : Result (List ℕ)) (d : Db)
          → Path (Result (List ℕ) × Db) (reconcile captured none none db) (x, d)
          → Path
              (Result Tick × Db)
              (after_block invitation_stale send locked fresh enabled captured mail_time (
                let y : Result (List ℕ) × Db = elim x [
                  | ok s ↦ (ok s, enqueue_due_reminders captured d)
                  | err e ↦ (err e, d)
                ] in
                elim (y.0) as (λ _. Result (List ℕ) × Db) [
                  | ok s ↦ (ok s, y.1)
                  | err e ↦ (err e, db)
                ]))
              (ok (Tick.ticked summary), db')
          → Settled captured db.incidents db'
      go (ok s) d e k =
          aside-Settled captured db.incidents d db'
            (ap (λ r. r.1.bookings) (sym k)
              ∙ (bookings_of (enqueue_due_reminders captured d) _ (
                    after_block-IsAside enabled captured mail_time s
                      (enqueue_due_reminders captured d))
                  ∙ bookings_of d (enqueue_due_reminders captured d)
                      (enqueue_due_reminders-IsAside captured d)))
            (reconcile-Settled captured none none db e)
      go (err e) d k r = unfold after_block in cc r
