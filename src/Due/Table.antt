-- ===== src/Due/Table.antt =====
-- The four phases on due bookings: each keeps the constraints of the booking table, whether it works
-- its bookings off or finds a backlog.
use room_reserve.Prelude.{
  ℕ, ◌≡◌, refl, sym, Bool, true, not, ◌&&◌, Option, List, length, All, ltb, ◌==◌, arith,
}
use mathlib.Core.Path.{subst₂}
use room_reserve.Prelude.Count
use room_reserve.Models.Booking.{Booking, is_blocking, is_cancelled}
use room_reserve.Models.Account.{User}
use room_reserve.Models.Policy.{PolicyVersion}
use room_reserve.Models.Db.{Db}
use room_reserve.Audit.{record_audit}
use room_reserve.Outbox.{enqueue}
use room_reserve.Policy.{policy_of, with_policy}
use room_reserve.Bookings.{save_booking}
use room_reserve.Bookings.Constraints.{IsTable, IsConsistent}
use room_reserve.Action.{Result, Failure, ok, err, for_each}
use room_reserve.Due.{
  work_off, earlier, is_expired_approval, expired_approvals, expired, expire_approval,
  reconcile_expired_approvals, is_due_no_show, due_no_shows, missed, add_no_show, record_no_show,
  reconcile_no_shows, unexcused, incident_covers, deadline_or_zero, is_starting_hold,
  starting_holds, hold_started, start_hold, start_staff_holds, is_ended, ended_sessions, completed,
  complete, reconcile_completions,
}
use room_reserve.Due.Rows.{Saves, Steps, ReadyRows, for_each_rows, updates-IsTable}
use room_reserve.Due.Found.{filter-All, found_ready}

pub expired-Saves : (actor : Option User) → Saves (λ d. expired) (expire_approval actor)
unfolding expire_approval enqueue record_audit save_booking
expired-Saves actor = record { rows = λ d db. refl; next = λ d db. refl }

pub missed-Saves :
    (policy : PolicyVersion) (actor : Option User)
    → Saves (λ d. missed) (record_no_show policy actor)
unfolding record_no_show add_no_show enqueue record_audit save_booking
missed-Saves policy actor = record { rows = λ d db. ground arith; next = λ d db. ground arith }

pub hold_started-Saves : (actor : Option User) → Saves hold_started (start_hold actor)
unfolding start_hold record_audit save_booking
hold_started-Saves actor = record { rows = λ d db. refl; next = λ d db. refl }

pub completed-Saves : (actor : Option User) → Saves completed (complete actor)
unfolding complete record_audit save_booking
completed-Saves actor = record { rows = λ d db. refl; next = λ d db. refl }

-- A row that is not cancelled may give up its hour.
abbrev pub not_cancelled : Booking → Booking → Bool
not_cancelled d x = not (is_cancelled x.status)

expired-Steps : Steps (λ d. expired) not_cancelled
unfolding expired
expired-Steps = record {
  key = λ d x. refl;
  row = λ d x r h. record {
    length = r.length;
    aligned = r.aligned;
    dated = r.dated;
    walk_in = ground arith;
    deadline = r.deadline;
    within = r.within;
    checkin = r.checkin;
    cancellation = ground (arith, r.cancellation);
    reason = r.reason;
  };
  room = λ d x room start h e. ground arith;
  user = λ d x user start h e. ground arith;
  stays = λ d e x h k. refl;
}

missed-Steps : Steps (λ d. missed) not_cancelled
unfolding missed
missed-Steps = record {
  key = λ d x. refl;
  row = λ d x r h. record {
    length = r.length;
    aligned = r.aligned;
    dated = r.dated;
    walk_in = ground arith;
    deadline = r.deadline;
    within = r.within;
    checkin = r.checkin;
    cancellation = ground (arith, r.cancellation);
    reason = r.reason;
  };
  room = λ d x room start h e. ground arith;
  user = λ d x user start h e. ground arith;
  stays = λ d e x h k. refl;
}

-- A row that holds its hour, at the instant at which the booking was found, may go on holding it.
abbrev pub holds_hour : Booking → Booking → Bool
holds_hour d x = is_blocking x.status && x.slot_start == d.slot_start

hold_started-Steps : Steps hold_started holds_hour
unfolding hold_started
hold_started-Steps = record {
  key = λ d x. refl;
  row = λ d x r h. record {
    length = r.length;
    aligned = r.aligned;
    dated = r.dated;
    walk_in = ground arith;
    deadline = r.deadline;
    within = r.within;
    checkin = ground (arith, r.length);
    cancellation = ground (arith, r.cancellation);
    reason = r.reason;
  };
  room = λ d x room start h e. ground arith;
  user = λ d x user start h e. ground arith;
  stays = λ d e x h k. ground arith;
}

completed-Steps : Steps completed holds_hour
unfolding completed
completed-Steps = record {
  key = λ d x. refl;
  row = λ d x r h. record {
    length = r.length;
    aligned = r.aligned;
    dated = r.dated;
    walk_in = ground arith;
    deadline = r.deadline;
    within = r.within;
    checkin = r.checkin;
    cancellation = ground (arith, r.cancellation);
    reason = r.reason;
  };
  room = λ d x room start h e. ground arith;
  user = λ d x user start h e. ground arith;
  stays = λ d e x h k. ground arith;
}

-- A loop that saves what a query found keeps the table, when the query's test makes a row ready.
pub loop-IsConsistent :
    (f : Booking → Booking → Booking) (body : Booking → Db → Db) (ready : Booking → Booking → Bool)
    → Saves f body
    → Steps f ready
    → (ds : List Booking) (db : Db) → All (ReadyRows ready db.bookings) ds
    → IsConsistent db
    → IsConsistent (for_each ds body db)
loop-IsConsistent f body ready saves steps ds db found t =
    let (rows, next) = for_each_rows f body saves ds db in
    subst₂ IsTable (sym next) (sym rows)
      (updates-IsTable f ready steps db.next_booking ds db.bookings found t)

pub work_off_keeps :
    (P : Db → Type 0) (budget : ℕ) (due : List Booking) (body : Booking → Db → Db) (db : Db)
    → P db
    → P (for_each due body db)
    → P (work_off budget due body db).1
unfolding work_off
work_off_keeps P budget due body db h k =
    Count.if_both {A = Result ℕ × Db} (λ r. P r.1) (ltb budget (length due))
      (err Failure.backlog, db) (ok (length due), for_each due body db) (λ e. h) k

pub reconcile_expired_approvals-IsConsistent :
    (now budget : ℕ) (actor : Option User) (db : Db)
    → IsConsistent db
    → IsConsistent (reconcile_expired_approvals now budget actor db).1
unfolding reconcile_expired_approvals expired_approvals
reconcile_expired_approvals-IsConsistent now budget actor db t =
    work_off_keeps IsConsistent budget (expired_approvals now db) (expire_approval actor) db t (
      loop-IsConsistent (λ d. expired) (expire_approval actor) not_cancelled (expired-Saves actor)
        expired-Steps (expired_approvals now db) db
        (found_ready not_cancelled (is_expired_approval now) (earlier (λ b. b.slot_start))
          db.bookings (λ d e. ground arith) t.keys)
        t)

pub start_staff_holds-IsConsistent :
    (now budget : ℕ) (actor : Option User) (db : Db)
    → IsConsistent db
    → IsConsistent (start_staff_holds now budget actor db).1
unfolding start_staff_holds starting_holds
start_staff_holds-IsConsistent now budget actor db t =
    work_off_keeps IsConsistent budget (starting_holds now db) (start_hold actor) db t (
      loop-IsConsistent hold_started (start_hold actor) holds_hour (hold_started-Saves actor)
        hold_started-Steps (starting_holds now db) db
        (found_ready holds_hour (is_starting_hold now) (earlier (λ b. b.slot_start)) db.bookings
          (λ d e. ground arith) t.keys)
        t)

pub reconcile_completions-IsConsistent :
    (now budget : ℕ) (actor : Option User) (db : Db)
    → IsConsistent db
    → IsConsistent (reconcile_completions now budget actor db).1
unfolding reconcile_completions ended_sessions
reconcile_completions-IsConsistent now budget actor db t =
    work_off_keeps IsConsistent budget (ended_sessions now db) (complete actor) db t (
      loop-IsConsistent completed (complete actor) holds_hour (completed-Saves actor)
        completed-Steps (ended_sessions now db) db
        (found_ready holds_hour (is_ended now) (earlier (λ b. b.slot_end)) db.bookings
          (λ d e. ground arith) t.keys)
        t)

pub reconcile_no_shows-IsConsistent :
    (now budget : ℕ) (actor : Option User) (db : Db)
    → IsConsistent db
    → IsConsistent (reconcile_no_shows now budget actor db).1
unfolding reconcile_no_shows due_no_shows with_policy
reconcile_no_shows-IsConsistent now budget actor db t =
    let body = record_no_show (policy_of db) actor in
    let due = due_no_shows now db in
    Count.if_both {A = Result ℕ × Db} (λ r. IsConsistent r.1) (ltb budget (length due))
      (err Failure.backlog, db)
      (ok (length (unexcused due db)), for_each (unexcused due db) body (with_policy db)) (λ e. t)
      (loop-IsConsistent (λ d. missed) body not_cancelled (missed-Saves (policy_of db) actor)
        missed-Steps (unexcused due db) (with_policy db)
        (filter-All (ReadyRows not_cancelled db.bookings)
          (λ b. not (incident_covers b db.incidents)) due
          (Count.All-map (ReadyRows not_cancelled db.bookings)
            (λ d.
              not (incident_covers d db.incidents) ≡ true → ReadyRows not_cancelled db.bookings d)
            (λ d h e. h) due
            (found_ready not_cancelled (is_due_no_show now) (earlier deadline_or_zero) db.bookings
              (λ d e. ground arith) t.keys)))
        t)
