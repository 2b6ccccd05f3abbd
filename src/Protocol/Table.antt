-- ===== src/Protocol/Table.antt =====
-- Every operation, run by the protocol: the booking table stays consistent.
use room_reserve.Prelude.{
  ℕ, ◌≡◌, refl, ap, Bool, true, false, Option, none, some, String, List, [], ◌∷◌, ◌++◌,
  if◌then◌else◌,
}
use mathlib.Core.Path.{subst}
use room_reserve.Prelude.Count
use room_reserve.Models.Account.{User}
use room_reserve.Models.Operations.{Fields, OperationRequest}
use room_reserve.Models.Db.{Db}
use room_reserve.Policy.{policy_of}
use room_reserve.Bookings.{Context, Body}
use room_reserve.Bookings.Constraints.{IsConsistent}
use room_reserve.Reserve.Table.{HasGrace, create_advance_booking-IsConsistent}
use room_reserve.Change.Table.{update_booking_details-IsConsistent, move_booking-IsConsistent}
use room_reserve.Approval.Table.{decide_approval-IsConsistent}
use room_reserve.Cancel.Table.{cancel-IsConsistent, cancel_recurring_reservation-IsConsistent}
use room_reserve.Checkin.Table.{check_in-IsConsistent}
use room_reserve.Walkin.Table.{use_now-IsConsistent}
use room_reserve.Staff.Table.{create_staff_booking-IsConsistent}
use room_reserve.Desk.Orderly.{desk_body-IsOrderly}
use room_reserve.Protocol.Operations.{Operation, body_of, request_of}
use room_reserve.Protocol.Quiet.{body_of-HasGrace}
use room_reserve.Reconcile.{reconcile}
use room_reserve.Reconcile.Table.{reconcile-IsConsistent}
use room_reserve.Reconcile.Keeps.{reconcile-policy_of}
use room_reserve.Action.{Result, ok, err, Failure, Outcome, success, ◌>>=◌}
use room_reserve.Action.Rules.{bind_keeps}
use room_reserve.Protocol.{
  Request, succeed, keyed_user, prior_request, in_savepoint, record_request, record_if_ok,
  context_of, answer, run_once, answer_prior, new_request, after_reconcile, atomic, kept,
}

-- What holds between the transactions: a consistent booking table, and a policy in force whose grace
-- period is 1 to 60 minutes.
pub record IsSound (db : Db) : Type 0 where
  pub consistent : IsConsistent db
  pub grace : HasGrace db

body_of-IsConsistent :
    (op : Operation) (ctx : Context) (db : Db) {fields : Fields} {db' : Db}
    → body_of op ctx db ≡ (ok fields, db')
    → IsConsistent db
    → HasGrace db
    → IsConsistent db'
body_of-IsConsistent (Operation.reserve room start) ctx db {fields} {db'} h t g =
    create_advance_booking-IsConsistent ctx room start db fields db' h t g
body_of-IsConsistent (Operation.edit id details) ctx db h t g =
    update_booking_details-IsConsistent ctx id details db h t
body_of-IsConsistent (Operation.move id room) ctx db h t g =
    move_booking-IsConsistent ctx id room db h t
body_of-IsConsistent (Operation.decide id decision note) ctx db h t g =
    decide_approval-IsConsistent ctx id decision note db h t
body_of-IsConsistent (Operation.give_up id reason staff) ctx db h t g =
    cancel-IsConsistent ctx id reason staff db h t
body_of-IsConsistent (Operation.give_up_series id reason) ctx db h t g =
    cancel_recurring_reservation-IsConsistent ctx id reason db h t
body_of-IsConsistent (Operation.begin_hour id room staff reason) ctx db h t g =
    check_in-IsConsistent ctx id room staff reason db h t
body_of-IsConsistent (Operation.walk_in room) ctx db h t g = use_now-IsConsistent ctx room db h t
body_of-IsConsistent (Operation.hold_for_staff room date from until) ctx db h t g =
    create_staff_booking-IsConsistent ctx room date from until db h t g
body_of-IsConsistent (Operation.at_desk op) ctx db h t g =
    subst IsConsistent (ap (λ r. r.1) h) ((desk_body-IsOrderly op ctx).step.consistent db t)

body_of-IsSound :
    (op : Operation) (ctx : Context) (db : Db) {fields : Fields} {db' : Db}
    → body_of op ctx db ≡ (ok fields, db')
    → IsSound db
    → IsSound db'
body_of-IsSound op ctx db h s = record {
  consistent = body_of-IsConsistent op ctx db h s.consistent s.grace;
  grace = subst HasGrace (ap (λ r. r.1) h) (body_of-HasGrace op ctx db s.grace);
}

-- The savepoint keeps what a successful body has made, and else what was there before.
savepoint_keeps :
    (P : Db → Type 0) (body : Body) (db : Db)
    → P db
    → ((fields : Fields) (d : Db) → body db ≡ (ok fields, d) → P d)
    → P (in_savepoint (succeed body) db).1
unfolding in_savepoint
savepoint_keeps P body db before after = go (body db).0 (body db).1 after
  where
    go :
        (x : Result Fields) (d : Db)
        → ((fields : Fields) (d' : Db) → Path (Result Fields × Db) (x, d) (ok fields, d') → P d')
        → P (
            let y : Result Outcome × Db = elim x [
              | ok f ↦ (ok (success f), d)
              | err e ↦ (err e, d)
            ] in
            if kept y.0 then y.1 else db)
    go (ok fields) d k = k fields d refl
    go (err f) d k = before

pub reconcile-IsSound :
    (now : ℕ) (actor : Option User) (db : Db) → IsSound db → IsSound (reconcile now actor none db).1
reconcile-IsSound now actor db s = record {
  consistent = reconcile-IsConsistent now actor none db s.consistent;
  grace = record {
    some_grace = rw (reconcile-policy_of now actor none db) s.grace.some_grace;
    within_hour = rw (reconcile-policy_of now actor none db) s.grace.within_hour;
  };
}

recorded-IsSound :
    (rows : List OperationRequest) (db : Db) → IsSound db → IsSound (record db { requests = rows })
unfolding policy_of
recorded-IsSound rows db s = record {
  consistent = s.consistent;
  grace = record { some_grace = s.grace.some_grace; within_hour = s.grace.within_hour };
}

module _ (digest : Fields → String) where
  request_keeps :
      (r : Request) (o : Outcome) (u : Option User) (db : Db)
      → IsSound db
      → IsSound (record_request digest r o u db).1
  unfolding record_request
  request_keeps r o none db t = t
  request_keeps r o (some u) db t = go (prior_request r (some u) db)
    where
      go :
          (q : Option OperationRequest)
          → IsSound (
              let y : Result Outcome × Db = elim q [
                | some q ↦ (ok (answer_prior digest r q), db)
                | none ↦ (
                  ok o,
                  record db { requests = db.requests ++ (new_request digest r u o db.wall ∷ []) },
                )
              ] in
              y.1)
      go none = recorded-IsSound (db.requests ++ (new_request digest r u o db.wall ∷ [])) db t
      go (some q) = t

  record_keeps :
      (r : Request) (o : Outcome) (db : Db) → IsSound db → IsSound (record_if_ok digest r o db).1
  unfolding record_if_ok
  record_keeps r o db t =
      Count.if_both {A = Result Outcome × Db} (λ x. IsSound x.1) o.ok
        (record_request digest r o (keyed_user r) db) (ok o, db)
        (λ e. request_keeps r o (keyed_user r) db t) t

  answer-IsSound :
      (now : ℕ) (op : Operation) (actor : Option User) (payload : Fields) (name key : String)
      (db : Db)
      → IsSound db
      → IsSound (answer digest now (request_of op actor payload name key) db).1
  unfolding answer
  answer-IsSound now op actor payload name key db t =
      let r = request_of op actor payload name key in
      let body = body_of op (context_of now r) in
      let ran =
        bind_keeps IsSound (in_savepoint (succeed body)) (record_if_ok digest r) db
          (savepoint_keeps IsSound body db t
            λ fields d e. body_of-IsSound op (context_of now r) db e t)
          (λ o d u. record_keeps r o d u) in
      go (prior_request r (keyed_user r) db) ran
    where
      r : Request
      r = request_of op actor payload name key

      go :
          (q : Option OperationRequest)
          → IsSound ((in_savepoint (r.body (context_of now r)) >>= record_if_ok digest r) db).1
          → IsSound (
              let y : Result Outcome × Db = elim q [
                | some q ↦ (ok (answer_prior digest r q), db)
                | none ↦ (in_savepoint (r.body (context_of now r)) >>= record_if_ok digest r) db
              ] in
              y.1)
      go none k = k
      go (some q) k = t

  atomic_keeps :
      (before : Db) (x : Result Outcome × Db)
      → IsSound before
      → IsSound x.1
      → IsSound (atomic digest before x).1
  atomic_keeps before (ok o, d) t u = u
  atomic_keeps before (err e, d) t u = t

  -- What holds between the transactions holds after each, however it ends.
  pub run_once-IsSound :
      (lock_free : Bool) (now : ℕ) (op : Operation) (actor : Option User) (payload : Fields)
      (name key : String) (db : Db)
      → IsSound db
      → IsSound (run_once digest lock_free now (request_of op actor payload name key) db).1
  unfolding run_once
  run_once-IsSound false now op actor payload name key db t = t
  run_once-IsSound true now op actor payload name key db t =
      let r = request_of op actor payload name key in
      go (reconcile now actor none db).0 (reconcile now actor none db).1
        (reconcile-IsSound now actor db t)
    where
      r : Request
      r = request_of op actor payload name key

      go :
          (x : Result (List ℕ)) (d : Db)
          → IsSound d
          → IsSound (after_reconcile digest now r db x d).1
      go (ok summary) d u =
          atomic_keeps db (answer digest now r d) t
            (answer-IsSound now op actor payload name key d u)
      go (err Failure.backlog) d u = u
      go (err e) d u = t

  -- An operation on bookings, or of a staff page, run by the protocol on a database whose booking
  -- table satisfies all its constraints, leaves such a table, however the operation ends and whatever
  -- reconciliation does. The policy's grace period is 1 to 60 minutes.
  pub run_once-IsConsistent :
      (lock_free : Bool) (now : ℕ) (op : Operation) (actor : Option User) (payload : Fields)
      (name key : String) (db : Db)
      → IsConsistent db
      → HasGrace db
      → IsConsistent (run_once digest lock_free now (request_of op actor payload name key) db).1
  run_once-IsConsistent lock_free now op actor payload name key db t g =
      (run_once-IsSound lock_free now op actor payload name key db
        (record { consistent = t; grace = g })).consistent
