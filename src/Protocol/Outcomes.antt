-- ===== src/Protocol/Outcomes.antt =====
-- What the transaction leaves behind, by the outcome that it answers with.
use room_reserve.Prelude.{
  ℕ, ◌≡◌, refl, ap, ◌∙◌, inl, inr, Bool, true, false, Option, none, some, String, [], ◌∷◌, not,
  first, Option-cases, if◌then◌else◌, arith,
}
use room_reserve.Models.Account.{User}
use room_reserve.Models.Operations.{Fields}
use room_reserve.Models.Db.{Db}
use room_reserve.Bookings.{Context}
use room_reserve.Reconcile.{reconcile}
use room_reserve.Action.{Action, ok, err, Failure, Outcome}
use room_reserve.Action.Rules.{bind_ok}
use room_reserve.Protocol.{
  Request, keyed_user, is_request_of, prior_request, in_savepoint, record_request, record_if_ok,
  context_of, answer, Try, run_once, attempt_from, run_operation,
}

-- A body of the services: it records no request itself.
pub record IsQuiet (body : Context → Action Outcome) : Type 0 where
  pub requests : (ctx : Context) (db : Db) → (body ctx db).1.requests ≡ db.requests

-- The lookup of a record reads the table of the requests alone.
pub prior_request_same :
    (r : Request) (u : Option User) (db d : Db)
    → d.requests ≡ db.requests
    → prior_request r u d ≡ prior_request r u db
unfolding prior_request
prior_request_same r none db d e = refl
prior_request_same r (some u) db d e = ap (first (is_request_of r u)) e

module _ (digest : Fields → String) where
  -- After a body that recorded nothing, an ok outcome stands, and is recorded once.
  pub record_request_new :
      (r : Request) (o : Outcome) (u : Option User) (db : Db)
      → prior_request r u db ≡ none
      → (record_request digest r o u db).0 ≡ ok o
  unfolding record_request
  record_request_new r o none db e = refl
  record_request_new r o (some u) db e = ground arith

  -- What a body that ran in its savepoint came to.
  pub ran :
      (now : ℕ) (r : Request) (db : Db) {o : Outcome} {db' : Db}
      → answer digest now r db ≡ (ok o, db')
      → prior_request r (keyed_user r) db ≡ none
      → (x : Outcome) × (d : Db) × (in_savepoint (r.body (context_of now r)) db ≡ (ok x, d))
        × (record_if_ok digest r x d ≡ (ok o, db'))
  unfolding answer
  ran now r db h e =
      bind_ok (in_savepoint (r.body (context_of now r))) (record_if_ok digest r) db
        (ground (arith, e, h))

  answer_rejected :
      (now : ℕ) (r : Request) (db : Db) {o : Outcome} {db' : Db}
      → IsQuiet r.body
      → answer digest now r db ≡ (ok o, db')
      → o.ok ≡ false
      → db' ≡ db
  answer_rejected now r db {o} {db'} quiet h bad =
      let d = (r.body (context_of now r) db).1 in
      let same = prior_request_same r (keyed_user r) db d (quiet.requests (context_of now r) db) in
      elim (Option-cases (prior_request r (keyed_user r) db)) [
        | inr (q, e) ↦ (unfold answer in ground (arith, e, h))
        | inl e ↦
            let (x, d', saved, recorded) = ran now r db h e in
            let new = record_request_new r x (keyed_user r) d (same ∙ e) in
            let back = record_request_new r x (keyed_user r) db e in
            unfold in_savepoint record_if_ok in ground (arith, new, back, saved, recorded, bad)
      ]

  -- A request that ends with an outcome that is not ok leaves just what the reconciliation left, and
  -- without the lock it leaves the database alone. The body may not record a request itself.
  pub run_once_rejected :
      (lock_free : Bool) (now : ℕ) (r : Request) (db : Db) {o : Outcome} {db' : Db}
      → IsQuiet r.body
      → run_once digest lock_free now r db ≡ (ok o, db')
      → o.ok ≡ false
      → db' ≡ (if lock_free then (reconcile now r.actor none db).1 else db)
  unfolding run_once
  run_once_rejected false now r db quiet h bad = ground arith
  run_once_rejected true now r db {o} {db'} quiet h bad =
      let d = (reconcile now r.actor none db).1 in
      let run = answer digest now r d in
      ground (arith, answer_rejected now r d {o = o} {db' = db'} quiet)

-- A request is tried at most three times: the first attempt that the server does not end with a transient
-- failure runs the operation, with that attempt's lock and clock, on the database as it was; when the
-- server ends all three, the failure is raised and nothing is written.
pub run_operation_lem :
    (digest : Fields → String) (tries : ℕ → Try) (r : Request) (db : Db)
    → run_operation digest tries r db
      ≡ (elim (first (λ a. not a.fails) (tries 1 ∷ tries 2 ∷ tries 3 ∷ [])) [
        | none ↦ (err Failure.transient, db)
        | some a ↦ run_once digest a.lock_free a.now r db
      ])
unfolding run_operation attempt_from
run_operation_lem digest tries r db = ground arith
