-- ===== src/Protocol.antt =====
-- core/services/protocol.py: the transaction that every operation runs in. The control lock, the
-- reconciliation, the idempotency record, and the savepoint around the body.
pub mod Outcomes
pub mod Operations
pub mod Replay
pub mod Quiet
pub mod Table
use room_reserve.Prelude.{
  ℕ, zero, suc, ◌+◌, ◌*◌, Bool, true, false, not, ◌&&◌, ◌||◌, Option, none, some, String, List, [],
  ◌∷◌, ◌++◌, filter, first, ltb, ◌==◌, if◌then◌else◌,
}
use room_reserve.Prelude.Text.{same_text, is_blank}
use room_reserve.Settings.{day}
use room_reserve.Errors.{Code}
use room_reserve.Models.Account.{User}
use room_reserve.Models.Operations.{Fields, OperationRequest}
use room_reserve.Models.Db.{Db}
use room_reserve.Bookings.{Context, Body}
use room_reserve.Reconcile.{reconcile}
use room_reserve.Action.{
  Action, Result, ok, err, Failure, Outcome, success, rejection, replay, ◌>>=◌, pure,
}

-- The arguments of `run_operation`; a key that is not given is blank.
pub record Request : Type 0 where
  pub actor : Option User
  pub operation : String
  pub payload : Fields
  pub key : String
  pub body : Context → Action Outcome

-- How the services' bodies end: `return OperationOutcome.success(**fields)`.
abbrev pub succeed : Body → Action Outcome
succeed body = body >>= λ fields. pure (success fields)

-- `if key and actor is not None and getattr(actor, "pk", None)`
abbrev pub keyed_user : Request → Option User
keyed_user r = if is_blank r.key then none else r.actor

abbrev pub is_request_of : Request → User → OperationRequest → Bool
is_request_of r u q = q.user == u.id && (same_text q.operation r.operation && same_text q.key r.key)

unfoldable pub prior_request : Request → Option User → Db → Option OperationRequest
prior_request r none db = none
prior_request r (some u) db = first (is_request_of r u) db.requests

-- `_classify_integrity_error`: the violations that the bodies can cause, of check constraints and of a
-- row without an owner, fall through to the last line.
abbrev pub classify_integrity_error : Outcome
classify_integrity_error = rejection Code.slot_taken []

abbrev pub caught : Result Outcome → Result Outcome
caught (ok o) = ok o
caught (err (Failure.rejected o)) = ok o
caught (err Failure.integrity_error) = ok classify_integrity_error
caught (err e) = err e

abbrev pub kept : Result Outcome → Bool
kept (ok o) = o.ok
kept (err e) = false

-- The savepoint: what a body wrote stays only behind an outcome that is ok. Any other exception
-- leaves the transaction.
unfoldable pub in_savepoint : Action Outcome → Action Outcome
in_savepoint body db = let (r, d) = body db in (caught r, if kept r then d else db)

unfoldable pub context_of : ℕ → Request → Context
context_of now r = record { now = now; actor = r.actor; payload = r.payload }

abbrev pub max_transient_retries : ℕ
max_transient_retries = 2

-- What an attempt meets: whether the server ends it with a transient failure, whether the lock is free
-- within the bounded wait, and the clock under it.
pub record Try : Type 0 where
  pub fails : Bool
  pub lock_free : Bool
  pub now : ℕ

-- `digest` is the SHA-256 digest of the canonical JSON text, which `fingerprint_payload` returns.
module _ (digest : Fields → String) where
  unfoldable pub new_request : Request → User → Outcome → ℕ → OperationRequest
  new_request r u o wall = record {
    user = u.id;
    operation = r.operation;
    key = r.key;
    payload_fingerprint = digest r.payload;
    code = o.code;
    fields = o.fields;
    created_at = wall;
  }

  -- A recorded request is replayed, unless its payload was another one.
  abbrev pub answer_prior : Request → OperationRequest → Outcome
  answer_prior r q =
      if same_text q.payload_fingerprint (digest r.payload)
      then replay q.code q.fields
      else rejection Code.idempotency_payload_mismatch []

  -- The record of a successful request; the unique constraint allows one for each key.
  unfoldable pub record_request : Request → Outcome → Option User → Action Outcome
  record_request r o none db = (ok o, db)
  record_request r o (some u) db = elim (prior_request r (some u) db) [
    | some q ↦ (ok (answer_prior r q), db)
    | none ↦ (ok o, record db { requests = db.requests ++ (new_request r u o db.wall ∷ []) })
  ]

  unfoldable pub record_if_ok : Request → Outcome → Action Outcome
  record_if_ok r o db = if o.ok then record_request r o (keyed_user r) db else (ok o, db)

  -- What follows the reconciliation.
  unfoldable pub answer : ℕ → Request → Action Outcome
  answer now r db = elim (prior_request r (keyed_user r) db) [
    | some q ↦ (ok (answer_prior r q), db)
    | none ↦ (in_savepoint (r.body (context_of now r)) >>= record_if_ok r) db
  ]

  -- An exception that leaves the transaction takes back all of it.
  abbrev pub atomic : Db → Result Outcome × Db → Result Outcome × Db
  atomic before (ok o, db) = (ok o, db)
  atomic before (err e, db) = (err e, before)

  -- `_run_once`: the lock is free or not within the bounded wait, and the clock is read under it. A
  -- backlog is answered inside the transaction, which commits the phases that were done.
  abbrev pub after_reconcile : ℕ → Request → Db → Result (List ℕ) → Db → Result Outcome × Db
  after_reconcile now r before (ok summary) db = atomic before (answer now r db)
  after_reconcile now r before (err Failure.backlog) db = (ok (rejection Code.busy []), db)
  after_reconcile now r before (err e) db = (err e, before)

  unfoldable pub run_once : Bool → ℕ → Request → Action Outcome
  run_once false now r db = (ok (rejection Code.busy []), db)
  run_once true now r db =
      let (summary, d) = reconcile now r.actor none db in after_reconcile now r db summary d

  -- `run_operation`: attempt `k` and, while the server ends them with a transient failure, as many more
  -- as are left. A failed attempt is rolled back.
  unfoldable pub attempt_from : ℕ → ℕ → (ℕ → Try) → Request → Action Outcome
  attempt_from zero k tries r db =
      if (tries k).fails
      then (err Failure.transient, db)
      else run_once (tries k).lock_free (tries k).now r db
  attempt_from (suc n) k tries r db =
      let again = attempt_from n (suc k) tries r db in
      if (tries k).fails then again else run_once (tries k).lock_free (tries k).now r db

  unfoldable pub run_operation : (ℕ → Try) → Request → Action Outcome
  run_operation tries r = attempt_from max_transient_retries 1 tries r

-- `prune_operation_requests(older_than_days)`, without its count
unfoldable pub prune_operation_requests : ℕ → Db → Db
prune_operation_requests days db = record db {
  requests = filter (λ q. not (ltb (q.created_at + days * day) db.wall)) db.requests;
}
