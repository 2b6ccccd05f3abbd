-- ===== src/Action.antt =====
-- The body of an operation: Python code that reads and writes the database and may raise. What was
-- written before an exception stays written; the savepoints of core/services/protocol.py take it
-- back. `OperationRejected`, `OperationOutcome` and the other exceptions are those of
-- core/services/errors.py.
pub mod Rules
pub mod Orderly
use room_reserve.Prelude.{
  ℕ, Bool, true, false, Option, none, some, List, [], ◌∷◌, ◌≡◌, if◌then◌else◌,
}
use room_reserve.Errors.{Code}
use room_reserve.Models.Operations.{Fields}
use room_reserve.Models.Db.{Db}

pub record Outcome : Type 0 where
  pub ok : Bool
  pub code : Code
  pub fields : Fields
  pub replayed : Bool

-- `OperationOutcome.success`, `.reject` and `.replay`
abbrev pub success : Fields → Outcome
success fields = record { ok = true; code = Code.ok; fields = fields; replayed = false }

abbrev pub rejection : Code → Fields → Outcome
rejection code fields = record { ok = false; code = code; fields = fields; replayed = false }

abbrev pub replay : Code → Fields → Outcome
replay code fields = record { ok = true; code = code; fields = fields; replayed = true }

-- `integrity_error` stands for a row that breaks a check or `NOT NULL` constraint of its table,
-- `does_not_exist` for a row that is gone, `transient` for a serialization failure or a deadlock.
pub data Failure : Type 0 where
  rejected : Outcome → Failure
  backlog integrity_error does_not_exist transient : Failure

pub data Result {ℓ} (A : Type ℓ) : Type ℓ where
  ok : A → Result A
  err : Failure → Result A

abbrev pub Action {ℓ} : Type ℓ → Type ℓ
Action A = Db → Result A × Db

module _ {ℓ} {A : Type ℓ} where
  abbrev pub pure : A → Action A
  pure a db = (ok a, db)

  abbrev pub raise : Failure → Action A
  raise e db = (err e, db)

  abbrev pub reject : Code → Fields → Action A
  reject code fields = raise (Failure.rejected (rejection code fields))

  abbrev pub ask : (Db → A) → Action A
  ask f db = (ok (f db), db)

  -- `.get(…)` of a row that must be there
  abbrev pub get_row : (Db → Option A) → Action A
  get_row f db = elim (f db) [ none ↦ (err Failure.does_not_exist, db) | some a ↦ (ok a, db) ]

abbrev pub modify : (Db → Db) → Action (Unit {0})
modify f db = (ok tt, f db)

infixl 5 ◌>>=◌ ◌>>◌
abbrev pub ◌>>=◌ {ℓ κ} : {A : Type ℓ} {B : Type κ} → Action A → (A → Action B) → Action B
◌>>=◌ m f db = let (r, db') = m db in elim r [ ok a ↦ f a db' | err e ↦ (err e, db') ]

abbrev pub ◌>>◌ {ℓ κ} : {A : Type ℓ} {B : Type κ} → Action A → Action B → Action B
m >> k = m >>= λ _. k

-- `if test(db): raise OperationRejected(code, **fields)`
unfoldable pub reject_if : (Db → Bool) → Code → Fields → Action (Unit {0})
reject_if test code fields db =
    (if test db then err (Failure.rejected (rejection code fields)) else ok tt, db)

-- A check constraint of the row that is written next.
unfoldable pub violate_if : Bool → Action (Unit {0})
violate_if broken db = (if broken then err Failure.integrity_error else ok tt, db)

-- `for row in rows: body(row)`
unfoldable pub for_each {ℓ} : {A : Type ℓ} → List A → (A → Db → Db) → Db → Db
for_each [] body db = db
for_each (x ∷ xs) body db = for_each xs body (body x db)
