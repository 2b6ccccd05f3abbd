-- ===== src/Action/Orderly.antt =====
-- Bodies that keep what the tables must satisfy between operations, wherever they stop.
use room_reserve.Prelude.{◌≡◌, refl, ◌∙◌, Bool, Option, List, Option-cases, inl, inr, arith}
use room_reserve.Errors.{Code}
use room_reserve.Models.Operations.{Fields}
use room_reserve.Models.Db.{Db}
use room_reserve.Policy.{current_policy, with_policy, policy_of}
use room_reserve.Policy.Laws.{policy_of-with_policy}
use room_reserve.Bookings.Constraints.{IsConsistent}
use room_reserve.Reserve.Table.{HasGrace}
use room_reserve.Action.{
  Action, Result, ok, get_row, modify, ask, pure, reject_if, violate_if, for_each, ◌>>=◌, ◌>>◌,
}
use room_reserve.Action.Rules.{bind_keeps, for_each_keeps}

-- A step on the database: the booking table stays consistent and the policy's grace period sensible,
-- and no idempotency record is touched.
pub record IsOrderlyStep (f : Db → Db) : Type 0 where
  pub consistent : (db : Db) → IsConsistent db → IsConsistent (f db)
  pub requests : (db : Db) → (f db).requests ≡ db.requests
  pub grace : (db : Db) → HasGrace db → HasGrace (f db)

pub record IsOrderly {ℓ} {A : Type ℓ} (m : Action A) : Type 0 where
  pub step : IsOrderlyStep (λ db. (m db).1)

-- A step that leaves bookings, records and policies alone.
pub aside_orderly :
    {f : Db → Db}
    → ((db : Db)
        → ((f db).bookings ≡ db.bookings)
          × ((f db).next_booking ≡ db.next_booking)
          × ((f db).requests ≡ db.requests)
          × (policy_of (f db) ≡ policy_of db))
    → IsOrderlyStep f
aside_orderly h = record {
  consistent = λ db t. rw ((h db).0, (h db).1) t;
  requests = λ db. (h db).2;
  grace = λ db g. record {
    some_grace = rw ((h db).3) g.some_grace;
    within_hour = rw ((h db).3) g.within_hour;
  };
}

pub then_orderly :
    {f g : Db → Db} → IsOrderlyStep f → IsOrderlyStep g → IsOrderlyStep (λ db. g (f db))
then_orderly {f} {g} a b = record {
  consistent = λ db t. b.consistent (f db) (a.consistent db t);
  requests = λ db. b.requests (f db) ∙ a.requests db;
  grace = λ db t. b.grace (f db) (a.grace db t);
}

-- A step with a proof for the booking table that leaves records and policies alone.
abbrev pub LeavesRest : (Db → Db) → Type 0
LeavesRest f = (db : Db) → ((f db).requests ≡ db.requests) × (policy_of (f db) ≡ policy_of db)

pub step_orderly :
    {f : Db → Db}
    → ((db : Db) → IsConsistent db → IsConsistent (f db))
    → LeavesRest f
    → IsOrderlyStep f
step_orderly consistent h = record {
  consistent = consistent;
  requests = λ db. (h db).0;
  grace = λ db g. record {
    some_grace = rw ((h db).1) g.some_grace;
    within_hour = rw ((h db).1) g.within_hour;
  };
}

-- The same for a loop over what a query found.
pub loop_orderly {ℓ} :
    {A : Type ℓ} (body : A → Db → Db) (xs : Db → List A)
    → ((db : Db) → IsConsistent db → IsConsistent (for_each (xs db) body db))
    → ((x : A) → LeavesRest (body x))
    → IsOrderlyStep (λ db. for_each (xs db) body db)
loop_orderly body xs consistent h = step_orderly consistent (λ db. (
  for_each_keeps (λ d. d.requests ≡ db.requests) body (λ x d e. (h x d).0 ∙ e) (xs db) db refl,
  for_each_keeps (λ d. policy_of d ≡ policy_of db) body (λ x d e. (h x d).1 ∙ e) (xs db) db refl,
))

module _ {ℓ} {A : Type ℓ} where
  pub bind-IsOrderly {κ} :
      {B : Type κ} {m : Action A} {f : A → Action B}
      → IsOrderly m
      → ((a : A) → IsOrderly (f a))
      → IsOrderly (m >>= f)
  bind-IsOrderly {m = m} {f = f} a b = record {
    step = record {
      consistent = λ db t.
          bind_keeps IsConsistent m f db (a.step.consistent db t)
            (λ x d u. (b x).step.consistent d u);
      requests = λ db.
          bind_keeps (λ d. d.requests ≡ db.requests) m f db (a.step.requests db)
            (λ x d e. (b x).step.requests d ∙ e);
      grace =
          λ db t. bind_keeps HasGrace m f db (a.step.grace db t) (λ x d u. (b x).step.grace d u);
    };
  }

  pub next-IsOrderly {κ} :
      {B : Type κ} {m : Action A} {k : Action B} → IsOrderly m → IsOrderly k → IsOrderly (m >> k)
  next-IsOrderly a b = bind-IsOrderly a (λ _. b)

  pub still-IsOrderly : (f : Db → Result A) → IsOrderly (λ db. (f db, db))
  still-IsOrderly f = record { step = aside_orderly (λ db. (refl, refl, refl, refl)) }

  pub pure-IsOrderly : (a : A) → IsOrderly (pure a)
  pure-IsOrderly a = still-IsOrderly (λ db. ok a)

  pub ask-IsOrderly : (f : Db → A) → IsOrderly (ask f)
  ask-IsOrderly f = still-IsOrderly (λ db. ok (f db))

  pub get_row-IsOrderly : (f : Db → Option A) → IsOrderly (get_row f)
  get_row-IsOrderly f = record {
    step = aside_orderly (λ db. elim (Option-cases (f db)) [
      | inl e ↦ ground (arith, e)
      | inr (a, e) ↦ ground (arith, e)
    ]);
  }

pub modify-IsOrderly : {f : Db → Db} → IsOrderlyStep f → IsOrderly (modify f)
modify-IsOrderly h = record { step = h }

pub reject_if-IsOrderly :
    (test : Db → Bool) (code : Code) (fields : Fields) → IsOrderly (reject_if test code fields)
unfolding reject_if
reject_if-IsOrderly test code fields = record {
  step = aside_orderly (λ db. (refl, refl, refl, refl));
}

pub violate_if-IsOrderly : (broken : Bool) → IsOrderly (violate_if broken)
unfolding violate_if
violate_if-IsOrderly broken = record { step = aside_orderly (λ db. (refl, refl, refl, refl)) }

pub current_policy-IsOrderly : IsOrderly current_policy
unfolding current_policy with_policy
current_policy-IsOrderly = record {
  step = aside_orderly (λ db. (refl, refl, refl, policy_of-with_policy db));
}

-- The rules for the parts of a body.
pub ruleset orderly = (
  next-IsOrderly, bind-IsOrderly, reject_if-IsOrderly, violate_if-IsOrderly, get_row-IsOrderly,
  modify-IsOrderly, current_policy-IsOrderly, ask-IsOrderly, pure-IsOrderly,
)
