-- ===== src/Action/Rules.antt =====
-- Rules for the bodies: what a body that returned has passed, and invariants through binds and loops.
use room_reserve.Prelude.{Bool, false, List, [], ◌∷◌, ◌≡◌, refl, arith}
use room_reserve.Errors.{Code}
use room_reserve.Models.Operations.{Fields}
use room_reserve.Models.Db.{Db}
use room_reserve.Action.{Action, Result, ok, err, ◌>>=◌, reject_if, for_each}

-- A bind that returned: its parts did, one after the other.
pub bind_ok {ℓ κ} :
    {A : Type ℓ} {B : Type κ} (m : Action A) (f : A → Action B) (db : Db) {b : B} {db'' : Db}
    → (m >>= f) db ≡ (ok b, db'')
    → (a : A) × (db' : Db) × (m db ≡ (ok a, db')) × (f a db' ≡ (ok b, db''))
bind_ok {A = A} {B = B} m f db {b} {db''} h = go (m db).0 (m db).1 h
  where
    go :
        (r : Result A) (db' : Db)
        → Path (Result B × Db) (elim r [ ok a ↦ f a db' | err e ↦ (err e, db') ]) (ok b, db'')
        → (a : A) × (d : Db) × (Path (Result A × Db) (r, db') (ok a, d)) × (f a d ≡ (ok b, db''))
    go (ok a) d e = (a, d, refl, e)
    go (err x) d e = cc e

-- A guard that let the body go on saw its test fail, and changed nothing.
pub reject_if_ok :
    (test : Db → Bool) (code : Code) (fields : Fields) {u : Unit {0}} {db db' : Db}
    → reject_if test code fields db ≡ (ok u, db')
    → (test db ≡ false) × (db' ≡ db)
unfolding reject_if
reject_if_ok test code fields h = ground arith

-- What the first part keeps, and the second after it, a bind keeps, whether its parts return or raise.
pub bind_keeps {ℓ κ μ} :
    {A : Type ℓ} {B : Type κ} (P : Db → Type μ) (m : Action A) (f : A → Action B) (db : Db)
    → P (m db).1
    → ((a : A) (d : Db) → P d → P (f a d).1)
    → P ((m >>= f) db).1
bind_keeps {A = A} {B = B} P m f db h k = go (m db).0 (m db).1 h
  where
    go :
        (r : Result A) (d : Db)
        → P d
        → P (let out : Result B × Db = elim r [ ok a ↦ f a d | err e ↦ (err e, d) ] in out.1)
    go (ok a) d h = k a d h
    go (err e) d h = h

-- A loop keeps what each round keeps.
pub for_each_keeps {ℓ κ} :
    {A : Type ℓ} (P : Db → Type κ) (body : A → Db → Db)
    → ((x : A) (db : Db) → P db → P (body x db))
    → (xs : List A) (db : Db) → P db
    → P (for_each xs body db)
unfolding for_each
for_each_keeps P body keep [] db h = h
for_each_keeps P body keep (x ∷ xs) db h = for_each_keeps P body keep xs (body x db) (keep x db h)
