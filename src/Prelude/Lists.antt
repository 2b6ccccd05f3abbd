-- ===== src/Prelude/Lists.antt =====
-- Queries over a table of rows, as the ORM makes them: filter, count, exists, first, order_by, and
-- the update of the rows that pass a test.
use Prim.Native.Nat.{ℕ, suc}
use mathlib.Core.Bool.{Bool, false, ◌||◌}
use mathlib.Core.Option.{Option, none, some}
use mathlib.Core.List.{List, [], ◌∷◌}
use room_reserve.Prelude.Tests.{if◌then◌else◌}

module _ {ℓ} {A : Type ℓ} where
  abbrev pub length : List A → ℕ
  length [] = 0
  length (x ∷ xs) = suc (length xs)

  abbrev pub filter : (A → Bool) → List A → List A
  filter p [] = []
  filter p (x ∷ xs) = let rest = filter p xs in if p x then x ∷ rest else rest

  abbrev pub count : (A → Bool) → List A → ℕ
  count p [] = 0
  count p (x ∷ xs) = let rest = count p xs in if p x then suc rest else rest

  abbrev pub any : (A → Bool) → List A → Bool
  any p [] = false
  any p (x ∷ xs) = p x || any p xs

  abbrev pub first : (A → Bool) → List A → Option A
  first p [] = none
  first p (x ∷ xs) = if p x then some x else first p xs

  -- `UPDATE … WHERE p`
  abbrev pub update_where : (A → Bool) → (A → A) → List A → List A
  update_where p f [] = []
  update_where p f (x ∷ xs) = (if p x then f x else x) ∷ update_where p f xs

  unfoldable pub insert_by : (A → A → Bool) → A → List A → List A
  insert_by le x [] = x ∷ []
  insert_by le x (y ∷ ys) = if le x y then x ∷ y ∷ ys else y ∷ insert_by le x ys

  -- `order_by`: a stable insertion sort by the given order.
  unfoldable pub order_by : (A → A → Bool) → List A → List A
  unfolding insert_by
  order_by le [] = []
  order_by le (x ∷ xs) = insert_by le x (order_by le xs)

  -- A predicate by recursion, which the tactics read as a tuple.
  abbrev pub All {κ} : (A → Type κ) → List A → Type κ
  All P [] = Unit
  All P (x ∷ xs) = P x × All P xs
