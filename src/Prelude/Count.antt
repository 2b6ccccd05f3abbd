-- ===== src/Prelude/Count.antt =====
-- Counting and testing rows after an insertion or an update.
use Prim.Native.Nat.{◌+◌, ◌≤◌}
use mathlib.Core.Path.{◌≡◌, refl, subst, sym, ap}
use mathlib.Core.Logic.{inl, inr}
use mathlib.Core.Bool.{Bool, true, false, not, ◌&&◌}
use mathlib.Core.Option.{Option, none, some, some-injective}
use mathlib.Core.List.{List, [], ◌∷◌, ◌++◌}
use native.Mathlib.Omega.{arith}
use room_reserve.Prelude.Tests.{if◌then◌else◌, Bool-cases}
use room_reserve.Prelude.Lists.{count, any, filter, first, update_where, All}

module _ {ℓ} {A : Type ℓ} where
  pub count-append : (p : A → Bool) (xs ys : List A) → count p (xs ++ ys) ≡ count p xs + count p ys
  count-append p [] ys = omega arith
  count-append p (x ∷ xs) ys = ground (arith, count-append p xs ys)

  pub count_of_any : (p : A → Bool) (xs : List A) → any p xs ≡ false → count p xs ≡ 0
  count_of_any p [] h = refl
  count_of_any p (x ∷ xs) h = ground (arith, count_of_any p xs)

  pub any_of_count : (p : A → Bool) (xs : List A) → count p xs ≡ 0 → any p xs ≡ false
  any_of_count p [] h = refl
  any_of_count p (x ∷ xs) h = ground (arith, any_of_count p xs)

  pub any-update_where :
      (p q : A → Bool) (f : A → A)
      → ((x : A) → p (f x) ≡ p x)
      → (xs : List A) → any p (update_where q f xs) ≡ any p xs
  any-update_where p q f h [] = refl
  any-update_where p q f h (x ∷ xs) = ground (arith, h x, any-update_where p q f h xs)

  pub any-update_where-none :
      (p : A → Bool) (f : A → A)
      → ((x : A) → p (f x) ≡ false)
      → (xs : List A) → any p (update_where p f xs) ≡ false
  any-update_where-none p f h [] = refl
  any-update_where-none p f h (x ∷ xs) = ground (arith, h x, any-update_where-none p f h xs)

  pub any-append_left : (p : A → Bool) (xs ys : List A) → any p xs ≡ true → any p (xs ++ ys) ≡ true
  any-append_left p [] ys h = ground arith
  any-append_left p (x ∷ xs) ys h = ground (arith, any-append_left p xs ys)

  pub any-append_last :
      (p : A → Bool) (xs : List A) (y : A) → p y ≡ true → any p (xs ++ (y ∷ [])) ≡ true
  any-append_last p [] y h = ground arith
  any-append_last p (x ∷ xs) y h = ground (arith, any-append_last p xs y)

  -- An update that makes no new row pass the test does not raise the count.
  pub count-update_where-le :
      (p q : A → Bool) (f : A → A)
      → ((x : A) → q x ≡ true → p (f x) ≡ true → p x ≡ true)
      → (xs : List A) → count p (update_where q f xs) ≤ count p xs
  count-update_where-le p q f h [] = omega arith
  count-update_where-le p q f h (x ∷ xs) = ground (arith, h x, count-update_where-le p q f h xs)

  -- An update that leaves the test's answer alone leaves the count alone.
  pub count-update_where-eq :
      (p q : A → Bool) (f : A → A)
      → ((x : A) → p (f x) ≡ p x)
      → (xs : List A) → count p (update_where q f xs) ≡ count p xs
  count-update_where-eq p q f h [] = refl
  count-update_where-eq p q f h (x ∷ xs) = ground (arith, h x, count-update_where-eq p q f h xs)

  -- After an update, what passes was passing before among the other rows, or was updated.
  pub count-update_where-split :
      (p q : A → Bool) (f : A → A) (xs : List A)
      → count p (update_where q f xs) ≤ count (λ x. p x && not (q x)) xs + count q xs
  count-update_where-split p q f [] = omega arith
  count-update_where-split p q f (x ∷ xs) = ground (arith, count-update_where-split p q f xs)

  pub All-append {κ} : (P : A → Type κ) (xs ys : List A) → All P xs → All P ys → All P (xs ++ ys)
  All-append P [] ys hx hy = hy
  All-append P (x ∷ xs) ys hx hy = (hx.0, All-append P xs ys hx.1 hy)

  pub if_both {κ} :
      (P : A → Type κ) (b : Bool) (x y : A) → (b ≡ true → P x) → P y → P (if b then x else y)
  if_both P true x y h k = h refl
  if_both P false x y h k = k

  pub All-update_where {κ} :
      (P : A → Type κ) (q : A → Bool) (f : A → A)
      → ((x : A) → P x → q x ≡ true → P (f x))
      → (xs : List A) → All P xs
      → All P (update_where q f xs)
  All-update_where P q f h [] a = tt
  All-update_where P q f h (x ∷ xs) a =
      (if_both P (q x) (f x) x (h x a.0) a.0, All-update_where P q f h xs a.1)

  -- A weaker predicate, row by row.
  pub All-map {κ μ} :
      (P : A → Type κ) (Q : A → Type μ)
      → ((x : A) → P x → Q x)
      → (xs : List A) → All P xs
      → All Q xs
  All-map P Q h [] a = tt
  All-map P Q h (x ∷ xs) a = (h x a.0, All-map P Q h xs a.1)

  -- What the rows have that a query finds, and those that it leaves out, all rows have.
  pub All-of_filter {κ} :
      (P : A → Type κ) (q : A → Bool) (xs : List A)
      → ((x : A) → q x ≡ false → P x)
      → All P (filter q xs)
      → All P xs
  All-of_filter P q [] out a = tt
  All-of_filter P q (x ∷ xs) out a = go (q x) (out x) (All-of_filter P q xs out) a
    where
      go :
          (b : Bool)
          → (b ≡ false → P x)
          → (All P (filter q xs) → All P xs)
          → All P (if b then x ∷ filter q xs else filter q xs)
          → All P (x ∷ xs)
      go true here rest a = (a.0, rest a.1)
      go false here rest a = (here refl, rest a)

  -- The row that `first` finds passes the test, and has what all rows have.
  pub first_passes : (p : A → Bool) (xs : List A) (x : A) → first p xs ≡ some x → p x ≡ true
  first_passes p [] x h = cc
  first_passes p (y ∷ ys) x h = ground (arith, first_passes p ys x)

  pick_first {κ} :
      (P : A → Type κ) (b : Bool) (y x : A) (rest : Option A)
      → P y
      → (rest ≡ some x → P x)
      → (if b then some y else rest) ≡ some x
      → P x
  pick_first P true y x rest here there e = subst P (some-injective _ _ e) here
  pick_first P false y x rest here there e = there e

  pub first-update_where :
      (p q : A → Bool) (f : A → A)
      → ((x : A) → p (f x) ≡ p x)
      → (xs : List A) (x : A) → first p xs ≡ some x
      → q x ≡ true
      → first p (update_where q f xs) ≡ some (f x)
  first-update_where p q f h [] x e k = cc
  first-update_where p q f h (y ∷ ys) x e k = elim (Bool-cases (p y)) [
    | inl passes ↦
        let found : some y ≡ some x = ground arith in
        subst (λ z. q z ≡ true → first p (update_where q f (y ∷ ys)) ≡ some (f z))
          (some-injective _ _ found) (λ updated. ground (arith, h y)) k
    | inr fails ↦ ground (arith, h y, first-update_where p q f h ys x (ground arith) k)
  ]

  pub first-append_last :
      (p : A → Bool) (xs : List A) (y : A)
      → first p xs ≡ none
      → p y ≡ true
      → first p (xs ++ (y ∷ [])) ≡ some y
  first-append_last p [] y e k = ground (arith, k)
  first-append_last p (x ∷ xs) y e k = ground (arith, first-append_last p xs y)

  pub first_All {κ} :
      (P : A → Type κ) (p : A → Bool) (xs : List A) (x : A) → All P xs → first p xs ≡ some x → P x
  first_All P p [] x a h = cc
  first_All P p (y ∷ ys) x a h =
      pick_first P (p y) y x (first p ys) a.0 (λ e. first_All P p ys x a.1 e) h

-- One row under a key: what `first` finds is the only row that passes, so an update of the rows that
-- pass is an update of that row.
module _ {ℓ} {A : Type ℓ} where
  abbrev pub OnlyRow : (A → Bool) → A → List A → Type ℓ
  OnlyRow q b = All (λ x. q x ≡ true → x ≡ b)

  pub none_passes : (q : A → Bool) (b : A) (xs : List A) → count q xs ≡ 0 → OnlyRow q b xs
  none_passes q b [] h = tt
  none_passes q b (x ∷ xs) h = (λ e. ground arith, none_passes q b xs (ground arith))

  pub only_row :
      (q : A → Bool) (b : A) (xs : List A) → count q xs ≤ 1 → first q xs ≡ some b → OnlyRow q b xs
  only_row q b [] h e = tt
  only_row q b (x ∷ xs) h e = elim (Bool-cases (q x)) [
    | inl p ↦ (λ _. ground arith, none_passes q b xs (ground arith))
    | inr p ↦ (λ p'. cc, only_row q b xs (ground arith) (ground arith))
  ]

  -- Updating that row: a test that the new row passes only if the old one did is passed no more
  -- often, and a predicate that the new row has is kept.
  pub count-update_row-le :
      (p q : A → Bool) (f : A → A) (b : A)
      → (p (f b) ≡ true → p b ≡ true)
      → (xs : List A) → OnlyRow q b xs
      → count p (update_where q f xs) ≤ count p xs
  count-update_row-le p q f b h [] o = omega arith
  count-update_row-le p q f b h (x ∷ xs) o = elim (Bool-cases (q x)) [
    | inl e ↦ ground (
      arith,
      e,
      o.0 e,
      ap (λ y. p (f y)) (o.0 e),
      ap p (o.0 e),
      h,
      count-update_row-le p q f b h xs o.1,
    )
    | inr e ↦ ground (arith, count-update_row-le p q f b h xs o.1)
  ]

  pub All-update_row {κ} :
      (P : A → Type κ) (q : A → Bool) (f : A → A) (b : A)
      → P (f b)
      → (xs : List A) → OnlyRow q b xs
      → All P xs
      → All P (update_where q f xs)
  All-update_row P q f b h [] o a = tt
  All-update_row P q f b h (x ∷ xs) o a = (
    if_both P (q x) (f x) x (λ e. subst (λ y. P (f y)) (sym (o.0 e)) h) a.0,
    All-update_row P q f b h xs o.1 a.1,
  )
