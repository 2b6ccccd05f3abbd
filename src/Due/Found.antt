-- ===== src/Due/Found.antt =====
-- What a query finds: its rows pass its test, each stands under its own key, and no row that passes is
-- left out.
use room_reserve.Prelude.{
  ℕ, ◌≤◌, ◌≡◌, refl, sym, Bool, true, false, ◌||◌, List, [], ◌∷◌, any, count, filter, order_by,
  insert_by, All, if◌then◌else◌, arith,
}
use room_reserve.Prelude.Count
use mathlib.Core.Path.{subst}
use room_reserve.Models.Booking.{Booking}
use room_reserve.Bookings.Save.{has_id}
use room_reserve.Due.Rows.{ReadyRows}

module _ {ℓ} {A : Type ℓ} where
  insert_by-All {κ} :
      (P : A → Type κ) (le : A → A → Bool) (x : A) (ys : List A)
      → P x
      → All P ys
      → All P (insert_by le x ys)
  unfolding insert_by
  insert_by-All P le x [] p a = (p, tt)
  insert_by-All P le x (y ∷ ys) p a = if_all (le x y) (p, a) (a.0, insert_by-All P le x ys p a.1)
    where
      if_all :
          (b : Bool)
          → All P (x ∷ y ∷ ys)
          → All P (y ∷ insert_by le x ys)
          → All P (if b then x ∷ y ∷ ys else y ∷ insert_by le x ys)
      if_all true h k = h
      if_all false h k = k

  pub order_by-All {κ} :
      (P : A → Type κ) (le : A → A → Bool) (xs : List A) → All P xs → All P (order_by le xs)
  unfolding order_by
  order_by-All P le [] a = tt
  order_by-All P le (x ∷ xs) a =
      insert_by-All P le x (order_by le xs) a.0 (order_by-All P le xs a.1)

  pub filter-All {κ} :
      (P : A → Type κ) (p : A → Bool) (xs : List A)
      → All (λ x. p x ≡ true → P x) xs
      → All P (filter p xs)
  filter-All P p [] a = tt
  filter-All P p (x ∷ xs) a = if_all (p x) a.0 (filter-All P p xs a.1)
    where
      if_all :
          (b : Bool)
          → (b ≡ true → P x)
          → All P (filter p xs)
          → All P (if b then x ∷ filter p xs else filter p xs)
      if_all true h k = (h refl, k)
      if_all false h k = k

  any-insert_by :
      (q : A → Bool) (le : A → A → Bool) (x : A) (ys : List A)
      → any q (insert_by le x ys) ≡ (q x || any q ys)
  unfolding insert_by
  any-insert_by q le x [] = refl
  any-insert_by q le x (y ∷ ys) = ground (arith, any-insert_by q le x ys)

  pub any-order_by :
      (q : A → Bool) (le : A → A → Bool) (xs : List A) → any q (order_by le xs) ≡ any q xs
  unfolding order_by
  any-order_by q le [] = refl
  any-order_by q le (x ∷ xs) =
      ground (arith, any-insert_by q le x (order_by le xs), any-order_by q le xs)

-- The only row under a booking's key is the booking, when it is a row and no key stands twice.
OwnRow : List Booking → Booking → Type 0
OwnRow rows d = Count.OnlyRow (has_id d.id) d rows × (1 ≤ count (has_id d.id) rows)

own_rows : (rows : List Booking) → ((i : ℕ) → count (has_id i) rows ≤ 1) → All (OwnRow rows) rows
unfolding OwnRow
own_rows [] k = tt
own_rows (x ∷ xs) k = (
  ((λ _. refl, Count.none_passes (has_id x.id) x xs (ground (arith, k x.id))), ground arith),
  Count.All-map (OwnRow xs) (OwnRow (x ∷ xs))
      (λ d o. ((λ e. ground (arith, o.1, k d.id), o.0), ground (arith, o.1))) xs
      (own_rows xs (λ i. ground (arith, k i))),
)

-- A test that a booking passed passes for its row.
pub found_ready :
    (ready : Booking → Booking → Bool) (p : Booking → Bool) (le : Booking → Booking → Bool)
    (rows : List Booking)
    → ((d : Booking) → p d ≡ true → ready d d ≡ true)
    → ((i : ℕ) → count (has_id i) rows ≤ 1)
    → All (ReadyRows ready rows) (order_by le (filter p rows))
unfolding OwnRow
found_ready ready p le rows h k = order_by-All (ReadyRows ready rows) le (filter p rows) (
    filter-All (ReadyRows ready rows) p rows (
      Count.All-map (OwnRow rows) (λ d. p d ≡ true → ReadyRows ready rows d)
        (λ d o passed.
          Count.All-map (λ x. has_id d.id x ≡ true → x ≡ d) (λ x. x.id ≡ d.id → ready d x ≡ true)
            (λ x same i. subst (λ y. ready d y ≡ true) (sym (same (ground arith))) (h d passed))
            rows o.0)
        rows (own_rows rows k)))
