-- ===== src/Due/Left.antt =====
-- After the loop no row passes the test of the query any more.
use room_reserve.Prelude.{
  ◌≡◌, refl, ◌∙◌, Bool, true, false, ◌&&◌, List, [], ◌∷◌, any, filter, order_by, update_where, All,
  ◌==◌, arith,
}
use room_reserve.Prelude.Count
use room_reserve.Models.Booking.{Booking}
use room_reserve.Bookings.Save.{has_id}
use room_reserve.Due.Rows.{updates}
use room_reserve.Due.Found.{any-order_by}

-- Every row that passes is among the found ones.
pub Listed : (Booking → Bool) → List Booking → Booking → Type 0
Listed p ds x = p x ≡ true → any (λ d. x.id == d.id) ds ≡ true

any-filter :
    (q p : Booking → Bool) (xs : List Booking) → any q (filter p xs) ≡ any (λ d. p d && q d) xs
any-filter q p [] = refl
any-filter q p (x ∷ xs) = ground (arith, any-filter q p xs)

any_both :
    (p k q : Booking → Bool) (xs : List Booking)
    → any (λ d. p d && (k d && q d)) xs ≡ any (λ d. (p d && k d) && q d) xs
any_both p k q [] = refl
any_both p k q (x ∷ xs) = ground (arith, any_both p k q xs)

passes_itself :
    (p : Booking → Bool) (rows seen : List Booking)
    → ((x : Booking)
        → any (λ d. p d && x.id == d.id) rows ≡ true
        → any (λ d. p d && x.id == d.id) seen ≡ true)
    → All (λ x. p x ≡ true → any (λ d. p d && x.id == d.id) seen ≡ true) rows
passes_itself p [] seen h = tt
passes_itself p (x ∷ xs) seen h =
    (λ e. h x (ground arith), passes_itself p xs seen (λ y e. h y (ground arith)))

pub found_Listed :
    (p : Booking → Bool) (le : Booking → Booking → Bool) (rows : List Booking)
    → All (Listed p (order_by le (filter p rows))) rows
unfolding Listed
found_Listed p le rows =
    Count.All-map (λ x. p x ≡ true → any (λ d. p d && x.id == d.id) rows ≡ true)
      (Listed p (order_by le (filter p rows)))
      (λ x h e.
        any-order_by (λ d. x.id == d.id) le (filter p rows)
        ∙ (any-filter (λ d. x.id == d.id) p rows ∙ h e))
      rows (passes_itself p rows rows (λ x e. e))

-- The found rows that pass one more test.
pub kept_Listed :
    (p k : Booking → Bool) (le : Booking → Booking → Bool) (rows : List Booking)
    → All (Listed (λ x. p x && k x) (filter k (order_by le (filter p rows)))) rows
unfolding Listed
kept_Listed p k le rows =
    let r : Booking → Bool = λ x. p x && k x in
    Count.All-map (λ x. r x ≡ true → any (λ d. r d && x.id == d.id) rows ≡ true)
      (Listed r (filter k (order_by le (filter p rows))))
      (λ x h e.
        let q : Booking → Bool = λ d. x.id == d.id in
        any-filter q k (order_by le (filter p rows))
        ∙ (any-order_by (λ d. k d && q d) le (filter p rows)
            ∙ (any-filter (λ d. k d && q d) p rows ∙ (any_both p k q rows ∙ h e))))
      rows (passes_itself r rows rows (λ x e. e))

pub none-Listed :
    (p : Booking → Bool) (rows : List Booking) → All (Listed p []) rows → any p rows ≡ false
unfolding Listed
none-Listed p [] a = refl
none-Listed p (x ∷ xs) a = ground (arith, a.0, none-Listed p xs a.1)

-- A loop that leaves the test's answers alone.
pub any-updates :
    (p : Booking → Bool) (f : Booking → Booking → Booking)
    → ((d x : Booking) → p (f d x) ≡ p x)
    → (ds rows : List Booking) → any p (updates f ds rows) ≡ any p rows
unfolding updates
any-updates p f h [] rows = refl
any-updates p f h (d ∷ ds) rows =
    any-updates p f h ds (update_where (has_id d.id) (f d) rows)
    ∙ Count.any-update_where p (has_id d.id) (f d) (h d) rows

module _ (p : Booking → Bool) (f : Booking → Booking → Booking)
    (gone : (d x : Booking) → p (f d x) ≡ false) where
  -- The loop over rows among which all are listed that pass leaves none.
  pub updates_none :
      (ds rows : List Booking) → All (Listed p ds) rows → any p (updates f ds rows) ≡ false
  unfolding Listed updates
  updates_none [] rows a = none-Listed p rows a
  updates_none (d ∷ ds) rows a =
      updates_none ds (update_where (has_id d.id) (f d) rows) (after rows a)
    where
      after :
          (rows : List Booking)
          → All (Listed p (d ∷ ds)) rows
          → All (Listed p ds) (update_where (has_id d.id) (f d) rows)
      after [] a = tt
      after (x ∷ xs) a = (ground (arith, gone d x, a.0), after xs a.1)

  -- A loop whose saved rows do not pass a test lets no row pass that did not before.
  pub updates_keep_none :
      (ds rows : List Booking) → any p rows ≡ false → any p (updates f ds rows) ≡ false
  unfolding updates
  updates_keep_none [] rows h = h
  updates_keep_none (d ∷ ds) rows h =
      updates_keep_none ds (update_where (has_id d.id) (f d) rows) (after rows h)
    where
      after :
          (rows : List Booking)
          → any p rows ≡ false
          → any p (update_where (has_id d.id) (f d) rows) ≡ false
      after [] h = refl
      after (x ∷ xs) h = ground (arith, gone d x, after xs)
