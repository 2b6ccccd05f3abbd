-- ===== src/Bookings/Save.antt =====
-- The table invariant when one booking that was read under its lock is saved.
use room_reserve.Prelude.{
  ℕ, ◌≤◌, ◌<◌, ◌≡◌, ◌⊎◌, inl, inr, Bool, true, false, not, ◌&&◌, some, List, [], ◌∷◌, refl, any,
  count, first, update_where, ◌==◌, Bool-cases, arith,
}
use room_reserve.Prelude.Count
use room_reserve.Models.Booking.{Booking, claims_room, claims_user}
use room_reserve.Bookings.Constraints.{IsRow, IsTable}

abbrev pub has_id : ℕ → Booking → Bool
has_id id b = b.id == id

-- The hour is claimed by no other booking than the one under this key.
abbrev pub FreeOfOthers : ℕ → ℕ → ℕ → List Booking → Type 0
FreeOfOthers room start id rows =
    any (λ x. claims_room room start x && not (x.id == id)) rows ≡ false

module _ (next id : ℕ) (rows : List Booking) (b : Booking) (f : Booking → Booking)
    (t : IsTable next rows) (found : first (has_id id) rows ≡ some b) where
  the_row : Count.OnlyRow (has_id id) b rows
  the_row = Count.only_row (has_id id) b rows (t.keys id) found

  pub valid_of_found : IsRow b
  valid_of_found = Count.first_All IsRow (has_id id) rows b t.valid found

  pub row_id : b.id ≡ id
  row_id = let e = Count.first_passes (has_id id) rows b found in ground arith

  saved_room :
      (room start : ℕ)
      → (claims_room room start (f b) ≡ true
          → (claims_room room start b ≡ true) ⊎ FreeOfOthers room start id rows)
      → count (claims_room room start) (update_where (has_id id) f rows) ≤ 1
  saved_room room start claim = elim (Bool-cases (claims_room room start (f b))) [
    | inl new ↦ elim (claim new) [
      | inl old ↦
          let e =
            Count.count-update_row-le (claims_room room start) (has_id id) f b (λ _. old) rows
              the_row in
          omega (arith, e, t.room_slot_unique room start)
      | inr free ↦
          let split = Count.count-update_where-split (claims_room room start) (has_id id) f rows in
          let zero' =
            Count.count_of_any (λ x. claims_room room start x && not (x.id == id)) rows free in
          omega (arith, split, zero', t.keys id)
    ]
    | inr gone ↦
        let e =
          Count.count-update_row-le (claims_room room start) (has_id id) f b (λ h. cc) rows
            the_row in
        omega (arith, e, t.room_slot_unique room start)
  ]

  -- The saved row keeps its key, is valid, claims a room's hour that the row had or that no other row
  -- claims, and claims no user's hour that the row did not.
  pub save-IsTable :
      ((x : Booking) → (f x).id ≡ x.id)
      → IsRow (f b)
      → ((room start : ℕ)
          → claims_room room start (f b) ≡ true
          → (claims_room room start b ≡ true) ⊎ FreeOfOthers room start id rows)
      → ((user start : ℕ) → claims_user user start (f b) ≡ true → claims_user user start b ≡ true)
      → IsTable next (update_where (has_id id) f rows)
  save-IsTable key valid room_claim user_claim = record {
    valid = Count.All-update_row IsRow (has_id id) f b valid rows the_row t.valid;
    fresh =
        Count.All-update_where (λ x. x.id < next) (has_id id) f (λ x h _. rw (key x) h) rows
          t.fresh;
    keys = λ i.
        let e = Count.count-update_where-eq (has_id i) (has_id id) f (λ x. rw (key x)) rows in
        omega (arith, e, t.keys i);
    room_slot_unique = λ room start. saved_room room start (room_claim room start);
    user_slot_unique = λ user start.
        let e =
          Count.count-update_row-le (claims_user user start) (has_id id) f b (user_claim user start)
            rows the_row in
        omega (arith, e, t.user_slot_unique user start);
  }

module _ (f : Booking → Booking) (h : (x : Booking) → (f x).id ≡ x.id) where
  -- A save under one key leaves what is found under another.
  pub first_other :
      (id other : ℕ)
      → (other == id) ≡ false
      → (rows : List Booking)
      → first (has_id other) (update_where (has_id id) f rows) ≡ first (has_id other) rows
  first_other id other e [] = refl
  first_other id other e (x ∷ rows) =
      let rest = first_other id other e rows in let same = h x in ground arith
