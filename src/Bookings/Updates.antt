-- ===== src/Bookings/Updates.antt =====
-- The table invariant under the three ways to write: a new row, a row that gives up or keeps its
-- claims, and a row that moves.
use room_reserve.Prelude.{
  ℕ, suc, ◌≤◌, ◌<◌, ◌≡◌, refl, Bool, true, false, List, [], ◌∷◌, ◌++◌, any, count, All,
  update_where, ◌==◌, arith, ◌⊎◌, inl, inr, sym, ◌∙◌,
}
use mathlib.Core.Path.{subst₂}
use mathlib.Core.Bool.{false≢true}
use room_reserve.Prelude.Count
use room_reserve.Models.Booking.{Booking, claims_room, claims_user}
use room_reserve.Bookings.Constraints.{IsRow, IsTable}

fresh_count :
    (next i : ℕ) (rows : List Booking)
    → next ≤ i
    → All (λ b. b.id < next) rows
    → count (λ b. b.id == i) rows ≡ 0
fresh_count next i [] h a = refl
fresh_count next i (x ∷ xs) h a = ground (arith, fresh_count next i xs h a.1)

claims_room_args :
    (room start : ℕ) (b : Booking)
    → claims_room room start b ≡ true
    → (b.room ≡ room) × (b.slot_start ≡ start)
claims_room_args room start b h = ground arith

claims_user_args :
    (user start : ℕ) (b : Booking)
    → claims_user user start b ≡ true
    → (b.user ≡ user) × (b.slot_start ≡ start) × (b.is_staff_booking ≡ false)
claims_user_args user start b h = ground arith

-- One more row that passes only where no row passed before.
count_one_more :
    (p : Booking → Bool) (rows : List Booking) (b : Booking)
    → count p rows ≤ 1
    → (p b ≡ true → any p rows ≡ false)
    → count p (rows ++ (b ∷ [])) ≤ 1
count_one_more p rows b h k =
    ground (arith, Count.count-append p rows (b ∷ []), k, Count.count_of_any p rows)

-- A new row under the next key, for a room's hour that nobody claims and, unless it is a staff hold,
-- a user's hour that the user does not claim.
pub insert-IsTable :
    (next : ℕ) (rows : List Booking) (b : Booking)
    → IsTable next rows
    → IsRow b
    → b.id ≡ next
    → any (claims_room b.room b.slot_start) rows ≡ false
    → (b.is_staff_booking ≡ true) ⊎ (any (claims_user b.user b.slot_start) rows ≡ false)
    → IsTable (suc next) (rows ++ (b ∷ []))
insert-IsTable next rows b t row id free mine = record {
  valid = Count.All-append IsRow rows (b ∷ []) t.valid (row, tt);
  fresh =
      Count.All-append (λ b. b.id < suc next) rows (b ∷ [])
        (Count.All-map (λ b. b.id < next) (λ b. b.id < suc next) (λ x h. omega arith) rows t.fresh)
        (omega arith, tt);
  keys = λ i.
      count_one_more (λ b. b.id == i) rows b (t.keys i)
        λ e.
          Count.any_of_count (λ b. b.id == i) rows (fresh_count next i rows (ground arith) t.fresh);
  room_slot_unique = λ room start.
      count_one_more (claims_room room start) rows b (t.room_slot_unique room start) λ e.
        let (p, q) = claims_room_args room start b e in
        subst₂ (λ r s. any (claims_room r s) rows ≡ false) p q free;
  user_slot_unique = λ user start.
      count_one_more (claims_user user start) rows b (t.user_slot_unique user start) λ e.
        let (p, q, staff) = claims_user_args user start b e in
        elim mine [
          | inl hold ↦ absurd (false≢true (sym staff ∙ hold))
          | inr free ↦ subst₂ (λ u s. any (claims_user u s) rows ≡ false) p q free
        ];
}

-- An update of the rows under some keys that keeps each row's key and validity, and makes none of
-- them claim what it did not claim.
pub update-IsTable :
    (next : ℕ) (rows : List Booking) (q : Booking → Bool) (f : Booking → Booking)
    → ((b : Booking) → (f b).id ≡ b.id)
    → ((b : Booking) → IsRow b → q b ≡ true → IsRow (f b))
    → ((room start : ℕ) (b : Booking)
        → q b ≡ true
        → claims_room room start (f b) ≡ true
        → claims_room room start b ≡ true)
    → ((user start : ℕ) (b : Booking)
        → q b ≡ true
        → claims_user user start (f b) ≡ true
        → claims_user user start b ≡ true)
    → IsTable next rows
    → IsTable next (update_where q f rows)
update-IsTable next rows q f key keeps room_claim user_claim t = record {
  valid = Count.All-update_where IsRow q f keeps rows t.valid;
  fresh = Count.All-update_where (λ b. b.id < next) q f (λ b h _. rw (key b) h) rows t.fresh;
  keys = λ i.
      let e = Count.count-update_where-eq (λ b. b.id == i) q f (λ b. rw (key b)) rows in
      omega (arith, e, t.keys i);
  room_slot_unique = λ room start.
      let e =
        Count.count-update_where-le (claims_room room start) q f (room_claim room start) rows in
      omega (arith, e, t.room_slot_unique room start);
  user_slot_unique = λ user start.
      let e =
        Count.count-update_where-le (claims_user user start) q f (user_claim user start) rows in
      omega (arith, e, t.user_slot_unique user start);
}
