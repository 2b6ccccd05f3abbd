-- ===== src/Availability/Current.antt =====
-- The cell of the running hour, which the page behind a room's QR code shows.
use room_reserve.Prelude.{
  ℕ, zero, suc, ◌+◌, ◌-◌, ◌<◌, ◌≡◌, refl, ◌∙◌, ap, sym, Bool, true, false, ◌&&◌, Option, none, some,
  List, [], ◌∷◌, any, map, first, ltb, leb, ◌==◌, is_none, arith, if◌then◌else◌,
}
use room_reserve.Models.Account.{User}
use room_reserve.Models.Room.{Room}
use room_reserve.Models.Db.{Db}
use room_reserve.Slots.{
  local_date, local_hour, slot_start_for, floor_to_slot, range, day_slot_starts,
}
use room_reserve.Slots.Laws.{floor_to_slot_lem, slot_start_for-local}
use room_reserve.Calendar.{day_hours, within_hours, slot_open}
use room_reserve.Bookings.Constraints.{IsConsistent}
use room_reserve.Availability.{
  SlotCell, is_free_now, day_cell, column_starts, room_day_cells, current_slot_cell,
}
use room_reserve.Availability.Bookable.{IsNamed, is_free, classify_free_now, day_cell_offers}

found_cell :
    (f : ℕ → SlotCell)
    → ((s : ℕ) → (f s).slot_start ≡ s)
    → (t : ℕ) (starts : List ℕ)
    → first (λ c. c.slot_start == t) (map f starts)
      ≡ (if any (λ s. s == t) starts then some (f t) else none)
found_cell f h t [] = refl
found_cell f h t (s ∷ starts) = let rest = found_cell f h t starts in let here = h s in ground arith

same_hour : (date a h : ℕ) → 0 < date → (slot_start_for date a == slot_start_for date h) ≡ (a == h)
unfolding slot_start_for
same_hour date a h p = ground arith

columns_hold :
    (date h a n : ℕ)
    → 0 < date
    → any (λ s. s == slot_start_for date h) (map (slot_start_for date) (range a n))
      ≡ (leb a h && ltb h (a + n))
unfolding range
columns_hold date h a zero p = ground arith
columns_hold date h a (suc n) p =
    let rest = columns_hold date h (a + 1) n p in let here = same_hour date a h p in ground arith

floor_local :
    (now : ℕ)
    → (local_date (floor_to_slot now) ≡ local_date now)
      × (local_hour (floor_to_slot now) ≡ local_hour now)
unfolding local_date local_hour floor_to_slot
floor_local now = (omega arith, omega arith)

-- On a day that is closed, and at an hour outside the columns, the cell is not free and the calendar
-- refuses the hour.
shut_cell :
    (room : Room) (now t : ℕ) (user : Option User) (db : Db)
    → day_hours (local_date now) db ≡ none
    → is_free_now (day_cell room (local_date now) now user db t).state ≡ false
unfolding day_cell
shut_cell room now t user db h =
    let e = ap is_none h in classify_free_now _ _ _ _ _ _ _ _ _ _ _ ∙ ground arith

refused :
    (room : Room) (t : ℕ) (db : Db)
    → within_hours (local_hour t) (day_hours (local_date t) db) ≡ false
    → is_free room t db ≡ false
unfolding is_free slot_open
refused room t db h = ground arith

floor_named : (now : ℕ) → floor_to_slot now ≡ slot_start_for (local_date now) (local_hour now)
floor_named now =
    let (date, h) = floor_local now in
    sym (slot_start_for-local (floor_to_slot now) (floor_to_slot_lem now).0)
    ∙ (ap (λ d. slot_start_for d (local_hour (floor_to_slot now))) date
        ∙ ap (slot_start_for (local_date now)) h)

columns_hold_now :
    (now a b : ℕ)
    → 0 < local_date now
    → any (λ s. s == floor_to_slot now) (day_slot_starts (local_date now) a b)
      ≡ within_hours (local_hour now) (some (a, b))
unfolding day_slot_starts within_hours
columns_hold_now now a b p =
    ap (λ t. any (λ s. s == t) (day_slot_starts (local_date now) a b)) (floor_named now)
    ∙ (columns_hold (local_date now) (local_hour now) a (b - a) p ∙ ground arith)

free_or_blank :
    (blank c : SlotCell) (o : Option SlotCell) (b : Bool)
    → is_free_now blank.state ≡ false
    → o ≡ (if b then some c else none)
    → is_free_now (elim o as (λ _. SlotCell) [ some x ↦ x | none ↦ blank ]).state
      ≡ (b && is_free_now c.state)
free_or_blank blank c none true h e = ground arith
free_or_blank blank c none false h e = h
free_or_blank blank c (some x) true h e = ground arith
free_or_blank blank c (some x) false h e = ground arith

current_is :
    (room : Room) (now : ℕ) (user : Option User) (db : Db)
    → is_free_now (current_slot_cell room now user db).state ≡ (
        any (λ s. s == floor_to_slot now) (column_starts (local_date now) db)
        && is_free_now (day_cell room (local_date now) now user db (floor_to_slot now)).state)
unfolding current_slot_cell room_day_cells
current_is room now user db =
    let cell = day_cell room (local_date now) now user db in
    free_or_blank _ (cell (floor_to_slot now)) _ _ refl (
      found_cell cell (λ s. unfold day_cell in refl) (floor_to_slot now)
        (column_starts (local_date now) db))

open_starts :
    (date : ℕ) (db : Db) {a b : ℕ}
    → day_hours date db ≡ some (a, b)
    → column_starts date db ≡ day_slot_starts date a b
unfolding column_starts
open_starts date db e = rw (e, column_starts) refl

columns_now :
    (now : ℕ) (db : Db) (a b : ℕ)
    → 0 < local_date now
    → day_hours (local_date now) db ≡ some (a, b)
    → any (λ s. s == floor_to_slot now) (column_starts (local_date now) db)
      ≡ within_hours (local_hour now) (some (a, b))
columns_now now db a b p e =
    ap (any (λ s. s == floor_to_slot now)) (open_starts (local_date now) db e)
    ∙ columns_hold_now now a b p

running_hours :
    (now : ℕ) (db : Db) (hours : Option (ℕ × ℕ))
    → day_hours (local_date now) db ≡ hours
    → within_hours (local_hour (floor_to_slot now)) (day_hours (local_date (floor_to_slot now)) db)
      ≡ within_hours (local_hour now) hours
running_hours now db hours e =
    let (date, h) = floor_local now in
    ap (λ d. within_hours (local_hour (floor_to_slot now)) (day_hours d db)) date
    ∙ (ap (λ x. within_hours x (day_hours (local_date now) db)) h
        ∙ ap (within_hours (local_hour now)) e)

when_open : (w x f : Bool) → (w ≡ true → x ≡ f) → (w ≡ false → f ≡ false) → (w && x) ≡ f
when_open true x f inside outside = inside refl
when_open false x f inside outside = sym (outside refl)

module _ (room : Room) (now : ℕ) (user : Option User) (db : Db) (c : IsConsistent db)
    (closures : IsNamed (λ c. c.reason) db.closures)
    (blocks : IsNamed (λ w. w.reason) db.weekly_blocks) where
  running_cell :
      within_hours (local_hour (floor_to_slot now)) (day_hours (local_date (floor_to_slot now)) db)
        ≡ true
      → is_free_now (day_cell room (local_date now) now user db (floor_to_slot now)).state
        ≡ is_free room (floor_to_slot now) db
  running_cell w =
      let (aligned, begun, ahead, again) = floor_to_slot_lem now in
      let offers =
        day_cell_offers room now (floor_to_slot now) user db c closures blocks aligned w in
      ap (λ d. is_free_now (day_cell room d now user db (floor_to_slot now)).state)
        (sym (floor_local now).0)
      ∙ (offers.1 ∙ ground arith)

  current_on :
      (hours : Option (ℕ × ℕ))
      → day_hours (local_date now) db ≡ hours
      → 0 < local_date now
      → (any (λ s. s == floor_to_slot now) (column_starts (local_date now) db)
          && is_free_now (day_cell room (local_date now) now user db (floor_to_slot now)).state)
        ≡ is_free room (floor_to_slot now) db
  unfolding within_hours
  current_on none e p =
      let shut = shut_cell room now (floor_to_slot now) user db e in
      let refuses = refused room (floor_to_slot now) db (running_hours now db none e) in
      ground arith
  current_on (some (a, b)) e p =
      let w = within_hours (local_hour now) (some (a, b)) in
      let same = running_hours now db (some (a, b)) e in
      let cell =
        is_free_now (day_cell room (local_date now) now user db (floor_to_slot now)).state in
      ap (λ x. x && cell) (columns_now now db a b p e)
      ∙ when_open w cell (is_free room (floor_to_slot now) db) (λ y. running_cell (same ∙ y))
          (λ n. refused room (floor_to_slot now) db (same ∙ n))

-- The page behind a room's QR code shows the running hour as free exactly when the calendar takes the
-- hour, no row claims it and the room is not shown for its availability only, on any date after the
-- first one; closed days and hours outside the day's columns are included. A reservation whose deadline
-- has passed claims the hour, and keeps it from showing as free, until a reconciliation has marked it.
-- The booking table is well formed, and closures and classes have their reasons.
pub current_slot_cell_free :
    (room : Room) (now : ℕ) (user : Option User) (db : Db)
    → IsConsistent db
    → IsNamed (λ c. c.reason) db.closures
    → IsNamed (λ w. w.reason) db.weekly_blocks
    → 0 < local_date now
    → is_free_now (current_slot_cell room now user db).state ≡ is_free room (floor_to_slot now) db
current_slot_cell_free room now user db c closures blocks p =
    current_is room now user db
    ∙ current_on room now user db c closures blocks (day_hours (local_date now) db) refl p
