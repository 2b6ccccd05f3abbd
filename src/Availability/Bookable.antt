-- ===== src/Availability/Bookable.antt =====
-- What the grid offers against what the services accept.
use room_reserve.Prelude.{
  ℕ, ◌≡◌, refl, ◌∙◌, ap, sym, Bool, true, false, not, ◌&&◌, ◌||◌, Option, none, some, String, List,
  [], ◌∷◌, any, filter, first, All, ltb, leb, is_none, arith, holds, ◌==◌, ◌+◌, ◌%◌,
}
use room_reserve.Prelude.Text.{same_text}
use room_reserve.Models.Booking.{Booking, claims_room}
use room_reserve.Models.Account.{User}
use room_reserve.Models.Room.{Room, Closure, WeeklyBlock}
use room_reserve.Models.Db.{Db}
use room_reserve.Slots.{
  local_date, local_hour, slot_start_for, slot_end_for, is_hour_aligned, is_within_horizon,
  bangkok_offset,
}
use room_reserve.Settings.{hour}
use room_reserve.Calendar.{
  day_hours, within_hours, closes, is_slot_closed, blocks_slot, weekly_block_for, slot_open,
}
use room_reserve.Action.{Result, ok, err}
use room_reserve.Bookings.{is_taken}
use room_reserve.Bookings.Constraints.{IsRow, IsConsistent}
use room_reserve.Availability.{
  is_bookable_state, is_free_now, last_where, fills, booking_at, meets_day, closures_for, overlaps,
  closure_reason_for, applies_on, weekly_blocks_for_date, holds_hour, block_reason_for,
  classify_booked, classify_free, classify, admits, day_cell,
}

module _ {A : Type 0} (reason : A → String) where
  abbrev pub IsNamed : List A → Type 0
  IsNamed xs = All (λ x. same_text (reason x) "" ≡ false) xs

  first_reason :
      (p q : A → Bool) (xs : List A) (rest : String)
      → IsNamed xs
      → same_text (elim (first p (filter q xs)) [ some x ↦ reason x | none ↦ rest ]) ""
        ≡ (not (any (λ x. q x && p x) xs) && same_text rest "")
  first_reason p q [] rest h = refl
  first_reason p q (x ∷ xs) rest (n, ns) = ground (arith, n, first_reason p q xs rest ns)

  any_found : (p : A → Bool) (xs : List A) → is_none (first p xs) ≡ not (any p xs)
  any_found p [] = refl
  any_found p (x ∷ xs) = ground (arith, any_found p xs)

  any_either :
      (f g k : A → Bool)
      → ((x : A) → f x ≡ (g x || k x))
      → (xs : List A) → any f xs ≡ (any g xs || any k xs)
  any_either f g k e [] = refl
  any_either f g k e (x ∷ xs) = ground (arith, e x, any_either f g k e xs)

last_found : (p : Booking → Bool) (xs : List Booking) → is_none (last_where p xs) ≡ not (any p xs)
last_found p [] = refl
last_found p (x ∷ xs) = ground (arith, last_found p xs)

-- The day of a slot holds the closures that meet the slot.
closes_on_day :
    (t room : ℕ) (c : Closure)
    → is_hour_aligned t ≡ true
    → closes t (slot_end_for t) room c ≡ (
        (meets_day (local_date t) c && (is_none c.room && overlaps t (slot_end_for t) c))
        || (meets_day (local_date t) c
            && (holds (λ r. r == room) c.room && overlaps t (slot_end_for t) c)))
unfolding is_hour_aligned slot_end_for slot_start_for local_date
closes_on_day t room c h = let e : (t + bangkok_offset) % hour ≡ 0 = ground arith in ground arith

closure_reason_for_lem :
    (t room : ℕ) (db : Db)
    → is_hour_aligned t ≡ true
    → IsNamed (λ c. c.reason) db.closures
    → same_text (closure_reason_for room t (slot_end_for t) (closures_for (local_date t) db)) ""
      ≡ not (is_slot_closed t room db)
unfolding closure_reason_for closures_for is_slot_closed
closure_reason_for_lem t room db al h =
    let day = meets_day (local_date t) in
    let every = λ (c : Closure). is_none c.room && overlaps t (slot_end_for t) c in
    let here = λ (c : Closure). holds (λ r. r == room) c.room && overlaps t (slot_end_for t) c in
    let later : String = elim (first here (filter day db.closures)) [
      | some c ↦ c.reason
      | none ↦ ""
    ] in
    let a = first_reason (λ c. c.reason) every day db.closures later h in
    let b = first_reason (λ c. c.reason) here day db.closures "" h in
    let e =
      any_either (λ c. c.reason) (closes t (slot_end_for t) room) (λ c. day c && every c)
        (λ c. day c && here c) (λ c. closes_on_day t room c al) db.closures in
    a ∙ ground arith

block_reason_for_lem :
    (t room : ℕ) (db : Db)
    → IsNamed (λ w. w.reason) db.weekly_blocks
    → same_text (block_reason_for t (weekly_blocks_for_date (local_date t) room db)) ""
      ≡ is_none (weekly_block_for t room db)
unfolding block_reason_for weekly_blocks_for_date weekly_block_for blocks_slot
block_reason_for_lem t room db h =
    let on = applies_on (local_date t) room in
    let at = holds_hour (local_hour t) in
    first_reason (λ w. w.reason) at on db.weekly_blocks "" h ∙ same db.weekly_blocks
  where
    same :
        (ws : List WeeklyBlock)
        → (not (any (λ w. applies_on (local_date t) room w && holds_hour (local_hour t) w) ws)
            && true)
          ≡ is_none (first (blocks_slot t room) ws)
    same [] = refl
    same (w ∷ ws) = let rest = same ws in ground arith

booking_at_lem :
    (t room : ℕ) (db : Db)
    → IsConsistent db
    → is_none (booking_at (local_date t) room t db) ≡ not (is_taken room t db)
unfolding booking_at is_taken
booking_at_lem t room db c =
    last_found (fills (local_date t) room t) db.bookings ∙ ap not (same db.bookings c.valid)
  where
    same :
        (rows : List Booking)
        → All IsRow rows
        → any (fills (local_date t) room t) rows ≡ any (claims_room room t) rows
    same [] v = refl
    same (b ∷ rows) (v, vs) = let d = v.dated in let rest = same rows vs in ground arith

classify_bookable :
    (now t te : ℕ) (active shut : Bool) (closure : String) (booking : Option Booking) (last : ℕ)
    (block : String) (may view : Bool)
    → is_bookable_state (classify now t te active shut closure booking last block may view) ≡ (
        ltb now te
        && (active
            && (not shut
                && (same_text closure ""
                    && (is_none booking
                        && (same_text block ""
                            && (not view && (ltb now t && (leb (local_date t) last && may)))))))))
unfolding classify classify_free classify_booked
classify_bookable now t te active shut closure none last block may view = ground arith
classify_bookable now t te active shut closure (some b) last block may view = ground arith

pub classify_free_now :
    (now t te : ℕ) (active shut : Bool) (closure : String) (booking : Option Booking) (last : ℕ)
    (block : String) (may view : Bool)
    → is_free_now (classify now t te active shut closure booking last block may view) ≡ (
        ltb now te
        && (active
            && (not shut
                && (same_text closure ""
                    && (is_none booking && (same_text block "" && (not view && leb t now)))))))
unfolding classify classify_free classify_booked
classify_free_now now t te active shut closure none last block may view = ground arith
classify_free_now now t te active shut closure (some b) last block may view = ground arith

-- What the services ask of a slot, whoever asks.
abbrev pub passes : Result (Unit {0}) → Bool
passes (ok _) = true
passes (err _) = false

unfoldable pub is_free : Room → ℕ → Db → Bool
is_free room t db =
    passes (slot_open t room db) && (not (is_taken room.id t db) && not room.availability_only)

passes-slot_open :
    (t : ℕ) (room : Room) (db : Db)
    → within_hours (local_hour t) (day_hours (local_date t) db) ≡ true
    → passes (slot_open t room db) ≡ (
        room.is_active
        && (not (is_slot_closed t room.id db) && is_none (weekly_block_for t room.id db)))
unfolding slot_open
passes-slot_open t room db h = ground arith

hours_known : (h : ℕ) (hours : Option (ℕ × ℕ)) → within_hours h hours ≡ true → is_none hours ≡ false
unfolding within_hours
hours_known h none e = sym e
hours_known h (some p) e = refl

-- In an opening hour of its day, a slot that starts on the hour shows as bookable exactly when it lies
-- ahead, inside the horizon of the settings, for a viewer whom the room admits, and as free now
-- exactly when its hour runs; both only if the calendar takes the slot, no row claims it and the room is
-- not shown for its availability only. A reservation whose deadline has passed claims its hour until a
-- reconciliation has marked it, so that hour does not show as free. The booking table is well formed,
-- and closures and classes have their reasons.
pub day_cell_offers :
    (room : Room) (now t : ℕ) (user : Option User) (db : Db)
    → IsConsistent db
    → IsNamed (λ c. c.reason) db.closures
    → IsNamed (λ w. w.reason) db.weekly_blocks
    → is_hour_aligned t ≡ true
    → within_hours (local_hour t) (day_hours (local_date t) db) ≡ true
    → (is_bookable_state (day_cell room (local_date t) now user db t).state ≡ (
        is_free room t db
        && (ltb now t
            && (is_within_horizon now t db.settings.horizon_days && admits room user db))))
      × (is_free_now (day_cell room (local_date t) now user db t).state
          ≡ (is_free room t db && (leb t now && ltb now (slot_end_for t))))
unfolding day_cell is_free is_within_horizon slot_end_for
day_cell_offers room now t user db c closures blocks al hours =
    let e1 = closure_reason_for_lem t room.id db al closures in
    let e2 = block_reason_for_lem t room.id db blocks in
    let e3 = booking_at_lem t room.id db c in
    let e4 = passes-slot_open t room db hours in
    let e5 = hours_known (local_hour t) (day_hours (local_date t) db) hours in
    (
      classify_bookable _ _ _ _ _ _ _ _ _ _ _ ∙ ground arith,
      classify_free_now _ _ _ _ _ _ _ _ _ _ _ ∙ ground arith,
    )
