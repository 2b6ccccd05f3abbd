-- ===== src/Staff/Table.antt =====
-- What a staff booking has passed, and the constraints of the booking table.
use room_reserve.Calendar.{assert_slot_open}
use room_reserve.Prelude.{
  ℕ, zero, suc, ◌+◌, ◌-◌, ◌≤◌, ◌<◌, ◌≡◌, ◌⊎◌, refl, sym, ap, inl, inr, Bool, false, List, [], ◌∷◌,
  ◌++◌, ◌%◌, any, All, map, length, Option-cases, arith,
}
use mathlib.Core.Path.{subst}
use room_reserve.Settings.{hour}
use room_reserve.Models.Booking.{Booking, claims_room}
use room_reserve.Models.Account.{User}
use room_reserve.Models.Room.{Room}
use room_reserve.Models.Policy.{PolicyVersion, checkin_grace_minutes}
use room_reserve.Models.Operations.{Fields}
use room_reserve.Models.Db.{Db}
use room_reserve.Slots.{slot_end_for, slot_start_for, range, day_slot_starts}
use room_reserve.Audit.{record_audit}
use room_reserve.Bookings.{Context, acting_user, insert_booking, blank_booking, is_taken}
use room_reserve.Bookings.Constraints.{IsRow, IsConsistent}
use room_reserve.Bookings.Updates.{insert-IsTable}
use room_reserve.Action.{Failure, Result, ok, err, pure, reject_if}
use room_reserve.Action.Rules.{bind_ok}
use room_reserve.Policy.{policy_of, with_policy, current_policy}
use room_reserve.Reserve.Table.{HasGrace}
use room_reserve.Staff.{
  staff_row, hold_hour, announce_hold, hold_hours, any_taken, create_staff_booking, range_started,
  assert_all_open,
}

staff_row-IsRow :
    (ctx : Context) (u : User) (room : Room) (slot_start : ℕ) (policy : PolicyVersion) (db : Db)
    → slot_start % hour ≡ 0
    → 1 ≤ checkin_grace_minutes policy
    → checkin_grace_minutes policy ≤ 60
    → IsRow (staff_row ctx u room slot_start policy db)
unfolding staff_row blank_booking slot_end_for
staff_row-IsRow ctx u room slot_start policy db aligned low high = record {
  length = ground arith;
  aligned = ground arith;
  dated = refl;
  walk_in = refl;
  deadline = refl;
  within = ground arith;
  checkin = refl;
  cancellation = ground arith;
  reason = refl;
}

-- The hours from one instant on, each an hour behind the last.
abbrev Ascending : ℕ → List ℕ → Type 0
Ascending from [] = Unit
Ascending from (s ∷ ss) = (from ≤ s) × (s % hour ≡ 0) × Ascending (s + hour) ss

abbrev AllFree : ℕ → List Booking → List ℕ → Type 0
AllFree room rows = All (λ s. any (claims_room room s) rows ≡ false)

range-Ascending :
    (date h n : ℕ)
    → 0 < slot_start_for date h
    → Ascending (slot_start_for date h) (map (slot_start_for date) (range h n))
unfolding range slot_start_for
range-Ascending date h zero p = tt
range-Ascending date h (suc n) p =
    let e : slot_start_for date (h + 1) ≡ slot_start_for date h + hour = omega arith in
    (
      omega arith,
      omega arith,
      subst (λ from. Ascending from (map (slot_start_for date) (range (h + 1) n))) e
          (range-Ascending date (h + 1) n (omega arith)),
    )

any_append_one :
    (p : Booking → Bool) (rows : List Booking) (b : Booking)
    → any p rows ≡ false
    → p b ≡ false
    → any p (rows ++ (b ∷ [])) ≡ false
any_append_one p [] b h e = ground arith
any_append_one p (x ∷ rows) b h e = ground (arith, any_append_one p rows b)

free_after :
    (room from : ℕ) (rows : List Booking) (b : Booking) (ss : List ℕ)
    → b.slot_start < from
    → Ascending from ss
    → AllFree room rows ss
    → AllFree room (rows ++ (b ∷ [])) ss
free_after room from rows b [] h a f = tt
free_after room from rows b (s ∷ ss) h a f = (
  any_append_one (claims_room room s) rows b f.0 (ground (arith, a.0)),
  free_after room (s + hour) rows b ss (omega (arith, a.0)) a.2 f.1,
)

AllFree-of_none :
    (room : ℕ) (db : Db) (ss : List ℕ) → any_taken room ss db ≡ false → AllFree room db.bookings ss
unfolding any_taken is_taken
AllFree-of_none room db [] h = tt
AllFree-of_none room db (s ∷ ss) h = (ground arith, AllFree-of_none room db ss (ground arith))

module _ (ctx : Context) (u : User) (room : Room) (policy : PolicyVersion)
    (some_grace : 1 ≤ checkin_grace_minutes policy)
    (within_hour : checkin_grace_minutes policy ≤ 60) where
  hold_hour-IsConsistent :
      (s : ℕ) (db : Db)
      → s % hour ≡ 0
      → any (claims_room room.id s) db.bookings ≡ false
      → IsConsistent db
      → IsConsistent (hold_hour ctx u room policy s db)
  unfolding hold_hour announce_hold record_audit insert_booking staff_row blank_booking
  hold_hour-IsConsistent s db aligned free t =
      insert-IsTable db.next_booking db.bookings (staff_row ctx u room s policy db) t
        (staff_row-IsRow ctx u room s policy db aligned some_grace within_hour) refl free (inl refl)

  hold_hours-IsConsistent :
      (from : ℕ) (ss : List ℕ) (db : Db) {ids : List ℕ} {db' : Db}
      → hold_hours ctx u room policy ss db ≡ (ok ids, db')
      → Ascending from ss
      → AllFree room.id db.bookings ss
      → IsConsistent db
      → IsConsistent db' × (length ids ≡ length ss)
  unfolding hold_hours
  hold_hours-IsConsistent from [] db h a f t =
      (subst IsConsistent (ap (λ r. r.1) h) t, ground arith)
  hold_hours-IsConsistent from (s ∷ ss) db {ids} {db'} h a f t =
      let d = hold_hour ctx u room policy s db in
      let free' : AllFree room.id d.bookings ss =
        unfold hold_hour announce_hold record_audit insert_booking in
        free_after room.id (s + hour) db.bookings (staff_row ctx u room s policy db) ss
          (unfold staff_row blank_booking in omega arith) a.2 f.1 in
      let (rest, d', run, end) =
        bind_ok (hold_hours ctx u room policy ss) (λ r. pure (db.next_booking ∷ r)) d h in
      let ih =
        hold_hours-IsConsistent (s + hour) ss d run a.2 free'
          (hold_hour-IsConsistent s db a.1 f.0 t) in
      let e : (db' ≡ d') × (ids ≡ db.next_booking ∷ rest) = (ground arith, ground arith) in
      (subst IsConsistent (sym e.0) ih.0, rw (e.1) (ap suc ih.1))

starts_Ascending :
    (now date start_hour end_hour : ℕ)
    → range_started now (day_slot_starts date start_hour end_hour) ≡ false
    → Ascending (slot_start_for date start_hour) (day_slot_starts date start_hour end_hour)
unfolding day_slot_starts
starts_Ascending now date start_hour end_hour h = from_range (end_hour - start_hour) h
  where
    from_range :
        (n : ℕ)
        → range_started now (map (slot_start_for date) (range start_hour n)) ≡ false
        → Ascending
            (slot_start_for date start_hour)
            (map (slot_start_for date) (range start_hour n))
    from_range zero h = tt
    from_range (suc n) h = range-Ascending date start_hour (suc n) (unfold range in ground arith)

Result-cases : {A : Type 0} (r : Result A) → ((a : A) × (r ≡ ok a)) ⊎ ((f : Failure) × (r ≡ err f))
Result-cases (ok a) = inl (a, refl)
Result-cases (err f) = inr (f, refl)

assert_all_open_quiet : (ss : List ℕ) (room : Room) (db : Db) → (assert_all_open ss room db).1 ≡ db
unfolding assert_all_open assert_slot_open
assert_all_open_quiet [] room db = refl
assert_all_open_quiet (s ∷ ss) room db = ground (arith, assert_all_open_quiet ss room db)

-- What a staff booking has passed before its first hour is held.
create_staff_booking_ok :
    (ctx : Context) (room : Room) (date start_hour end_hour : ℕ) (db : Db) {fields : Fields}
    {db' : Db}
    → create_staff_booking ctx room date start_hour end_hour db ≡ (ok fields, db')
    → (u : User) × (ids : List ℕ) × (range_started ctx.now
          (day_slot_starts date start_hour end_hour)
        ≡ false)
      × (any_taken room.id (day_slot_starts date start_hour end_hour) db ≡ false)
      × (hold_hours ctx u room
            (policy_of db)
            (day_slot_starts date start_hour end_hour)
            (with_policy db)
          ≡ (ok ids, db'))
unfolding create_staff_booking reject_if acting_user current_policy
create_staff_booking_ok ctx room date start_hour end_hour db {fields} {db'} h =
    let starts = day_slot_starts date start_hour end_hour in
    elim (Option-cases ctx.actor) [
      | inl e ↦ ground arith
      | inr (u, e) ↦
          let quiet = assert_all_open_quiet starts room db in
          let opened = assert_all_open starts room db in
          let run = hold_hours ctx u room (policy_of db) starts (with_policy db) in
          elim (Result-cases run.0) [
            | inr (f, bad) ↦ ground (arith, quiet, e, bad)
            | inl (ids, good) ↦
                (u, ids, ground arith, ground (arith, quiet), ground (arith, quiet, good))
          ]
    ]

-- A staff booking that goes through leaves a booking table that satisfies all its constraints, if
-- the table did before: the hours of its range are distinct and each was free. The policy's grace
-- period is 1 to 60 minutes.
pub create_staff_booking-IsConsistent :
    (ctx : Context) (room : Room) (date start_hour end_hour : ℕ) (db : Db) {fields : Fields}
    {db' : Db}
    → create_staff_booking ctx room date start_hour end_hour db ≡ (ok fields, db')
    → IsConsistent db
    → HasGrace db
    → IsConsistent db'
create_staff_booking-IsConsistent ctx room date start_hour end_hour db h t g =
    let starts = day_slot_starts date start_hour end_hour in
    let (u, ids, ahead, free, run) =
      create_staff_booking_ok ctx room date start_hour end_hour db h in
    (hold_hours-IsConsistent ctx u room (policy_of db) g.some_grace g.within_hour
      (slot_start_for date start_hour) starts (with_policy db) run
      (starts_Ascending ctx.now date start_hour end_hour ahead)
      (unfold with_policy in AllFree-of_none room.id db starts free) (unfold with_policy in t)).0
