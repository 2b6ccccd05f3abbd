-- ===== src/Checkin/Table.antt =====
-- When a check-in goes through, what it writes, and the constraints of the booking table.
use room_reserve.Prelude.{
  ℕ, ◌≤◌, ◌≡◌, refl, inl, inr, Bool, true, false, ◌||◌, Option, some, String, ltb, holds,
  update_where, Option-cases, arith,
}
use room_reserve.Models.Booking.{Booking, is_scheduled}
use room_reserve.Models.Room.{Room}
use room_reserve.Models.Operations.{Fields}
use room_reserve.Models.Db.{Db}
use room_reserve.Audit.{record_audit}
use room_reserve.Policy.{current_policy, with_policy}
use room_reserve.Eligibility.{assert_can_operate}
use room_reserve.Bookings.{Context, find_booking, reload_for_update, user_of, owns, save_booking}
use room_reserve.Bookings.Constraints.{IsRow, IsConsistent}
use room_reserve.Bookings.Save.{has_id, row_id, valid_of_found, save-IsTable}
use room_reserve.Action.{ok, reject_if}
use room_reserve.Checkin.{check_in, checked_in, write_check_in, is_other_room}

-- Whose booking may be checked in, where and when: the window is closed at the deadline.
pub record MayCheckIn (ctx : Context) (room : Option Room) (staff : Bool) (b : Booking)
    : Type 0 where
  pub permitted : (staff || owns ctx.actor b) ≡ true
  pub here : is_other_room room b ≡ false
  pub waiting : is_scheduled b.status ≡ true
  pub begun : b.slot_start ≤ ctx.now
  pub in_grace : holds (λ d. ltb ctx.now d) b.deadline ≡ true

-- A check-in goes through only for the owner or with staff, in the room of the booking if one is given,
-- for a scheduled booking, from its start until before its deadline; it then writes that booking alone,
-- as checked in.
pub check_in_ok :
    (ctx : Context) (id : ℕ) (room : Option Room) (staff : Bool) (reason : String) (db : Db)
    {fields : Fields} {db' : Db}
    → check_in ctx id room staff reason db ≡ (ok fields, db')
    → (b : Booking) × (find_booking id db ≡ some b)
      × MayCheckIn ctx room staff b
      × (db'.bookings ≡ update_where (has_id b.id) (checked_in ctx) db.bookings)
      × (db'.next_booking ≡ db.next_booking)
unfolding check_in reload_for_update reject_if user_of write_check_in record_audit save_booking
    current_policy with_policy assert_can_operate
check_in_ok ctx id room staff reason db h = elim (Option-cases (find_booking id db)) [
  | inl e ↦ ground arith
  | inr (b, e) ↦ (b, e, ground arith, ground arith, ground arith)
]

checked_in-IsRow :
    (ctx : Context) (room : Option Room) (staff : Bool) (b : Booking)
    → IsRow b
    → MayCheckIn ctx room staff b
    → IsRow (checked_in ctx b)
unfolding checked_in
checked_in-IsRow ctx room staff b r may = record {
  length = r.length;
  aligned = r.aligned;
  dated = r.dated;
  walk_in = ground (arith, r.walk_in);
  deadline = r.deadline;
  within = r.within;
  checkin = ground (arith, r.within, may.in_grace, may.begun);
  cancellation = ground (arith, r.cancellation, may.waiting);
  reason = r.reason;
}

-- A check-in that goes through leaves a booking table that satisfies all its constraints, if the
-- table did before: its instant lies inside the slot, since the deadline does.
pub check_in-IsConsistent :
    (ctx : Context) (id : ℕ) (room : Option Room) (staff : Bool) (reason : String) (db : Db)
    {fields : Fields} {db' : Db}
    → check_in ctx id room staff reason db ≡ (ok fields, db')
    → IsConsistent db
    → IsConsistent db'
unfolding checked_in
check_in-IsConsistent ctx id room staff reason db done t =
    let (b, found, may, rows, next) = check_in_ok ctx id room staff reason db done in
    let key : b.id ≡ id = row_id db.next_booking id db.bookings b (checked_in ctx) t found in
    rw (rows, next, key)
      (save-IsTable db.next_booking id db.bookings b (checked_in ctx) t found (λ x. refl)
        (checked_in-IsRow ctx room staff b
          (valid_of_found db.next_booking id db.bookings b (checked_in ctx) t found) may)
        (λ room start h. ground (arith, may.waiting)) (λ user start h. ground (arith, may.waiting)))
