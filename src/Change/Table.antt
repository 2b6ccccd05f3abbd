-- ===== src/Change/Table.antt =====
-- What an edit and a move have passed, what they write, and the constraints of the booking table.
use room_reserve.Prelude.{
  ℕ, ◌<◌, ◌≡◌, refl, inl, inr, true, false, ◌&&◌, not, some, ◌==◌, update_where, any, is_some,
  Option-cases, arith,
}
use mathlib.Core.Path.{subst₂}
use room_reserve.Models.Booking.{Booking, claims_room}
use room_reserve.Models.Account.{User}
use room_reserve.Models.Room.{Room}
use room_reserve.Models.Operations.{Fields}
use room_reserve.Models.Db.{Db}
use room_reserve.Audit.{record_audit}
use room_reserve.Outbox.{enqueue}
use room_reserve.Calendar.{assert_slot_open, slot_open}
use room_reserve.Eligibility.{assert_may_reserve_room, may_reserve_room}
use room_reserve.Quota.{no_show_reclaim}
use room_reserve.Bookings.{
  Context, Details, find_booking, reload_for_update, user_of, room_of, owns, acting_user,
  save_booking, is_open_status, normalise_details, booking_details,
}
use room_reserve.Bookings.Constraints.{IsRow, IsConsistent}
use room_reserve.Bookings.Save.{has_id, row_id, valid_of_found, save-IsTable}
use room_reserve.Action.{ok, reject_if}
use room_reserve.Change.{
  update_booking_details, same_details, edited, announce_edited, is_changeable, move_booking, moved,
  write_move, announce_moved, is_taken_by_other,
}

-- Who may edit what, and when.
pub record MayEdit (ctx : Context) (details : Details) (b : Booking) : Type 0 where
  pub owned : owns ctx.actor b ≡ true
  pub undone : is_open_status b.status ≡ true
  pub in_time : ctx.now < b.slot_start
  pub differs : same_details (booking_details b) (normalise_details details) ≡ false

pub update_booking_details_ok :
    (ctx : Context) (id : ℕ) (details : Details) (db : Db) {fields : Fields} {db' : Db}
    → update_booking_details ctx id details db ≡ (ok fields, db')
    → (b : Booking) × (find_booking id db ≡ some b)
      × MayEdit ctx details b
      × (db'.bookings ≡ update_where (has_id id) (edited (normalise_details details)) db.bookings)
      × (db'.next_booking ≡ db.next_booking)
unfolding update_booking_details reload_for_update reject_if user_of room_of announce_edited enqueue
    record_audit save_booking
update_booking_details_ok ctx id details db h = elim (Option-cases (find_booking id db)) [
  | inl e ↦ ground arith
  | inr (b, e) ↦ (b, e, ground arith, ground arith, ground arith)
]

edited-IsRow : (d : Details) (b : Booking) → IsRow b → IsRow (edited d b)
unfolding edited
edited-IsRow d b r = record {
  length = r.length;
  aligned = r.aligned;
  dated = r.dated;
  walk_in = r.walk_in;
  deadline = r.deadline;
  within = r.within;
  checkin = r.checkin;
  cancellation = r.cancellation;
  reason = r.reason;
}

-- The constraints of the booking table after an edit.
pub update_booking_details-IsConsistent :
    (ctx : Context) (id : ℕ) (details : Details) (db : Db) {fields : Fields} {db' : Db}
    → update_booking_details ctx id details db ≡ (ok fields, db')
    → IsConsistent db
    → IsConsistent db'
unfolding edited
update_booking_details-IsConsistent ctx id details db done t =
    let (b, found, _, rows, next) = update_booking_details_ok ctx id details db done in
    let f = edited (normalise_details details) in
    rw (rows, next)
      (save-IsTable db.next_booking id db.bookings b f t found (λ x. refl)
        (edited-IsRow (normalise_details details) b
          (valid_of_found db.next_booking id db.bookings b f t found))
        (λ room start h. inl h) (λ user start h. h))

-- What a move has passed: an unstarted reservation of one's own, not part of a series, for another
-- room that admits the user, is open and not forfeited, and whose hour nobody else holds.
pub record MayMove (ctx : Context) (u : User) (b : Booking) (room : Room) (db : Db) : Type 0 where
  pub owned : owns ctx.actor b ≡ true
  pub changeable : is_changeable ctx.now b ≡ true
  pub single : is_some b.recurrence ≡ false
  pub eligible : may_reserve_room ctx.actor room ctx.now db ≡ ok tt
  pub open_slot : slot_open b.slot_start room db ≡ ok tt
  pub unforfeited : no_show_reclaim u.id room.id b.slot_start db ≡ false
  pub free : is_taken_by_other room.id b.slot_start b.id db ≡ false

pub move_booking_ok :
    (ctx : Context) (id : ℕ) (room : Room) (db : Db) {fields : Fields} {db' : Db}
    → move_booking ctx id room db ≡ (ok fields, db')
    → (b : Booking) × (u : User) × (find_booking id db ≡ some b)
      × (ctx.actor ≡ some u)
      × MayMove ctx u b room db
      × (db'.bookings ≡ update_where (has_id b.id) (moved ctx.now u room) db.bookings)
      × (db'.next_booking ≡ db.next_booking)
unfolding move_booking reload_for_update reject_if user_of room_of acting_user
    assert_may_reserve_room assert_slot_open write_move announce_moved enqueue record_audit
    save_booking
move_booking_ok ctx id room db {fields} {db'} h = elim (Option-cases (find_booking id db)) [
  | inl e ↦ ground arith
  | inr (b, e) ↦ elim (Option-cases ctx.actor) [
    | inl nobody ↦ ground arith
    | inr (u, is_u) ↦ (b, u, e, is_u, ground arith, ground arith, ground arith)
  ]
]

moved-IsRow :
    (now : ℕ) (u : User) (room : Room) (b : Booking)
    → IsRow b
    → is_open_status b.status ≡ true
    → IsRow (moved now u room b)
unfolding moved
moved-IsRow now u room b r o = record {
  length = r.length;
  aligned = r.aligned;
  dated = r.dated;
  walk_in = ground (arith, r.walk_in);
  deadline = r.deadline;
  within = r.within;
  checkin = r.checkin;
  cancellation = ground (arith, r.cancellation);
  reason = r.reason;
}

-- A move that goes through leaves a booking table that satisfies all its constraints, if the table
-- did before: the target's hour is free of others, and the user's claim is on the same hour.
pub move_booking-IsConsistent :
    (ctx : Context) (id : ℕ) (room : Room) (db : Db) {fields : Fields} {db' : Db}
    → move_booking ctx id room db ≡ (ok fields, db')
    → IsConsistent db
    → IsConsistent db'
unfolding moved is_taken_by_other
move_booking-IsConsistent ctx id room db done t =
    let (b, u, found, is_u, may, rows, next) = move_booking_ok ctx id room db done in
    let f = moved ctx.now u room in
    let key : b.id ≡ id = row_id db.next_booking id db.bookings b f t found in
    let open_b : is_open_status b.status ≡ true = ground (arith, may.changeable) in
    rw (rows, next, key)
      (save-IsTable db.next_booking id db.bookings b f t found (λ x. refl)
        (moved-IsRow ctx.now u room b (valid_of_found db.next_booking id db.bookings b f t found)
          open_b)
        (λ r start h.
          let e : (room.id ≡ r) × (b.slot_start ≡ start) = (ground arith, ground arith) in
          inr (
            subst₂ (λ r' s. any (λ x. claims_room r' s x && not (x.id == id)) db.bookings ≡ false)
              e.0 e.1 (rw key at may.free)))
        (λ user start h. ground (arith, open_b)))
