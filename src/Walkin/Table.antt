-- ===== src/Walkin/Table.antt =====
-- What a walk-in has passed, and the constraints of the booking table.
use room_reserve.Prelude.{
  ℕ, suc, ◌≡◌, refl, inl, inr, Bool, false, Option, none, some, List, [], ◌∷◌, ◌++◌, any, first,
  arith, Option-cases,
}
use room_reserve.Models.Booking.{claims_room}
use room_reserve.Models.Account.{User}
use room_reserve.Models.Room.{Room}
use room_reserve.Models.Policy.{PolicyVersion}
use room_reserve.Models.Operations.{Fields}
use room_reserve.Models.Db.{Db}
use room_reserve.Slots.{floor_to_slot, slot_end_for, local_date}
use room_reserve.Slots.Laws.{floor_to_slot_lem, aligned_utc}
use room_reserve.Audit.{record_audit}
use room_reserve.Outbox.{enqueue}
use room_reserve.Policy.{policy_of, with_policy, current_policy}
use room_reserve.Policy.Laws.{policy_of-with_policy, with_policy_again}
use room_reserve.Calendar.{assert_slot_open, slot_open}
use room_reserve.Eligibility.{assert_may_use_room, may_use_room}
use room_reserve.Quota.{assert_quota_and_adjacency, quota_and_adjacency, has_blocking_bookings}
use room_reserve.Quota.Laws.{quota_and_adjacency_iff, any_claims_of_blocking}
use room_reserve.Bookings.{Context, acting_user, insert_booking, blank_booking}
use room_reserve.Bookings.Constraints.{IsRow, IsConsistent}
use room_reserve.Bookings.Updates.{insert-IsTable}
use room_reserve.Action.{ok, reject_if}
use room_reserve.Walkin.{
  use_now, assert_available, room_availability_for_now, released_from, walk_in_row, write_walk_in,
  announce_walk_in,
}

-- What a walk-in has passed.
pub record MayWalkIn (u : User) (room : Room) (now : ℕ) (db : Db) : Type 0 where
  pub eligible : may_use_room (some u) room now db ≡ ok tt
  pub no_approval : room.requires_approval ≡ false
  pub not_members : room.members_only ≡ false
  pub open_slot : slot_open (floor_to_slot now) room db ≡ ok tt
  pub available : room_availability_for_now room.id (floor_to_slot now) now db ≡ none
  pub quota :
      quota_and_adjacency u.id
        (floor_to_slot now)
        (some room.id)
        (local_date (floor_to_slot now))
        now
        (policy_of db)
        db
      ≡ ok tt

pub use_now_ok :
    (ctx : Context) (room : Room) (db : Db) {fields : Fields} {db' : Db}
    → use_now ctx room db ≡ (ok fields, db')
    → (u : User) × (ctx.actor ≡ some u)
      × MayWalkIn u room ctx.now db
      × (write_walk_in ctx u room
            (floor_to_slot ctx.now)
            (released_from u.id room.id (floor_to_slot ctx.now) (with_policy db))
            (policy_of db)
            (with_policy db)
          ≡ (ok fields, db'))
unfolding use_now assert_may_use_room reject_if assert_slot_open assert_available acting_user
    assert_quota_and_adjacency current_policy
use_now_ok ctx room db h = elim (Option-cases ctx.actor) [
  | inl e ↦ ground arith
  | inr (u, e) ↦
      (u, e, ground arith, ground (arith, policy_of-with_policy db, with_policy_again db))
]

walk_in_row-IsRow :
    (ctx : Context) (u : User) (room : Room) (from : Option ℕ) (policy : PolicyVersion) (db : Db)
    → IsRow (walk_in_row ctx u room (floor_to_slot ctx.now) from policy db)
unfolding walk_in_row blank_booking slot_end_for
walk_in_row-IsRow ctx u room from policy db =
    let (aligned, low, high, _) = floor_to_slot_lem ctx.now in
    record {
      length = ground arith;
      aligned = ground (arith, aligned_utc (floor_to_slot ctx.now) aligned);
      dated = refl;
      walk_in = refl;
      deadline = refl;
      within = refl;
      checkin = ground (arith, low, high);
      cancellation = refl;
      reason = refl;
    }

any_of_first {ℓ} : {A : Type ℓ} (p : A → Bool) (xs : List A) → first p xs ≡ none → any p xs ≡ false
any_of_first p [] h = refl
any_of_first p (x ∷ xs) h = ground (arith, any_of_first p xs)

-- A walk-in that goes through leaves a booking table that satisfies all its constraints, if the
-- table did before: it is a session in use of a room's hour that nobody held, by a user who held
-- no room then.
pub use_now-IsConsistent :
    (ctx : Context) (room : Room) (db : Db) {fields : Fields} {db' : Db}
    → use_now ctx room db ≡ (ok fields, db')
    → IsConsistent db
    → IsConsistent db'
unfolding with_policy walk_in_row blank_booking has_blocking_bookings
use_now-IsConsistent ctx room db {fields} {db'} done t =
    let (u, is_u, may, w) = use_now_ok ctx room db done in
    let start = floor_to_slot ctx.now in
    let from = released_from u.id room.id start (with_policy db) in
    let b = walk_in_row ctx u room start from (policy_of db) (with_policy db) in
    let (clear, _, _, _) =
      (quota_and_adjacency_iff u.id start (some room.id) (local_date start) ctx.now (policy_of db)
          db).0
        may.quota in
    let free : any (claims_room room.id start) db.bookings ≡ false =
      any_of_first (claims_room room.id start) db.bookings
        (unfold room_availability_for_now in ground (arith, may.available)) in
    let rows : (db'.bookings ≡ db.bookings ++ (b ∷ [])) × (db'.next_booking ≡ suc db.next_booking) =
      unfold write_walk_in announce_walk_in enqueue record_audit insert_booking in
      ground (arith, w) in
    rw (rows.0, rows.1)
      (insert-IsTable db.next_booking db.bookings b t
        (walk_in_row-IsRow ctx u room from (policy_of db) (with_policy db)) refl free
        (inr (any_claims_of_blocking u.id start db.bookings clear)))
