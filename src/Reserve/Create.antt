-- ===== src/Reserve/Create.antt =====
-- What an advance reservation has passed, and what it leaves.
use room_reserve.Prelude.{ℕ, ◌<◌, ◌≡◌, refl, true, false, Option, none, some, arith}
use room_reserve.Models.Account.{User}
use room_reserve.Models.Room.{Room}
use room_reserve.Models.Policy.{PolicyVersion, horizon_days}
use room_reserve.Models.Db.{Db}
use room_reserve.Slots.{is_hour_aligned, is_within_horizon, local_date}
use room_reserve.Policy.{policy_of, with_policy, current_policy}
use room_reserve.Policy.Laws.{policy_of-with_policy, with_policy_again}
use room_reserve.Calendar.{assert_slot_open, slot_open, day_hours, is_slot_closed, weekly_block_for}
use room_reserve.Eligibility.{
  assert_may_reserve_room, may_reserve_room, may_use_room, can_operate, is_member_room,
  category_for_user, may_be_reserved_by, is_suspended,
}
use room_reserve.Quota.{
  assert_quota_and_adjacency, quota_and_adjacency, has_blocking_bookings, quota_used,
  upcoming_hours, no_show_reclaim,
}
use room_reserve.Bookings.{Context, acting_user, is_taken}
use room_reserve.Action.{Result, ok, reject_if}
use room_reserve.Models.Operations.{Fields}
use room_reserve.Reserve.{validate_advance_target, create_advance_booking, write_advance}

-- No check reads the policy table but through `policy_of`.
module _ (u : User) (room : Room) (slot_start now : ℕ) (db : Db) where
  may_reserve_room-with_policy :
      may_reserve_room (some u) room now (with_policy db) ≡ may_reserve_room (some u) room now db
  unfolding may_reserve_room may_use_room can_operate is_member_room category_for_user
      may_be_reserved_by is_suspended with_policy
  may_reserve_room-with_policy = refl

  slot_open-with_policy : slot_open slot_start room (with_policy db) ≡ slot_open slot_start room db
  unfolding slot_open day_hours is_slot_closed weekly_block_for with_policy
  slot_open-with_policy = refl

quota-with_policy :
    (user slot_start : ℕ) (room : Option ℕ) (date now : ℕ) (policy : PolicyVersion) (db : Db)
    → quota_and_adjacency user slot_start room date now policy (with_policy db)
      ≡ quota_and_adjacency user slot_start room date now policy db
unfolding quota_and_adjacency has_blocking_bookings quota_used upcoming_hours no_show_reclaim
    with_policy
quota-with_policy user slot_start room date now policy db = refl

is_taken-with_policy :
    (room start : ℕ) (db : Db) → is_taken room start (with_policy db) ≡ is_taken room start db
unfolding is_taken with_policy
is_taken-with_policy room start db = refl

-- The preconditions of a future reservation, read in the database that the request meets.
pub record MayReserve (u : User) (room : Room) (slot_start now : ℕ) (db : Db) : Type 0 where
  pub aligned : is_hour_aligned slot_start ≡ true
  pub future : now < slot_start
  pub near : is_within_horizon now slot_start (horizon_days (policy_of db)) ≡ true
  pub eligible : may_reserve_room (some u) room now db ≡ ok tt
  pub open_slot : slot_open slot_start room db ≡ ok tt
  pub quota :
      quota_and_adjacency u.id slot_start
        (some room.id)
        (local_date slot_start)
        now
        (policy_of db)
        db
      ≡ ok tt

module _ (room : Room) (slot_start now : ℕ) (db : Db) where
  validate_ok :
      (user : Option User) {db' : Db}
      → validate_advance_target user room slot_start now db ≡ (ok tt, db')
      → (u : User) × (user ≡ some u) × (db' ≡ with_policy db) × MayReserve u room slot_start now db
  unfolding validate_advance_target reject_if current_policy assert_may_reserve_room
      assert_slot_open acting_user assert_quota_and_adjacency
  validate_ok none h = ground arith
  validate_ok (some u) h = (
    u,
    refl,
    ground (arith, with_policy_again db),
    ground (
      arith,
      policy_of-with_policy db,
      may_reserve_room-with_policy u room slot_start now db,
      slot_open-with_policy u room slot_start now db,
      quota-with_policy u.id slot_start (some room.id) (local_date slot_start) now (policy_of db)
          db,
    ),
  )

  validate_passes :
      (u : User)
      → MayReserve u room slot_start now db
      → validate_advance_target (some u) room slot_start now db ≡ (ok tt, with_policy db)
  unfolding validate_advance_target reject_if current_policy assert_may_reserve_room
      assert_slot_open acting_user assert_quota_and_adjacency
  validate_passes u m = ground (
    arith,
    with_policy_again db,
    policy_of-with_policy db,
    may_reserve_room-with_policy u room slot_start now db,
    slot_open-with_policy u room slot_start now db,
    quota-with_policy u.id slot_start (some room.id) (local_date slot_start) now (policy_of db) db,
  )

module _ (ctx : Context) (room : Room) (slot_start : ℕ) (db : Db) where
  abbrev validated : Result (Unit {0}) × Db
  validated = validate_advance_target ctx.actor room slot_start ctx.now db

  validated_ok :
      {fields : Fields} {db' : Db}
      → create_advance_booking ctx room slot_start db ≡ (ok fields, db')
      → validated ≡ (ok tt, validated.1)
  unfolding create_advance_booking
  validated_ok h = ground arith

  -- A request that returned passed every check, and then was written.
  pub create_ok :
      {fields : Fields} {db' : Db}
      → create_advance_booking ctx room slot_start db ≡ (ok fields, db')
      → (u : User) × (ctx.actor ≡ some u)
        × MayReserve u room slot_start ctx.now db
        × (is_taken room.id slot_start db ≡ false)
        × (write_advance ctx u room slot_start (policy_of db) (with_policy db) ≡ (ok fields, db'))
  unfolding create_advance_booking reject_if current_policy acting_user
  create_ok {fields} {db'} h =
      let v = validated_ok h in
      let (u, is_u, same, may) = validate_ok room slot_start ctx.now db ctx.actor v in
      (
        u,
        is_u,
        may,
        ground (arith, v, same, is_taken-with_policy room.id slot_start db),
        ground (
          arith,
          v,
          same,
          is_u,
          with_policy_again db,
          policy_of-with_policy db,
          is_taken-with_policy room.id slot_start db,
        ),
      )

  -- And a request that passes every check is written.
  pub create_passes :
      (u : User)
      → ctx.actor ≡ some u
      → MayReserve u room slot_start ctx.now db
      → is_taken room.id slot_start db ≡ false
      → create_advance_booking ctx room slot_start db
        ≡ write_advance ctx u room slot_start (policy_of db) (with_policy db)
  unfolding create_advance_booking reject_if current_policy acting_user
  create_passes u is_u may free = ground (
    arith,
    validate_passes room slot_start ctx.now db u may,
    with_policy_again db,
    policy_of-with_policy db,
    is_taken-with_policy room.id slot_start db,
  )
