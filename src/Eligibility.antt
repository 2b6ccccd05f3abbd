-- ===== src/Eligibility.antt =====
-- core/services/eligibility.py, with the access list of core/services/room_access.py and the
-- category of core/services/instruments.py. The checks read the database and change nothing, so each
-- is a result in the database that it reads.
use room_reserve.Prelude.{
  ℕ, Bool, false, not, ◌&&◌, ◌||◌, Option, none, some, String, [], ◌∷◌, map, any, first, filter,
  ◌==◌, holds, is_some, if◌then◌else◌,
}
use room_reserve.Prelude.Text.{same_text, is_blank}
use room_reserve.Errors.{Code}
use room_reserve.Models.Account.{
  User, InstrumentCategory, category_code, email_is_verified, is_approved, is_pending_eligibility,
  is_approved_eligibility,
}
use room_reserve.Models.Room.{Room, is_restricted}
use room_reserve.Models.Sanctions.{is_active_suspension}
use room_reserve.Models.Operations.{Value}
use room_reserve.Models.Db.{Db}
use room_reserve.Action.{Action, Failure, Result, ok, err, rejection}

-- `is_booking_staff(user)`
unfoldable pub is_booking_staff : User → Bool
is_booking_staff u = u.is_active && (u.is_superuser || u.is_operational_staff)

-- `room.pk in member_room_ids(user)`. The account's address is stored stripped and in lower case,
-- and so is each address of an access list.
unfoldable pub is_member_room : Room → User → Db → Bool
unfolding is_booking_staff
is_member_room room u db =
    if is_booking_staff u
    then any (λ r. r.id == room.id && r.members_only) db.rooms
    else (if is_blank u.email
        then false
        else any (λ m. same_text m.email u.email && m.room == room.id) db.members)

-- `ROOM_LIST_REASON` of core/services/identity.py
abbrev pub room_list_reason : String
room_list_reason = "Automatic: verified email is on a department room access list."

abbrev pub declared : User → Option InstrumentCategory
declared u =
    if is_some u.declared_category && is_approved u
    then (if same_text u.eligibility_reason room_list_reason && not u.declared_category_confirmed
        then none
        else u.declared_category)
    else none

unfoldable pub category_for_user : User → Db → Option InstrumentCategory
category_for_user u db =
    elim (first (λ r. holds (λ a. a == u.id) r.account && r.is_active) db.roster) [
      | none ↦ declared u
      | some row ↦ some row.instrument_category
    ]

-- `Room.may_be_reserved_by`
unfoldable pub may_be_reserved_by : Room → Option InstrumentCategory → Db → Bool
may_be_reserved_by room category db =
    not (is_restricted room)
    || holds
        (λ c.
          any (λ a. a.room == room.id && category_code a.category == category_code c)
            db.allowed_categories)
        category

unfoldable pub is_suspended : ℕ → ℕ → Db → Bool
is_suspended user now db = any (λ s. s.user == user && is_active_suspension now s) db.suspensions

unfoldable pub account_block_code : Option User → Option Code
account_block_code none = some Code.not_eligible
account_block_code (some u) =
    if not u.is_active
    then some Code.inactive_account
    else if not (email_is_verified u)
    then some Code.email_unverified
    else if is_pending_eligibility u.eligibility
    then some Code.pending_approval
    else if not (is_approved_eligibility u.eligibility)
    then some Code.not_eligible
    else if u.is_teacher
    then some Code.teacher_read_only
    else none

abbrev pub refuse : Code → Result (Unit {0})
refuse code = err (Failure.rejected (rejection code []))

-- The account is there once it has no block.
abbrev pub suspension_check : Option User → ℕ → Db → Result (Unit {0})
suspension_check none now db = ok tt
suspension_check (some u) now db = if is_suspended u.id now db then refuse Code.suspended else ok tt

unfoldable pub can_operate : Option User → ℕ → Db → Result (Unit {0})
can_operate user now db = elim (account_block_code user) [
  | some code ↦ refuse code
  | none ↦ suspension_check user now db
]

unfoldable pub may_use_room : Option User → Room → ℕ → Db → Result (Unit {0})
may_use_room user room now db = elim (can_operate user now db) [
  | err e ↦ err e
  | ok _ ↦
      if not room.is_active
      then refuse Code.closed
      else if room.availability_only
      then refuse Code.closed
      else ok tt
]

-- The allowed categories go with the refusal of a room that is kept for some instruments.
abbrev pub not_for_instrument : Room → Db → Result (Unit {0})
not_for_instrument room db = err (
    Failure.rejected (
      rejection Code.room_not_for_instrument (
        ("room_id", Value.num room.id)
        ∷ (
          "allowed_categories",
          Value.nums (
              map (λ a. category_code a.category)
                (filter (λ a. a.room == room.id) db.allowed_categories)),
        )
        ∷ [])))

abbrev pub audience_check : Option User → Room → Db → Result (Unit {0})
audience_check none room db = ok tt
audience_check (some u) room db =
    if room.members_only && not (is_member_room room u db)
    then err
        (Failure.rejected (rejection Code.room_members_only (("room_id", Value.num room.id) ∷ [])))
    else if not (may_be_reserved_by room (category_for_user u db) db)
    then not_for_instrument room db
    else ok tt

unfoldable pub may_reserve_room : Option User → Room → ℕ → Db → Result (Unit {0})
may_reserve_room user room now db = elim (may_use_room user room now db) [
  | err e ↦ err e
  | ok _ ↦ audience_check user room db
]

unfoldable pub assert_can_operate : Option User → ℕ → Action (Unit {0})
assert_can_operate user now db = (can_operate user now db, db)

unfoldable pub assert_may_use_room : Option User → Room → ℕ → Action (Unit {0})
assert_may_use_room user room now db = (may_use_room user room now db, db)

unfoldable pub assert_may_reserve_room : Option User → Room → ℕ → Action (Unit {0})
assert_may_reserve_room user room now db = (may_reserve_room user room now db, db)
