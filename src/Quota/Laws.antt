-- ===== src/Quota/Laws.antt =====
-- What the quota check lets through, and that what it lets through stays within the limits.
use room_reserve.Prelude.{
  ℕ, ◌<◌, ◌≡◌, refl, ◌↔◌, Bool, true, false, sym, ◌∙◌, ◌&&◌, ◌==◌, ltb, ◌+◌, ◌*◌, ◌%◌, All, Option,
  List, [], ◌∷◌, any, arith, holds,
}
use room_reserve.Settings.{hour}
use room_reserve.Models.Booking.{Booking, claims_user, is_blocking, starts_on_hour}
use room_reserve.Slots.{is_hour_aligned}
use room_reserve.Slots.Laws.{aligned_utc}
use room_reserve.Bookings.Constraints.{IsRow, IsConsistent}
use room_reserve.Models.Policy.{PolicyVersion, daily_quota, max_upcoming_hours}
use room_reserve.Models.Db.{Db}
use room_reserve.Action.{ok}
use room_reserve.Quota.{
  quota_and_adjacency, has_blocking_bookings, blocks_hour, quota_used, upcoming_hours,
  no_show_reclaim,
}

-- The conditions of the check.
pub quota_and_adjacency_iff :
    (user slot_start : ℕ) (room : Option ℕ) (date now : ℕ) (policy : PolicyVersion) (db : Db)
    → (quota_and_adjacency user slot_start room date now policy db ≡ ok tt) ↔ (
        (has_blocking_bookings user slot_start db ≡ false)
        × (quota_used user date db < daily_quota policy)
        × (upcoming_hours user now db < max_upcoming_hours db.settings policy)
        × (holds (λ r. no_show_reclaim user r slot_start db) room ≡ false))
unfolding quota_and_adjacency
quota_and_adjacency_iff user slot_start room date now policy db =
    (λ h. ground arith, λ h. ground arith)

-- A user without a booking in the hour or an adjacent one claims no room for it.
pub any_claims_of_blocking :
    (user slot_start : ℕ) (rows : List Booking)
    → any (blocks_hour user slot_start) rows ≡ false
    → any (claims_user user slot_start) rows ≡ false
any_claims_of_blocking user slot_start [] h = refl
any_claims_of_blocking user slot_start (b ∷ rows) h =
    ground (arith, any_claims_of_blocking user slot_start rows)

-- A booking that takes part in the user's day and begins less than two hours from an instant.
abbrev pub is_near : ℕ → ℕ → Booking → Bool
is_near user t b =
    (b.user == user && is_blocking b.status)
    && (ltb t (b.slot_start + 2 * hour) && ltb b.slot_start (t + 2 * hour))

near_blocks :
    (user t : ℕ) (b : Booking)
    → is_hour_aligned t ≡ true
    → starts_on_hour b ≡ true
    → blocks_hour user t b ≡ is_near user t b
near_blocks user t b al row =
    let e : t % hour ≡ 0 = aligned_utc t al in
    let f : b.slot_start % hour ≡ 0 = ground arith in ground arith

none_near :
    (user t : ℕ)
    → is_hour_aligned t ≡ true
    → (rows : List Booking) → All IsRow rows
    → any (blocks_hour user t) rows ≡ any (is_near user t) rows
none_near user t al [] v = refl
none_near user t al (b ∷ rows) (r, rs) =
    let rest = none_near user t al rows rs in
    let here = near_blocks user t b al r.aligned in ground arith

-- For an hour slot and a well-formed booking table, the check passes exactly when no booking of the user
-- that waits, is scheduled, runs or is over begins less than two hours from the slot, the user is below
-- the daily quota and below the cap on upcoming hours, and did not forfeit this room and hour.
pub quota_and_adjacency_apart :
    (user t : ℕ) (room : Option ℕ) (date now : ℕ) (policy : PolicyVersion) (db : Db)
    → IsConsistent db
    → is_hour_aligned t ≡ true
    → (quota_and_adjacency user t room date now policy db ≡ ok tt) ↔ (
        (any (is_near user t) db.bookings ≡ false)
        × (quota_used user date db < daily_quota policy)
        × (upcoming_hours user now db < max_upcoming_hours db.settings policy)
        × (holds (λ r. no_show_reclaim user r t db) room ≡ false))
unfolding has_blocking_bookings
quota_and_adjacency_apart user t room date now policy db c al =
    let same = none_near user t al db.bookings c.valid in
    let (there, back) = quota_and_adjacency_iff user t room date now policy db in
    (
      λ h. let (a, b, d, e) = there h in (sym same ∙ a, b, d, e),
      λ h. let (a, b, d, e) = h in back (same ∙ a, b, d, e),
    )
