-- ===== src/Reserve/Table.antt =====
-- A new reservation and the constraints of the booking table; and the limits that it respects.
use room_reserve.Prelude.{
  ℕ, suc, ◌≤◌, ◌<◌, ◌≡◌, refl, inr, Bool, false, some, List, [], ◌∷◌, ◌++◌, count, arith, ap, sym,
  ◌∙◌, ◌%◌,
}
use mathlib.Core.Path.{subst}
use mathlib.Core.Option.{some-injective}
use room_reserve.Prelude.Count
use room_reserve.Settings.{hour}
use room_reserve.Models.Booking.{Booking}
use room_reserve.Models.Account.{User}
use room_reserve.Models.Room.{Room}
use room_reserve.Models.Policy.{
  PolicyVersion, checkin_grace_minutes, daily_quota, max_upcoming_hours,
}
use room_reserve.Models.Operations.{Fields}
use room_reserve.Models.Db.{Db}
use room_reserve.Slots.{slot_end_for, local_date}
use room_reserve.Slots.Laws.{aligned_utc}
use room_reserve.Audit.{record_audit}
use room_reserve.Outbox.{enqueue}
use room_reserve.Policy.{policy_of, with_policy}
use room_reserve.Quota.{
  has_blocking_bookings, quota_used, charges_quota, upcoming_hours, holds_upcoming,
}
use room_reserve.Quota.Laws.{quota_and_adjacency_iff, any_claims_of_blocking}
use room_reserve.Bookings.{Context, is_taken, insert_booking, blank_booking}
use room_reserve.Bookings.Constraints.{IsRow, IsConsistent}
use room_reserve.Bookings.Updates.{insert-IsTable}
use room_reserve.Action.{ok}
use room_reserve.Reserve.{advance_row, write_advance, announce_created, create_advance_booking}
use room_reserve.Reserve.Create.{create_ok}

-- The grace of the policy in force: at least a minute and at most the hour. Validated versions have
-- it; for the initial version it is an assumption on the deployment's settings.
pub record HasGrace (db : Db) : Type 0 where
  pub some_grace : 1 ≤ checkin_grace_minutes (policy_of db)
  pub within_hour : checkin_grace_minutes (policy_of db) ≤ 60

advance_row-IsRow :
    (ctx : Context) (u : User) (room : Room) (slot_start : ℕ) (policy : PolicyVersion) (db : Db)
    → slot_start % hour ≡ 0
    → 1 ≤ checkin_grace_minutes policy
    → checkin_grace_minutes policy ≤ 60
    → IsRow (advance_row ctx u room slot_start policy db)
unfolding advance_row blank_booking slot_end_for
advance_row-IsRow ctx u room slot_start policy db aligned low high = record {
  length = ground arith;
  aligned = ground arith;
  dated = refl;
  walk_in = refl;
  deadline = refl;
  within = ground arith;
  checkin = refl;
  cancellation = ground arith;
  reason = refl;
}

-- The tables after the writes: the new row is last, and its key is used up.
write_advance_rows :
    (ctx : Context) (u : User) (room : Room) (slot_start : ℕ) (policy : PolicyVersion) (db : Db)
    → let db' = (write_advance ctx u room slot_start policy db).1 in
      (db'.bookings ≡ db.bookings ++ (advance_row ctx u room slot_start policy db ∷ []))
      × (db'.next_booking ≡ suc db.next_booking)
unfolding write_advance announce_created record_audit enqueue insert_booking
write_advance_rows ctx u room slot_start policy db = (refl, refl)

one_more_le :
    (p : Booking → Bool) (rows : List Booking) (b : Booking) {n : ℕ}
    → count p rows < n
    → count p (rows ++ (b ∷ [])) ≤ n
one_more_le p rows b h = ground (arith, Count.count-append p rows (b ∷ []))

abbrev created_row : Context → User → Room → ℕ → Db → Booking
created_row ctx u room slot_start db =
    advance_row ctx u room slot_start (policy_of db) (with_policy db)

module _ (ctx : Context) (room : Room) (slot_start : ℕ) (db : Db) (fields : Fields) (db' : Db)
    (done : create_advance_booking ctx room slot_start db ≡ (ok fields, db')) where
  created_rows :
      (u : User)
      → write_advance ctx u room slot_start (policy_of db) (with_policy db) ≡ (ok fields, db')
      → (db'.bookings ≡ db.bookings ++ (created_row ctx u room slot_start db ∷ []))
        × (db'.next_booking ≡ suc db.next_booking)
  unfolding with_policy
  created_rows u w =
      let (rows, next) = write_advance_rows ctx u room slot_start (policy_of db) (with_policy db) in
      (ap (λ r. r.1.bookings) (sym w) ∙ rows, ap (λ r. r.1.next_booking) (sym w) ∙ next)

  -- A reservation that goes through leaves a booking table that satisfies all its constraints, if
  -- the table did before: the new row satisfies the check constraints, and nobody holds the room's
  -- hour or, staff holds aside, the user's hour twice. The policy's grace period is 1 to 60
  -- minutes.
  pub create_advance_booking-IsConsistent : IsConsistent db → HasGrace db → IsConsistent db'
  unfolding is_taken has_blocking_bookings advance_row blank_booking with_policy
  create_advance_booking-IsConsistent t g =
      let (u, is_u, may, free, w) = create_ok ctx room slot_start db done in
      let (rows, next) = created_rows u w in
      let (clear, _, _, _) =
        (quota_and_adjacency_iff u.id slot_start (some room.id) (local_date slot_start) ctx.now
            (policy_of db) db).0
          may.quota in
      rw (rows, next)
        (insert-IsTable db.next_booking db.bookings (created_row ctx u room slot_start db) t
          (advance_row-IsRow ctx u room slot_start (policy_of db) (with_policy db)
            (aligned_utc slot_start may.aligned) g.some_grace g.within_hour)
          refl free (inr (any_claims_of_blocking u.id slot_start db.bookings clear)))

  -- After a reservation that goes through, its user has charged at most the daily quota to the
  -- slot's date and holds at most the cap of upcoming hours, and held neither the hour nor an
  -- adjacent one before it.
  pub create_advance_booking_limits :
      (u : User)
      → ctx.actor ≡ some u
      → (quota_used u.id (local_date slot_start) db' ≤ daily_quota (policy_of db))
        × (upcoming_hours u.id ctx.now db' ≤ max_upcoming_hours db.settings (policy_of db))
        × (has_blocking_bookings u.id slot_start db ≡ false)
  unfolding quota_used upcoming_hours
  create_advance_booking_limits u is_u =
      let (v, is_v, may, free, w) = create_ok ctx room slot_start db done in
      let same : v ≡ u = some-injective _ _ (sym is_v ∙ is_u) in
      let (rows, next) = created_rows v w in
      let (clear, quota, cap, _) =
        (quota_and_adjacency_iff v.id slot_start (some room.id) (local_date slot_start) ctx.now
            (policy_of db) db).0
          may.quota in
      let b = created_row ctx v room slot_start db in
      subst
        (λ (x : User).
          (count (charges_quota x.id (local_date slot_start)) db'.bookings
            ≤ daily_quota (policy_of db))
          × (count (holds_upcoming x.id ctx.now) db'.bookings
              ≤ max_upcoming_hours db.settings (policy_of db))
          × (has_blocking_bookings x.id slot_start db ≡ false))
        same
        (
          rw (rows) (one_more_le (charges_quota v.id (local_date slot_start)) db.bookings b quota),
          rw (rows) (one_more_le (holds_upcoming v.id ctx.now) db.bookings b cap),
          clear,
        )
