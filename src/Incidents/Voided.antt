-- ===== src/Incidents/Voided.antt =====
-- What voiding the no-shows of an incident does to the violations.
use room_reserve.Prelude.{ℕ, ◌≤◌, ◌≡◌, ap, ◌∙◌, false, String, any, update_where, arith}
use room_reserve.Prelude.Count
use room_reserve.Models.Room.{ServiceIncident}
use room_reserve.Models.Operations.{Fields}
use room_reserve.Models.Db.{Db}
use room_reserve.Audit.{record_audit}
use room_reserve.Bookings.{Context}
use room_reserve.Action.{ok, reject_if}
use room_reserve.Strikes.{is_strike_of, strike_count}
use room_reserve.Incidents.{explains, explained_away, write_voids, void_incident_violations}

module _ (ctx : Context) (i : ServiceIncident) (reason : String) where
  written :
      (db : Db) {fields : Fields} {db' : Db}
      → void_incident_violations ctx i reason db ≡ (ok fields, db')
      → (db'.violations
          ≡ update_where (explains i db.bookings) (explained_away ctx i reason) db.violations)
        × (db'.bookings ≡ db.bookings)
        × (db'.suspensions ≡ db.suspensions)
  unfolding void_incident_violations reject_if write_voids record_audit
  written db h = (ground arith, ground arith, ground arith)

  -- When the no-shows of an incident were voided, none that the incident explains is left unvoided, no
  -- account has more strikes at any time than before, and bookings and suspensions are what they were:
  -- attendance is not backdated and no suspension is lifted.
  pub void_incident_violations_ok :
      (db : Db) {fields : Fields} {db' : Db}
      → void_incident_violations ctx i reason db ≡ (ok fields, db')
      → (any (explains i db'.bookings) db'.violations ≡ false)
        × ((now user : ℕ) → strike_count now user db' ≤ strike_count now user db)
        × (db'.bookings ≡ db.bookings)
        × (db'.suspensions ≡ db.suspensions)
  unfolding strike_count
  void_incident_violations_ok db {fields} {db'} h =
      let (rows, bookings, suspensions) = written db h in
      let void = explained_away ctx i reason in
      let hit = explains i db.bookings in
      (
        ap (λ bs. any (explains i bs) db'.violations) bookings
            ∙ (ap (any hit) rows
                ∙ Count.any-update_where-none hit void
                    (λ v. unfold explains explained_away in ground arith) db.violations),
        λ now user. rw rows (
            Count.count-update_where-le (is_strike_of now user) hit void
              (λ v e e'. unfold explained_away in ground arith) db.violations),
        bookings,
        suspensions,
      )
