-- ===== src/Overrides/Laws.antt =====
-- What setting an override does to the hours of its date, and to the tables.
use room_reserve.Prelude.{
  ℕ, ◌≡◌, refl, Bool, none, some, inl, inr, Option-cases, arith, first, ◌==◌, ==_refl, ◌<◌, ◌≤◌,
  true, ap, ◌∙◌, if◌then◌else◌,
}
use room_reserve.Prelude.Count
use room_reserve.Models.Room.{CalendarOverride}
use room_reserve.Models.Db.{Db}
use room_reserve.Audit.{record_audit}
use room_reserve.Policy.{policy_of}
use room_reserve.Calendar.{day_hours, override_hours, both_hours}
use room_reserve.Bookings.{Context}
use room_reserve.Action.{ok, reject_if, violate_if}
use room_reserve.Action.Orderly.{IsOrderlyStep, IsOrderly, aside_orderly, orderly}
use room_reserve.Overrides.{
  OverrideForm, override_of, override_row, save_override, audit_override, set_calendar_override,
  overridden, blank_override,
}

module _ (ctx : Context) (f : OverrideForm) where
  save_orderly : IsOrderlyStep (save_override ctx f)
  unfolding save_override policy_of
  save_orderly = aside_orderly (λ db. elim (Option-cases (override_of f.local_date db)) [
    | inl e ↦ (ground (arith, e), ground (arith, e), ground (arith, e), ground (arith, e))
    | inr (o, e) ↦ (ground (arith, e), ground (arith, e), ground (arith, e), ground (arith, e))
  ])

  audit_orderly :
      (created : Bool) (o : CalendarOverride) → IsOrderlyStep (audit_override ctx f created o)
  unfolding audit_override record_audit policy_of
  audit_orderly created o = aside_orderly (λ db. (refl, refl, refl, refl))

  pub set_calendar_override-IsOrderly : IsOrderly (set_calendar_override ctx f)
  unfolding set_calendar_override
  set_calendar_override-IsOrderly = search (orderly, save_orderly, audit_orderly) depth 16

  -- The row of the date after the body, found as the calendar finds it.
  found_after :
      (db : Db)
      → first (λ o. o.local_date == f.local_date) (save_override ctx f db).overrides
        ≡ some (override_row ctx f db)
  unfolding save_override override_row overridden
  found_after db = elim (Option-cases (override_of f.local_date db)) [
    | inl e ↦
        let y = overridden ctx f (blank_override db.next_override f.local_date) in
        rw (e, save_override, override_row)
          (Count.first-append_last (λ o. o.local_date == f.local_date) db.overrides y e
            (ground (arith, ==_refl f.local_date)))
    | inr (o, e) ↦
        rw (e, save_override, override_row)
          (Count.first-update_where (λ o. o.local_date == f.local_date) (λ x. x.id == o.id)
            (overridden ctx f) (λ x. refl) db.overrides o e (==_refl o.id))
  ]

  override_row_hours :
      (db : Db)
      → override_hours (override_row ctx f db)
        ≡ (if f.is_open then both_hours f.open_hour f.close_hour else none)
  unfolding override_row overridden
  override_row_hours db = elim (Option-cases (override_of f.local_date db)) [
    | inl e ↦ ground (arith, e)
    | inr (o, e) ↦ ground (arith, e)
  ]

  -- An override that was set gives its date the hours of the form, or none when it is closed: an open
  -- date has both hours, the closing one later and at most 24.
  pub set_calendar_override_hours :
      (db : Db) {o : CalendarOverride} {db' : Db}
      → set_calendar_override ctx f db ≡ (ok o, db')
      → (day_hours f.local_date db'
          ≡ (if f.is_open then both_hours f.open_hour f.close_hour else none))
        × (f.is_open ≡ true
            → (open_at : ℕ) × (close : ℕ) × (f.open_hour ≡ some open_at)
              × (f.close_hour ≡ some close)
              × (open_at < close)
              × (close ≤ 24))
  unfolding set_calendar_override reject_if violate_if day_hours audit_override record_audit
  set_calendar_override_hours db {o} {db'} h =
      let rows : db'.overrides ≡ (save_override ctx f db).overrides = ground arith in
      let row : first (λ o. o.local_date == f.local_date) db'.overrides
          ≡ some (override_row ctx f db) =
        ap (first (λ o. o.local_date == f.local_date)) rows ∙ found_after db in
      (
        rw (row, day_hours) (override_row_hours db),
        λ opens. elim (Option-cases f.open_hour) [
          | inl e ↦ ground (arith, e)
          | inr (open_at, e) ↦ elim (Option-cases f.close_hour) [
            | inl e' ↦ ground (arith, e, e')
            | inr (close, e') ↦
                (open_at, close, e, e', ground (arith, e, e'), ground (arith, e, e'))
          ]
        ],
      )
