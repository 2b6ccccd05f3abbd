-- ===== src/Overrides.antt =====
-- core/services/maintenance.py, calendar overrides: the hours of one date, set by staff.
pub mod Laws
use room_reserve.Prelude.{
  ℕ, suc, Bool, true, false, not, ◌&&◌, ◌||◌, Option, none, some, String, List, [], ◌∷◌, ◌++◌,
  first, update_where, ltb, leb, ◌==◌, holds, is_none, if◌then◌else◌,
}
use room_reserve.Errors.{Code}
use room_reserve.Models.Room.{CalendarOverride}
use room_reserve.Models.Operations.{Value, optional}
use room_reserve.Models.Db.{Db}
use room_reserve.Audit.{record_audit, actor_pk}
use room_reserve.Bookings.{Context}
use room_reserve.Action.{Action, reject_if, violate_if, pure, modify, ask, ◌>>=◌, ◌>>◌}

-- What staff hands over; a date is its day number.
pub record OverrideForm : Type 0 where
  pub local_date : ℕ
  pub is_open : Bool
  pub open_hour : Option ℕ
  pub close_hour : Option ℕ
  pub reason : String

abbrev pub ends_first : OverrideForm → Bool
ends_first f = holds (λ close. holds (λ open_at. leb close open_at) f.open_hour) f.close_hour

abbrev pub lacks_hours : OverrideForm → Bool
lacks_hours f = f.is_open && (is_none f.open_hour || is_none f.close_hour)

-- The defaults of `update_or_create`, on a row of the date.
unfoldable pub overridden : Context → OverrideForm → CalendarOverride → CalendarOverride
overridden ctx f o = record o {
  is_open = f.is_open;
  open_hour = if f.is_open then f.open_hour else none;
  close_hour = if f.is_open then f.close_hour else none;
  reason = f.reason;
  created_by = actor_pk ctx.actor;
}

abbrev pub blank_override : ℕ → ℕ → CalendarOverride
blank_override id local_date = record {
  id = id;
  local_date = local_date;
  is_open = false;
  open_hour = none;
  close_hour = none;
  reason = "";
  created_by = none;
}

abbrev pub override_of : ℕ → Db → Option CalendarOverride
override_of local_date db = first (λ o. o.local_date == local_date) db.overrides

-- The row as it is after `update_or_create`.
unfoldable pub override_row : Context → OverrideForm → Db → CalendarOverride
override_row ctx f db = elim (override_of f.local_date db) [
  | none ↦ overridden ctx f (blank_override db.next_override f.local_date)
  | some o ↦ overridden ctx f o
]

unfoldable pub save_override : Context → OverrideForm → Db → Db
save_override ctx f db = elim (override_of f.local_date db) [
  | none ↦ record db {
    overrides =
        db.overrides ++ (overridden ctx f (blank_override db.next_override f.local_date) ∷ []);
    next_override = suc db.next_override;
  }
  | some o ↦ record db {
    overrides = update_where (λ x. x.id == o.id) (overridden ctx f) db.overrides;
  }
]

unfoldable pub audit_override : Context → OverrideForm → Bool → CalendarOverride → Db → Db
audit_override ctx f created o db =
    record_audit (if created then "calendar.override_set" else "calendar.override_replaced")
      "CalendarOverride" o.id ctx.actor ""
      (("local_date", Value.date f.local_date)
        ∷ ("is_open", Value.bool f.is_open)
        ∷ ("open_hour", optional Value.num f.open_hour)
        ∷ ("close_hour", optional Value.num f.close_hour)
        ∷ [])
      f.reason db

-- The constraints `calendar_override_open_hour_valid` and `calendar_override_close_hour_valid`; a closed
-- row has no hours.
abbrev pub hours_invalid : OverrideForm → Bool
hours_invalid f = f.is_open && (holds (ltb 23) f.open_hour || holds (ltb 24) f.close_hour)

unfoldable pub set_calendar_override : Context → OverrideForm → Action CalendarOverride
set_calendar_override ctx f = do
  reject_if (λ _. ends_first f) Code.invalid_input []
  reject_if (λ _. lacks_hours f) Code.invalid_input []
  created ← ask (λ db. is_none (override_of f.local_date db))
  o ← ask (override_row ctx f)
  violate_if (hours_invalid f)
  modify (save_override ctx f)
  modify (audit_override ctx f created o)
  pure o
