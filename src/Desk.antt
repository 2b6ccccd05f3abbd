-- ===== src/Desk.antt =====
-- core/views/staff.py: the bodies that the staff pages hand to the protocol. A page strips the reason
-- that was typed in, and answers with the key of the row.
pub mod Orderly
use room_reserve.Prelude.{ℕ, Bool, true, none, Option, String, List, [], ◌∷◌}
use room_reserve.Prelude.Text.{strip}
use room_reserve.Models.Account.{User}
use room_reserve.Models.Room.{Room, ServiceIncident}
use room_reserve.Models.Operations.{Value}
use room_reserve.Bookings.{Context, Body, booking_id_fields}
use room_reserve.Action.{pure, ◌>>=◌}
use room_reserve.Sanctions
use room_reserve.Sanctions.{suspension_id_fields}
use room_reserve.Overrides
use room_reserve.Overrides.{OverrideForm}
use room_reserve.Closures
use room_reserve.Sessions
use room_reserve.Retirement
use room_reserve.Incidents

unfoldable pub complete_early : ℕ → String → Context → Body
complete_early id reason ctx =
    Sessions.complete_session_early ctx id (strip reason) >>= λ b. pure (booking_id_fields b)

unfoldable pub resolve_review : ℕ → String → Context → Body
resolve_review id note ctx =
    Sessions.resolve_review ctx id (strip note) >>= λ b. pure (booking_id_fields b)

-- The row of the account is the one that the page found.
unfoldable pub record_violation : User → String → Bool → Context → Body
record_violation user note counts_as_strike ctx =
    Sanctions.record_manual_violation ctx user (strip note) counts_as_strike none none >>= λ v.
    pure (("violation_id", Value.num v.id) ∷ [])

unfoldable pub void_violation : ℕ → String → Context → Body
void_violation id reason ctx = Sanctions.void_violation ctx id (strip reason)

unfoldable pub manual_suspension : ℕ → String → Option ℕ → Context → Body
manual_suspension user reason ends_at ctx =
    Sanctions.apply_manual_suspension ctx user (strip reason) ends_at >>= λ s.
    pure (suspension_id_fields s)

unfoldable pub adjust_suspension : ℕ → String → Option ℕ → Context → Body
adjust_suspension id reason ends_at ctx =
    Sanctions.extend_or_shorten_suspension ctx id ends_at (strip reason) true >>= λ s.
    pure (suspension_id_fields s)

unfoldable pub lift_suspension : ℕ → String → Context → Body
lift_suspension id reason ctx =
    Sanctions.lift_suspension ctx id (strip reason) >>= λ s. pure (suspension_id_fields s)

unfoldable pub deactivate_account : ℕ → String → Context → Body
deactivate_account id reason ctx = Retirement.deactivate_account ctx id (strip reason)

unfoldable pub deactivate_room : ℕ → String → Context → Body
deactivate_room id reason ctx = Retirement.deactivate_room ctx id (strip reason)

unfoldable pub create_closure : Option Room → ℕ → ℕ → String → Bool → Context → Body
create_closure room starts_at ends_at reason acknowledged ctx =
    Closures.create_closure ctx room starts_at ends_at (strip reason) acknowledged >>= λ c.
    pure (("closure_id", Value.num c.id) ∷ [])

unfoldable pub revoke_closure : ℕ → String → Context → Body
revoke_closure id reason ctx = Closures.revoke_closure ctx id (strip reason) >>= λ c.
    pure (("closure_id", Value.num c.id) ∷ [])

unfoldable pub set_override : OverrideForm → Context → Body
set_override f ctx =
    Overrides.set_calendar_override ctx (record f { reason = strip f.reason }) >>= λ o.
    pure (("override_id", Value.num o.id) ∷ [])

unfoldable pub create_incident : ℕ → ℕ → List Room → String → Bool → Context → Body
create_incident starts_at ends_at rooms reason cancel_scheduled ctx =
    Incidents.create_incident ctx starts_at ends_at rooms (strip reason) cancel_scheduled

unfoldable pub void_incident_violations : ServiceIncident → String → Context → Body
void_incident_violations incident reason ctx =
    Incidents.void_incident_violations ctx incident (strip reason)

-- The pages, with what is typed in or chosen there.
pub data DeskOperation : Type 0 where
  end_session : ℕ → String → DeskOperation
  clear_flag : ℕ → String → DeskOperation
  report : User → String → Bool → DeskOperation
  void : ℕ → String → DeskOperation
  suspend : ℕ → String → Option ℕ → DeskOperation
  adjust : ℕ → String → Option ℕ → DeskOperation
  lift : ℕ → String → DeskOperation
  retire_account : ℕ → String → DeskOperation
  retire_room : ℕ → String → DeskOperation
  close_rooms : Option Room → ℕ → ℕ → String → Bool → DeskOperation
  reopen : ℕ → String → DeskOperation
  override : OverrideForm → DeskOperation
  declare_incident : ℕ → ℕ → List Room → String → Bool → DeskOperation
  excuse : ServiceIncident → String → DeskOperation

abbrev pub desk_body : DeskOperation → Context → Body
desk_body (DeskOperation.end_session id reason) = complete_early id reason
desk_body (DeskOperation.clear_flag id note) = resolve_review id note
desk_body (DeskOperation.report user note counts) = record_violation user note counts
desk_body (DeskOperation.void id reason) = void_violation id reason
desk_body (DeskOperation.suspend user reason ends_at) = manual_suspension user reason ends_at
desk_body (DeskOperation.adjust id reason ends_at) = adjust_suspension id reason ends_at
desk_body (DeskOperation.lift id reason) = lift_suspension id reason
desk_body (DeskOperation.retire_account id reason) = deactivate_account id reason
desk_body (DeskOperation.retire_room id reason) = deactivate_room id reason
desk_body (DeskOperation.close_rooms room starts_at ends_at reason acknowledged) =
    create_closure room starts_at ends_at reason acknowledged
desk_body (DeskOperation.reopen id reason) = revoke_closure id reason
desk_body (DeskOperation.override f) = set_override f
desk_body (DeskOperation.declare_incident starts_at ends_at rooms reason cancels) =
    create_incident starts_at ends_at rooms reason cancels
desk_body (DeskOperation.excuse incident reason) = void_incident_violations incident reason
