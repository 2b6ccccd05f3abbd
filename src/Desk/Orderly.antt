-- ===== src/Desk/Orderly.antt =====
-- The staff pages keep the booking table valid, the policy's grace period sensible, and the idempotency
-- records as they are, wherever their bodies stop.
use room_reserve.Bookings.{Context}
use room_reserve.Action.Orderly.{IsOrderly, orderly}
use room_reserve.Sanctions.Table.{
  record_manual_violation-IsOrderly, void_violation-IsOrderly, apply_manual_suspension-IsOrderly,
  extend_or_shorten_suspension-IsOrderly, lift_suspension-IsOrderly,
}
use room_reserve.Overrides.Laws.{set_calendar_override-IsOrderly}
use room_reserve.Closures.Table.{create_closure-IsOrderly, revoke_closure-IsOrderly}
use room_reserve.Sessions.Table.{complete_session_early-IsOrderly, resolve_review-IsOrderly}
use room_reserve.Retirement.Table.{deactivate_room-IsOrderly, deactivate_account-IsOrderly}
use room_reserve.Incidents.Table.{create_incident-IsOrderly, void_incident_violations-IsOrderly}
use room_reserve.Desk.{
  DeskOperation, desk_body, complete_early, resolve_review, record_violation, void_violation,
  manual_suspension, adjust_suspension, lift_suspension, deactivate_account, deactivate_room,
  create_closure, revoke_closure, set_override, create_incident, void_incident_violations,
}

ruleset desk_rules = (
  orderly, record_manual_violation-IsOrderly, void_violation-IsOrderly,
  apply_manual_suspension-IsOrderly, extend_or_shorten_suspension-IsOrderly,
  lift_suspension-IsOrderly, set_calendar_override-IsOrderly, create_closure-IsOrderly,
  revoke_closure-IsOrderly, complete_session_early-IsOrderly, resolve_review-IsOrderly,
  deactivate_room-IsOrderly, deactivate_account-IsOrderly, create_incident-IsOrderly,
  void_incident_violations-IsOrderly,
)

pub desk_body-IsOrderly : (op : DeskOperation) (ctx : Context) → IsOrderly (desk_body op ctx)
unfolding complete_early resolve_review record_violation void_violation manual_suspension
    adjust_suspension lift_suspension deactivate_account deactivate_room create_closure
    revoke_closure set_override create_incident void_incident_violations
desk_body-IsOrderly (DeskOperation.end_session id reason) ctx = search desk_rules
desk_body-IsOrderly (DeskOperation.clear_flag id note) ctx = search desk_rules
desk_body-IsOrderly (DeskOperation.report user note counts) ctx = search desk_rules
desk_body-IsOrderly (DeskOperation.void id reason) ctx = search desk_rules
desk_body-IsOrderly (DeskOperation.suspend user reason ends_at) ctx = search desk_rules
desk_body-IsOrderly (DeskOperation.adjust id reason ends_at) ctx = search desk_rules
desk_body-IsOrderly (DeskOperation.lift id reason) ctx = search desk_rules
desk_body-IsOrderly (DeskOperation.retire_account id reason) ctx = search desk_rules
desk_body-IsOrderly (DeskOperation.retire_room id reason) ctx = search desk_rules
desk_body-IsOrderly (DeskOperation.close_rooms room starts_at ends_at reason acknowledged) ctx =
    search desk_rules
desk_body-IsOrderly (DeskOperation.reopen id reason) ctx = search desk_rules
desk_body-IsOrderly (DeskOperation.override f) ctx = search desk_rules
desk_body-IsOrderly (DeskOperation.declare_incident starts_at ends_at rooms reason cancels) ctx =
    search desk_rules
desk_body-IsOrderly (DeskOperation.excuse incident reason) ctx = search desk_rules
