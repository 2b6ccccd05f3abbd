-- ===== src/Protocol/Operations.antt =====
-- The operations that the pages run by the protocol, each with its body.
use room_reserve.Prelude.{ℕ, Bool, Option, String}
use room_reserve.Models.Account.{User}
use room_reserve.Models.Room.{Room}
use room_reserve.Models.Operations.{Fields}
use room_reserve.Bookings.{Context, Body, Details}
use room_reserve.Reserve.{create_advance_booking}
use room_reserve.Change.{update_booking_details, move_booking}
use room_reserve.Approval.{decide_approval}
use room_reserve.Cancel.{cancel, cancel_recurring_reservation}
use room_reserve.Checkin.{check_in}
use room_reserve.Walkin.{use_now}
use room_reserve.Staff.{create_staff_booking}
use room_reserve.Desk.{DeskOperation, desk_body}
use room_reserve.Protocol.{Request, succeed}

-- The operations, with what their views hand over besides the context.
pub data Operation : Type 0 where
  reserve : Room → ℕ → Operation
  edit : ℕ → Details → Operation
  move : ℕ → Room → Operation
  decide : ℕ → String → String → Operation
  give_up : ℕ → String → Bool → Operation
  give_up_series : ℕ → String → Operation
  begin_hour : ℕ → Option Room → Bool → String → Operation
  walk_in : Room → Operation
  hold_for_staff : Room → ℕ → ℕ → ℕ → Operation
  at_desk : DeskOperation → Operation

abbrev pub body_of : Operation → Context → Body
body_of (Operation.reserve room start) ctx = create_advance_booking ctx room start
body_of (Operation.edit id details) ctx = update_booking_details ctx id details
body_of (Operation.move id room) ctx = move_booking ctx id room
body_of (Operation.decide id decision note) ctx = decide_approval ctx id decision note
body_of (Operation.give_up id reason staff) ctx = cancel ctx id reason staff
body_of (Operation.give_up_series id reason) ctx = cancel_recurring_reservation ctx id reason
body_of (Operation.begin_hour id room staff reason) ctx = check_in ctx id room staff reason
body_of (Operation.walk_in room) ctx = use_now ctx room
body_of (Operation.hold_for_staff room date from until) ctx =
    create_staff_booking ctx room date from until
body_of (Operation.at_desk op) ctx = desk_body op ctx

-- An operation as it is sent to the protocol.
abbrev pub request_of : Operation → Option User → Fields → String → String → Request
request_of op actor payload name key = record {
  actor = actor;
  operation = name;
  payload = payload;
  key = key;
  body = λ ctx. succeed (body_of op ctx);
}
