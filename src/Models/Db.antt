-- ===== src/Models/Db.antt =====
-- The rows of a table that the modelled services only read stand in the order of the model's
-- `Meta.ordering`, by which `first()` picks.
--
-- The database: its tables, the keys that the next rows get, the deployment's settings, and what
-- `timezone.now()` reads while the transaction runs.
use room_reserve.Prelude.{ℕ, List}
use room_reserve.Settings.{Settings}
use room_reserve.Models.Booking.{Booking, RecurringReservation}
use room_reserve.Models.Account.{User, EligibleStudent}
use room_reserve.Models.Room.{
  Room, AllowedCategory, RoomMember, Closure, CalendarOverride, WeeklyBlock, ServiceIncident,
}
use room_reserve.Models.Policy.{PolicyVersion}
use room_reserve.Models.Sanctions.{Violation, Suspension}
use room_reserve.Models.Operations.{AuditEvent, Notification, OperationRequest, JobHeartbeat}

pub record Db : Type 0 where
  pub settings : Settings
  pub wall : ℕ
  pub users : List User
  pub roster : List EligibleStudent
  pub rooms : List Room
  pub allowed_categories : List AllowedCategory
  pub members : List RoomMember
  pub closures : List Closure
  pub next_closure : ℕ
  pub overrides : List CalendarOverride
  pub next_override : ℕ
  pub weekly_blocks : List WeeklyBlock
  pub incidents : List ServiceIncident
  pub next_incident : ℕ
  pub policies : List PolicyVersion
  pub bookings : List Booking
  pub next_booking : ℕ
  pub series : List RecurringReservation
  pub violations : List Violation
  pub next_violation : ℕ
  pub suspensions : List Suspension
  pub next_suspension : ℕ
  pub outbox : List Notification
  pub next_notification : ℕ
  pub audits : List AuditEvent
  pub requests : List OperationRequest
  pub heartbeats : List JobHeartbeat
