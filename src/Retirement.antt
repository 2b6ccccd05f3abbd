-- ===== src/Retirement.antt =====
-- core/services/maintenance.py, what goes out of service: a room or an account is switched off, its
-- open bookings are cancelled, and a session in use is flagged.
pub mod Table
use room_reserve.Prelude.{
  ℕ, Bool, true, false, ◌&&◌, Option, none, some, String, List, [], ◌∷◌, first, length, filter,
  update_where, ◌==◌,
}
use room_reserve.Prelude.Text.{is_spaces, append_text}
use room_reserve.Errors.{Code}
use room_reserve.Models.Booking.{Booking, Status, is_in_use}
use room_reserve.Models.Account.{User}
use room_reserve.Models.Room.{Room}
use room_reserve.Models.Operations.{Value, Fields}
use room_reserve.Models.Db.{Db}
use room_reserve.Audit.{record_audit}
use room_reserve.Outbox.{enqueue}
use room_reserve.Bookings.{Context, Body, save_booking, is_open_status}
use room_reserve.Action.{Action, reject_if, get_row, pure, modify, ask, for_each, ◌>>=◌, ◌>>◌}
use room_reserve.Due.{user_row}
use room_reserve.Sanctions.{account_of}
use room_reserve.Bulk.{dropped, dropped_fields, cancelled_key, flagged, latest_first}

abbrev pub is_open_in : ℕ → Booking → Bool
is_open_in room b = b.room == room && is_open_status b.status

abbrev pub is_used_in : ℕ → Booking → Bool
is_used_in room b = b.room == room && is_in_use b.status

unfoldable pub drop_for_room : Context → Booking → Db → Db
drop_for_room ctx b db =
    enqueue "booking_cancelled" (user_row b.user db) (cancelled_key b)
      (dropped_fields b "ROOM_DEACTIVATED" db)
      (save_booking b.id (dropped ctx "ROOM_DEACTIVATED") db)

unfoldable pub flag_row : String → Booking → Db → Db
flag_row note b db = save_booking b.id (flagged note) db

unfoldable pub session_note : String → String → String
session_note what reason =
    append_text what
      (append_text " deactivated during an active session (" (append_text reason ")."))

abbrev pub counts : List Booking → List Booking → Fields
counts scheduled in_use =
    ("cancelled", Value.num (length scheduled)) ∷ ("flagged", Value.num (length in_use)) ∷ []

unfoldable pub audit_retired :
    Context → String → String → ℕ → String → List Booking → List Booking → Db → Db
audit_retired ctx action entity id reason scheduled in_use db =
    record_audit action entity id ctx.actor ""
      (("cancelled", Value.num (length scheduled))
        ∷ ("flagged_in_use", Value.num (length in_use))
        ∷ [])
      reason db

unfoldable pub switch_room_off : ℕ → Db → Db
switch_room_off id db = record db {
  rooms = update_where (λ r. r.id == id) (λ r. record r { is_active = false }) db.rooms;
}

-- `deactivate_room`
unfoldable pub deactivate_room : Context → ℕ → String → Body
deactivate_room ctx id reason = do
  reject_if (λ _. is_spaces reason) Code.invalid_input []
  room ← get_row (λ db. first (λ r. r.id == id) db.rooms)
  modify (switch_room_off room.id)
  scheduled ← ask (latest_first (is_open_in room.id))
  modify (for_each scheduled (drop_for_room ctx))
  in_use ← ask (latest_first (is_used_in room.id))
  modify (for_each in_use (flag_row (session_note "Room" reason)))
  modify (audit_retired ctx "room.deactivated" "Room" room.id reason scheduled in_use)
  pure (counts scheduled in_use)

-- `deactivate_account`; the account gets no messages.
abbrev pub is_open_for : ℕ → Booking → Bool
is_open_for user b = b.user == user && is_open_status b.status

abbrev pub is_used_by : ℕ → Booking → Bool
is_used_by user b = b.user == user && is_in_use b.status

unfoldable pub drop_silently : Context → Booking → Db → Db
drop_silently ctx b db = save_booking b.id (dropped ctx "ACCOUNT_DEACTIVATED") db

unfoldable pub switch_account_off : ℕ → Db → Db
switch_account_off id db = record db {
  users = update_where (λ u. u.id == id) (λ u. record u { is_active = false }) db.users;
}

unfoldable pub deactivate_account : Context → ℕ → String → Body
deactivate_account ctx id reason = do
  reject_if (λ _. is_spaces reason) Code.invalid_input []
  user ← account_of id
  reject_if (λ _. user.is_superuser) Code.invalid_input []
  modify (switch_account_off user.id)
  scheduled ← ask (latest_first (is_open_for user.id))
  modify (for_each scheduled (drop_silently ctx))
  in_use ← ask (latest_first (is_used_by user.id))
  modify (for_each in_use (flag_row (session_note "Account" reason)))
  modify (audit_retired ctx "account.deactivated" "User" user.id reason scheduled in_use)
  pure (counts scheduled in_use)
