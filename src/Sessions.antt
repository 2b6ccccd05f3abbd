-- ===== src/Sessions.antt =====
-- core/services/maintenance.py, sessions on site: staff ends a session early, and clears the flag of
-- one that was to be checked.
pub mod Table
use room_reserve.Prelude.{ℕ, Bool, true, false, not, Option, none, some, String, List, [], ◌∷◌}
use room_reserve.Prelude.Text.{is_spaces, strip}
use room_reserve.Errors.{Code}
use room_reserve.Models.Booking.{Booking, Status, is_in_use}
use room_reserve.Models.Operations.{Value}
use room_reserve.Models.Db.{Db}
use room_reserve.Audit.{record_audit}
use room_reserve.Bookings.{Context, reload_for_update, save_booking, booking_id_fields}
use room_reserve.Action.{Action, reject_if, pure, modify, ◌>>=◌, ◌>>◌}

unfoldable pub completed_early : Context → String → Booking → Booking
completed_early ctx reason b = record b {
  status = Status.completed;
  actual_end = some ctx.now;
  completion_reason = strip reason;
  needs_review = false;
  review_note = "";
}

unfoldable pub write_completed_early : Context → Booking → String → Db → Db
write_completed_early ctx b reason db =
    record_audit "booking.completed_early" "Booking" b.id ctx.actor ""
      (("actual_end", Value.iso ctx.now) ∷ ("slot_end", Value.iso b.slot_end) ∷ []) reason
      (save_booking b.id (completed_early ctx reason) db)

unfoldable pub complete_session_early : Context → ℕ → String → Action Booking
complete_session_early ctx id reason = do
  reject_if (λ _. is_spaces reason) Code.invalid_input []
  b ← reload_for_update id
  reject_if (λ _. not (is_in_use b.status)) Code.terminal_status (booking_id_fields b)
  modify (write_completed_early ctx b reason)
  pure (completed_early ctx reason b)

unfoldable pub reviewed : String → Booking → Booking
reviewed note b = record b { needs_review = false; review_note = strip note }

unfoldable pub write_reviewed : Context → Booking → String → Db → Db
write_reviewed ctx b note db =
    record_audit "booking.review_resolved" "Booking" b.id ctx.actor "" [] note
      (save_booking b.id (reviewed note) db)

unfoldable pub resolve_review : Context → ℕ → String → Action Booking
resolve_review ctx id note = do
  reject_if (λ _. is_spaces note) Code.invalid_input []
  b ← reload_for_update id
  modify (write_reviewed ctx b note)
  pure (reviewed note b)
