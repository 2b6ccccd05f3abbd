-- ===== src/Cancel.antt =====
-- core/services/cancel.py, and the cancellation of a weekly series in core/services/booking.py.
pub mod Table
pub mod Series
use room_reserve.Prelude.{
  ℕ, ◌+◌, ◌-◌, Bool, true, false, not, ◌&&◌, ◌||◌, Option, none, some, String, List, [], ◌∷◌, ◌++◌,
  filter, map, order_by, first, update_where, ltb, leb, ◌==◌, holds, if◌then◌else◌,
}
use room_reserve.Prelude.Text.{is_blank}
use room_reserve.Settings.{hour}
use room_reserve.Errors.{Code}
use room_reserve.Models.Booking.{
  Booking, Status, RecurringReservation, SeriesStatus, is_in_use, is_cancelled,
}
use room_reserve.Models.Account.{User}
use room_reserve.Models.Room.{Room}
use room_reserve.Models.Operations.{Value, Fields, DedupeKey, Generation}
use room_reserve.Models.Db.{Db}
use room_reserve.Audit.{record_audit, actor_pk}
use room_reserve.Outbox.{enqueue}
use room_reserve.Bookings.{
  Context, Body, reload_for_update, user_of, room_of, owns, save_booking, is_open_status,
  place_fields, booking_id_fields,
}
use room_reserve.Action.{
  Action, Result, ok, err, reject_if, get_row, pure, modify, ask, ◌>>=◌, ◌>>◌,
}

abbrev pub late_cancel_window : ℕ
late_cancel_window = hour

-- `now > slot_start - LATE_CANCEL_WINDOW`, without the subtraction
abbrev pub is_late : ℕ → Booking → Bool
is_late now b = ltb b.slot_start (now + late_cancel_window)

unfoldable pub cancelled : Context → String → Bool → Booking → Booking
cancelled ctx reason staff_action b = record b {
  status = Status.cancelled;
  cancelled_at = some ctx.now;
  cancelled_by = actor_pk ctx.actor;
  cancel_reason = reason;
  late_cancel = is_late ctx.now b && not staff_action;
}

unfoldable pub announce_cancelled : Context → Booking → String → Bool → User → Room → Db → Db
announce_cancelled ctx b reason staff_action owner room db =
    enqueue "booking_cancelled" (some owner)
      (record { name = "booking_cancelled"; id = b.id; generation = Generation.only })
      (place_fields b room
        ++ (("slot_start_local", Value.local_text b.slot_start)
            ∷ ("reason", Value.text reason)
            ∷ ("late_cancel", Value.bool b.late_cancel)
            ∷ []))
      (record_audit "booking.cancelled" "Booking" b.id ctx.actor ""
        (("status", Value.status b.status)
          ∷ ("late_cancel", Value.bool b.late_cancel)
          ∷ ("staff_action", Value.bool staff_action)
          ∷ [])
        reason db)

unfoldable pub write_cancel : Context → Booking → String → Bool → User → Room → Body
write_cancel ctx b reason staff_action owner room db = (
  Result.ok (
      ("booking_id", Value.num b.id)
      ∷ ("status", Value.status Status.cancelled)
      ∷ ("late_cancel", Value.bool (is_late ctx.now b && not staff_action))
      ∷ []),
  announce_cancelled ctx (cancelled ctx reason staff_action b) reason staff_action owner room
      (save_booking b.id (cancelled ctx reason staff_action) db),
)

-- The source tests `CANCELLED` and then the closed statuses, with one refusal for both.
unfoldable pub cancel : Context → ℕ → String → Bool → Body
cancel ctx id reason staff_action = do
  b ← reload_for_update id
  reject_if (λ _. not staff_action && not (owns ctx.actor b)) Code.not_owner []
  reject_if (λ _. is_in_use b.status) Code.cancel_after_start (booking_id_fields b)
  reject_if (λ _. is_cancelled b.status) Code.terminal_status (booking_id_fields b)
  reject_if (λ _. not (is_open_status b.status)) Code.terminal_status (booking_id_fields b)
  reject_if (λ _. not staff_action && leb b.slot_start ctx.now) Code.cancel_after_start
      (booking_id_fields b)
  owner ← user_of b
  room ← room_of b
  write_cancel ctx b reason staff_action owner room

-- `for occurrence in future: cancel_booking(…)`: the first refusal ends the loop.
unfoldable pub cancel_each : Context → List Booking → String → Action (Unit {0})
cancel_each ctx [] reason = pure tt
cancel_each ctx (b ∷ bs) reason = cancel ctx b.id reason false >>= λ _. cancel_each ctx bs reason

abbrev pub is_active_series : SeriesStatus → Bool
is_active_series SeriesStatus.active = true
is_active_series SeriesStatus.cancelled = false

-- The occurrences that still lie ahead, in the model's order: latest first.
unfoldable pub future_occurrences : ℕ → ℕ → Db → List Booking
future_occurrences series now db =
    order_by (λ a b. leb b.slot_start a.slot_start)
      (filter
        (λ b.
          holds (λ s. s == series) b.recurrence
          && (is_open_status b.status && ltb now b.slot_start))
        db.bookings)

unfoldable pub close_series : Context → ℕ → String → List Booking → Db → Db
close_series ctx id reason future db =
    record_audit "recurring_reservation.cancelled" "RecurringReservation" id ctx.actor ""
      (("cancelled_booking_ids", Value.nums (map (λ b. b.id) future)) ∷ []) reason
      (record db {
        series =
            update_where (λ s. s.id == id)
              (λ s. record s { status = SeriesStatus.cancelled; cancelled_at = some ctx.now })
              db.series;
      })

abbrev pub owns_series : Option User → RecurringReservation → Bool
owns_series none s = false
owns_series (some u) s = s.user == u.id

abbrev pub is_empty : List Booking → Bool
is_empty [] = true
is_empty (b ∷ bs) = false

unfoldable pub cancel_recurring_reservation : Context → ℕ → String → Body
cancel_recurring_reservation ctx id reason = do
  s ← get_row (λ db. first (λ s. s.id == id) db.series)
  reject_if (λ _. not (owns_series ctx.actor s)) Code.not_owner []
  reject_if (λ _. not (is_active_series s.status)) Code.terminal_status []
  future ← ask (future_occurrences id ctx.now)
  reject_if (λ _. is_empty future) Code.terminal_status []
  cancel_each ctx future (if is_blank reason then "SERIES_CANCELLATION" else reason)
  modify (close_series ctx id reason future)
  pure (
      ("series_id", Value.num id)
      ∷ ("cancelled_booking_ids", Value.nums (map (λ b. b.id) future))
      ∷ [])
