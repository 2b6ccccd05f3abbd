-- ===== src/Delivery/Stale.antt =====
-- Which messages about bookings and sanctions go out.
use room_reserve.Prelude.{
  ℕ, ◌<◌, ◌≡◌, inl, inr, true, ◌||◌, Option, none, some, String, Option-cases, arith,
}
use room_reserve.Prelude.Text.{same_text}
use room_reserve.Models.Booking.{
  Booking, is_scheduled, is_in_use, is_completed, is_cancelled, is_no_show,
}
use room_reserve.Models.Operations.{Notification}
use room_reserve.Models.Db.{Db}
use room_reserve.Bookings.{find_booking, is_open_status}
use room_reserve.Delivery.{
  Attempt, payload_number, is_booking_kind, first_reason, booking_stale, missing_or, revalidate,
  deliver,
}

-- The booking is as a message of this kind says.
pub record IsTimely (kind : String) (now : ℕ) (b : Booking) : Type 0 where
  pub reminder :
      same_text kind "booking_reminder" ≡ true
      → (is_scheduled b.status ≡ true) × (now < b.slot_start)
  pub change :
      same_text kind "booking_changed" ≡ true
      → (is_open_status b.status ≡ true) × (now < b.slot_start)
  pub confirmation :
      same_text kind "booking_confirmation" ≡ true
      → (is_scheduled b.status || (is_in_use b.status || is_completed b.status)) ≡ true
  pub cancellation : same_text kind "booking_cancelled" ≡ true → is_cancelled b.status ≡ true
  pub no_show : same_text kind "no_show" ≡ true → is_no_show b.status ≡ true

booking_stale-IsTimely :
    (kind : String) (now : ℕ) (b : Booking) → booking_stale kind now b ≡ none → IsTimely kind now b
unfolding booking_stale first_reason
booking_stale-IsTimely kind now b h = record {
  reminder = λ k. (ground arith, ground arith);
  change = λ k. (ground arith, ground arith);
  confirmation = λ k. ground arith;
  cancellation = λ k. ground arith;
  no_show = λ k. ground arith;
}

-- A message about a booking that went out names a booking that is there and as the message says: a
-- reminder or a change only before the hour of a booking that is still on, a confirmation only of one
-- that was not given up, a cancellation or a no-show only of one that is cancelled or missed.
pub deliver-IsTimely :
    (invitation_stale : Notification → ℕ → Option String) (send : Notification → Attempt)
    (n : Notification) (now : ℕ) (db : Db)
    → is_booking_kind n.kind ≡ true
    → deliver invitation_stale send n now db ≡ Attempt.delivered
    → (id : ℕ) × (b : Booking) × (payload_number "booking_id" n.payload ≡ some id)
      × (find_booking id db ≡ some b)
      × IsTimely n.kind now b
unfolding deliver revalidate missing_or
deliver-IsTimely invitation_stale send n now db k h =
    elim (Option-cases (payload_number "booking_id" n.payload)) [
      | inl e ↦ ground (arith, e)
      | inr (id, e) ↦ elim (Option-cases (find_booking id db)) [
        | inl e' ↦ ground (arith, e, e')
        | inr (b, e') ↦ elim (Option-cases (booking_stale n.kind now b)) [
          | inl fresh ↦ (id, b, e, e', booking_stale-IsTimely n.kind now b fresh)
          | inr (why, old) ↦ ground (arith, e, e', old)
        ]
      ]
    ]
