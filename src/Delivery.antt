-- ===== src/Delivery.antt =====
-- core/services/notifications.py, the worker: a claimed row is checked against the database, and then
-- sent, cancelled as stale, or put back for a later attempt.
pub mod Stale
pub mod Progress
use room_reserve.Prelude.{
  ℕ, Bool, true, false, not, ◌&&◌, ◌||◌, Option, none, some, String, List, [], ◌∷◌, first, any, leb,
  ◌==◌, is_some, if◌then◌else◌,
}
use room_reserve.Prelude.Text.{same_text, append_text}
use room_reserve.Models.Booking.{
  Booking, Status, is_scheduled, is_pending, is_in_use, is_completed, is_rejected, is_cancelled,
  is_no_show,
}
use room_reserve.Models.Sanctions.{Suspension}
use room_reserve.Models.Operations.{Value, Fields, Notification}
use room_reserve.Models.Db.{Db}
use room_reserve.Outbox.{claim_due, mark_sent, mark_failed, cancel}
use room_reserve.Bookings.{find_booking, is_open_status}
use room_reserve.Action.{for_each}
use room_reserve.Sanctions.{find_suspension}

-- `payload.get(key)` of a key
abbrev pub number : Value → Option ℕ
number (Value.num n) = some n
number _ = none

unfoldable pub payload_number : String → Fields → Option ℕ
payload_number key [] = none
payload_number key ((k, v) ∷ rest) = if same_text k key then number v else payload_number key rest

-- The texts of `Booking.Status`
abbrev pub status_text : Status → String
status_text Status.pending_approval = "PENDING_APPROVAL"
status_text Status.scheduled = "SCHEDULED"
status_text Status.in_use = "IN_USE"
status_text Status.completed = "COMPLETED"
status_text Status.no_show = "NO_SHOW"
status_text Status.cancelled = "CANCELLED"
status_text Status.rejected = "REJECTED"

unfoldable pub is_booking_kind : String → Bool
is_booking_kind kind = any (same_text kind) (
    "booking_confirmation" ∷ "booking_pending" ∷ "booking_rejected" ∷ "booking_changed"
    ∷ "booking_reminder" ∷ "booking_cancelled" ∷ "no_show" ∷ [])

-- Tests that raise `MessageStale` with a text: the first that applies does.
unfoldable pub first_reason : List (Bool × String) → Option String
first_reason [] = none
first_reason ((test, text) ∷ rest) = if test then some text else first_reason rest

-- The part of `revalidate` about bookings: why a message about this booking is stale.
unfoldable pub booking_stale : String → ℕ → Booking → Option String
booking_stale kind now b = first_reason (
    (
      same_text kind "booking_confirmation"
          && not (is_scheduled b.status || (is_in_use b.status || is_completed b.status)),
      append_text "Booking is " (append_text (status_text b.status) "."),
    )
    ∷ (
      same_text kind "booking_pending" && not (is_pending b.status),
      "Booking is no longer awaiting approval.",
    )
    ∷ (
      same_text kind "booking_rejected" && not (is_rejected b.status),
      "Booking is no longer rejected.",
    )
    ∷ (
      same_text kind "booking_changed" && (not (is_open_status b.status) || leb b.slot_start now),
      "Booking change no longer applies.",
    )
    ∷ (
      same_text kind "booking_reminder" && (not (is_scheduled b.status) || leb b.slot_start now),
      "Reminder no longer applies.",
    )
    ∷ (
      same_text kind "booking_cancelled" && not (is_cancelled b.status),
      "Booking is not cancelled.",
    )
    ∷ (same_text kind "no_show" && not (is_no_show b.status), "Booking is not a no-show.")
    ∷ [])

unfoldable pub missing_or : String → Option Booking → (Booking → Option String) → Option String
missing_or why none f = some why
missing_or why (some b) f = f b

unfoldable pub sanction_stale : Option Suspension → Option String
sanction_stale none = some "Sanction no longer active."
sanction_stale (some s) = if is_some s.lifted_at then some "Sanction no longer active." else none

unfoldable pub lifting_stale : Option Suspension → Option String
lifting_stale none = some "Suspension no longer exists."
lifting_stale (some s) = none

abbrev pub found_under {ℓ} : {A : Type ℓ} → Option ℕ → (ℕ → Option A) → Option A
found_under none find = none
found_under (some id) find = find id

-- What became of one attempt: `str(exc)` of the exception, if there was one.
pub data Attempt : Type 0 where
  delivered : Attempt
  stale failed : String → Attempt

-- What the worker writes after an attempt.
unfoldable pub settle : Notification → ℕ → Attempt → Db → Db
settle n now Attempt.delivered db = mark_sent n.id now db
settle n now (Attempt.stale why) db = cancel n.id why db
settle n now (Attempt.failed error) db = mark_failed n error now db

-- `invitation_stale` is the check of an invitation, whose table is not modelled; `send` renders the
-- message and hands it to the mail server.
module _ (invitation_stale : Notification → ℕ → Option String) (send : Notification → Attempt) where
  unfoldable pub revalidate : Notification → ℕ → Db → Option String
  revalidate n now db =
      if is_booking_kind n.kind
      then missing_or "Booking no longer exists."
          (found_under (payload_number "booking_id" n.payload) (λ id. find_booking id db))
          (booking_stale n.kind now)
      else (if any (same_text n.kind) ("email_verification" ∷ "invitation" ∷ "password_reset" ∷ [])
          then invitation_stale n now
          else (if same_text n.kind "sanction_applied"
              then sanction_stale (
                  found_under (payload_number "suspension_id" n.payload)
                    (λ id. find_suspension id db))
              else (if same_text n.kind "sanction_lifted"
                  then lifting_stale (
                      found_under (payload_number "suspension_id" n.payload)
                        (λ id. find_suspension id db))
                  else none)))

  -- `deliver`; the worker calls it only when delivery is enabled.
  unfoldable pub deliver : Notification → ℕ → Db → Attempt
  deliver n now db = elim (revalidate n now db) [ none ↦ send n | some why ↦ Attempt.stale why ]

  -- One round of the loop in `drain`.
  unfoldable pub work : ℕ → Notification → Db → Db
  work now n db = settle n now (deliver n now db) db

  -- `drain`, without its counts; `locked` and `fresh` are those of `claim_due`.
  unfoldable pub drain : Bool → ℕ → Option ℕ → (Notification → Bool) → (ℕ → ℕ) → Db → Db
  drain false now limit locked fresh db = db
  drain true now limit locked fresh db =
      let (claimed, leased) = claim_due now limit none locked fresh db in
      for_each claimed (work now) leased
