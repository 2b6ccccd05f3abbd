-- ===== src/Bulk.antt =====
-- What the staff operations of core/services/sanctions.py, maintenance.py and incidents.py write on
-- many bookings at once: a cancellation without penalty, or a flag for a check on site.
pub mod Table
use room_reserve.Prelude.{
  ℕ, Bool, true, false, Option, none, some, String, List, [], ◌∷◌, ◌++◌, leb, filter, order_by,
}
use room_reserve.Models.Booking.{Booking, Status}
use room_reserve.Models.Operations.{Value, Fields, DedupeKey, Generation}
use room_reserve.Models.Db.{Db}
use room_reserve.Audit.{actor_pk}
use room_reserve.Bookings.{Context}
use room_reserve.Due.{room_texts}

unfoldable pub dropped : Context → String → Booking → Booking
dropped ctx reason b = record b {
  status = Status.cancelled;
  cancelled_at = some ctx.now;
  cancelled_by = actor_pk ctx.actor;
  cancel_reason = reason;
  late_cancel = false;
}

-- The payload that the bulk cancellations share.
abbrev pub dropped_fields : Booking → String → Db → Fields
dropped_fields b reason db =
    (("booking_id", Value.num b.id) ∷ [])
    ++ (room_texts b.room db
        ++ (("slot_start", Value.iso b.slot_start)
            ∷ ("slot_end", Value.iso b.slot_end)
            ∷ ("reason", Value.text reason)
            ∷ []))

abbrev pub cancelled_key : Booking → DedupeKey
cancelled_key b = record { name = "booking_cancelled"; id = b.id; generation = Generation.only }

-- `booking.needs_review = True` with its note
unfoldable pub flagged : String → Booking → Booking
flagged note b = record b { needs_review = true; review_note = note }

-- A query in the model's `Meta.ordering`: latest first.
unfoldable pub latest_first : (Booking → Bool) → Db → List Booking
latest_first p db = order_by (λ a b. leb b.slot_start a.slot_start) (filter p db.bookings)
