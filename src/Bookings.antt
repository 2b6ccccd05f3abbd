-- ===== src/Bookings.antt =====
-- How the services reach the booking table and the rows that a booking names: the row lock of
-- core/services/refs.py, the ORM's create and save, and the texts that every message shares.
pub mod Constraints
pub mod Updates
pub mod Save
use room_reserve.Prelude.{
  ℕ, suc, ◌+◌, Bool, true, false, Option, none, some, String, List, [], ◌∷◌, ◌++◌, any, first,
  update_where, ◌==◌, if◌then◌else◌,
}
use room_reserve.Prelude.Text.{strip, take_text, same_text}
use room_reserve.Models.Booking.{Booking, Status, Source, claims_room, is_pending, is_scheduled}
use room_reserve.Models.Account.{User}
use room_reserve.Models.Room.{Room}
use room_reserve.Models.Operations.{Value, Fields}
use room_reserve.Models.Db.{Db}
use room_reserve.Slots.{local_date, slot_end_for}
use room_reserve.Action.{Action, Failure, get_row, raise, pure}

-- `OperationContext`, without the fields that only the protocol reads.
pub record Context : Type 0 where
  pub now : ℕ
  pub actor : Option User
  pub payload : Fields

abbrev pub find_booking : ℕ → Db → Option Booking
find_booking id db = first (λ b. b.id == id) db.bookings

-- `reload_for_update(booking)`: the committed row, or `DoesNotExist`
unfoldable pub reload_for_update : ℕ → Action Booking
reload_for_update id = get_row (find_booking id)

-- `booking.user` and `booking.room`
unfoldable pub user_of : Booking → Action User
user_of b = get_row (λ db. first (λ u. u.id == b.user) db.users)

unfoldable pub room_of : Booking → Action Room
room_of b = get_row (λ db. first (λ r. r.id == b.room) db.rooms)

-- The account of a row that is about to be created; a row without one violates `NOT NULL`.
unfoldable pub acting_user : Option User → Action User
acting_user none = raise Failure.integrity_error
acting_user (some u) = pure u

-- `booking.user_id != getattr(actor, "pk", None)`, negated
abbrev pub owns : Option User → Booking → Bool
owns none b = false
owns (some u) b = b.user == u.id

-- `booking.save(update_fields=…)`, the fields being those that `f` writes
unfoldable pub save_booking : ℕ → (Booking → Booking) → Db → Db
save_booking id f db = record db { bookings = update_where (λ b. b.id == id) f db.bookings }

-- `Booking.objects.create(…)`
unfoldable pub insert_booking : Booking → Db → Db
insert_booking b db = record db {
  bookings = db.bookings ++ (b ∷ []);
  next_booking = suc db.next_booking;
}

-- A row with the model's defaults, and the local date that `save` derives.
unfoldable pub blank_booking : ℕ → ℕ → ℕ → ℕ → ℕ → Status → Source → Booking
blank_booking id wall user room slot_start status source = record {
  id = id;
  user = user;
  room = room;
  slot_start = slot_start;
  slot_end = slot_end_for slot_start;
  slot_date = local_date slot_start;
  deadline = none;
  status = status;
  source = source;
  recurrence = none;
  approved_at = none;
  approved_by = none;
  approval_note = "";
  is_staff_booking = false;
  title = "";
  purpose = "";
  participant_names = "";
  details_version = 0;
  created_at = wall;
  checked_in_at = none;
  checked_in_by = none;
  cancelled_at = none;
  cancelled_by = none;
  cancel_reason = "";
  late_cancel = false;
  actual_end = none;
  completion_reason = "";
  needs_review = false;
  review_note = "";
  policy_version = none;
  original_no_show = none;
  incident = none;
}

-- `Booking.objects.filter(room=…, slot_start=…, status__in=BLOCKING_STATUSES).exists()`
unfoldable pub is_taken : ℕ → ℕ → Db → Bool
is_taken room slot_start db = any (claims_room room slot_start) db.bookings

-- `booking.status in {SCHEDULED, PENDING_APPROVAL}`
abbrev pub is_open_status : Status → Bool
is_open_status Status.pending_approval = true
is_open_status Status.scheduled = true
is_open_status _ = false

-- `payload.get(key, "")`
abbrev pub text_value : Value → String
text_value (Value.text t) = t
text_value _ = ""

unfoldable pub payload_text : String → Fields → String
payload_text key [] = ""
payload_text key ((k, v) ∷ rest) = if same_text k key then text_value v else payload_text key rest

pub record Details : Type 0 where
  pub title : String
  pub purpose : String
  pub participant_names : String

-- `normalise_details`; a detail that is left out is the empty text.
unfoldable pub normalise_details : Details → Details
normalise_details d = record {
  title = take_text 120 (strip d.title);
  purpose = take_text 500 (strip d.purpose);
  participant_names = take_text 500 (strip d.participant_names);
}

abbrev pub details_fields : Details → Fields
details_fields d =
    ("title", Value.text d.title)
    ∷ ("purpose", Value.text d.purpose)
    ∷ ("participant_names", Value.text d.participant_names)
    ∷ []

abbrev pub booking_details : Booking → Details
booking_details b = record {
  title = b.title;
  purpose = b.purpose;
  participant_names = b.participant_names;
}

-- The fields that the messages about a booking begin with.
abbrev pub place_fields : Booking → Room → Fields
place_fields b room =
    ("booking_id", Value.num b.id)
    ∷ ("room_number", Value.text room.number)
    ∷ ("room_label", Value.text room.label)
    ∷ ("slot_start", Value.iso b.slot_start)
    ∷ ("slot_end", Value.iso b.slot_end)
    ∷ []

abbrev pub booking_id_fields : Booking → Fields
booking_id_fields b = ("booking_id", Value.num b.id) ∷ []

-- What an operation returns: the dictionary of its result.
abbrev pub Body : Type 0
Body = Action Fields
