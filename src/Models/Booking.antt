-- ===== src/Models/Booking.antt =====
-- core/models/booking.py: `Booking`, `RecurringReservation`, the two status sets and the check
-- constraints of the booking table.
use room_reserve.Prelude.{
  ℕ, ◌+◌, ◌*◌, ◌%◌, Bool, true, false, not, ◌&&◌, ◌||◌, Option, String, ltb, leb, ◌==◌, null_or,
  is_some, is_none,
}
use room_reserve.Prelude.Text.{is_blank}
use room_reserve.Settings.{hour, minute}

pub data Status : Type 0 where
  pending_approval scheduled in_use completed no_show cancelled rejected : Status

pub data Source : Type 0 where
  advance walk_in : Source

-- `BLOCKING_STATUSES`
abbrev pub is_blocking : Status → Bool
is_blocking Status.pending_approval = true
is_blocking Status.scheduled = true
is_blocking Status.in_use = true
is_blocking Status.completed = true
is_blocking Status.no_show = false
is_blocking Status.cancelled = false
is_blocking Status.rejected = false

-- `QUOTA_STATUSES`
abbrev pub is_quota : Status → Bool
is_quota Status.no_show = true
is_quota s = is_blocking s

abbrev pub is_pending : Status → Bool
is_pending Status.pending_approval = true
is_pending _ = false

abbrev pub is_scheduled : Status → Bool
is_scheduled Status.scheduled = true
is_scheduled _ = false

abbrev pub is_in_use : Status → Bool
is_in_use Status.in_use = true
is_in_use _ = false

abbrev pub is_no_show : Status → Bool
is_no_show Status.no_show = true
is_no_show _ = false

abbrev pub is_cancelled : Status → Bool
is_cancelled Status.cancelled = true
is_cancelled _ = false

abbrev pub is_completed : Status → Bool
is_completed Status.completed = true
is_completed _ = false

abbrev pub is_rejected : Status → Bool
is_rejected Status.rejected = true
is_rejected _ = false

abbrev pub is_advance : Source → Bool
is_advance Source.advance = true
is_advance Source.walk_in = false

pub record Booking : Type 0 where
  pub id : ℕ
  pub user : ℕ
  pub room : ℕ
  pub slot_start : ℕ
  pub slot_end : ℕ
  pub slot_date : ℕ
  pub deadline : Option ℕ
  pub status : Status
  pub source : Source
  pub recurrence : Option ℕ
  pub approved_at : Option ℕ
  pub approved_by : Option ℕ
  pub approval_note : String
  pub is_staff_booking : Bool
  pub title : String
  pub purpose : String
  pub participant_names : String
  pub details_version : ℕ
  pub created_at : ℕ
  pub checked_in_at : Option ℕ
  pub checked_in_by : Option ℕ
  pub cancelled_at : Option ℕ
  pub cancelled_by : Option ℕ
  pub cancel_reason : String
  pub late_cancel : Bool
  pub actual_end : Option ℕ
  pub completion_reason : String
  pub needs_review : Bool
  pub review_note : String
  pub policy_version : Option ℕ
  pub original_no_show : Option ℕ
  pub incident : Option ℕ

-- The check constraints, by their names. Statuses and sources are valid by their types.
abbrev pub slot_length_one_hour : Booking → Bool
slot_length_one_hour b = b.slot_end == b.slot_start + hour

-- More than `slot_hour_aligned`, which compares the minute and the second: the microseconds are 0 too.
abbrev pub starts_on_hour : Booking → Bool
starts_on_hour b = b.slot_start % hour == 0

abbrev pub walkin_never_scheduled : Booking → Bool
walkin_never_scheduled b = is_advance b.source || not (is_scheduled b.status)

abbrev pub deadline_matches_source : Booking → Bool
deadline_matches_source b =
    (is_advance b.source && is_some b.deadline) || (not (is_advance b.source) && is_none b.deadline)

abbrev pub checkin_within_slot : Booking → Bool
checkin_within_slot b = null_or (λ t. leb b.slot_start t && ltb t b.slot_end) b.checked_in_at

abbrev pub cancellation_requires_metadata : Booking → Bool
cancellation_requires_metadata b =
    (is_cancelled b.status && is_some b.cancelled_at)
    || (not (is_cancelled b.status) && is_none b.cancelled_at)

abbrev pub cancel_reason_requires_cancellation : Booking → Bool
cancel_reason_requires_cancellation b = is_blank b.cancel_reason || is_some b.cancelled_at

-- The conditions of the two unique constraints: which rows claim a room's hour, and a user's hour.
abbrev pub claims_room : ℕ → ℕ → Booking → Bool
claims_room room start b = b.room == room && (b.slot_start == start && is_blocking b.status)

abbrev pub claims_user : ℕ → ℕ → Booking → Bool
claims_user user start b =
    b.user == user && (b.slot_start == start && (is_blocking b.status && not b.is_staff_booking))

-- `advance_deadline`
abbrev pub advance_deadline : ℕ → ℕ → ℕ
advance_deadline slot_start grace_minutes = slot_start + grace_minutes * minute

pub data SeriesStatus : Type 0 where
  active cancelled : SeriesStatus

pub record RecurringReservation : Type 0 where
  pub id : ℕ
  pub user : ℕ
  pub room : ℕ
  pub status : SeriesStatus
  pub cancelled_at : Option ℕ
