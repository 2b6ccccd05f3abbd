-- ===== src/Due.antt =====
-- core/services/reconcile.py, the bookings that are due: approvals that expired, no-shows, staff
-- bookings that begin, and sessions that end. A booking's room and user are there by their foreign
-- keys, so a payload reads them without failing.
pub mod Rows
pub mod Found
pub mod Left
pub mod Table
use room_reserve.Prelude.{
  ℕ, suc, ◌+◌, ◌*◌, Bool, true, false, not, ◌&&◌, ◌||◌, Option, none, some, String, List, [], ◌∷◌,
  ◌++◌, any, filter, count, first, map, length, order_by, update_where, ltb, leb, ◌==◌, holds,
  is_none, if◌then◌else◌,
}
use room_reserve.Prelude.Text.{decimal, append_text}
use room_reserve.Settings.{day, minute}
use room_reserve.Models.Booking.{Booking, Status, is_advance, is_pending, is_scheduled, is_in_use}
use room_reserve.Models.Account.{User}
use room_reserve.Models.Room.{ServiceIncident}
use room_reserve.Models.Policy.{
  PolicyVersion, strike_window_days, strike_threshold, auto_suspension_days, reminder_lead_minutes,
}
use room_reserve.Models.Sanctions.{
  Violation, ViolationKind, is_no_show_kind, is_eligible_strike, Suspension, SuspensionSource,
  is_active_suspension,
}
use room_reserve.Models.Operations.{Value, Fields, DedupeKey, Generation, optional}
use room_reserve.Models.Db.{Db}
use room_reserve.Audit.{record_audit, actor_pk, reconciler_label}
use room_reserve.Outbox.{enqueue, is_queued, or_default}
use room_reserve.Policy.{policy_of, with_policy, current_policy}
use room_reserve.Bookings.{save_booking, is_open_status}
use room_reserve.Action.{Action, Failure, ok, err, pure, modify, ask, for_each, ◌>>=◌, ◌>>◌}

-- `booking.user`
abbrev pub user_row : ℕ → Db → Option User
user_row id db = first (λ u. u.id == id) db.users

abbrev pub room_texts : ℕ → Db → Fields
room_texts id db = elim (first (λ r. r.id == id) db.rooms) [
  | none ↦ []
  | some r ↦ ("room_number", Value.text r.number) ∷ ("room_label", Value.text r.label) ∷ []
]

-- `_booking_payload`
unfoldable pub booking_payload : Booking → Db → Fields
booking_payload b db =
    (("booking_id", Value.num b.id) ∷ [])
    ++ (room_texts b.room db
        ++ (("slot_start", Value.iso b.slot_start)
            ∷ ("slot_end", Value.iso b.slot_end)
            ∷ ("slot_start_local", Value.local_text b.slot_start)
            ∷ ("source", Value.source b.source)
            ∷ []))

abbrev pub reason_field : String → Fields
reason_field reason = ("reason", Value.text reason) ∷ []

-- `order_by(time, "id")`
abbrev pub earlier : (Booking → ℕ) → Booking → Booking → Bool
earlier time a b = ltb (time a) (time b) || (time a == time b && leb a.id b.id)

-- A phase: too many due rows are a backlog, else each is worked off.
unfoldable pub work_off : ℕ → List Booking → (Booking → Db → Db) → Action ℕ
work_off budget due body db =
    if ltb budget (length due)
    then (err Failure.backlog, db)
    else (ok (length due), for_each due body db)

-- `_reconcile_expired_approvals`
abbrev pub approval_note : String
approval_note = "The room approval window expired before the session started."

abbrev pub is_expired_approval : ℕ → Booking → Bool
is_expired_approval now b = is_pending b.status && leb b.slot_start now

unfoldable pub expired_approvals : ℕ → Db → List Booking
expired_approvals now db =
    order_by (earlier (λ b. b.slot_start)) (filter (is_expired_approval now) db.bookings)

unfoldable pub expired : Booking → Booking
expired b = record b { status = Status.rejected; approval_note = approval_note }

unfoldable pub expire_approval : Option User → Booking → Db → Db
expire_approval actor b db =
    enqueue "booking_rejected" (user_row b.user db)
      (record { name = "booking_rejected"; id = b.id; generation = Generation.only })
      (booking_payload b db ++ reason_field approval_note)
      (record_audit "booking.rejected" "Booking" b.id actor (reconciler_label actor)
        (("status", Value.status Status.rejected) ∷ []) approval_note
        (save_booking b.id expired db))

unfoldable pub reconcile_expired_approvals : ℕ → ℕ → Option User → Action ℕ
reconcile_expired_approvals now budget actor db =
    work_off budget (expired_approvals now db) (expire_approval actor) db

-- `_incident_covers`
abbrev pub names_room : ℕ → List ℕ → Bool
names_room room [] = true
names_room room (r ∷ rs) = any (λ x. x == room) (r ∷ rs)

abbrev pub covers : Booking → ServiceIncident → Bool
covers b i = ltb i.starts_at b.slot_end && (ltb b.slot_start i.ends_at && names_room b.room i.rooms)

unfoldable pub incident_covers : Booking → List ServiceIncident → Bool
incident_covers b incidents = any (covers b) incidents

-- `_reconcile_no_shows`
abbrev pub is_due_no_show : ℕ → Booking → Bool
is_due_no_show now b =
    is_scheduled b.status && (holds (λ d. leb d now) b.deadline && not b.is_staff_booking)

abbrev pub deadline_or_zero : Booking → ℕ
deadline_or_zero b = elim b.deadline [ none ↦ 0 | some d ↦ d ]

unfoldable pub due_no_shows : ℕ → Db → List Booking
due_no_shows now db = order_by (earlier deadline_or_zero) (filter (is_due_no_show now) db.bookings)

unfoldable pub missed : Booking → Booking
missed b = record b { status = Status.no_show }

abbrev pub is_no_show_of : ℕ → Violation → Bool
is_no_show_of id v = holds (λ x. x == id) v.booking && is_no_show_kind v.kind

abbrev pub no_show_violation : ℕ → Booking → ℕ → Violation
no_show_violation id b expires_at = record {
  id = id;
  user = b.user;
  booking = some b.id;
  kind = ViolationKind.no_show;
  occurred_at = deadline_or_zero b;
  expires_at = expires_at;
  counts_as_strike = true;
  actor = none;
  note = "Automatic no-show reconciliation.";
  incident = none;
  voided_at = none;
  voided_by = none;
  void_reason = "";
  consumed_by = none;
}

-- `occurred_at + timedelta(days=policy.strike_window_days)`
abbrev pub strike_expiry : PolicyVersion → Booking → ℕ
strike_expiry policy b = deadline_or_zero b + strike_window_days policy * day

unfoldable pub add_no_show : PolicyVersion → Option User → Booking → Db → Db
add_no_show policy actor b db =
    enqueue "no_show" (user_row b.user db)
      (record { name = "no_show"; id = b.id; generation = Generation.only }) (booking_payload b db)
      (record_audit "booking.no_show" "Booking" b.id actor (reconciler_label actor)
        (("status", Value.status Status.no_show)
          ∷ ("occurred_at", optional Value.iso b.deadline)
          ∷ ("expires_at", Value.iso (strike_expiry policy b))
          ∷ [])
        "Check-in deadline passed."
        (record db {
          violations =
              db.violations
              ++ (no_show_violation db.next_violation b (strike_expiry policy b) ∷ []);
          next_violation = suc db.next_violation;
        }))

-- `_record_no_show`: the violation is found or created.
unfoldable pub record_no_show : PolicyVersion → Option User → Booking → Db → Db
record_no_show policy actor b db =
    let saved : Db = save_booking b.id missed db in
    if any (is_no_show_of b.id) saved.violations then saved else add_no_show policy actor b saved

-- The loop writes no incident, so every booking is asked about its incidents first.
abbrev pub unexcused : List Booking → Db → List Booking
unexcused due db = filter (λ b. not (incident_covers b db.incidents)) due

unfoldable pub reconcile_no_shows : ℕ → ℕ → Option User → Action ℕ
reconcile_no_shows now budget actor db =
    let due : List Booking = due_no_shows now db in
    if ltb budget (length due) then (err Failure.backlog, db) else (
      ok (length (unexcused due db)),
      for_each (unexcused due db) (record_no_show (policy_of db) actor) (with_policy db),
    )

-- `_start_staff_holds`
abbrev pub is_starting_hold : ℕ → Booking → Bool
is_starting_hold now b =
    is_scheduled b.status && (b.is_staff_booking && (leb b.slot_start now && ltb now b.slot_end))

unfoldable pub starting_holds : ℕ → Db → List Booking
starting_holds now db =
    order_by (earlier (λ b. b.slot_start)) (filter (is_starting_hold now) db.bookings)

-- `b` is the row as it was read.
unfoldable pub hold_started : Booking → Booking → Booking
hold_started b x = record x { status = Status.in_use; checked_in_at = some b.slot_start }

unfoldable pub start_hold : Option User → Booking → Db → Db
start_hold actor b db =
    record_audit "booking.staff_hold_started" "Booking" b.id actor (reconciler_label actor)
      (("status", Value.status Status.in_use) ∷ []) "Staff booking hour began."
      (save_booking b.id (hold_started b) db)

unfoldable pub start_staff_holds : ℕ → ℕ → Option User → Action ℕ
start_staff_holds now budget actor db =
    work_off budget (starting_holds now db) (start_hold actor) db

-- `_reconcile_completions`
abbrev pub is_ended : ℕ → Booking → Bool
is_ended now b =
    (is_in_use b.status || (is_scheduled b.status && b.is_staff_booking)) && leb b.slot_end now

unfoldable pub ended_sessions : ℕ → Db → List Booking
ended_sessions now db = order_by (earlier (λ b. b.slot_end)) (filter (is_ended now) db.bookings)

unfoldable pub completed : Booking → Booking → Booking
completed b x = record x { status = Status.completed; actual_end = some b.slot_end }

unfoldable pub complete : Option User → Booking → Db → Db
complete actor b db =
    record_audit "booking.completed" "Booking" b.id actor (reconciler_label actor)
      (("actual_end", Value.iso b.slot_end) ∷ []) "Slot end reached."
      (save_booking b.id (completed b) db)

unfoldable pub reconcile_completions : ℕ → ℕ → Option User → Action ℕ
reconcile_completions now budget actor db =
    work_off budget (ended_sessions now db) (complete actor) db
