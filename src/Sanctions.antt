-- ===== src/Sanctions.antt =====
-- core/services/sanctions.py: violations that staff record and void, and the suspensions that staff
-- apply, adjust and lift.
pub mod Table
pub mod Laws
use room_reserve.Prelude.{
  ℕ, suc, ◌+◌, ◌*◌, Bool, true, false, not, ◌&&◌, ◌||◌, Option, none, some, String, List, [], ◌∷◌,
  ◌++◌, any, filter, first, order_by, update_where, leb, ltb, ◌==◌, holds, is_none, is_some,
  if◌then◌else◌,
}
use room_reserve.Prelude.Text.{is_spaces, strip}
use room_reserve.Settings.{day}
use room_reserve.Errors.{Code}
use room_reserve.Models.Booking.{Booking, Status}
use room_reserve.Models.Account.{User}
use room_reserve.Models.Policy.{strike_window_days}
use room_reserve.Models.Sanctions.{
  Violation, ViolationKind, Suspension, SuspensionSource, is_auto, is_active_suspension,
}
use room_reserve.Models.Operations.{Value, Fields, DedupeKey, Generation, optional}
use room_reserve.Models.Db.{Db}
use room_reserve.Audit.{record_audit, actor_pk}
use room_reserve.Outbox.{enqueue}
use room_reserve.Policy.{current_policy}
use room_reserve.Bookings.{Context, save_booking, is_open_status}
use room_reserve.Action.{
  Action, reject_if, violate_if, get_row, pure, modify, ask, for_each, ◌>>=◌, ◌>>◌,
}
use room_reserve.Due.{user_row}
use room_reserve.Bulk.{dropped, dropped_fields, cancelled_key}
use room_reserve.Strikes.{open_bookings, apply_strike_thresholds}

-- `suspension.user`, a foreign key that is never null
abbrev pub account_of : ℕ → Action User
account_of id = get_row (λ db. first (λ u. u.id == id) db.users)

-- `record_manual_violation`; a violation that staff records names no booking, and its row must expire
-- after it occurred.
unfoldable pub manual_violation : Context → User → String → Bool → ℕ → ℕ → Option ℕ → Db → Violation
manual_violation ctx user note counts occurred_at expires_at incident db = record {
  id = db.next_violation;
  user = user.id;
  booking = none;
  kind = ViolationKind.manual;
  occurred_at = occurred_at;
  expires_at = expires_at;
  counts_as_strike = counts;
  actor = actor_pk ctx.actor;
  note = strip note;
  incident = incident;
  voided_at = none;
  voided_by = none;
  void_reason = "";
  consumed_by = none;
}

unfoldable pub insert_violation : Context → Violation → String → Db → Db
insert_violation ctx v note db =
    record_audit "violation.recorded" "Violation" v.id ctx.actor ""
      (("user", Value.num v.user)
        ∷ ("counts_as_strike", Value.bool v.counts_as_strike)
        ∷ ("occurred_at", Value.iso v.occurred_at)
        ∷ ("expires_at", Value.iso v.expires_at)
        ∷ [])
      note
      (record db { violations = db.violations ++ (v ∷ []); next_violation = suc db.next_violation })

-- `occurred_at or now`
abbrev pub or_now : Option ℕ → ℕ → ℕ
or_now none now = now
or_now (some t) now = t

unfoldable pub record_manual_violation :
    Context → User → String → Bool → Option ℕ → Option ℕ → Action Violation
record_manual_violation ctx user note counts occurred_at incident = do
  reject_if (λ _. is_spaces note) Code.invalid_input []
  policy ← current_policy
  let at : ℕ = or_now occurred_at ctx.now
  v ← ask (manual_violation ctx user note counts at (at + strike_window_days policy * day) incident)
  violate_if (leb v.expires_at v.occurred_at)
  modify (insert_violation ctx v note)
  modify (apply_strike_thresholds ctx.now ctx.actor)
  pure v

-- `void_violation`
abbrev pub find_violation : ℕ → Db → Option Violation
find_violation id db = first (λ v. v.id == id) db.violations

abbrev pub find_suspension : ℕ → Db → Option Suspension
find_suspension id db = first (λ s. s.id == id) db.suspensions

unfoldable pub voided : Context → String → Violation → Violation
voided ctx reason v = record v {
  voided_at = some ctx.now;
  voided_by = actor_pk ctx.actor;
  void_reason = strip reason;
}

unfoldable pub write_void : Context → Violation → String → Db → Db
write_void ctx v reason db =
    record_audit "violation.voided" "Violation" v.id ctx.actor ""
      (("consumed_by_suspension", optional Value.num v.consumed_by)
        ∷ ("counts_as_strike", Value.bool v.counts_as_strike)
        ∷ [])
      reason
      (record db {
        violations = update_where (λ x. x.id == v.id) (voided ctx reason) db.violations;
      })

-- The suspension that consumed the violation, when it was not lifted.
unfoldable pub under_review : Violation → Db → Option Suspension
under_review v db = elim v.consumed_by [
  | none ↦ none
  | some id ↦ elim (find_suspension id db) [
    | none ↦ none
    | some s ↦ if is_none s.lifted_at then some s else none
  ]
]

unfoldable pub ask_review : Violation → String → Option User → Option Suspension → Db → Db
ask_review v reason user none db = db
ask_review v reason user (some s) db =
    enqueue "sanction_applied" user
      (record { name = "violation_voided_review"; id = v.id; generation = Generation.only })
      (("suspension_id", Value.num s.id)
        ∷ ("review", Value.bool true)
        ∷ ("reason", Value.text reason)
        ∷ ("starts_at", Value.iso s.starts_at)
        ∷ ("ends_at", optional Value.iso s.ends_at)
        ∷ [])
      db

unfoldable pub void_violation : Context → ℕ → String → Action Fields
void_violation ctx id reason = do
  reject_if (λ _. is_spaces reason) Code.invalid_input []
  v ← get_row (find_violation id)
  reject_if (λ _. is_some v.voided_at) Code.terminal_status (("violation_id", Value.num v.id) ∷ [])
  modify (write_void ctx v reason)
  review ← ask (under_review v)
  modify (λ db. ask_review v reason (user_row v.user db) review db)
  pure (
      ("violation_id", Value.num v.id)
      ∷ ("review_required", Value.bool (is_some review))
      ∷ ("suspension_id", optional Value.num v.consumed_by)
      ∷ [])

-- `extend_or_shorten_suspension`
abbrev pub suspension_id_fields : Suspension → Fields
suspension_id_fields s = ("suspension_id", Value.num s.id) ∷ []

abbrev pub save_suspension : ℕ → (Suspension → Suspension) → Db → Db
save_suspension id f db = record db {
  suspensions = update_where (λ s. s.id == id) f db.suspensions;
}

unfoldable pub adjusted : Option ℕ → Suspension → Suspension
adjusted ends_at s = record s { ends_at = ends_at; end_notified_at = none }

-- The constraint `suspension_auto_requires_end`: an automatic suspension always has an end.
abbrev pub auto_without_end : Option ℕ → Suspension → Bool
auto_without_end ends_at s = is_auto s.source && is_none ends_at

unfoldable pub write_adjusted : Context → Suspension → Option ℕ → String → Bool → Db → Db
write_adjusted ctx s ends_at reason staff_override db =
    record_audit "suspension.adjusted" "Suspension" s.id ctx.actor ""
      (("previous_ends_at", optional Value.iso s.ends_at)
        ∷ ("ends_at", optional Value.iso ends_at)
        ∷ ("staff_override", Value.bool staff_override)
        ∷ [])
      reason (save_suspension s.id (adjusted ends_at) db)

unfoldable pub extend_or_shorten_suspension :
    Context → ℕ → Option ℕ → String → Bool → Action Suspension
extend_or_shorten_suspension ctx id ends_at reason staff_override = do
  reject_if (λ _. is_spaces reason) Code.invalid_input []
  s ← get_row (find_suspension id)
  reject_if (λ _. is_some s.lifted_at) Code.terminal_status (suspension_id_fields s)
  reject_if (λ _. holds (λ e. leb e s.starts_at) ends_at) Code.invalid_input []
  violate_if (auto_without_end ends_at s)
  modify (write_adjusted ctx s ends_at reason staff_override)
  pure (adjusted ends_at s)

-- `_cancel_scheduled`
unfoldable pub drop_for_suspension : Context → User → String → Booking → Db → Db
drop_for_suspension ctx user reason b db =
    enqueue "booking_cancelled" (some user) (cancelled_key b) (dropped_fields b reason db) (
      record_audit "booking.cancelled" "Booking" b.id ctx.actor ""
        (("status", Value.status Status.cancelled) ∷ ("reason", Value.text reason) ∷ [])
        "Cancelled due to suspension; no additional penalty."
        (save_booking b.id (dropped ctx reason) db))

unfoldable pub cancel_scheduled : Context → User → String → Db → Db
cancel_scheduled ctx user reason db =
    for_each (open_bookings user.id db) (drop_for_suspension ctx user reason) db

-- `apply_manual_suspension`: the active suspension that began last is the one that staff edits.
unfoldable pub active_of : ℕ → ℕ → Db → Option Suspension
active_of now user db =
    first (λ _. true)
      (order_by (λ a b. leb b.starts_at a.starts_at)
        (filter (λ s. s.user == user && is_active_suspension now s) db.suspensions))

unfoldable pub manual_suspension : Context → User → String → Option ℕ → Db → Suspension
manual_suspension ctx user reason ends_at db = record {
  id = db.next_suspension;
  user = user.id;
  starts_at = ctx.now;
  ends_at = ends_at;
  lifted_at = none;
  lifted_by = none;
  lift_reason = "";
  reason = strip reason;
  source = SuspensionSource.manual;
  created_by = actor_pk ctx.actor;
  start_notified_at = some ctx.now;
  end_notified_at = none;
}

unfoldable pub insert_manual : Context → User → String → Suspension → Db → Db
insert_manual ctx user reason s db =
    enqueue "sanction_applied" (some user)
      (record { name = "suspension_applied"; id = s.id; generation = Generation.only })
      (("suspension_id", Value.num s.id)
        ∷ ("starts_at", Value.iso s.starts_at)
        ∷ ("ends_at", optional Value.iso s.ends_at)
        ∷ ("reason", Value.text reason)
        ∷ ("manual", Value.bool true)
        ∷ [])
      (record_audit "suspension.applied" "Suspension" s.id ctx.actor ""
        (("starts_at", Value.iso s.starts_at)
          ∷ ("ends_at", optional Value.iso s.ends_at)
          ∷ ("source", Value.text "MANUAL")
          ∷ [])
        reason
        (record db {
          suspensions = db.suspensions ++ (s ∷ []);
          next_suspension = suc db.next_suspension;
        }))

unfoldable pub create_manual : Context → User → String → Option ℕ → Action Suspension
create_manual ctx user reason ends_at = do
  reject_if (λ _. holds (λ e. leb e ctx.now) ends_at) Code.invalid_input []
  s ← ask (manual_suspension ctx user reason ends_at)
  modify (insert_manual ctx user reason s)
  modify (cancel_scheduled ctx user "SUSPENSION")
  pure s

-- With a suspension in force, that one is adjusted.
unfoldable pub suspend_or_adjust :
    Context → User → String → Option ℕ → Option Suspension → Action Suspension
suspend_or_adjust ctx user reason ends_at none = create_manual ctx user reason ends_at
suspend_or_adjust ctx user reason ends_at (some s) =
    extend_or_shorten_suspension ctx s.id ends_at reason true

unfoldable pub apply_manual_suspension : Context → ℕ → String → Option ℕ → Action Suspension
apply_manual_suspension ctx id reason ends_at = do
  reject_if (λ _. is_spaces reason) Code.invalid_input []
  user ← account_of id
  active ← ask (active_of ctx.now user.id)
  suspend_or_adjust ctx user reason ends_at active

-- `lift_suspension`
unfoldable pub lifted : Context → String → Suspension → Suspension
lifted ctx reason s = record s {
  lifted_at = some ctx.now;
  lifted_by = actor_pk ctx.actor;
  lift_reason = strip reason;
}

unfoldable pub write_lifted : Context → Suspension → String → User → Db → Db
write_lifted ctx s reason user db =
    enqueue "sanction_lifted" (some user)
      (record { name = "suspension_lifted"; id = s.id; generation = Generation.only })
      (suspension_id_fields s
        ++ (("lifted_at", Value.iso ctx.now) ∷ ("reason", Value.text reason) ∷ []))
      (record_audit "suspension.lifted" "Suspension" s.id ctx.actor ""
        (("lifted_at", Value.iso ctx.now) ∷ ("consumed_strikes_remain", Value.bool true) ∷ [])
        reason (save_suspension s.id (lifted ctx reason) db))

unfoldable pub lift_suspension : Context → ℕ → String → Action Suspension
lift_suspension ctx id reason = do
  reject_if (λ _. is_spaces reason) Code.invalid_input []
  s ← get_row (find_suspension id)
  reject_if (λ _. is_some s.lifted_at) Code.terminal_status (suspension_id_fields s)
  user ← account_of s.user
  modify (write_lifted ctx s reason user)
  pure (lifted ctx reason s)
