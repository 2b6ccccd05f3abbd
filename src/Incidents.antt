-- ===== src/Incidents.antt =====
-- core/services/incidents.py: a service incident is recorded, the bookings that it affects are
-- cancelled without penalty, and the no-shows that it explains are voided.
pub mod Table
pub mod Voided
use room_reserve.Prelude.{
  ℕ, suc, Bool, true, false, not, ◌&&◌, ◌||◌, Option, none, some, String, List, [], ◌∷◌, ◌++◌, any,
  filter, first, length, count, map, order_by, update_where, ltb, leb, ◌==◌, holds, is_none,
  if◌then◌else◌,
}
use room_reserve.Prelude.Text.{is_spaces, strip}
use room_reserve.Errors.{Code}
use room_reserve.Models.Booking.{Booking, Status, is_no_show}
use room_reserve.Models.Room.{Room, ServiceIncident}
use room_reserve.Models.Sanctions.{Violation, Suspension, is_no_show_kind}
use room_reserve.Models.Operations.{Value, Fields}
use room_reserve.Models.Db.{Db}
use room_reserve.Audit.{record_audit, actor_pk}
use room_reserve.Outbox.{enqueue}
use room_reserve.Bookings.{Context, Body, save_booking, is_open_status}
use room_reserve.Action.{reject_if, get_row, pure, modify, ask, for_each, ◌>>=◌, ◌>>◌}
use room_reserve.Due.{user_row, covers}
use room_reserve.Sanctions.{find_suspension}
use room_reserve.Bulk.{dropped, dropped_fields, cancelled_key, latest_first}

-- `create_incident`
unfoldable pub new_incident : Context → ℕ → ℕ → List Room → String → Db → ServiceIncident
new_incident ctx starts_at ends_at rooms reason db = record {
  id = db.next_incident;
  starts_at = starts_at;
  ends_at = ends_at;
  rooms = map (λ r. r.id) rooms;
  reason = strip reason;
  created_by = actor_pk ctx.actor;
}

unfoldable pub insert_incident : ServiceIncident → Db → Db
insert_incident i db = record db {
  incidents = db.incidents ++ (i ∷ []);
  next_incident = suc db.next_incident;
}

-- The query and the filter by rooms behind it.
unfoldable pub is_hit : ServiceIncident → Booking → Bool
is_hit i b = (is_open_status b.status || is_no_show b.status) && covers b i

unfoldable pub linked : ℕ → Booking → Booking
linked incident b = record b { incident = some incident }

unfoldable pub excused : Context → ℕ → Booking → Booking
excused ctx incident b = record (dropped ctx "SERVICE_INCIDENT" b) { incident = some incident }

-- One round of the loop: a no-show is linked, and so is any booking when nothing is to be cancelled.
unfoldable pub stays_linked : Bool → Booking → Bool
stays_linked cancel_scheduled b = is_no_show b.status || not cancel_scheduled

unfoldable pub settle_hit : Context → ℕ → Bool → Booking → Booking → Booking
settle_hit ctx incident cancel_scheduled b x =
    if stays_linked cancel_scheduled b then linked incident x else excused ctx incident x

unfoldable pub work_hit : Context → ServiceIncident → String → Bool → Booking → Db → Db
work_hit ctx i reason cancel_scheduled b db =
    let saved : Db = save_booking b.id (settle_hit ctx i.id cancel_scheduled b) db in
    if stays_linked cancel_scheduled b
    then saved
    else enqueue "booking_cancelled" (user_row b.user db) (cancelled_key b)
        (dropped_fields b "SERVICE_INCIDENT" db ++ (("incident_reason", Value.text reason) ∷ []))
        saved

abbrev pub cancelled_count : Bool → List Booking → ℕ
cancelled_count cancel_scheduled bs = count (λ b. not (stays_linked cancel_scheduled b)) bs

abbrev pub no_show_count : List Booking → ℕ
no_show_count bs = count (λ b. is_no_show b.status) bs

unfoldable pub audit_incident : Context → ServiceIncident → String → Bool → List Booking → Db → Db
audit_incident ctx i reason cancel_scheduled bs db =
    record_audit "incident.created" "ServiceIncident" i.id ctx.actor ""
      (("starts_at", Value.iso i.starts_at)
        ∷ ("ends_at", Value.iso i.ends_at)
        ∷ ("rooms", Value.nums (order_by leb i.rooms))
        ∷ ("cancelled", Value.num (cancelled_count cancel_scheduled bs))
        ∷ ("existing_no_shows", Value.num (no_show_count bs))
        ∷ [])
      reason db

unfoldable pub create_incident : Context → ℕ → ℕ → List Room → String → Bool → Body
create_incident ctx starts_at ends_at rooms reason cancel_scheduled = do
  reject_if (λ _. is_spaces reason) Code.invalid_input []
  reject_if (λ _. leb ends_at starts_at) Code.invalid_input []
  i ← ask (new_incident ctx starts_at ends_at rooms reason)
  modify (insert_incident i)
  bs ← ask (latest_first (is_hit i))
  modify (for_each bs (work_hit ctx i reason cancel_scheduled))
  modify (audit_incident ctx i reason cancel_scheduled bs)
  pure (
      ("incident_id", Value.num i.id)
      ∷ ("cancelled", Value.num (cancelled_count cancel_scheduled bs))
      ∷ ("existing_no_shows", Value.num (no_show_count bs))
      ∷ [])

-- `void_incident_violations`
unfoldable pub is_explained : ServiceIncident → Booking → Bool
is_explained i b = is_no_show b.status && covers b i

unfoldable pub explains : ServiceIncident → List Booking → Violation → Bool
explains i bs v =
    holds (λ id. any (λ b. b.id == id && is_explained i b) bs) v.booking
    && (is_no_show_kind v.kind && is_none v.voided_at)

unfoldable pub explained_away : Context → ServiceIncident → String → Violation → Violation
explained_away ctx i reason v = record v {
  voided_at = some ctx.now;
  voided_by = actor_pk ctx.actor;
  void_reason = strip reason;
  incident = some i.id;
}

-- The suspensions that are not lifted and consumed a voided violation, each once and in order.
unfoldable pub has_unlifted : Db → Violation → Bool
has_unlifted db v =
    holds (λ id. any (λ s. s.id == id && is_none s.lifted_at) db.suspensions) v.consumed_by

unfoldable pub to_review : List Violation → Db → List ℕ
to_review vs db = order_by leb (
    map (λ s. s.id)
      (filter (λ s. any (λ v. has_unlifted db v && holds (λ id. id == s.id) v.consumed_by) vs)
        db.suspensions))

unfoldable pub write_voids : Context → ServiceIncident → String → List Violation → Db → Db
write_voids ctx i reason vs db =
    record_audit "incident.violations_voided" "ServiceIncident" i.id ctx.actor ""
      (("voided", Value.num (length vs))
        ∷ ("suspensions_to_review", Value.nums (to_review vs db))
        ∷ [])
      reason
      (record db {
        violations =
            update_where (explains i db.bookings) (explained_away ctx i reason) db.violations;
      })

unfoldable pub void_incident_violations : Context → ServiceIncident → String → Body
void_incident_violations ctx i reason = do
  reject_if (λ _. is_spaces reason) Code.invalid_input []
  vs ← ask (λ db. filter (explains i db.bookings) db.violations)
  review ← ask (to_review vs)
  modify (write_voids ctx i reason vs)
  pure (("voided", Value.num (length vs)) ∷ ("suspensions_to_review", Value.nums review) ∷ [])
