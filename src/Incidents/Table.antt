-- ===== src/Incidents/Table.antt =====
-- Incidents keep the booking table valid, wherever they stop, and leave idempotency records alone.
use room_reserve.Prelude.{ℕ, ◌≡◌, refl, Bool, true, String, List, arith}
use room_reserve.Models.Booking.{Booking}
use room_reserve.Models.Room.{Room, ServiceIncident}
use room_reserve.Models.Sanctions.{Violation}
use room_reserve.Models.Db.{Db}
use room_reserve.Audit.{record_audit}
use room_reserve.Outbox.{enqueue}
use room_reserve.Policy.{policy_of}
use room_reserve.Bookings.{Context, save_booking}
use room_reserve.Action.{for_each}
use room_reserve.Action.Orderly.{IsOrderlyStep, IsOrderly, aside_orderly, orderly}
use room_reserve.Due.Rows.{Saves, Steps}
use room_reserve.Bulk.{dropped}
use room_reserve.Bulk.Table.{saved_loop_orderly}
use room_reserve.Incidents.{
  insert_incident, linked, excused, settle_hit, work_hit, audit_incident, create_incident,
  write_voids, void_incident_violations,
}

module _ (ctx : Context) where
  pub settle_hit-Steps :
      (incident : ℕ) (cancels : Bool) → Steps (settle_hit ctx incident cancels) (λ d x. true)
  unfolding settle_hit linked excused dropped
  settle_hit-Steps incident cancels = record {
    key = λ d x. ground arith;
    row = λ d x r h. record {
      length = ground (arith, r.length);
      aligned = ground (arith, r.aligned);
      dated = ground (arith, r.dated);
      walk_in = ground (arith, r.walk_in);
      deadline = ground (arith, r.deadline);
      within = ground (arith, r.within);
      checkin = ground (arith, r.checkin);
      cancellation = ground (arith, r.cancellation);
      reason = ground (arith, r.reason);
    };
    room = λ d x room start h e. ground arith;
    user = λ d x user start h e. ground arith;
    stays = λ d e x h k. refl;
  }

  work_hit-Saves :
      (i : ServiceIncident) (reason : String) (cancels : Bool)
      → Saves (settle_hit ctx i.id cancels) (work_hit ctx i reason cancels)
  unfolding work_hit enqueue save_booking
  work_hit-Saves i reason cancels = record {
    rows = λ d db. ground arith;
    next = λ d db. ground arith;
  }

  work_hit_rest :
      (i : ServiceIncident) (reason : String) (cancels : Bool) (b : Booking) (db : Db)
      → ((work_hit ctx i reason cancels b db).requests ≡ db.requests)
        × (policy_of (work_hit ctx i reason cancels b db) ≡ policy_of db)
  unfolding work_hit enqueue save_booking policy_of
  work_hit_rest i reason cancels b db = (ground arith, ground arith)

  work_orderly :
      (i : ServiceIncident) (reason : String) (cancels : Bool) (bs : List Booking)
      → IsOrderlyStep (for_each bs (work_hit ctx i reason cancels))
  work_orderly i reason cancels bs =
      saved_loop_orderly (settle_hit ctx i.id cancels) (work_hit ctx i reason cancels) (λ db. bs)
        (work_hit-Saves i reason cancels) (settle_hit-Steps i.id cancels)
        (work_hit_rest i reason cancels)

  insert_orderly : (i : ServiceIncident) → IsOrderlyStep (insert_incident i)
  unfolding insert_incident policy_of
  insert_orderly i = aside_orderly (λ db. (refl, refl, refl, refl))

  audit_orderly :
      (i : ServiceIncident) (reason : String) (cancels : Bool) (bs : List Booking)
      → IsOrderlyStep (audit_incident ctx i reason cancels bs)
  unfolding audit_incident record_audit policy_of
  audit_orderly i reason cancels bs = aside_orderly (λ db. (refl, refl, refl, refl))

  pub create_incident-IsOrderly :
      (starts_at ends_at : ℕ) (rooms : List Room) (reason : String) (cancels : Bool)
      → IsOrderly (create_incident ctx starts_at ends_at rooms reason cancels)
  unfolding create_incident
  create_incident-IsOrderly starts_at ends_at rooms reason cancels =
      search (orderly, insert_orderly, work_orderly, audit_orderly) depth 24

  voids_orderly :
      (i : ServiceIncident) (reason : String) (vs : List Violation)
      → IsOrderlyStep (write_voids ctx i reason vs)
  unfolding write_voids record_audit policy_of
  voids_orderly i reason vs = aside_orderly (λ db. (refl, refl, refl, refl))

  pub void_incident_violations-IsOrderly :
      (i : ServiceIncident) (reason : String) → IsOrderly (void_incident_violations ctx i reason)
  unfolding void_incident_violations
  void_incident_violations-IsOrderly i reason = search (orderly, voids_orderly) depth 24
