-- ===== src/Sanctions/Table.antt =====
-- What the operations on sanctions make of the booking table and of the idempotency records.
use room_reserve.Prelude.{ℕ, ◌≡◌, refl, Bool, true, Option, none, some, String}
use room_reserve.Models.Booking.{Booking}
use room_reserve.Models.Account.{User}
use room_reserve.Models.Db.{Db}
use room_reserve.Audit.{record_audit}
use room_reserve.Outbox.{enqueue}
use room_reserve.Policy.{policy_of}
use room_reserve.Bookings.{Context, save_booking}
use room_reserve.Action.Orderly.{IsOrderlyStep, IsOrderly, aside_orderly, orderly}
use room_reserve.Models.Sanctions.{Violation, Suspension}
use room_reserve.Due.{user_row}
use room_reserve.Due.Rows.{Saves}
use room_reserve.Strikes.{open_bookings, apply_strike_thresholds}
use room_reserve.Reconcile.Keeps.{thresholds_keep, requests-IsStable, policy-IsStable}
use room_reserve.Strikes.Table.{apply_strike_thresholds-IsConsistent}
use room_reserve.Bulk.{dropped}
use room_reserve.Bulk.Table.{dropped-Steps, saved_loop_orderly}
use room_reserve.Sanctions.{
  record_manual_violation, insert_violation, void_violation, write_void, ask_review,
  extend_or_shorten_suspension, write_adjusted, drop_for_suspension, cancel_scheduled,
  apply_manual_suspension, suspend_or_adjust, create_manual, insert_manual, lift_suspension,
  write_lifted,
}

module _ (ctx : Context) where
  drop-Saves :
      (user : User) (reason : String)
      → Saves (λ d. dropped ctx reason) (drop_for_suspension ctx user reason)
  unfolding drop_for_suspension enqueue record_audit save_booking
  drop-Saves user reason = record { rows = λ d db. refl; next = λ d db. refl }

  ask_review_orderly :
      (v : Violation) (reason : String) (review : Option Suspension)
      → IsOrderlyStep (λ db. ask_review v reason (user_row v.user db) review db)
  unfolding ask_review enqueue policy_of
  ask_review_orderly v reason none = aside_orderly (λ db. (refl, refl, refl, refl))
  ask_review_orderly v reason (some s) = aside_orderly (λ db. (refl, refl, refl, refl))

  write_void_orderly : (v : Violation) (reason : String) → IsOrderlyStep (write_void ctx v reason)
  unfolding write_void record_audit policy_of
  write_void_orderly v reason = aside_orderly (λ db. (refl, refl, refl, refl))

  pub void_violation-IsOrderly :
      (id : ℕ) (reason : String) → IsOrderly (void_violation ctx id reason)
  unfolding void_violation
  void_violation-IsOrderly id reason =
      search (orderly, write_void_orderly, ask_review_orderly) depth 16

  write_adjusted_orderly :
      (s : Suspension) (ends_at : Option ℕ) (reason : String) (staff : Bool)
      → IsOrderlyStep (write_adjusted ctx s ends_at reason staff)
  unfolding write_adjusted record_audit policy_of
  write_adjusted_orderly s ends_at reason staff = aside_orderly (λ db. (refl, refl, refl, refl))

  pub extend_or_shorten_suspension-IsOrderly :
      (id : ℕ) (ends_at : Option ℕ) (reason : String) (staff : Bool)
      → IsOrderly (extend_or_shorten_suspension ctx id ends_at reason staff)
  unfolding extend_or_shorten_suspension
  extend_or_shorten_suspension-IsOrderly id ends_at reason staff =
      search (orderly, write_adjusted_orderly) depth 16

  write_lifted_orderly :
      (s : Suspension) (reason : String) (user : User)
      → IsOrderlyStep (write_lifted ctx s reason user)
  unfolding write_lifted record_audit enqueue policy_of
  write_lifted_orderly s reason user = aside_orderly (λ db. (refl, refl, refl, refl))

  pub lift_suspension-IsOrderly :
      (id : ℕ) (reason : String) → IsOrderly (lift_suspension ctx id reason)
  unfolding lift_suspension
  lift_suspension-IsOrderly id reason = search (orderly, write_lifted_orderly) depth 16

  insert_violation_orderly :
      (v : Violation) (note : String) → IsOrderlyStep (insert_violation ctx v note)
  unfolding insert_violation record_audit policy_of
  insert_violation_orderly v note = aside_orderly (λ db. (refl, refl, refl, refl))

  thresholds_orderly : IsOrderlyStep (apply_strike_thresholds ctx.now ctx.actor)
  thresholds_orderly = record {
    consistent = apply_strike_thresholds-IsConsistent ctx.now ctx.actor;
    requests = λ db.
        thresholds_keep ctx.now ctx.actor (λ d. d.requests ≡ db.requests)
          (requests-IsStable ctx.now ctx.actor db.requests) db refl;
    grace = λ db g.
        let same =
          thresholds_keep ctx.now ctx.actor (λ d. policy_of d ≡ policy_of db)
            (policy-IsStable ctx.now ctx.actor (policy_of db)) db refl in
        record { some_grace = rw same g.some_grace; within_hour = rw same g.within_hour };
  }

  pub record_manual_violation-IsOrderly :
      (user : User) (note : String) (counts : Bool) (occurred_at incident : Option ℕ)
      → IsOrderly (record_manual_violation ctx user note counts occurred_at incident)
  unfolding record_manual_violation
  record_manual_violation-IsOrderly user note counts occurred_at incident =
      search (orderly, insert_violation_orderly, thresholds_orderly) depth 16

  insert_manual_orderly :
      (user : User) (reason : String) (s : Suspension)
      → IsOrderlyStep (insert_manual ctx user reason s)
  unfolding insert_manual record_audit enqueue policy_of
  insert_manual_orderly user reason s = aside_orderly (λ db. (refl, refl, refl, refl))

  drop_rest :
      (user : User) (reason : String) (b : Booking) (db : Db)
      → ((drop_for_suspension ctx user reason b db).requests ≡ db.requests)
        × (policy_of (drop_for_suspension ctx user reason b db) ≡ policy_of db)
  unfolding drop_for_suspension enqueue record_audit save_booking policy_of
  drop_rest user reason b db = (refl, refl)

  cancel_scheduled_orderly :
      (user : User) (reason : String) → IsOrderlyStep (cancel_scheduled ctx user reason)
  unfolding cancel_scheduled
  cancel_scheduled_orderly user reason =
      saved_loop_orderly (λ d. dropped ctx reason) (drop_for_suspension ctx user reason)
        (open_bookings user.id) (drop-Saves user reason) (dropped-Steps ctx reason)
        (drop_rest user reason)

  suspend_or_adjust-IsOrderly :
      (user : User) (reason : String) (ends_at : Option ℕ) (active : Option Suspension)
      → IsOrderly (suspend_or_adjust ctx user reason ends_at active)
  unfolding suspend_or_adjust create_manual
  suspend_or_adjust-IsOrderly user reason ends_at none =
      search (orderly, insert_manual_orderly, cancel_scheduled_orderly) depth 16
  suspend_or_adjust-IsOrderly user reason ends_at (some s) =
      extend_or_shorten_suspension-IsOrderly s.id ends_at reason true

  pub apply_manual_suspension-IsOrderly :
      (id : ℕ) (reason : String) (ends_at : Option ℕ)
      → IsOrderly (apply_manual_suspension ctx id reason ends_at)
  unfolding apply_manual_suspension
  apply_manual_suspension-IsOrderly id reason ends_at =
      search (orderly, suspend_or_adjust-IsOrderly) depth 16
