-- ===== src/Protocol/Quiet.antt =====
-- No operation writes the table of the idempotency records, or changes the policy in force.
use room_reserve.Prelude.{
  ℕ, ◌≡◌, refl, Bool, false, Option, String, List, [], ◌∷◌, if◌then◌else◌, inl, inr, Option-cases,
  arith,
}
use room_reserve.Prelude.Text.{is_blank}
use room_reserve.Models.Booking.{Booking}
use room_reserve.Models.Account.{User}
use room_reserve.Models.Room.{Room}
use room_reserve.Models.Policy.{PolicyVersion}
use room_reserve.Models.Operations.{Fields}
use room_reserve.Models.Db.{Db}
use room_reserve.Audit.{record_audit}
use room_reserve.Outbox.{enqueue}
use room_reserve.Policy.{current_policy, with_policy, policy_of, latest}
use room_reserve.Slots.{day_slot_starts, floor_to_slot}
use room_reserve.Calendar.{assert_slot_open}
use room_reserve.Eligibility.{assert_may_reserve_room, assert_may_use_room, assert_can_operate}
use room_reserve.Quota.{assert_quota_and_adjacency}
use room_reserve.Bookings.{
  Context, Details, reload_for_update, user_of, room_of, acting_user, save_booking, insert_booking,
}
use room_reserve.Action.{reject_if}
use room_reserve.Reserve.{
  validate_advance_target, announce_created, write_advance, create_advance_booking,
}
use room_reserve.Change.{
  update_booking_details, announce_edited, move_booking, write_move, announce_moved,
}
use room_reserve.Approval.{decide_approval, approve, turn_down, announce_approved, announce_refused}
use room_reserve.Cancel.{
  cancel, write_cancel, announce_cancelled, cancel_each, cancel_recurring_reservation, close_series,
  future_occurrences,
}
use room_reserve.Checkin.{check_in, write_check_in}
use room_reserve.Walkin.{use_now, released_from, assert_available, write_walk_in, announce_walk_in}
use room_reserve.Staff.{create_staff_booking, hold_hour, announce_hold, hold_hours, assert_all_open}
use room_reserve.Reserve.Table.{HasGrace}
use room_reserve.Desk.Orderly.{desk_body-IsOrderly}
use room_reserve.Protocol.Outcomes.{IsQuiet}
use room_reserve.Protocol.Operations.{Operation, body_of, request_of}

abbrev Same : Db → Db → Type 0
Same db d = (d.requests ≡ db.requests) × (policy_of d ≡ policy_of db)

reserve_quiet :
    (ctx : Context) (room : Room) (start : ℕ) (db : Db)
    → Same db (create_advance_booking ctx room start db).1
unfolding policy_of latest create_advance_booking validate_advance_target reject_if acting_user
    write_advance announce_created record_audit enqueue insert_booking current_policy with_policy
    assert_may_reserve_room assert_slot_open assert_quota_and_adjacency
reserve_quiet ctx room start db = ground arith

edit_quiet :
    (ctx : Context) (id : ℕ) (details : Details) (db : Db)
    → Same db (update_booking_details ctx id details db).1
unfolding policy_of latest update_booking_details reload_for_update reject_if user_of room_of
    save_booking announce_edited record_audit enqueue
edit_quiet ctx id details db = ground arith

move_quiet :
    (ctx : Context) (id : ℕ) (room : Room) (db : Db) → Same db (move_booking ctx id room db).1
unfolding policy_of latest move_booking reload_for_update reject_if user_of room_of acting_user
    save_booking write_move announce_moved record_audit enqueue assert_may_reserve_room
    assert_slot_open
move_quiet ctx id room db = ground arith

decide_quiet :
    (ctx : Context) (id : ℕ) (decision note : String) (db : Db)
    → Same db (decide_approval ctx id decision note db).1
unfolding policy_of latest decide_approval approve turn_down reload_for_update reject_if user_of
    room_of save_booking announce_approved announce_refused record_audit enqueue current_policy
    with_policy
decide_quiet ctx id decision note db = ground arith

cancel_quiet :
    (ctx : Context) (id : ℕ) (reason : String) (staff : Bool) (db : Db)
    → Same db (cancel ctx id reason staff db).1
unfolding policy_of latest cancel reload_for_update reject_if user_of room_of write_cancel
    announce_cancelled enqueue record_audit save_booking
cancel_quiet ctx id reason staff db = ground arith

check_in_quiet :
    (ctx : Context) (id : ℕ) (room : Option Room) (staff : Bool) (reason : String) (db : Db)
    → Same db (check_in ctx id room staff reason db).1
unfolding policy_of latest check_in reload_for_update reject_if user_of write_check_in record_audit
    save_booking current_policy with_policy assert_can_operate
check_in_quiet ctx id room staff reason db = ground arith

write_walk_in_quiet :
    (ctx : Context) (u : User) (room : Room) (start : ℕ) (from : Option ℕ) (policy : PolicyVersion)
    (db : Db)
    → Same db (write_walk_in ctx u room start from policy db).1
unfolding policy_of latest write_walk_in announce_walk_in record_audit insert_booking enqueue
write_walk_in_quiet ctx u room start from policy db = (refl, refl)

walk_in_quiet : (ctx : Context) (room : Room) (db : Db) → Same db (use_now ctx room db).1
unfolding policy_of latest use_now assert_may_use_room reject_if assert_slot_open assert_available
    acting_user assert_quota_and_adjacency current_policy with_policy
walk_in_quiet ctx room db = elim (Option-cases ctx.actor) [
  | inl e ↦ ground (arith, e)
  | inr (u, e) ↦
      let start = floor_to_slot ctx.now in
      let d = with_policy (with_policy db) in
      ground (
        arith,
        e,
        write_walk_in_quiet ctx u room start (released_from u.id room.id start (with_policy db))
            (policy_of (with_policy db)) d,
      )
]

cancel_each_quiet :
    (ctx : Context) (bs : List Booking) (reason : String) (db : Db)
    → Same db (cancel_each ctx bs reason db).1
unfolding policy_of latest cancel_each
cancel_each_quiet ctx [] reason db = (refl, refl)
cancel_each_quiet ctx (b ∷ bs) reason db = ground (
  arith,
  cancel_quiet ctx b.id reason false db,
  cancel_each_quiet ctx bs reason (cancel ctx b.id reason false db).1,
)

series_quiet :
    (ctx : Context) (id : ℕ) (reason : String) (db : Db)
    → Same db (cancel_recurring_reservation ctx id reason db).1
unfolding policy_of latest cancel_recurring_reservation reject_if close_series record_audit
series_quiet ctx id reason db = ground (
  arith,
  cancel_each_quiet ctx (future_occurrences id ctx.now db)
      (if is_blank reason then "SERIES_CANCELLATION" else reason) db,
)

open_quiet : (ss : List ℕ) (room : Room) (db : Db) → Same db (assert_all_open ss room db).1
unfolding policy_of latest assert_all_open assert_slot_open
open_quiet [] room db = (refl, refl)
open_quiet (s ∷ ss) room db = ground (arith, open_quiet ss room db)

hold_hours_quiet :
    (ctx : Context) (u : User) (room : Room) (policy : PolicyVersion) (ss : List ℕ) (db : Db)
    → Same db (hold_hours ctx u room policy ss db).1
unfolding policy_of latest hold_hours hold_hour announce_hold record_audit insert_booking
hold_hours_quiet ctx u room policy [] db = (refl, refl)
hold_hours_quiet ctx u room policy (s ∷ ss) db =
    ground (arith, hold_hours_quiet ctx u room policy ss (hold_hour ctx u room policy s db))

staff_quiet :
    (ctx : Context) (room : Room) (date from until : ℕ) (db : Db)
    → Same db (create_staff_booking ctx room date from until db).1
unfolding policy_of latest create_staff_booking reject_if acting_user current_policy with_policy
staff_quiet ctx room date from until db =
    let starts = day_slot_starts date from until in
    let d = (assert_all_open starts room db).1 in
    elim (Option-cases ctx.actor) [
      | inl e ↦ ground (arith, e, open_quiet starts room db)
      | inr (u, e) ↦ ground (
        arith,
        e,
        open_quiet starts room db,
        hold_hours_quiet ctx u room (policy_of d) starts (with_policy d),
      )
    ]

-- What no operation does: record a request itself, or spoil the grace period of the policy in force.
record IsHarmless (db d : Db) : Type 0 where
  pub requests : d.requests ≡ db.requests
  pub grace : HasGrace db → HasGrace d

harmless : (db d : Db) → Same db d → IsHarmless db d
harmless db d s = record {
  requests = s.0;
  grace = λ g. record { some_grace = rw (s.1) g.some_grace; within_hour = rw (s.1) g.within_hour };
}

body_of-IsHarmless :
    (op : Operation) (ctx : Context) (db : Db) → IsHarmless db (body_of op ctx db).1
body_of-IsHarmless (Operation.reserve room start) ctx db =
    harmless db _ (reserve_quiet ctx room start db)
body_of-IsHarmless (Operation.edit id details) ctx db = harmless db _ (edit_quiet ctx id details db)
body_of-IsHarmless (Operation.move id room) ctx db = harmless db _ (move_quiet ctx id room db)
body_of-IsHarmless (Operation.decide id decision note) ctx db =
    harmless db _ (decide_quiet ctx id decision note db)
body_of-IsHarmless (Operation.give_up id reason staff) ctx db =
    harmless db _ (cancel_quiet ctx id reason staff db)
body_of-IsHarmless (Operation.give_up_series id reason) ctx db =
    harmless db _ (series_quiet ctx id reason db)
body_of-IsHarmless (Operation.begin_hour id room staff reason) ctx db =
    harmless db _ (check_in_quiet ctx id room staff reason db)
body_of-IsHarmless (Operation.walk_in room) ctx db = harmless db _ (walk_in_quiet ctx room db)
body_of-IsHarmless (Operation.hold_for_staff room date from until) ctx db =
    harmless db _ (staff_quiet ctx room date from until db)
body_of-IsHarmless (Operation.at_desk op) ctx db = record {
  requests = (desk_body-IsOrderly op ctx).step.requests db;
  grace = (desk_body-IsOrderly op ctx).step.grace db;
}

pub body_of_quiet :
    (op : Operation) (ctx : Context) (db : Db) → (body_of op ctx db).1.requests ≡ db.requests
body_of_quiet op ctx db = (body_of-IsHarmless op ctx db).requests

pub body_of-HasGrace :
    (op : Operation) (ctx : Context) (db : Db) → HasGrace db → HasGrace (body_of op ctx db).1
body_of-HasGrace op ctx db = (body_of-IsHarmless op ctx db).grace

pub request_of-IsQuiet :
    (op : Operation) (actor : Option User) (payload : Fields) (name key : String)
    → IsQuiet (request_of op actor payload name key).body
request_of-IsQuiet op actor payload name key = record {
  requests = λ ctx db. ground (arith, body_of_quiet op ctx db);
}
