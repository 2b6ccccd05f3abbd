-- ===== src/Tests/Services.antt =====
-- The theorems on quota, policy, slots and outbox, at concrete values.
use room_reserve.Prelude.{
  suc, ◌+◌, ◌*◌, ◌≤◌, ◌<◌, ◌≡◌, refl, ◌⊎◌, ◌↔◌, true, false, ◌&&◌, none, some, [], ◌∷◌, All, any,
  ◌==◌, holds, arith,
}
use room_reserve.Settings.{minute}
use room_reserve.Models.Policy.{PolicyVersion, Snapshot, daily_quota, max_upcoming_hours}
use room_reserve.Models.Operations.{
  DedupeKey, Generation, Notification, NotificationStatus, is_pending_notification,
}
use room_reserve.Models.Db.{Db}
use room_reserve.Action.{ok}
use room_reserve.Slots.{
  local_date, local_hour, slot_start_for, slot_end_for, is_hour_aligned, floor_to_slot,
}
use room_reserve.Slots.Laws.{floor_to_slot_lem, slot_start_for_lem}
use room_reserve.Policy.{snapshot_from_settings, is_sane, merge, create_policy_version, policy_of}
use room_reserve.Policy.Laws.{create_policy_version_lem}
use room_reserve.Quota.{quota_and_adjacency, quota_used, upcoming_hours, no_show_reclaim}
use room_reserve.Quota.Laws.{is_near, quota_and_adjacency_apart}
use room_reserve.Tests.Bookings.{reserving, reserved_IsConsistent}
use room_reserve.Outbox.{enqueue, new_notification, retry_delay, failed_row, claim_due, is_due}
use room_reserve.Outbox.Laws.{enqueue_again, retry_delay_bounds, failed_row_lem}
use room_reserve.Outbox.Leases.{claim_due_leased}
use room_reserve.Tests.Data.{student, monday, at_hour, empty_db}

quota_and_adjacency_apart_example :
    (quota_and_adjacency 1
        (at_hour 10)
        (some 7)
        monday
        (at_hour 8)
        (policy_of reserving.1)
        reserving.1
      ≡ ok tt)
    ↔ ((any (is_near 1 (at_hour 10)) reserving.1.bookings ≡ false)
        × (quota_used 1 monday reserving.1 < daily_quota (policy_of reserving.1))
        × (upcoming_hours 1 (at_hour 8) reserving.1
            < max_upcoming_hours reserving.1.settings (policy_of reserving.1))
        × (holds (λ r. no_show_reclaim 1 r (at_hour 10) reserving.1) (some 7) ≡ false))
unfolding is_hour_aligned
quota_and_adjacency_apart_example =
    quota_and_adjacency_apart 1 (at_hour 10) (some 7) monday (at_hour 8) (policy_of reserving.1)
      reserving.1 reserved_IsConsistent refl

-- A new grace period of ten minutes, the rest as it is.
abbrev ten_minutes : Snapshot
ten_minutes = record {
  horizon_days = none;
  daily_quota = none;
  max_upcoming_hours = none;
  checkin_grace_minutes = some 10;
  strike_window_days = none;
  strike_threshold = none;
  auto_suspension_days = none;
  reminder_lead_minutes = none;
  institution_email_domain = none;
}

create_policy_version_lem_example :
    ((create_policy_version ten_minutes empty_db ≡ none)
      × (is_sane (merge ten_minutes (snapshot_from_settings empty_db.settings)) ≡ false))
    ⊎ ((p : PolicyVersion) × (db' : Db) × (create_policy_version ten_minutes empty_db
          ≡ some (p, db'))
        × (p.snapshot ≡ merge ten_minutes (snapshot_from_settings empty_db.settings))
        × (is_sane p.snapshot ≡ true)
        × All (λ q. q.version < p.version) empty_db.policies
        × (policy_of db' ≡ p))
create_policy_version_lem_example = create_policy_version_lem ten_minutes empty_db

floor_to_slot_lem_example :
    (is_hour_aligned (floor_to_slot (at_hour 10 + 5)) ≡ true)
    × (floor_to_slot (at_hour 10 + 5) ≤ at_hour 10 + 5)
    × (at_hour 10 + 5 < slot_end_for (floor_to_slot (at_hour 10 + 5)))
    × (floor_to_slot (floor_to_slot (at_hour 10 + 5)) ≡ floor_to_slot (at_hour 10 + 5))
floor_to_slot_lem_example = floor_to_slot_lem (at_hour 10 + 5)

slot_start_for_lem_example :
    (local_date (slot_start_for monday 10) ≡ monday)
    × (local_hour (slot_start_for monday 10) ≡ 10)
    × (is_hour_aligned (slot_start_for monday 10) ≡ true)
slot_start_for_lem_example = slot_start_for_lem monday 10 (omega arith) (omega arith)

abbrev reminder : DedupeKey
reminder = record { name = "booking_reminder"; id = 4; generation = Generation.only }

abbrev queued : Notification
queued = new_notification 1 (at_hour 8) "booking_reminder" (some student) reminder []

enqueue_again_example :
    enqueue "second" none reminder [] (enqueue "first" (some student) reminder [] empty_db)
    ≡ enqueue "first" (some student) reminder [] empty_db
enqueue_again_example = enqueue_again "first" "second" (some student) none reminder [] [] empty_db

retry_delay_bounds_example :
    (1 ≤ retry_delay 3) × (retry_delay 3 ≤ retry_delay 4) × (retry_delay 3 ≤ 240)
retry_delay_bounds_example = retry_delay_bounds 3

failed_row_lem_example :
    (6 ≤ 2 → (failed_row 6 2 "timeout" (at_hour 8) queued).status ≡ NotificationStatus.exhausted)
    × (2 < 6
        → (is_pending_notification (failed_row 6 2 "timeout" (at_hour 8) queued).status ≡ true)
          × (at_hour 8 + minute ≤ (failed_row 6 2 "timeout" (at_hour 8) queued).next_attempt_at)
          × ((failed_row 6 2 "timeout" (at_hour 8) queued).next_attempt_at
              ≤ at_hour 8 + 240 * minute))
    × ((failed_row 6 2 "timeout" (at_hour 8) queued).lease_until ≡ none)
failed_row_lem_example = failed_row_lem 6 2 "timeout" (at_hour 8) queued refl

-- One notice is queued.
abbrev outbox_db : Db
outbox_db = record empty_db { outbox = queued ∷ []; next_notification = 2 }

claim_due_leased_example :
    let (rows, db') = claim_due (at_hour 9) (some 5) none (λ n. false) suc outbox_db in
    any (λ n. is_due (at_hour 9 + minute) (λ n. false) n && any (λ c. c.id == n.id) rows) db'.outbox
    ≡ false
claim_due_leased_example =
    claim_due_leased (at_hour 9) (at_hour 9 + minute) (some 5) none (λ n. false) (λ n. false) suc
      outbox_db (omega arith)
