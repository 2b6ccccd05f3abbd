-- ===== src/Errors.antt =====
-- core/services/errors.py: `Code`, the result codes that every operation shares.
pub data Code : Type 0 where
  ok busy : Code
  slot_taken adjacency_conflict upcoming_limit quota_exceeded outside_horizon slot_in_past : Code
  slot_elapsed closed class_in_session approval_room_no_walk_in room_not_for_instrument : Code
  invalid_slot stale_hour no_show_reclaim range_taken room_members_only : Code
  members_room_no_walk_in range_started : Code
  not_eligible suspended pending_approval email_unverified inactive_account : Code
  teacher_read_only : Code
  not_owner wrong_room check_in_not_open check_in_closed already_checked_in terminal_status : Code
  cancel_after_start reservation_held same_room recurring_occurrence : Code
  duplicate_account invalid_token token_expired token_used domain_not_allowed : Code
  roster_mismatch : Code
  idempotency_payload_mismatch invalid_input not_found rate_limited : Code
