-- ===== src/Outbox/Laws.antt =====
-- The outbox: a notice is queued once for its key, and a failed delivery is retried later and later
-- until it is given up.
use room_reserve.Prelude.{
  ℕ, zero, suc, ◌+◌, ◌-◌, ◌*◌, ◌≤◌, ◌<◌, ◌≡◌, refl, ap, inl, inr, true, Option, none, String, List,
  [], ◌∷◌, ◌++◌, Bool-cases, ==_refl, arith,
}
use text.Mathlib.TextEquality.{eq_iff}
use room_reserve.Settings.{minute, outbox_backoff_minutes}
use room_reserve.Models.Account.{User}
use room_reserve.Models.Operations.{
  Fields, DedupeKey, Generation, same_key, same_generation, Notification, NotificationStatus,
  is_pending_notification,
}
use room_reserve.Models.Db.{Db}
use room_reserve.Outbox.{nth_or_last, is_queued, new_notification, enqueue, retry_delay, failed_row}

same_generation_refl : (g : Generation) → same_generation g g ≡ true
same_generation_refl Generation.only = refl
same_generation_refl (Generation.version n) = ==_refl n
same_generation_refl (Generation.approved n) = ==_refl n

same_key_refl : (k : DedupeKey) → same_key k k ≡ true
same_key_refl k =
    ground (arith, (eq_iff k.name k.name).1 refl, ==_refl k.id, same_generation_refl k.generation)

queued_append :
    (k : DedupeKey) (rows : List Notification) (n : Notification)
    → same_key n.dedupe_key k ≡ true
    → is_queued k (rows ++ (n ∷ [])) ≡ true
queued_append k [] n h = ground arith
queued_append k (x ∷ xs) n h = ground (arith, queued_append k xs n h)

-- A notice that is queued again under its key changes nothing, whatever its kind, recipient and
-- payload are the second time.
pub enqueue_again :
    (kind kind' : String) (recipient recipient' : Option User) (key : DedupeKey)
    (payload payload' : Fields) (db : Db)
    → enqueue kind' recipient' key payload' (enqueue kind recipient key payload db)
      ≡ enqueue kind recipient key payload db
unfolding enqueue
enqueue_again kind kind' recipient recipient' key payload payload' db =
    elim (Bool-cases (is_queued key db.outbox)) [
      | inl there ↦ ground (arith, there)
      | inr new ↦
          let n = new_notification db.next_notification db.wall kind recipient key payload in
          let now_there = queued_append key db.outbox n (same_key_refl key) in
          ground (arith, new, now_there)
    ]

retry_delay_last : (n : ℕ) → retry_delay (suc (suc (suc (suc (suc n))))) ≡ 240
unfolding retry_delay
retry_delay_last n =
    let e : suc (suc (suc (suc (suc n)))) - 1 ≡ suc (suc (suc (suc n))) = omega arith in
    ap (nth_or_last outbox_backoff_minutes) e

-- The delay before the next attempt does not shrink with the attempts, and is 1 to 240 minutes.
pub retry_delay_bounds :
    (attempts : ℕ)
    → (1 ≤ retry_delay attempts)
      × (retry_delay attempts ≤ retry_delay (suc attempts))
      × (retry_delay attempts ≤ 240)
unfolding retry_delay
retry_delay_bounds zero = (omega arith, omega arith, omega arith)
retry_delay_bounds (suc zero) = (omega arith, omega arith, omega arith)
retry_delay_bounds (suc (suc zero)) = (omega arith, omega arith, omega arith)
retry_delay_bounds (suc (suc (suc zero))) = (omega arith, omega arith, omega arith)
retry_delay_bounds (suc (suc (suc (suc zero)))) = (omega arith, omega arith, omega arith)
retry_delay_bounds (suc (suc (suc (suc (suc n))))) =
    let here = retry_delay_last n in
    let after = retry_delay_last (suc n) in
    (omega (arith, here), omega (arith, here, after), omega (arith, here))

-- A pending notice whose delivery failed is given up just when its attempts are used up; else it stays
-- pending and its next attempt lies 1 to 240 minutes ahead. Its lease ends either way.
pub failed_row_lem :
    (max_attempts attempts : ℕ) (error : String) (now : ℕ) (n : Notification)
    → is_pending_notification n.status ≡ true
    → let m = failed_row max_attempts attempts error now n in
      (max_attempts ≤ attempts → m.status ≡ NotificationStatus.exhausted)
      × (attempts < max_attempts
          → (is_pending_notification m.status ≡ true)
            × (now + minute ≤ m.next_attempt_at)
            × (m.next_attempt_at ≤ now + 240 * minute))
      × (m.lease_until ≡ none)
unfolding failed_row
failed_row_lem max_attempts attempts error now n h =
    let b = retry_delay_bounds attempts in
    (
      λ e. ground (arith, e),
      λ e. (ground (arith, e), ground (arith, e, b), ground (arith, e, b)),
      ground arith,
    )
