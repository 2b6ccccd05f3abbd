-- ===== src/Delivery/Progress.antt =====
-- A worker that drained the queue has settled its whole batch.
use room_reserve.Prelude.{
  ℕ, zero, suc, ◌-◌, ◌≤◌, ◌≡◌, refl, sym, Bool, true, false, ◌&&◌, Option, none, String, List, [],
  ◌∷◌, any, update_where, All, ◌==◌, arith,
}
use mathlib.Core.Path.{subst}
use room_reserve.Models.Operations.{Notification}
use room_reserve.Models.Db.{Db}
use room_reserve.Outbox.{
  is_due, claim_due, mark_sent, mark_failed, cancel, failed_row, retry_delay, nth_or_last,
  sanitize_error,
}
use room_reserve.Action.{for_each}
use room_reserve.Delivery.{Attempt, deliver, settle, work, drain}

nth_pos : (x : ℕ) (xs : List ℕ) (i : ℕ) → All (λ y. 1 ≤ y) (x ∷ xs) → 1 ≤ nth_or_last (x ∷ xs) i
nth_pos x [] i a = a.0
nth_pos x (y ∷ ys) zero a = a.0
nth_pos x (y ∷ ys) (suc i) a = nth_pos y ys i a.1

delay_pos : (attempts : ℕ) → 1 ≤ retry_delay attempts
unfolding retry_delay
delay_pos attempts =
    nth_pos 1 (5 ∷ 30 ∷ 60 ∷ 240 ∷ []) (attempts - 1)
      (omega arith, (omega arith, (omega arith, (omega arith, (omega arith, tt)))))

module _ (now : ℕ) (locked : Notification → Bool) where
  failed_later :
      (max_attempts attempts : ℕ) (error : String) (n : Notification)
      → is_due now locked (failed_row max_attempts attempts error now n) ≡ false
  unfolding failed_row
  failed_later max_attempts attempts error n = ground (arith, delay_pos attempts)

  -- A settled row is not due at that instant.
  record Settles (n : Notification) (db d : Db) : Type 0 where
    pub row : Notification → Notification
    pub rows : d.outbox ≡ update_where (λ r. r.id == n.id) row db.outbox
    pub later : (r : Notification) → is_due now locked (row r) ≡ false

  settle-Settles : (n : Notification) (a : Attempt) (db : Db) → Settles n db (settle n now a db)
  unfolding settle mark_sent mark_failed cancel
  settle-Settles n Attempt.delivered db = record { row = _; rows = refl; later = λ r. ground arith }
  settle-Settles n (Attempt.stale why) db = record {
    row = _;
    rows = refl;
    later = λ r. ground arith;
  }
  settle-Settles n (Attempt.failed error) db = record {
    row = failed_row db.settings.outbox_max_attempts n.attempts (sanitize_error error) now;
    rows = refl;
    later = failed_later db.settings.outbox_max_attempts n.attempts (sanitize_error error);
  }

  -- A row of a batch that is due.
  abbrev pub is_left : List Notification → Notification → Bool
  is_left cs r = any (λ c. c.id == r.id) cs && is_due now locked r

  -- Every row of the whole batch that is due is among those still to be worked off.
  Listed : List Notification → List Notification → Notification → Type 0
  Listed batch cs r = is_left batch r ≡ true → any (λ c. c.id == r.id) cs ≡ true

  none-Listed :
      (batch rows : List Notification)
      → All (Listed batch []) rows
      → any (is_left batch) rows ≡ false
  unfolding Listed
  none-Listed batch [] a = refl
  none-Listed batch (r ∷ rows) a = ground (arith, a.0, none-Listed batch rows a.1)

  after-Listed :
      (batch : List Notification) (c : Notification) (cs : List Notification)
      (f : Notification → Notification)
      → ((r : Notification) → is_due now locked (f r) ≡ false)
      → (rows : List Notification) → All (Listed batch (c ∷ cs)) rows
      → All (Listed batch cs) (update_where (λ r. r.id == c.id) f rows)
  unfolding Listed
  after-Listed batch c cs f later [] a = tt
  after-Listed batch c cs f later (r ∷ rows) a =
      (ground (arith, later r, a.0), after-Listed batch c cs f later rows a.1)

  batch-Listed : (batch rows : List Notification) → All (Listed batch batch) rows
  unfolding Listed
  batch-Listed batch [] = tt
  batch-Listed batch (r ∷ rows) = (λ h. ground arith, batch-Listed batch rows)

  module _ (invitation_stale : Notification → ℕ → Option String)
      (send : Notification → Attempt) where
    loop_none :
        (batch cs : List Notification) (db : Db)
        → All (Listed batch cs) db.outbox
        → any (is_left batch) (for_each cs (work invitation_stale send now) db).outbox ≡ false
    unfolding for_each
    loop_none batch [] db a = none-Listed batch db.outbox a
    loop_none batch (c ∷ cs) db a =
        let s = settle-Settles c (deliver invitation_stale send c now db) db in
        loop_none batch cs (work invitation_stale send now c db) (
          unfold work in
          subst (All (Listed batch cs)) (sym s.rows)
            (after-Listed batch c cs s.row s.later db.outbox a))

    -- When the worker has drained a batch, no row that it claimed is due at that instant: each was
    -- sent, cancelled, given up, or put off to a later time, so a second run at once takes up none of
    -- them, whichever rows are locked.
    pub drain_progress :
        (limit : Option ℕ) (held : Notification → Bool) (fresh : ℕ → ℕ) (db : Db)
        → any
            (is_left (claim_due now limit none held fresh db).0)
            (drain invitation_stale send true now limit held fresh db).outbox
          ≡ false
    unfolding drain
    drain_progress limit held fresh db =
        let claimed = claim_due now limit none held fresh db in
        loop_none claimed.0 claimed.0 claimed.1 (batch-Listed claimed.0 claimed.1.outbox)
