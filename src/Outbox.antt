-- ===== src/Outbox.antt =====
-- core/services/outbox.py: rows are queued inside the transaction of the change that they announce,
-- leased by a worker, and sent, retried or given up.
pub mod Laws
pub mod Leases
use room_reserve.Prelude.{
  ℕ, zero, suc, ◌+◌, ◌-◌, ◌*◌, Bool, true, false, not, ◌&&◌, ◌||◌, Option, none, some, String, List,
  [], ◌∷◌, ◌++◌, any, filter, map, update_where, order_by, length, ltb, leb, ◌==◌, null_or,
  if◌then◌else◌,
}
use room_reserve.Prelude.Text.{is_space, is_blank, strip, take_text, squeeze}
use room_reserve.Settings.{minute, outbox_backoff_minutes}
use room_reserve.Models.Account.{User}
use room_reserve.Models.Operations.{
  Fields, DedupeKey, same_key, Notification, NotificationStatus, is_pending_notification,
}
use room_reserve.Models.Db.{Db}
use room_reserve.Audit.{actor_pk}

abbrev pub max_error_length : ℕ
max_error_length = 400

-- Carriage returns and line feeds are white space, so the split drops them too.
unfoldable pub sanitize_error : String → String
sanitize_error error = take_text max_error_length (squeeze error)

abbrev pub language_of : Option User → String
language_of none = "th"
language_of (some u) = if is_blank u.locale then "th" else u.locale

-- Whether a row with this key is there: the second result of `enqueue`, negated.
abbrev pub is_queued : DedupeKey → List Notification → Bool
is_queued key rows = any (λ n. same_key n.dedupe_key key) rows

-- The row that `get_or_create` inserts. None of the modelled calls gives `due_at`, `language` or
-- `recipient_email`.
abbrev pub new_notification : ℕ → ℕ → String → Option User → DedupeKey → Fields → Notification
new_notification id wall kind recipient key payload = record {
  id = id;
  kind = kind;
  recipient = actor_pk recipient;
  language = language_of recipient;
  payload = payload;
  dedupe_key = key;
  due_at = wall;
  next_attempt_at = wall;
  lease_until = none;
  lease_token = none;
  attempts = 0;
  status = NotificationStatus.pending;
  sent_at = none;
  last_error = "";
}

-- `enqueue(kind=…, recipient=…, dedupe_key=…, payload=…)`
unfoldable pub enqueue : String → Option User → DedupeKey → Fields → Db → Db
enqueue kind recipient key payload db = record db {
  outbox =
      if is_queued key db.outbox
      then db.outbox
      else db.outbox
        ++ (new_notification db.next_notification db.wall kind recipient key payload ∷ []);
  next_notification =
      if is_queued key db.outbox then db.next_notification else suc db.next_notification;
}

-- The filter of `claim_due`; `locked` says which rows another worker has locked (`skip_locked`).
abbrev pub is_due : ℕ → (Notification → Bool) → Notification → Bool
is_due now locked n =
    not (locked n)
    && (is_pending_notification n.status
        && (leb n.next_attempt_at now && null_or (λ t. leb t now) n.lease_until))

-- `order_by("next_attempt_at", "id")`
abbrev pub earlier_attempt : Notification → Notification → Bool
earlier_attempt a b =
    ltb a.next_attempt_at b.next_attempt_at
    || (a.next_attempt_at == b.next_attempt_at && leb a.id b.id)

unfoldable pub take : ℕ → List Notification → List Notification
take zero rows = []
take (suc n) [] = []
take (suc n) (r ∷ rows) = r ∷ take n rows

-- `limit or settings.OUTBOX_BATCH_SIZE`
abbrev pub or_default : Option ℕ → ℕ → ℕ
or_default none default = default
or_default (some n) default = if n == 0 then default else n

unfoldable pub due_rows : ℕ → (Notification → Bool) → ℕ → List Notification → List Notification
unfolding take
due_rows now locked limit rows =
    take limit (order_by earlier_attempt (filter (is_due now locked) rows))

-- One round of the loop: `fresh` gives the row's new lease token (`uuid.uuid4()`).
abbrev pub lease : ℕ → (ℕ → ℕ) → Notification → Notification
lease lease_until fresh n = record n {
  lease_until = some lease_until;
  lease_token = some (fresh n.id);
  attempts = n.attempts + 1;
}

-- The rows are the claimed ones, so each row of the table that one of them names is written.
unfoldable pub claim_due :
    ℕ → Option ℕ → Option ℕ → (Notification → Bool) → (ℕ → ℕ) → Db → List Notification × Db
unfolding due_rows
claim_due now limit lease_seconds locked fresh db =
    let n : ℕ = or_default limit db.settings.outbox_batch_size in
    let until : ℕ = now + or_default lease_seconds db.settings.outbox_lease_seconds * 1000000 in
    let rows : List Notification = due_rows now locked n db.outbox in
    (
      map (lease until fresh) rows,
      record db {
        outbox = update_where (λ r. any (λ c. c.id == r.id) rows) (lease until fresh) db.outbox;
      },
    )

abbrev pub save_notification : ℕ → (Notification → Notification) → Db → Db
save_notification id f db = record db { outbox = update_where (λ n. n.id == id) f db.outbox }

unfoldable pub mark_sent : ℕ → ℕ → Db → Db
mark_sent id now = save_notification id λ n. record n {
  status = NotificationStatus.sent;
  sent_at = some now;
  lease_until = none;
  lease_token = none;
  last_error = "";
}

-- `backoff[max(min(attempts - 1, len(backoff) - 1), 0)]`
abbrev pub nth_or_last : List ℕ → ℕ → ℕ
nth_or_last [] i = 0
nth_or_last (x ∷ []) i = x
nth_or_last (x ∷ y ∷ xs) zero = x
nth_or_last (x ∷ y ∷ xs) (suc i) = nth_or_last (y ∷ xs) i

unfoldable pub retry_delay : ℕ → ℕ
retry_delay attempts = nth_or_last outbox_backoff_minutes (attempts - 1)

-- The row as `mark_failed` writes it, from the attempts on the worker's copy.
unfoldable pub failed_row : ℕ → ℕ → String → ℕ → Notification → Notification
unfolding retry_delay
failed_row max_attempts attempts error now n =
    if leb max_attempts attempts
    then record n {
      status = NotificationStatus.exhausted;
      last_error = error;
      lease_until = none;
      lease_token = none;
    }
    else record n {
      next_attempt_at = now + retry_delay attempts * minute;
      last_error = error;
      lease_until = none;
      lease_token = none;
    }

unfoldable pub mark_failed : Notification → String → ℕ → Db → Db
unfolding failed_row sanitize_error
mark_failed n error now db =
    save_notification n.id
      (failed_row db.settings.outbox_max_attempts n.attempts (sanitize_error error) now) db

unfoldable pub cancel : ℕ → String → Db → Db
unfolding sanitize_error
cancel id reason = save_notification id λ n. record n {
  status = NotificationStatus.cancelled;
  last_error = sanitize_error reason;
  lease_until = none;
  lease_token = none;
}
