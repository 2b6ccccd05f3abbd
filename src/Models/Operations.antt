-- ===== src/Models/Operations.antt =====
-- core/models/operations.py: audit events, outbox rows and idempotency records, with the JSON values
-- that they store.
use room_reserve.Prelude.{ℕ, Bool, true, false, ◌&&◌, Option, none, some, List, String, ◌==◌}
use room_reserve.Prelude.Text.{same_text}
use room_reserve.Errors.{Code}
use room_reserve.Models.Booking.{Status, Source}

-- A JSON value of a payload, an audit event or a result. A datetime is kept as the instant that is
-- printed: `iso` by `isoformat`, `local_text` by `format_local`, `slot` by `encode_slot`, and a
-- `date` is its day number.
pub data Value : Type 0 where
  null : Value
  num : ℕ → Value
  nums : List ℕ → Value
  bool : Bool → Value
  text : String → Value
  texts : List (String × String) → Value
  iso local_text slot date : ℕ → Value
  status : Status → Value
  source : Source → Value

abbrev pub Fields : Type 0
Fields = List (String × Value)

abbrev pub optional : (ℕ → Value) → Option ℕ → Value
optional f none = Value.null
optional f (some t) = f t

pub record AuditEvent : Type 0 where
  pub actor : Option ℕ
  pub actor_label : String
  pub action : String
  pub entity_type : String
  pub entity_id : ℕ
  pub changes : Fields
  pub reason : String

-- A key `{name}:{id}`, with the rest of the text behind the next colon: a generation number, or the
-- instant of an approval.
pub data Generation : Type 0 where
  only : Generation
  version approved : ℕ → Generation

pub record DedupeKey : Type 0 where
  pub name : String
  pub id : ℕ
  pub generation : Generation

abbrev pub same_generation : Generation → Generation → Bool
same_generation Generation.only Generation.only = true
same_generation (Generation.version a) (Generation.version b) = a == b
same_generation (Generation.approved a) (Generation.approved b) = a == b
same_generation _ _ = false

abbrev pub same_key : DedupeKey → DedupeKey → Bool
same_key a b =
    same_text a.name b.name && (a.id == b.id && same_generation a.generation b.generation)

pub data NotificationStatus : Type 0 where
  pending sent exhausted cancelled : NotificationStatus

abbrev pub is_pending_notification : NotificationStatus → Bool
is_pending_notification NotificationStatus.pending = true
is_pending_notification _ = false

pub record Notification : Type 0 where
  pub id : ℕ
  pub kind : String
  pub recipient : Option ℕ
  pub language : String
  pub payload : Fields
  pub dedupe_key : DedupeKey
  pub due_at : ℕ
  pub next_attempt_at : ℕ
  pub lease_until : Option ℕ
  pub lease_token : Option ℕ
  pub attempts : ℕ
  pub status : NotificationStatus
  pub sent_at : Option ℕ
  pub last_error : String

pub record OperationRequest : Type 0 where
  pub user : ℕ
  pub operation : String
  pub key : String
  pub payload_fingerprint : String
  pub code : Code
  pub fields : Fields
  pub created_at : ℕ

-- The detail of a heartbeat, a list of counts, is left out.
pub record JobHeartbeat : Type 0 where
  pub name : String
  pub last_run_at : ℕ
