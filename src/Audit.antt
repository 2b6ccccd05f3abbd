-- ===== src/Audit.antt =====
-- core/services/audit.py: one audit event for each operation. No field name of the modelled events
-- is one that the scrubbing drops, and instants are stored in their ISO form.
use room_reserve.Prelude.{ℕ, Option, none, some, String, [], ◌∷◌, ◌++◌}
use room_reserve.Models.Account.{User}
use room_reserve.Models.Operations.{Fields}
use room_reserve.Models.Db.{Db}

-- `actor if getattr(actor, "pk", None) else None`
abbrev pub actor_pk : Option User → Option ℕ
actor_pk none = none
actor_pk (some u) = some u.id

-- `"" if actor else "reconciler"`
abbrev pub reconciler_label : Option User → String
reconciler_label none = "reconciler"
reconciler_label (some u) = ""

-- `record_audit(action=…, entity_type=…, entity_id=…, actor=…, actor_label=…, changes=…, reason=…)`
unfoldable pub record_audit : String → String → ℕ → Option User → String → Fields → String → Db → Db
record_audit action entity_type entity_id actor actor_label changes reason db = record db {
  audits =
      db.audits
      ++ (record {
        actor = actor_pk actor;
        actor_label = actor_label;
        action = action;
        entity_type = entity_type;
        entity_id = entity_id;
        changes = changes;
        reason = reason;
      }
          ∷ []);
}
