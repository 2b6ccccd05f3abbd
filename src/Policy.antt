-- ===== src/Policy.antt =====
-- core/services/policy.py: the active policy version, created from the settings on first use, and the
-- validation of a new one.
pub mod Laws
use room_reserve.Prelude.{
  ℕ, suc, ◌+◌, Bool, true, false, not, ◌&&◌, ◌||◌, Option, none, some, String, List, [], ◌∷◌, ◌++◌,
  ltb, leb, ◌==◌, if◌then◌else◌, is_none,
}
use Prim.Native.Char.{code}
use room_reserve.Prelude.Text.{is_blank}
use room_reserve.Settings.{Settings}
use room_reserve.Models.Policy.{PolicyVersion, Snapshot}
use room_reserve.Models.Db.{Db}
use room_reserve.Action.{Action, ok}

unfoldable pub snapshot_from_settings : Settings → Snapshot
snapshot_from_settings s = record {
  horizon_days = some s.horizon_days;
  daily_quota = some s.daily_quota;
  max_upcoming_hours = some s.max_upcoming_hours;
  checkin_grace_minutes = some s.checkin_grace_minutes;
  strike_window_days = some s.strike_window_days;
  strike_threshold = some s.strike_threshold;
  auto_suspension_days = some s.auto_suspension_days;
  reminder_lead_minutes = some s.reminder_lead_minutes;
  institution_email_domain = some s.institution_email_domain;
}

-- The newer of a version and the newest of the rest.
abbrev pub newer : PolicyVersion → Option PolicyVersion → PolicyVersion
newer p none = p
newer p (some q) = if ltb p.version q.version then q else p

-- `PolicyVersion.objects.order_by("-version").first()`
unfoldable pub latest : List PolicyVersion → Option PolicyVersion
latest [] = none
latest (p ∷ ps) = some (newer p (latest ps))

-- The row that is created when the table is empty.
abbrev pub initial_policy : Settings → PolicyVersion
initial_policy s = record { version = 1; snapshot = snapshot_from_settings s }

abbrev pub policy_or_initial : Settings → Option PolicyVersion → PolicyVersion
policy_or_initial s none = initial_policy s
policy_or_initial s (some p) = p

-- The value that `current_policy()` returns, and the table after it. The control lock is held, so no
-- other process creates version 1 in between.
unfoldable pub policy_of : Db → PolicyVersion
policy_of db = policy_or_initial db.settings (latest db.policies)

unfoldable pub with_policy : Db → Db
with_policy db = record db {
  policies = if is_none (latest db.policies) then policy_of db ∷ [] else db.policies;
}

unfoldable pub current_policy : Action PolicyVersion
current_policy db = (ok (policy_of db), with_policy db)

-- `positive_int(name, minimum=…, maximum=…)` on a merged value, which is there
abbrev pub in_bounds : ℕ → ℕ → Option ℕ → Bool
in_bounds low high none = false
in_bounds low high (some v) = leb low v && leb v high

-- `merged[field]`: the submitted value, or the base's
abbrev pub merge_key {ℓ} : {A : Type ℓ} → Option A → Option A → Option A
merge_key none base = base
merge_key (some v) base = some v

unfoldable pub merge : Snapshot → Snapshot → Snapshot
merge s base = record {
  horizon_days = merge_key s.horizon_days base.horizon_days;
  daily_quota = merge_key s.daily_quota base.daily_quota;
  max_upcoming_hours = merge_key s.max_upcoming_hours base.max_upcoming_hours;
  checkin_grace_minutes = merge_key s.checkin_grace_minutes base.checkin_grace_minutes;
  strike_window_days = merge_key s.strike_window_days base.strike_window_days;
  strike_threshold = merge_key s.strike_threshold base.strike_threshold;
  auto_suspension_days = merge_key s.auto_suspension_days base.auto_suspension_days;
  reminder_lead_minutes = merge_key s.reminder_lead_minutes base.reminder_lead_minutes;
  institution_email_domain = merge_key s.institution_email_domain base.institution_email_domain;
}

-- `"@" in s`
abbrev pub has_at_sign : String → Bool
has_at_sign String.[] = false
has_at_sign (String.◌∷◌ c s) = (code c == 64) || has_at_sign s

-- `isinstance(domain, str) and domain and "@" not in domain`
abbrev pub is_bare_domain : Option String → Bool
is_bare_domain none = false
is_bare_domain (some s) = not (is_blank s) && not (has_at_sign s)

unfoldable pub is_sane : Snapshot → Bool
is_sane s =
    in_bounds 1 60 s.horizon_days
    && (in_bounds 1 10 s.daily_quota
        && (in_bounds 1 20 s.max_upcoming_hours
            && (in_bounds 1 59 s.checkin_grace_minutes
                && (in_bounds 1 365 s.strike_window_days
                    && (in_bounds 1 10 s.strike_threshold
                        && (in_bounds 1 90 s.auto_suspension_days
                            && (in_bounds 1 180 s.reminder_lead_minutes
                                && is_bare_domain s.institution_email_domain)))))))

-- `_validate`, without the fixed geometry that it adds; `none` is the `ValidationError`. The values have
-- their types here, so the tests of a type have no counterpart.
unfoldable pub validate : Snapshot → Snapshot → Option Snapshot
validate s base = if is_sane (merge s base) then some (merge s base) else none

abbrev pub next_version : Option PolicyVersion → ℕ
next_version none = 1
next_version (some p) = p.version + 1

-- `none` when the snapshot does not validate
unfoldable pub create_policy_version : Snapshot → Db → Option (PolicyVersion × Db)
create_policy_version s db = elim (validate s (snapshot_from_settings db.settings)) [
  | none ↦ none
  | some valid ↦
      let p : PolicyVersion = record {
        version = next_version (latest db.policies);
        snapshot = valid;
      } in
      some (p, record db { policies = db.policies ++ (p ∷ []) })
]
