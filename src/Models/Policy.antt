-- ===== src/Models/Policy.antt =====
-- core/models/policy.py: `PolicyVersion` and the values that its properties read from the snapshot.
use room_reserve.Prelude.{ℕ, Option, none, some, String}
use room_reserve.Settings.{Settings}

-- A key that the JSON snapshot lacks is `none`.
pub record Snapshot : Type 0 where
  pub horizon_days : Option ℕ
  pub daily_quota : Option ℕ
  pub max_upcoming_hours : Option ℕ
  pub checkin_grace_minutes : Option ℕ
  pub strike_window_days : Option ℕ
  pub strike_threshold : Option ℕ
  pub auto_suspension_days : Option ℕ
  pub reminder_lead_minutes : Option ℕ
  pub institution_email_domain : Option String

pub record PolicyVersion : Type 0 where
  pub version : ℕ
  pub snapshot : Snapshot

-- `snapshot.get(key, default)`
abbrev pub get_key : Option ℕ → ℕ → ℕ
get_key none default = default
get_key (some v) default = v

abbrev pub daily_quota : PolicyVersion → ℕ
daily_quota p = get_key p.snapshot.daily_quota 2

abbrev pub max_upcoming_hours : Settings → PolicyVersion → ℕ
max_upcoming_hours s p = get_key p.snapshot.max_upcoming_hours s.max_upcoming_hours

abbrev pub horizon_days : PolicyVersion → ℕ
horizon_days p = get_key p.snapshot.horizon_days 7

abbrev pub checkin_grace_minutes : PolicyVersion → ℕ
checkin_grace_minutes p = get_key p.snapshot.checkin_grace_minutes 15

abbrev pub strike_window_days : PolicyVersion → ℕ
strike_window_days p = get_key p.snapshot.strike_window_days 30

abbrev pub strike_threshold : PolicyVersion → ℕ
strike_threshold p = get_key p.snapshot.strike_threshold 3

abbrev pub auto_suspension_days : PolicyVersion → ℕ
auto_suspension_days p = get_key p.snapshot.auto_suspension_days 7

abbrev pub reminder_lead_minutes : PolicyVersion → ℕ
reminder_lead_minutes p = get_key p.snapshot.reminder_lead_minutes 30
