-- ===== src/Settings.antt =====
-- roomreserve/settings/base.py: the constants that the modelled services read, and the values of
-- the environment variables that a deployment may set, as one record.
use room_reserve.Prelude.{String, ℕ, List, [], ◌∷◌}

-- Every duration and instant is counted in microseconds, the resolution of Python's `datetime`.
abbrev pub minute : ℕ
minute = 60000000

abbrev pub hour : ℕ
hour = 3600000000

abbrev pub day : ℕ
day = 86400000000

abbrev pub opening_slot_start_hour : ℕ
opening_slot_start_hour = 8

abbrev pub last_slot_start_hour : ℕ
last_slot_start_hour = 19

-- A minimum of one delay is what the list holds; it is not read from the environment.
abbrev pub outbox_backoff_minutes : List ℕ
outbox_backoff_minutes = 1 ∷ 5 ∷ 30 ∷ 60 ∷ 240 ∷ []

pub record Settings : Type 0 where
  pub horizon_days : ℕ
  pub max_upcoming_hours : ℕ
  pub staff_booking_horizon_days : ℕ
  pub daily_quota : ℕ
  pub checkin_grace_minutes : ℕ
  pub strike_window_days : ℕ
  pub strike_threshold : ℕ
  pub auto_suspension_days : ℕ
  pub reminder_lead_minutes : ℕ
  pub institution_email_domain : String
  pub outbox_max_attempts : ℕ
  pub outbox_lease_seconds : ℕ
  pub outbox_batch_size : ℕ
  pub reconcile_budget : ℕ

-- The defaults of the `env_int` calls.
abbrev pub default_settings : Settings
default_settings = record {
  horizon_days = 2;
  max_upcoming_hours = 4;
  staff_booking_horizon_days = 90;
  daily_quota = 2;
  checkin_grace_minutes = 15;
  strike_window_days = 30;
  strike_threshold = 3;
  auto_suspension_days = 7;
  reminder_lead_minutes = 30;
  institution_email_domain = "student.chula.ac.th";
  outbox_max_attempts = 6;
  outbox_lease_seconds = 300;
  outbox_batch_size = 50;
  reconcile_budget = 500;
}
