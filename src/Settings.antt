-- ===== src/Settings.antt =====
-- The settings of src/app/core/config.py that the modelled services read, with the bounds that
-- their fields declare.
use rulefolio_server.Prelude.{ℕ, String, Bool, ◌≤◌, ◌*◌}

pub record Settings : Type 0 where
  pub app_public_url : String
  pub password_min_length : ℕ
  pub password_max_length : ℕ
  pub session_ttl_hours : ℕ
  pub one_time_token_ttl_minutes : ℕ
  pub auth_attempt_window_minutes : ℕ
  pub login_max_attempts : ℕ
  pub recovery_request_max_attempts : ℕ
  pub recovery_deployment_frozen : Bool
  pub recovery_job_stale_minutes : ℕ
  pub recovery_exchange_max_attempts : ℕ
  pub token_encryption_key_version : ℕ
  pub auth_attempt_pepper : String
  pub mail_max_attempts : ℕ
  pub mail_dispatch_stale_minutes : ℕ

pub record IsValid (s : Settings) : Type 0 where
  pub min_length : 8 ≤ s.password_min_length
  pub max_length : 12 ≤ s.password_max_length
  pub session_ttl : 1 ≤ s.session_ttl_hours
  pub token_ttl : 1 ≤ s.one_time_token_ttl_minutes
  pub window : 1 ≤ s.auth_attempt_window_minutes
  pub login_attempts : 1 ≤ s.login_max_attempts
  pub request_attempts : 1 ≤ s.recovery_request_max_attempts
  pub exchange_attempts : 1 ≤ s.recovery_exchange_max_attempts
  pub mail_attempts : 1 ≤ s.mail_max_attempts

-- `timedelta(seconds=n)`, `timedelta(minutes=n)` and `timedelta(hours=n)` in microseconds
abbrev pub seconds : ℕ → ℕ
seconds n = n * 1000000

abbrev pub minutes : ℕ → ℕ
minutes n = n * 60000000

abbrev pub hours : ℕ → ℕ
hours n = n * 3600000000
