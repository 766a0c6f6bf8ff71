-- ===== src/Examples/Fixtures.antt =====
-- A small installation: its settings, its cryptography, and a database with one of each row.
use rulefolio_server.Prelude.{
  ℕ, Bool, true, false, none, some, [], ◌∷◌, refl, arith, str_eq, eq_iff, if◌then◌else◌,
}
use Prim.Native.String.{count}
use rulefolio_server.Settings.{Settings}
use rulefolio_server.Crypto.{Crypto, matches, verify_mismatch, IsAuthenticated, IsPasswordHash}
use rulefolio_server.Identity.Models.{
  Account, active, SessionRecord, OneTimeCredential, TokenStatus, password_recovery, AttemptRecord,
  login, RecoveryRequestJob, JobStatus, business,
}
use rulefolio_server.Identity.Credentials.{Draws, Clock}
use rulefolio_server.Notifications.Models.{
  MailOutbox, pending, NotificationTodo, issue_opened, issue, open_todo,
}
use rulefolio_server.Recovery.Models.{RecoveryState, open_stage}
use rulefolio_server.Database.{Db}

abbrev pub cfg : Settings
cfg = record {
  app_public_url = "https://example.test";
  password_min_length = 8;
  password_max_length = 128;
  session_ttl_hours = 12;
  one_time_token_ttl_minutes = 30;
  auth_attempt_window_minutes = 15;
  login_max_attempts = 5;
  recovery_request_max_attempts = 5;
  recovery_deployment_frozen = false;
  recovery_job_stale_minutes = 10;
  recovery_exchange_max_attempts = 5;
  token_encryption_key_version = 1;
  auth_attempt_pepper = "pepper";
  mail_max_attempts = 3;
  mail_dispatch_stale_minutes = 10;
}

abbrev pub frozen : Settings
frozen = record cfg { recovery_deployment_frozen = true }

abbrev pub crypto : Crypto
crypto = record {
  encrypt = λ nonce text a. text;
  decrypt = λ nonce text a. some text;
  sha256 = count;
  hmac = λ pepper text. count text;
  hash = λ salt password. password;
  verify = λ hashed password. if str_eq hashed password then matches else verify_mismatch;
  check_needs_rehash = λ hashed. false;
  dummy_password_hash = "dummy";
  validate_email = λ email. some email;
}

pub crypto-IsAuthenticated : IsAuthenticated crypto
crypto-IsAuthenticated = record { decrypt-encrypt = λ nonce text a. refl }

pub crypto-IsPasswordHash : IsPasswordHash crypto
crypto-IsPasswordHash = record {
  verify-hash = λ salt password. ground (arith, eq_iff password password);
}

abbrev pub draws : Draws
draws = record {
  account_id = 9;
  session_id = 19;
  session_token = "new session token";
  credential_id = 29;
  credential_token = "new credential token";
  outbox_id = 39;
  nonce = 49;
  salt = 59;
  attempt_id = 69;
  job_id = 79;
  claim_id = 89;
}

abbrev pub clock : Clock
clock n = 1000

abbrev pub taken_always : ℕ → Bool
taken_always n = true

abbrev pub unlocked : ℕ → Bool
unlocked n = false

abbrev pub account : Account
account = record { id = 1; email = "a@example.test"; status = active }

abbrev pub mail_row : MailOutbox
mail_row = record {
  id = 3;
  credential_id = none;
  todo_id = some 4;
  retry_operation_key = none;
  recipient_account_id = 1;
  purpose = business "issue_opened";
  workspace_name = none;
  business_scope = some "issue:6";
  frozen_subject = some "subject";
  frozen_body = some "body";
  status = pending;
  claim_id = none;
  token_ciphertext = none;
  token_nonce = none;
  key_version = none;
  attempt_count = 0;
  next_attempt_at = 10;
  dispatch_started_at = none;
  smtp_started_at = none;
  accepted_at = none;
  last_error_code = none;
  created_at = 10;
}

abbrev pub todo : NotificationTodo
todo = record {
  id = 4;
  recipient_account_id = 1;
  workspace_id = 5;
  work_id = some 6;
  kind = issue_opened;
  target_kind = issue;
  target_id = 6;
  source_key = "issue:6";
  summary = "summary";
  context_label = "label";
  status = open_todo;
  retry_used = false;
  created_at = 10;
  resolved_at = none;
}

abbrev pub session_record : SessionRecord
session_record = record {
  id = 2;
  account_id = 1;
  token_hash = 3;
  expires_at = 5000;
  revoked_at = none;
  revoke_reason = none;
}

abbrev pub credential : OneTimeCredential
credential = record {
  id = 7;
  account_id = 1;
  purpose = password_recovery;
  token_hash = 5;
  status = TokenStatus.active;
  expires_at = 5000;
  consumed_at = none;
  revoked_at = none;
}

abbrev pub attempt : AttemptRecord
attempt = record { id = 8; purpose = login; subject_hash = 11; window_started_at = 900; count = 4 }

abbrev pub job : RecoveryRequestJob
job = record {
  id = 12;
  email_ciphertext = some "a@example.test";
  email_nonce = some 1;
  key_version = some 1;
  status = JobStatus.processing;
  claim_id = some 13;
  processing_started_at = some 100;
  created_at = 90;
  completed_at = none;
}

abbrev pub open_state : RecoveryState
open_state = record {
  stage = open_stage;
  recovery_id = none;
  manifest_sha256 = none;
  recovery_target_at = none;
  authorization_mode = none;
  restricted_access_confirmed_at = none;
  verified_at = none;
  operator = none;
}

abbrev pub db : Db
db = record {
  accounts = account ∷ [];
  passwords = record { account_id = 1; password_hash = "old password"; updated_at = 10 } ∷ [];
  sessions = session_record ∷ [];
  credentials = credential ∷ [];
  attempts = attempt ∷ [];
  jobs = job ∷ [];
  outbox = mail_row ∷ [];
  todos = todo ∷ [];
  invitations = [];
  workspaces = [];
  members = [];
  accesses = [];
  invitation_attempts = [];
  works = [];
  files = [];
  recovery = some open_state;
  audits = [];
}
