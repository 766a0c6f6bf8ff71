-- ===== src/Notifications/Models.antt =====
-- The tables of src/app/notifications/models.py.
use rulefolio_server.Prelude.{ℕ, String, Bool, true, false, Option}
use rulefolio_server.Identity.Models.{Purpose}

pub data MailStatus : Type 0 where
  pending sending accepted failed unknown cancelled suppressed : MailStatus

abbrev pub is_pending : MailStatus → Bool
is_pending pending = true
is_pending _ = false

abbrev pub is_sending : MailStatus → Bool
is_sending sending = true
is_sending _ = false

abbrev pub is_failed : MailStatus → Bool
is_failed failed = true
is_failed _ = false

abbrev pub is_unknown : MailStatus → Bool
is_unknown unknown = true
is_unknown _ = false

abbrev pub is_cancelled : MailStatus → Bool
is_cancelled cancelled = true
is_cancelled _ = false

pub data ErrorCode : Type 0 where
  credential_unavailable business_unavailable smtp_explicit_failure smtp_result_unknown : ErrorCode

pub record MailOutbox : Type 0 where
  pub id : ℕ
  pub credential_id : Option ℕ
  pub todo_id : Option ℕ
  pub retry_operation_key : Option String
  pub recipient_account_id : ℕ
  pub purpose : Purpose
  pub workspace_name : Option String
  pub business_scope : Option String
  pub frozen_subject : Option String
  pub frozen_body : Option String
  pub status : MailStatus
  pub claim_id : Option ℕ
  pub token_ciphertext : Option String
  pub token_nonce : Option ℕ
  pub key_version : Option ℕ
  pub attempt_count : ℕ
  pub next_attempt_at : ℕ
  pub dispatch_started_at : Option ℕ
  pub smtp_started_at : Option ℕ
  pub accepted_at : Option ℕ
  pub last_error_code : Option ErrorCode
  pub created_at : ℕ

pub data TodoKind : Type 0 where
  workspace_invitation playtest_invitation playtest_arrangement_updated : TodoKind
  playtest_material_updated playtest_cancelled feedback_submitted issue_opened : TodoKind
  retest_arrangement_needed retest_arranged : TodoKind

pub data TargetKind : Type 0 where
  workspace_invitation playtest_session feedback_submission issue issue_retest : TargetKind

abbrev pub same_target : TargetKind → TargetKind → Bool
same_target TargetKind.workspace_invitation TargetKind.workspace_invitation = true
same_target playtest_session playtest_session = true
same_target feedback_submission feedback_submission = true
same_target issue issue = true
same_target issue_retest issue_retest = true
same_target _ _ = false

-- Kinds are compared by their place in the list of `ck_notification_todo_kind`.
abbrev pub kind_index : TodoKind → ℕ
kind_index TodoKind.workspace_invitation = 0
kind_index playtest_invitation = 1
kind_index playtest_arrangement_updated = 2
kind_index playtest_material_updated = 3
kind_index playtest_cancelled = 4
kind_index feedback_submitted = 5
kind_index issue_opened = 6
kind_index retest_arrangement_needed = 7
kind_index retest_arranged = 8

pub data TodoStatus : Type 0 where
  open_todo completed cancelled : TodoStatus

abbrev pub is_open : TodoStatus → Bool
is_open open_todo = true
is_open _ = false

abbrev pub todo_cancelled : TodoStatus → Bool
todo_cancelled TodoStatus.cancelled = true
todo_cancelled _ = false

pub record NotificationTodo : Type 0 where
  pub id : ℕ
  pub recipient_account_id : ℕ
  pub workspace_id : ℕ
  pub work_id : Option ℕ
  pub kind : TodoKind
  pub target_kind : TargetKind
  pub target_id : ℕ
  pub source_key : String
  pub summary : String
  pub context_label : String
  pub status : TodoStatus
  pub retry_used : Bool
  pub created_at : ℕ
  pub resolved_at : Option ℕ
