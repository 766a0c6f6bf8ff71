-- ===== src/Identity/Models.antt =====
-- The tables of src/app/identity/models.py. A UUID, a digest and a nonce are numbers, a ciphertext is a text, a time
-- is a number of microseconds, a column of status words is an enumeration. The columns created_at
-- and updated_at stand only where some statement reads them.
use rulefolio_server.Prelude.{ℕ, String, Bool, true, false, Option, str_eq}

pub data AccountStatus : Type 0 where
  pending_activation active disabled : AccountStatus

abbrev pub is_active : AccountStatus → Bool
is_active active = true
is_active _ = false

abbrev pub is_pending_activation : AccountStatus → Bool
is_pending_activation pending_activation = true
is_pending_activation _ = false

-- A one-time credential has one of the first three; a business mail carries a word of its own.
pub data Purpose : Type 0 where
  account_activation password_recovery workspace_invitation : Purpose
  business : String → Purpose

abbrev pub same_purpose : Purpose → Purpose → Bool
same_purpose account_activation account_activation = true
same_purpose password_recovery password_recovery = true
same_purpose workspace_invitation workspace_invitation = true
same_purpose (business a) (business b) = str_eq a b
same_purpose _ _ = false

pub data TokenStatus : Type 0 where
  active consumed revoked : TokenStatus

abbrev pub token_active : TokenStatus → Bool
token_active TokenStatus.active = true
token_active _ = false

pub record Account : Type 0 where
  pub id : ℕ
  pub email : String
  pub status : AccountStatus

pub record PasswordCredential : Type 0 where
  pub account_id : ℕ
  pub password_hash : String
  pub updated_at : ℕ

pub data RevokeReason : Type 0 where
  logout password_recovered reprovisioned recovery_restricted : RevokeReason
  other : String → RevokeReason

pub record SessionRecord : Type 0 where
  pub id : ℕ
  pub account_id : ℕ
  pub token_hash : ℕ
  pub expires_at : ℕ
  pub revoked_at : Option ℕ
  pub revoke_reason : Option RevokeReason

pub record OneTimeCredential : Type 0 where
  pub id : ℕ
  pub account_id : ℕ
  pub purpose : Purpose
  pub token_hash : ℕ
  pub status : TokenStatus
  pub expires_at : ℕ
  pub consumed_at : Option ℕ
  pub revoked_at : Option ℕ

pub data AttemptPurpose : Type 0 where
  login recovery_request : AttemptPurpose
  exchange : Purpose → AttemptPurpose

abbrev pub same_attempt : AttemptPurpose → AttemptPurpose → Bool
same_attempt login login = true
same_attempt recovery_request recovery_request = true
same_attempt (exchange p) (exchange q) = same_purpose p q
same_attempt _ _ = false

pub record AttemptRecord : Type 0 where
  pub id : ℕ
  pub purpose : AttemptPurpose
  pub subject_hash : ℕ
  pub window_started_at : ℕ
  pub count : ℕ

pub data JobStatus : Type 0 where
  pending processing completed failed : JobStatus

abbrev pub job_pending : JobStatus → Bool
job_pending pending = true
job_pending _ = false

abbrev pub job_processing : JobStatus → Bool
job_processing processing = true
job_processing _ = false

pub record RecoveryRequestJob : Type 0 where
  pub id : ℕ
  pub email_ciphertext : Option String
  pub email_nonce : Option ℕ
  pub key_version : Option ℕ
  pub status : JobStatus
  pub claim_id : Option ℕ
  pub processing_started_at : Option ℕ
  pub created_at : ℕ
  pub completed_at : Option ℕ
