-- ===== src/Recovery/Models.antt =====
-- The table of src/app/recovery/models.py, whose only row has id 1.
use rulefolio_server.Prelude.{ℕ, String, Bool, true, false, Option}

pub data Stage : Type 0 where
  open_stage recovering api_open : Stage

-- NULL or 'restricted', by `ck_recovery_state_authorization_mode`.
pub data AuthorizationMode : Type 0 where
  restricted : AuthorizationMode

pub record RecoveryState : Type 0 where
  pub stage : Stage
  pub recovery_id : Option String
  pub manifest_sha256 : Option ℕ
  pub recovery_target_at : Option ℕ
  pub authorization_mode : Option AuthorizationMode
  pub restricted_access_confirmed_at : Option ℕ
  pub verified_at : Option ℕ
  pub operator : Option String

abbrev pub is_open_stage : Stage → Bool
is_open_stage open_stage = true
is_open_stage _ = false

abbrev pub is_api_open : Stage → Bool
is_api_open api_open = true
is_api_open _ = false

abbrev pub is_recovering : Stage → Bool
is_recovering recovering = true
is_recovering _ = false

-- the phase that a `RecoveryFailed` names
pub data Phase : Type 0 where
  deployment_freeze request state restricted_phase : Phase
  authorization objects verification dispatcher : Phase
