-- ===== src/Workspaces/Models.antt =====
-- The tables of src/app/workspaces/models.py, with the columns that the services read.
use rulefolio_server.Prelude.{ℕ, Bool, true, false, Option, String}

pub data InvitationStatus : Type 0 where
  active accepted revoked expired : InvitationStatus

abbrev pub invitation_active : InvitationStatus → Bool
invitation_active active = true
invitation_active _ = false

-- the request by which an invitation was accepted
pub data Operation : Type 0 where
  current_session account_activation inbox : Operation

abbrev pub same_operation : Operation → Operation → Bool
same_operation current_session current_session = true
same_operation account_activation account_activation = true
same_operation inbox inbox = true
same_operation _ _ = false

pub record WorkspaceInvitation : Type 0 where
  pub id : ℕ
  pub workspace_id : ℕ
  pub account_id : ℕ
  pub credential_id : ℕ
  pub status : InvitationStatus
  pub accepted_at : Option ℕ
  pub revoked_at : Option ℕ
  pub accepted_operation_key : Option String
  pub accepted_operation : Option Operation

pub record Workspace : Type 0 where
  pub id : ℕ
  pub name : String
  pub description : Option String
  pub owner_account_id : ℕ
  pub revision : ℕ
  pub exit_requested_at : Option ℕ
  pub exit_read_until : Option ℕ
  pub exit_requested_by_account_id : Option ℕ
  pub exit_operation_key : Option String
  pub exit_completed_at : Option ℕ

pub record WorkspaceMember : Type 0 where
  pub workspace_id : ℕ
  pub account_id : ℕ

pub data Role : Type 0 where
  maintainer organizer collaborator : Role

abbrev pub is_maintainer : Role → Bool
is_maintainer maintainer = true
is_maintainer _ = false

abbrev pub same_role : Role → Role → Bool
same_role maintainer maintainer = true
same_role organizer organizer = true
same_role collaborator collaborator = true
same_role _ _ = false

pub record WorkAccess : Type 0 where
  pub work_id : ℕ
  pub workspace_id : ℕ
  pub account_id : ℕ
  pub role : Role

-- its purpose is always INVITATION_ATTEMPT_PURPOSE
pub record WorkspaceInvitationAttempt : Type 0 where
  pub subject_hash : ℕ
  pub window_started_at : ℕ
  pub count : ℕ
