-- ===== src/Examples/Teams.antt =====
-- Workspaces, their invitations and their works at concrete inputs.
use rulefolio_server.Prelude.{ℕ, Bool, true, String, none, some, [], ◌∷◌}
use rulefolio_server.Identity.Models.{
  Account, AccountStatus, OneTimeCredential, TokenStatus, workspace_invitation,
}
use rulefolio_server.Workspaces.Models.{
  Workspace, WorkspaceInvitation, InvitationStatus, WorkspaceMember, maintainer, collaborator,
}
use rulefolio_server.Workspaces.Members.{access_row}
use rulefolio_server.Works.Models.{Work}
use rulefolio_server.Works.Guards.{WorkValues}
use rulefolio_server.Database.{Db}
use rulefolio_server.Examples.Fixtures.{db, account}

abbrev pub everything : {A : Type 0} → A → Bool
everything x = true

abbrev pub label : ℕ → ℕ → String
label w v = "scope"

abbrev pub str : ℕ → String
str n = "id"

abbrev pub team : Workspace
team = record {
  id = 5;
  name = "team";
  description = none;
  owner_account_id = 1;
  revision = 1;
  exit_requested_at = none;
  exit_read_until = none;
  exit_requested_by_account_id = none;
  exit_operation_key = none;
  exit_completed_at = none;
}

abbrev pub leaving : Workspace
leaving = record team {
  exit_requested_at = some 100;
  exit_read_until = some 200;
  exit_requested_by_account_id = some 1;
  exit_operation_key = some "exit";
}

abbrev pub invitation : WorkspaceInvitation
invitation = record {
  id = 18;
  workspace_id = 5;
  account_id = 2;
  credential_id = 17;
  status = InvitationStatus.active;
  accepted_at = none;
  revoked_at = none;
  accepted_operation_key = none;
  accepted_operation = none;
}

abbrev pub invitation_credential : OneTimeCredential
invitation_credential = record {
  id = 17;
  account_id = 2;
  purpose = workspace_invitation;
  token_hash = 4;
  status = TokenStatus.active;
  expires_at = 5000;
  consumed_at = none;
  revoked_at = none;
}

abbrev pub guest : Account
guest = record { id = 2; email = "b@example.test"; status = AccountStatus.active }

abbrev pub owner_member : WorkspaceMember
owner_member = record { workspace_id = 5; account_id = 1 }

abbrev pub guest_member : WorkspaceMember
guest_member = record { workspace_id = 5; account_id = 2 }

abbrev pub work : Work
work = record {
  id = 6;
  workspace_id = 5;
  name = "game";
  description = "a game";
  creative_stage = "draft";
  target_experience = "fun";
  min_players = 2;
  max_players = 4;
  estimated_duration_minutes = 60;
  revision = 1;
}

abbrev pub values : WorkValues
values = record {
  name = "game 2";
  description = "a game";
  creative_stage = "draft";
  target_experience = "fun";
  min_players = 2;
  max_players = 5;
  estimated_duration_minutes = 60;
}

-- a workspace with two members and a work that the owner maintains
abbrev pub team_db : Db
team_db = record db {
  accounts = account ∷ guest ∷ [];
  workspaces = team ∷ [];
  members = owner_member ∷ guest_member ∷ [];
  works = work ∷ [];
  accesses = access_row 6 5 1 maintainer ∷ access_row 6 5 2 collaborator ∷ [];
}

-- a workspace to which the second account is invited
abbrev pub invited_db : Db
invited_db = record db {
  accounts = account ∷ guest ∷ [];
  workspaces = team ∷ [];
  members = owner_member ∷ [];
  invitations = invitation ∷ [];
  credentials = invitation_credential ∷ [];
}

-- a workspace whose exit is due
abbrev pub leaving_db : Db
leaving_db = record team_db {
  workspaces = leaving ∷ [];
  invitations = invitation ∷ [];
  credentials = invitation_credential ∷ [];
}
