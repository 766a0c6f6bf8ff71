-- ===== src/Workspaces/Access.antt =====
-- The workspace guards of src/app/workspaces/service.py. Row security hides a
-- workspace from those outside it; `visible` tells what it shows the actor.
use rulefolio_server.Prelude.{
  ℕ, String, Bool, Option, not, none, some, ◌&&◌, ◌==◌, is_none, if◌then◌else◌, scalar,
}
use rulefolio_server.Workspaces.Models.{Workspace}
use rulefolio_server.Database.{
  Exec, ok, err, pure, raise, ◌>>=◌, ◌>>◌, rollback, workspace_unavailable,
  workspace_exit_in_progress, workspace_management_forbidden, refuse_if,
}

module _ (visible : Workspace → Bool) where
  -- `_load_visible_workspace`
  unfoldable pub load_visible_workspace : ℕ → Exec Workspace
  load_visible_workspace workspace_id s =
      elim (scalar (λ w. w.id == workspace_id && visible w) s.current.workspaces) [
        | none ↦ (err workspace_unavailable, (rollback s).1)
        | some w ↦ (ok w, s)
      ]

  unfoldable pub ensure_workspace_writable : ℕ → Exec (Unit {0})
  unfolding load_visible_workspace
  ensure_workspace_writable workspace_id = do
    workspace ← load_visible_workspace workspace_id
    if is_none workspace.exit_requested_at
        then pure tt
        else (do rollback; raise workspace_exit_in_progress)

  -- `_require_workspace_manager`
  unfoldable pub require_workspace_manager : (workspace_id actor_id : ℕ) → Exec Workspace
  unfolding load_visible_workspace
  require_workspace_manager workspace_id actor_id = do
    workspace ← load_visible_workspace workspace_id
    refuse_if (not (workspace.owner_account_id == actor_id)) workspace_management_forbidden
    pure workspace

pub record WorkspaceData : Type 0 where
  pub id : ℕ
  pub name : String
  pub description : Option String
  pub is_owner : Bool
  pub revision : ℕ
  pub access_state : String
  pub read_until : Option ℕ

-- `_workspace_data`
unfoldable pub workspace_data : Workspace → (account_id : ℕ) → WorkspaceData
workspace_data w account_id = record {
  id = w.id;
  name = w.name;
  description = w.description;
  is_owner = w.owner_account_id == account_id;
  revision = w.revision;
  access_state = if is_none w.exit_requested_at then "active" else "exiting";
  read_until = w.exit_read_until;
}

module _ (visible : Workspace → Bool) where
  unfoldable pub read_workspace : (actor_id workspace_id : ℕ) → Exec WorkspaceData
  unfolding load_visible_workspace workspace_data
  read_workspace actor_id workspace_id = do
    workspace ← load_visible_workspace visible workspace_id
    pure (workspace_data workspace actor_id)
