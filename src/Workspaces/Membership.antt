-- ===== src/Workspaces/Membership.antt =====
-- Workspaces and their members in src/app/workspaces/service.py.
use rulefolio_server.Prelude.{
  ℕ, String, Bool, true, false, not, ◌&&◌, Option, none, some, List, [], ◌∷◌, ◌==◌, str_eq, is_none,
  if◌then◌else◌, scalar, delete, select, map,
}
use rulefolio_server.Recovery.Request.{strip}
use rulefolio_server.Identity.Models.{OneTimeCredential}
use rulefolio_server.Identity.Credentials.{revoke_workspace_invitation_credential}
use rulefolio_server.Notifications.Models.{cancelled, TodoKind}
use rulefolio_server.Notifications.Outbox.{clear_outbox_envelopes}
use rulefolio_server.Notifications.Todos.{cancel_todo_by_source, delete_work_access_todos}
use rulefolio_server.Workspaces.Models.{Workspace, WorkspaceMember, WorkAccess, WorkspaceInvitation}
use rulefolio_server.Workspaces.Members.{
  is_member, delete_work_access, lock_work_accesses, access_for, is_last_maintainer,
}
use rulefolio_server.Workspaces.Access.{
  WorkspaceData, workspace_data, require_workspace_manager, ensure_workspace_writable,
}
use rulefolio_server.Workspaces.Invitations.{
  credential_by_id, is_open_invitation, write_invitation, as_revoked,
}
use rulefolio_server.Database.{
  Db, SecurityAudit, Exec, pure, gets, modify, commit, or_raise, refuse_if, fail_if, or_retryable,
  add_audit, ◌>>=◌, ◌>>◌, value_error, database_error, workspace_operation_retryable,
  workspace_owner_cannot_be_removed, workspace_member_unavailable,
  workspace_member_last_maintainer_required,
}

abbrev pub add_member : (workspace_id account_id : ℕ) → Db → Db
add_member workspace_id account_id db = record db {
  members = record { workspace_id = workspace_id; account_id = account_id } ∷ db.members;
}

-- an audit of this service
unfoldable pub workspace_audit :
    (action : String) → (actor target : Option ℕ) → (scope : String) → SecurityAudit
workspace_audit action actor target scope = record {
  action = action;
  actor_account_id = actor;
  target_account_id = target;
  operator = none;
  reason = none;
  scope = some scope;
}

-- `description.strip()`, where an empty description is none
abbrev pub described : Option String → Option String
described none = none
described (some d) = if str_eq (strip d) "" then none else some (strip d)

unfoldable pub workspace_row : (id owner_id : ℕ) → String → Option String → Workspace
workspace_row id owner_id name description = record {
  id = id;
  name = name;
  description = description;
  owner_account_id = owner_id;
  revision = 1;
  exit_requested_at = none;
  exit_read_until = none;
  exit_requested_by_account_id = none;
  exit_operation_key = none;
  exit_completed_at = none;
}

abbrev pub has_workspace_id : ℕ → Workspace → Bool
has_workspace_id id w = w.id == id

abbrev pub add_workspace : Workspace → Db → Db
add_workspace w db = record db { workspaces = w ∷ db.workspaces }

-- `session.flush()` after a member is added: the unique constraint on workspace and account
unfoldable pub insert_member : (workspace_id account_id : ℕ) → Exec (Unit {0})
unfolding is_member
insert_member workspace_id account_id = do
  clash ← gets (λ db. scalar (is_member workspace_id account_id) db.members)
  fail_if (not (is_none clash)) database_error
  modify (add_member workspace_id account_id)

unfoldable pub add_baseline_member : (workspace_id account_id : ℕ) → Exec (Unit {0})
unfolding insert_member
add_baseline_member workspace_id account_id = insert_member workspace_id account_id

-- `id` is drawn, and the flush refuses an id that a row has; `str` writes it as a text
unfoldable pub create_workspace :
    (ℕ → String) → (id actor_id : ℕ) → String → Option String → Exec WorkspaceData
unfolding workspace_row insert_member workspace_audit workspace_data
create_workspace str id actor_id name description = do
  fail_if (str_eq (strip name) "") value_error
  let w = workspace_row id actor_id (strip name) (described description)
  or_retryable workspace_operation_retryable (do
    clash ← gets (λ db. scalar (has_workspace_id id) db.workspaces)
    fail_if (not (is_none clash)) database_error
    modify (add_workspace w)
    insert_member id actor_id
    modify (
        add_audit
          (workspace_audit "workspace_member_granted" (some actor_id) (some actor_id) (str id)))
    commit
    pure (workspace_data w actor_id))

-- the accesses of a member to remove; the cleanup scope shows those of the workspace
unfoldable pub removable : (workspace_id account_id : ℕ) → WorkAccess → Bool
removable workspace_id account_id a = a.account_id == account_id && a.workspace_id == workspace_id

module _ (label : ℕ → ℕ → String) where
  -- the writes of one turn of the loop over the works
  unfoldable pub drop_access : (actor_id workspace_id work_id account_id : ℕ) → Db → Db
  unfolding delete_work_access_todos delete_work_access workspace_audit
  drop_access actor_id workspace_id work_id account_id db =
      add_audit
        (workspace_audit "work_access_revoked" (some actor_id) (some account_id)
          (label workspace_id work_id))
        (delete_work_access work_id account_id (delete_work_access_todos account_id work_id db))

  -- the loop over the works; `false` where a work would be left without a maintainer
  unfoldable pub drop_accesses : (actor_id workspace_id account_id : ℕ) → List ℕ → Db → Bool × Db
  unfolding drop_access lock_work_accesses
  drop_accesses actor_id workspace_id account_id [] db = (true, db)
  drop_accesses actor_id workspace_id account_id (work_id ∷ later) db =
      let accesses = lock_work_accesses work_id db in
      let target = scalar (access_for account_id) accesses in
      elim target [
        | none ↦ drop_accesses actor_id workspace_id account_id later db
        | some a ↦ elim (is_last_maintainer (some a) accesses) [
          | true ↦ (false, db)
          | false ↦
              drop_accesses actor_id workspace_id account_id later
                (drop_access actor_id workspace_id work_id account_id db)
        ]
      ]

-- one turn of the loop over the active invitations: the status, the to-do, and the credential if
-- it is there
unfoldable pub revoke_one :
    (ℕ → String) → (now : ℕ) → WorkspaceInvitation → Option OneTimeCredential → Db → Db
unfolding cancel_todo_by_source revoke_workspace_invitation_credential
revoke_one key now i none db =
    cancel_todo_by_source now i.account_id TodoKind.workspace_invitation (key i.id)
      (write_invitation i.id (as_revoked now) db)
revoke_one key now i (some c) db =
    (revoke_workspace_invitation_credential c now (
      cancel_todo_by_source now i.account_id TodoKind.workspace_invitation (key i.id)
        (write_invitation i.id (as_revoked now) db))).1

-- the loop, with the ids of the revoked credentials; the credentials are read before it
unfoldable pub revoke_each :
    (ℕ → String) → (now : ℕ) → (locked : Db) → List WorkspaceInvitation → Db → List ℕ × Db
unfolding revoke_one credential_by_id
revoke_each key now locked [] db = ([], db)
revoke_each key now locked (i ∷ is) db =
    let credential = credential_by_id i.credential_id locked in
    let (ids, db') = revoke_each key now locked is (revoke_one key now i credential db) in
    (elim credential [ none ↦ ids | some c ↦ c.id ∷ ids ], db')

-- the active invitations of a member that is removed
unfoldable pub revoke_invitations : (ℕ → String) → (now workspace_id account_id : ℕ) → Db → Db
unfolding revoke_each is_open_invitation clear_outbox_envelopes
revoke_invitations key now workspace_id account_id db =
    let mine = select (is_open_invitation workspace_id account_id) db.invitations in
    let (ids, db') = revoke_each key now db mine db in clear_outbox_envelopes ids cancelled db'

-- the removal of a member's row, with its audit
unfoldable pub delete_member : (ℕ → String) → (actor_id workspace_id account_id : ℕ) → Db → Db
unfolding is_member workspace_audit
delete_member str actor_id workspace_id account_id db =
    add_audit
      (workspace_audit "workspace_member_removed" (some actor_id) (some account_id)
        (str workspace_id))
      (record db { members = delete (is_member workspace_id account_id) db.members })

module _ (visible : Workspace → Bool) (label : ℕ → ℕ → String) (str : ℕ → String) where
  -- `remove_member` after its guards
  unfoldable pub drop_member : (now actor_id workspace_id account_id : ℕ) → Exec (Unit {0})
  unfolding removable drop_accesses revoke_invitations delete_member
  drop_member now actor_id workspace_id account_id = do
    work_ids ←
        gets (λ db. map (λ a. a.work_id) (select (removable workspace_id account_id) db.accesses))
    dropped ← gets (drop_accesses label actor_id workspace_id account_id work_ids)
    refuse_if (not dropped.0) workspace_member_last_maintainer_required
    modify (λ db.
        delete_member str actor_id workspace_id account_id
          (revoke_invitations str now workspace_id account_id dropped.1))
    commit

  unfoldable pub find_removable : (actor_id workspace_id account_id : ℕ) → Exec WorkspaceMember
  unfolding require_workspace_manager ensure_workspace_writable is_member
  find_removable actor_id workspace_id account_id = do
    workspace ← require_workspace_manager visible workspace_id actor_id
    ensure_workspace_writable visible workspace.id
    refuse_if (account_id == workspace.owner_account_id) workspace_owner_cannot_be_removed
    found ← gets (λ db. scalar (is_member workspace.id account_id) db.members)
    or_raise found workspace_member_unavailable

  unfoldable pub remove_member : (now actor_id workspace_id account_id : ℕ) → Exec (Unit {0})
  unfolding find_removable drop_member
  remove_member now actor_id workspace_id account_id = or_retryable workspace_operation_retryable (
      find_removable actor_id workspace_id account_id >>= λ member.
      drop_member now actor_id workspace_id account_id)
