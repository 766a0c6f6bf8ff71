-- ===== src/Works/Service.antt =====
-- The operations of src/app/works/service.py that write works and their accesses.
use rulefolio_server.Prelude.{
  ℕ, suc, String, Bool, true, not, ◌&&◌, Option, none, some, List, [], ◌∷◌, ◌==◌, str_eq, is_none,
  if◌then◌else◌, scalar, update,
}
use rulefolio_server.Notifications.Todos.{delete_work_access_todos}
use rulefolio_server.Workspaces.Models.{
  Workspace, Role, maintainer, organizer, collaborator, is_maintainer, same_role, WorkAccess,
}
use rulefolio_server.Workspaces.Members.{
  access_for, is_last_maintainer, one_of, lock_work_members, add_work_access,
  update_work_access_role, delete_work_access,
}
use rulefolio_server.Works.Models.{Work}
use rulefolio_server.Works.Guards.{
  WorkData, work_data, WorkValues, validate_work_values, require_workspace_member,
  load_visible_work, prepare_manager_write,
}
use rulefolio_server.Workspaces.Members.{work_access_role}
use rulefolio_server.Database.{
  Db, SecurityAudit, Exec, pure, gets, modify, commit, or_raise, or_fail, fail_if, refuse_if,
  or_retryable, add_audit, ◌>>=◌, ◌>>◌, value_error, database_error, workspace_unavailable,
  work_unavailable, work_revision_conflict, work_last_maintainer_required, work_access_unavailable,
  work_operation_retryable,
}

-- `role in WORK_ROLES`
unfoldable pub work_role : String → Option Role
work_role t =
    if str_eq t "maintainer"
    then some maintainer
    else if str_eq t "organizer"
    then some organizer
    else if str_eq t "collaborator"
    then some collaborator
    else none

unfoldable pub work_row : (id workspace_id : ℕ) → WorkValues → Work
work_row id workspace_id v = record {
  id = id;
  workspace_id = workspace_id;
  name = v.name;
  description = v.description;
  creative_stage = v.creative_stage;
  target_experience = v.target_experience;
  min_players = v.min_players;
  max_players = v.max_players;
  estimated_duration_minutes = v.estimated_duration_minutes;
  revision = 1;
}

-- the values of the update of a work
unfoldable pub revised : WorkValues → Work → Work
unfolding work_row
revised v w = record (work_row w.id w.workspace_id v) { revision = suc w.revision }

abbrev pub has_work_id : ℕ → Work → Bool
has_work_id id w = w.id == id

abbrev pub at_revision : (id revision : ℕ) → Work → Bool
at_revision id revision w = w.id == id && w.revision == revision

-- `_audit_scope` writes the scope; `label` is its text
unfoldable pub work_audit :
    (ℕ → ℕ → String)
    → (action : String) → (actor_id account_id workspace_id work_id : ℕ) → SecurityAudit
work_audit label action actor_id account_id workspace_id work_id = record {
  action = action;
  actor_account_id = some actor_id;
  target_account_id = some account_id;
  operator = none;
  reason = none;
  scope = some (label workspace_id work_id);
}

abbrev pub add_work : Work → Db → Db
add_work w db = record db { works = w ∷ db.works }

-- the writes of `set_work_access` on an access that is there, with another role
unfoldable pub change_role : WorkAccess → (work_id account_id : ℕ) → Role → Db → Db
unfolding delete_work_access_todos update_work_access_role
change_role a work_id account_id role db = update_work_access_role work_id account_id role (
    if is_maintainer a.role && not (is_maintainer role)
    then delete_work_access_todos account_id work_id db
    else db)

-- `update_work` after its guards
unfoldable pub write_work :
    WorkValues → (expected_revision : ℕ) → Work × List WorkAccess → Exec WorkData
unfolding revised work_data
write_work v expected_revision (work, accesses) = do
  current ← gets (λ db. scalar (at_revision work.id expected_revision) db.works)
  updated ← or_raise current work_revision_conflict
  modify (λ db. record db {
    works = update (at_revision work.id expected_revision) (revised v) db.works;
  })
  commit
  pure (work_data (revised v updated) maintainer)

module _ (label : ℕ → ℕ → String) where
  -- `create_work` after its guards; `id` is drawn, and the flush refuses an id that a row has
  unfoldable pub insert_work :
      (id actor_id workspace_id : ℕ) → WorkValues → Unit {0} → Exec WorkData
  unfolding lock_work_members work_row work_data add_work_access
  insert_work id actor_id workspace_id v u = do
    clash ← gets (λ db. scalar (has_work_id id) db.works)
    fail_if (not (is_none clash)) database_error
    member_ids ← gets (lock_work_members workspace_id (actor_id ∷ []))
    refuse_if (not (one_of member_ids actor_id)) workspace_unavailable
    modify (λ db.
        add_audit (work_audit label "work_access_granted" actor_id actor_id workspace_id id) (
          add_work_access id workspace_id actor_id maintainer
            (add_work (work_row id workspace_id v) db)))
    commit
    pure (work_data (work_row id workspace_id v) maintainer)

  -- the branch of `set_work_access` for an access with another role
  unfoldable pub alter_access :
      (actor_id workspace_id account_id : ℕ) → Role → Work → WorkAccess → Exec (ℕ × Role)
  unfolding change_role
  alter_access actor_id workspace_id account_id role work a = do
    modify (λ db.
        add_audit
          (work_audit label "work_access_role_changed" actor_id account_id workspace_id work.id)
          (change_role a work.id account_id role db))
    commit
    pure (account_id, role)

  -- what follows the checks of `set_work_access`, by the access that the account has
  unfoldable pub write_access :
      (actor_id workspace_id account_id : ℕ) → Role → Work → Option WorkAccess → Exec (ℕ × Role)
  unfolding add_work_access alter_access
  write_access actor_id workspace_id account_id role work none = do
    modify (λ db.
        add_audit (work_audit label "work_access_granted" actor_id account_id workspace_id work.id)
          (add_work_access work.id work.workspace_id account_id role db))
    commit
    pure (account_id, role)
  write_access actor_id workspace_id account_id role work (some a) =
      if same_role a.role role
      then (commit >> pure (account_id, role))
      else alter_access actor_id workspace_id account_id role work a

  -- `set_work_access` after its guards
  unfoldable pub set_access :
      (actor_id workspace_id account_id : ℕ) → Role → Work × List WorkAccess → Exec (ℕ × Role)
  unfolding write_access
  set_access actor_id workspace_id account_id role (work, accesses) = do
    let access = scalar (access_for account_id) accesses
    refuse_if (is_last_maintainer access accesses && not (is_maintainer role))
        work_last_maintainer_required
    write_access actor_id workspace_id account_id role work access

  -- `revoke_work_access` after its guards
  unfoldable pub revoke_access :
      (actor_id workspace_id account_id : ℕ) → Work × List WorkAccess → Exec (Unit {0})
  unfolding delete_work_access_todos delete_work_access
  revoke_access actor_id workspace_id account_id (work, accesses) = do
    let access = scalar (access_for account_id) accesses
    refuse_if (is_none access) work_access_unavailable
    refuse_if (is_last_maintainer access accesses) work_last_maintainer_required
    modify (λ db.
        add_audit (work_audit label "work_access_revoked" actor_id account_id workspace_id work.id)
          (delete_work_access work.id account_id (delete_work_access_todos account_id work.id db)))
    commit

module _ (visible : Workspace → Bool) (visible_work : Work → Bool) (label : ℕ → ℕ → String) where
  unfoldable pub create_work : (id actor_id workspace_id : ℕ) → WorkValues → Exec WorkData
  unfolding validate_work_values require_workspace_member insert_work
  create_work id actor_id workspace_id values = do
    v ← validate_work_values values
    or_retryable work_operation_retryable (
        require_workspace_member visible visible_work workspace_id actor_id true
        >>= insert_work label id actor_id workspace_id v)

  unfoldable pub read_work : (actor_id workspace_id work_id : ℕ) → Exec WorkData
  unfolding load_visible_work work_access_role work_data
  read_work actor_id workspace_id work_id = or_retryable work_operation_retryable (do
    work ← load_visible_work visible visible_work workspace_id work_id
    found ← gets (work_access_role work.id actor_id)
    role ← or_raise found work_unavailable
    pure (work_data work role))

  unfoldable pub update_work :
      (actor_id workspace_id work_id : ℕ) → WorkValues → (expected_revision : ℕ) → Exec WorkData
  unfolding validate_work_values prepare_manager_write write_work
  update_work actor_id workspace_id work_id values expected_revision = do
    v ← validate_work_values values
    or_retryable work_operation_retryable (
        prepare_manager_write visible visible_work workspace_id work_id actor_id none
        >>= write_work v expected_revision)

  unfoldable pub set_work_access :
      (actor_id workspace_id work_id account_id : ℕ) → String → Exec (ℕ × Role)
  unfolding work_role prepare_manager_write set_access
  set_work_access actor_id workspace_id work_id account_id role = do
    role ← or_fail (work_role role) value_error
    or_retryable work_operation_retryable (
        prepare_manager_write visible visible_work workspace_id work_id actor_id (some account_id)
        >>= set_access label actor_id workspace_id account_id role)

  unfoldable pub revoke_work_access :
      (actor_id workspace_id work_id account_id : ℕ) → Exec (Unit {0})
  unfolding prepare_manager_write revoke_access
  revoke_work_access actor_id workspace_id work_id account_id =
      or_retryable work_operation_retryable (
        prepare_manager_write visible visible_work workspace_id work_id actor_id (some account_id)
        >>= revoke_access label actor_id workspace_id account_id)
