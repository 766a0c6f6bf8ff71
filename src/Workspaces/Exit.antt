-- ===== src/Workspaces/Exit.antt =====
-- The exit of a workspace in src/app/workspaces/service.py: its request, its completion when it is
-- due, and the diagnosis of a workspace by an operator.
use rulefolio_server.Prelude.{
  ℕ, suc, String, Bool, true, false, not, ◌&&◌, ◌||◌, Option, none, some, List, [], ◌∷◌, ◌==◌, leb,
  ltb, str_eq, is_none, if◌then◌else◌, scalar, update, delete, select, map, pick,
}
use Prim.Native.String.{count}
use rulefolio_server.Recovery.Request.{strip}
use rulefolio_server.Recovery.Gate.{dispatcher_allowed}
use rulefolio_server.Settings.{Settings}
use rulefolio_server.Crypto.{Crypto}
use rulefolio_server.Identity.Models.{OneTimeCredential, RevokeReason}
use rulefolio_server.Identity.Passwords.{verify_current_password}
use rulefolio_server.Identity.Sessions.{revoke_sessions_for_accounts}
use rulefolio_server.Identity.Credentials.{revoke_workspace_invitation_credential}
use rulefolio_server.Notifications.Models.{cancelled}
use rulefolio_server.Notifications.Outbox.{clear_outbox_envelopes}
use rulefolio_server.Notifications.Todos.{cancel_workspace_todos}
use rulefolio_server.Notifications.Requests.{holds_key}
use rulefolio_server.Workspaces.Models.{
  Workspace, WorkspaceInvitation, InvitationStatus, invitation_active,
}
use rulefolio_server.Workspaces.Access.{WorkspaceData, workspace_data, load_visible_workspace}
use rulefolio_server.Workspaces.Invitations.{write_invitation, as_revoked, credential_by_id}
use rulefolio_server.Workspaces.Membership.{workspace_audit, has_workspace_id}
use rulefolio_server.Database.{
  Db, Exec, pure, gets, modify, commit, or_raise, refuse_if, fail_if, rollback, rollback_raise,
  or_retryable, others_commit, add_audit, ◌>>=◌, ◌>>◌, value_error, workspace_unavailable,
  workspace_exit_invalid, workspace_exit_in_progress, workspace_exit_reauthentication_failed,
  workspace_revision_conflict, workspace_operation_retryable,
}

-- `column == n`, where the column may be NULL
abbrev is_actor : ℕ → Option ℕ → Bool
is_actor n none = false
is_actor n (some m) = m == n

-- the exit was requested by this account under this key
unfoldable pub is_same_exit : (actor_id : ℕ) → String → Workspace → Bool
is_same_exit actor_id key w =
    is_actor actor_id w.exit_requested_by_account_id && holds_key w.exit_operation_key key

unfoldable pub exiting : (now read_until actor_id : ℕ) → String → Workspace → Workspace
exiting now read_until actor_id key w = record w {
  exit_requested_at = some now;
  exit_read_until = some read_until;
  exit_requested_by_account_id = some actor_id;
  exit_operation_key = some key;
  revision = suc w.revision;
}

abbrev pub write_workspace : ℕ → (Workspace → Workspace) → Db → Db
write_workspace id f db = record db { workspaces = update (has_workspace_id id) f db.workspaces }

-- the answer to a request for a workspace whose exit is requested
unfoldable pub repeated_exit : (actor_id : ℕ) → String → Workspace → Exec WorkspaceData
unfolding is_same_exit workspace_data
repeated_exit actor_id key w =
    if is_same_exit actor_id key w
    then (commit >> pure (workspace_data w actor_id))
    else rollback_raise workspace_exit_in_progress

-- `scope` writes the scope of the audit from the workspace and the time
unfoldable pub begin_exit :
    (ℕ → ℕ → String)
    → (now actor_id : ℕ) → (expected_revision read_until : ℕ) → String
    → Workspace
    → Exec WorkspaceData
unfolding exiting workspace_audit workspace_data
begin_exit scope now actor_id expected_revision read_until key w = do
  refuse_if (not (w.revision == expected_revision)) workspace_revision_conflict
  refuse_if (leb read_until now) workspace_exit_invalid
  modify (write_workspace w.id (exiting now read_until actor_id key))
  modify (
      add_audit
        (workspace_audit "workspace_exit_requested" (some actor_id) none (scope w.id read_until)))
  commit
  pure (workspace_data (exiting now read_until actor_id key w) actor_id)

module _ (crypto : Crypto) (visible : Workspace → Bool) where
  -- `now` is the server's clock. The second select locks the row; `concurrent` is what other
  -- transactions have committed since the first one, and `lockable` tells whether row security
  -- shows the row to a locking select.
  unfoldable pub request_workspace_exit :
      (ℕ → ℕ → String)
      → (concurrent : Db → Db) → (lockable : Workspace → Bool) → (now actor_id workspace_id : ℕ)
      → (password : String) → (expected_revision read_until : ℕ) → (key : String)
      → Exec WorkspaceData
  unfolding verify_current_password repeated_exit begin_exit
  request_workspace_exit scope concurrent lockable now actor_id workspace_id password
        expected_revision read_until key =
      do
        fail_if (leb expected_revision 0 || str_eq key "" || ltb 128 (count key))
            workspace_exit_invalid
        or_retryable workspace_operation_retryable (do
          first ← gets (λ db. scalar (λ w. w.id == workspace_id && visible w) db.workspaces)
          w ← or_raise first workspace_unavailable
          known ← gets (verify_current_password crypto actor_id password)
          refuse_if (not (w.owner_account_id == actor_id && known))
              workspace_exit_reauthentication_failed
          if is_none w.exit_requested_at
              then (do
                others_commit concurrent
                locked ← gets (λ db.
                    scalar (λ w. w.id == workspace_id && visible w && lockable w) db.workspaces)
                elim locked [
                  | none ↦ do
                    again ←
                        gets (λ db. scalar (λ w. w.id == workspace_id && visible w) db.workspaces)
                    w ← or_raise again workspace_unavailable
                    repeated_exit actor_id key w
                  | some w ↦
                      if is_none w.exit_requested_at
                      then begin_exit scope now actor_id expected_revision read_until key w
                      else repeated_exit actor_id key w
                ])
              else repeated_exit actor_id key w)

abbrev due_by : (now : ℕ) → Option ℕ → Bool
due_by now none = false
due_by now (some t) = leb t now

-- the condition under which an exit is due
unfoldable pub is_due_exit : (now : ℕ) → Workspace → Bool
is_due_exit now w =
    not (is_none w.exit_requested_at) && is_none w.exit_completed_at && due_by now w.exit_read_until

abbrev pub read_until_of : Workspace → ℕ
read_until_of w = elim w.exit_read_until [ none ↦ 0 | some t ↦ t ]

-- `ORDER BY exit_read_until, id`
abbrev pub sooner : Workspace → Workspace → Bool
sooner v w =
    ltb (read_until_of v) (read_until_of w) || (read_until_of v == read_until_of w && leb v.id w.id)

abbrev pub in_workspace : ℕ → WorkspaceInvitation → Bool
in_workspace workspace_id i = i.workspace_id == workspace_id && invitation_active i.status

unfoldable pub revoke_credential_of : (now : ℕ) → Option OneTimeCredential → Db → Db
unfolding revoke_workspace_invitation_credential
revoke_credential_of now none db = db
revoke_credential_of now (some c) db = (revoke_workspace_invitation_credential c now db).1

-- the loop over the active invitations; the credentials are read before it
unfoldable pub revoke_all : (now : ℕ) → (locked : Db) → List WorkspaceInvitation → Db → Db
unfolding credential_by_id revoke_credential_of
revoke_all now locked [] db = db
revoke_all now locked (i ∷ is) db = revoke_all now locked is (
    revoke_credential_of now (credential_by_id i.credential_id locked)
      (write_invitation i.id (as_revoked now) db))

abbrev pub completed : (now : ℕ) → Workspace → Workspace
completed now w = record w { exit_completed_at = some now }

-- what the completion of an exit withdraws: the active invitations with their credentials and
-- mail, the to-dos, the accesses, the members, and the sessions of the members
unfoldable pub close_workspace : (now workspace_id : ℕ) → Db → Db
unfolding revoke_all clear_outbox_envelopes cancel_workspace_todos revoke_sessions_for_accounts
close_workspace now workspace_id db =
    let invitations = select (in_workspace workspace_id) db.invitations in
    let member_ids =
      map (λ m. m.account_id) (select (λ m. m.workspace_id == workspace_id) db.members) in
    let revoked =
      clear_outbox_envelopes (map (λ i. i.credential_id) invitations) cancelled
        (revoke_all now db invitations db) in
    let quiet = cancel_workspace_todos now workspace_id revoked in
    let emptied = record quiet {
      accesses = delete (λ a. a.workspace_id == workspace_id) quiet.accesses;
      members = delete (λ m. m.workspace_id == workspace_id) quiet.members;
    } in
    write_workspace workspace_id (completed now)
      (revoke_sessions_for_accounts now member_ids (RevokeReason.other "workspace_exit") emptied)

module _ (cfg : Settings) (locked : ℕ → Bool) (scope : ℕ → String) where
  -- `locked` tells which rows other transactions hold; `true` is the answer "completed"
  unfoldable pub process_next_due_workspace_exit : (now : ℕ) → Exec Bool
  unfolding dispatcher_allowed is_due_exit close_workspace workspace_audit
  process_next_due_workspace_exit now = do
    allowed ← gets (dispatcher_allowed cfg)
    rollback
    if allowed
        then or_retryable workspace_operation_retryable (do
          due ← gets (λ db. pick sooner (λ w. is_due_exit now w && not (locked w.id)) db.workspaces)
          elim due [
            | none ↦ do rollback; pure false
            | some w ↦ do
              modify (close_workspace now w.id)
              modify (add_audit (workspace_audit "workspace_exit_completed" none none (scope w.id)))
              commit
              pure true
          ])
        else pure false

pub record WorkspaceDiagnosis : Type 0 where
  pub workspace_id : ℕ
  pub member_account_ids : List ℕ
  pub invitations : List (ℕ × ℕ × InvitationStatus)

-- the members and the invitations of a workspace; their order is not modelled
unfoldable pub diagnosis_of : ℕ → Db → WorkspaceDiagnosis
diagnosis_of id db = record {
  workspace_id = id;
  member_account_ids = map (λ m. m.account_id) (select (λ m. m.workspace_id == id) db.members);
  invitations =
      map (λ i. (i.id, i.account_id, i.status)) (select (λ i. i.workspace_id == id) db.invitations);
}

unfoldable pub diagnose_workspace :
    (ℕ → String) → (workspace_id : ℕ) → (operator reason : String) → Exec WorkspaceDiagnosis
unfolding load_visible_workspace diagnosis_of
diagnose_workspace str workspace_id operator reason = do
  fail_if (str_eq (strip operator) "" || str_eq (strip reason) "") value_error
  w ← load_visible_workspace (λ w. true) workspace_id
  diagnosis ← gets (diagnosis_of w.id)
  modify (
      add_audit (record {
        action = "workspace_maintenance_access";
        actor_account_id = none;
        target_account_id = none;
        operator = some (strip operator);
        reason = some (strip reason);
        scope = some (str w.id);
      }))
  commit
  pure diagnosis
