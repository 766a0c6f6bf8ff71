-- ===== src/Workspaces/Inviting.antt =====
-- `create_invitation` and `revoke_invitation` of src/app/workspaces/service.py.
use rulefolio_server.Prelude.{
  ℕ, String, Bool, true, false, not, ◌&&◌, Option, none, some, List, [], ◌∷◌, ◌==◌, is_none, holds,
  if◌then◌else◌, scalar,
}
use Prim.Native.String.{◌++◌}
use rulefolio_server.Settings.{Settings}
use rulefolio_server.Crypto.{Crypto}
use rulefolio_server.Identity.Models.{Account, AccountStatus, is_active, OneTimeCredential, Purpose}
use rulefolio_server.Identity.Accounts.{get_or_create_invitation_account}
use rulefolio_server.Identity.Sessions.{account_by_id}
use rulefolio_server.Identity.Credentials.{
  Draws, Clock, issue_workspace_invitation_credential, revoke_workspace_invitation_credential,
}
use rulefolio_server.Notifications.Models.{
  cancelled, MailOutbox, TodoKind, TargetKind, NotificationTodo,
}
use rulefolio_server.Notifications.Outbox.{
  clear_outbox_envelopes, token_mail_row, enqueue_token_mail,
}
use rulefolio_server.Notifications.Todos.{NewTodo, create_todo, cancel_todo_by_source}
use rulefolio_server.Workspaces.Models.{
  Workspace, WorkspaceInvitation, InvitationStatus, invitation_active,
}
use rulefolio_server.Workspaces.Members.{is_member}
use rulefolio_server.Workspaces.Access.{require_workspace_manager, ensure_workspace_writable}
use rulefolio_server.Workspaces.Invitations.{
  invitation_status, is_expired, WorkspaceInvitationData, invitation_data, write_invitation,
  as_expired, as_revoked, credential_by_id, expire_active_invitations,
}
use rulefolio_server.Workspaces.Membership.{workspace_audit}
use rulefolio_server.Database.{
  Db, Exec, pure, gets, modify, statement, commit, or_raise, refuse_if, or_retryable, add_audit,
  ◌>>=◌, ◌>>◌, workspace_operation_retryable, invitation_recipient_unavailable,
  workspace_member_exists, workspace_invitation_exists, workspace_invitation_unavailable,
}

abbrev pub is_disabled : AccountStatus → Bool
is_disabled AccountStatus.disabled = true
is_disabled _ = false

unfoldable pub invitation_row : (id workspace_id account_id credential_id : ℕ) → WorkspaceInvitation
invitation_row id workspace_id account_id credential_id = record {
  id = id;
  workspace_id = workspace_id;
  account_id = account_id;
  credential_id = credential_id;
  status = InvitationStatus.active;
  accepted_at = none;
  revoked_at = none;
  accepted_operation_key = none;
  accepted_operation = none;
}

abbrev pub add_invitation : WorkspaceInvitation → Db → Db
add_invitation i db = record db { invitations = i ∷ db.invitations }

-- what `create_invitation` draws of its own
pub record InvitationDraws : Type 0 where
  pub invitation_id : ℕ
  pub todo_id : ℕ

-- the to-do of an invitation; `str` writes its id
unfoldable pub invitation_todo : (ℕ → String) → Workspace → (account_id id : ℕ) → NewTodo
invitation_todo str workspace account_id id = record {
  recipient_account_id = account_id;
  workspace_id = workspace.id;
  work_id = none;
  kind = TodoKind.workspace_invitation;
  target_kind = TargetKind.workspace_invitation;
  target_id = id;
  source_key = str id;
  summary = "加入工作空间邀请";
  context_label = "工作空间：" ++ workspace.name;
}

-- the to-do that an active account gets, with its id
unfoldable pub notify_invited :
    (ℕ → String)
    → (rivals : List NotificationTodo) → Workspace
    → Account
    → (todo_id now id : ℕ) → Db
    → Option ℕ × Db
unfolding create_todo invitation_todo
notify_invited str rivals workspace account todo_id now id db =
    let ((todo, created), db') =
      create_todo todo_id now (invitation_todo str workspace account.id id) rivals db in
    if is_active account.status then (some todo.id, db') else (none, db)

module _ (cfg : Settings) (crypto : Crypto) (visible : Workspace → Bool) (str : ℕ → String) where
  -- the writes of an invitation: its credential, its row, the to-do of an active account and the
  -- mail
  unfoldable pub invite :
      Draws
      → InvitationDraws
      → Clock
      → (rivals : List NotificationTodo) → (actor_id : ℕ) → Workspace
      → Account
      → Db
      → (WorkspaceInvitation × OneTimeCredential × MailOutbox) × Db
  unfolding issue_workspace_invitation_credential invitation_row notify_invited token_mail_row
      enqueue_token_mail workspace_audit
  invite d draws clock rivals actor_id workspace account db =
      let ((credential, token), issued) =
        issue_workspace_invitation_credential cfg crypto d (clock 1) account db in
      let i = invitation_row draws.invitation_id workspace.id account.id credential.id in
      let (todo_id, notified) =
        notify_invited str rivals workspace account draws.todo_id (clock 2) i.id
          (add_invitation i issued) in
      let purpose = Purpose.workspace_invitation in
      let mail =
        token_mail_row cfg crypto d.outbox_id d.nonce (clock 3) credential.id account.id purpose
          token (some workspace.name) todo_id in
      (
        (i, credential, mail),
        add_audit
            (workspace_audit "workspace_invitation_created" (some actor_id) (some account.id)
              (str workspace.id))
            (enqueue_token_mail cfg crypto d.outbox_id d.nonce (clock 3) credential.id account.id
              purpose token (some workspace.name) todo_id notified),
      )

  -- `create_invitation` after the checks of the workspace and the account
  unfoldable pub invite_account :
      Draws
      → InvitationDraws
      → Clock
      → (rivals : List NotificationTodo) → (actor_id : ℕ) → Workspace
      → Account
      → Exec WorkspaceInvitationData
  unfolding is_member expire_active_invitations invite invitation_data
  invite_account d draws clock rivals actor_id workspace account = do
    member ← gets (λ db. scalar (is_member workspace.id account.id) db.members)
    refuse_if (not (is_none member)) workspace_member_exists
    remains ← statement (expire_active_invitations str workspace.id account.id (clock 0))
    refuse_if remains workspace_invitation_exists
    (i, credential, mail) ← statement (invite d draws clock rivals actor_id workspace account)
    commit
    pure (invitation_data i account credential (some mail) (clock 0))

  -- `rival` is an account and `rivals` are to-dos that others insert meanwhile
  unfoldable pub create_invitation :
      Draws
      → InvitationDraws
      → Clock
      → (rival : Option Account) → (rivals : List NotificationTodo) → (actor_id workspace_id : ℕ)
      → (email : String) → Exec WorkspaceInvitationData
  unfolding require_workspace_manager ensure_workspace_writable get_or_create_invitation_account
      invite_account
  create_invitation d draws clock rival rivals actor_id workspace_id email =
      or_retryable workspace_operation_retryable (do
        workspace ← require_workspace_manager visible workspace_id actor_id
        ensure_workspace_writable visible workspace.id
        account ← get_or_create_invitation_account crypto d rival email
        refuse_if (is_disabled account.status) invitation_recipient_unavailable
        invite_account d draws clock rivals actor_id workspace account)

-- the writes of `revoke_invitation`, by the status of the invitation
unfoldable pub revoke_row :
    (ℕ → String) → (now actor_id : ℕ) → WorkspaceInvitation → OneTimeCredential → Db → Db
unfolding invitation_status revoke_workspace_invitation_credential cancel_todo_by_source
    clear_outbox_envelopes workspace_audit
revoke_row str now actor_id i c db =
    let ended = λ (mark : WorkspaceInvitation → WorkspaceInvitation).
      clear_outbox_envelopes (c.id ∷ []) cancelled (
        cancel_todo_by_source now i.account_id TodoKind.workspace_invitation (str i.id)
          (revoke_workspace_invitation_credential c now (write_invitation i.id mark db)).1) in
    if is_expired (invitation_status i (some c) now)
    then ended as_expired
    else if invitation_active i.status
    then add_audit
        (workspace_audit "workspace_invitation_revoked" (some actor_id) (some i.account_id)
          (str i.workspace_id))
        (ended (as_revoked now))
    else db

-- the invitation as `revoke_row` leaves it
unfoldable pub revoked_row :
    (now : ℕ) → WorkspaceInvitation → OneTimeCredential → WorkspaceInvitation
unfolding invitation_status
revoked_row now i c =
    if is_expired (invitation_status i (some c) now)
    then as_expired i
    else if invitation_active i.status
    then as_revoked now i
    else i

module _ (visible : Workspace → Bool) (str : ℕ → String) where
  -- the mail is read before the revocation and refreshed from the row that it has after it
  unfoldable pub revoke_found :
      (now actor_id workspace_id invitation_id : ℕ) → Exec WorkspaceInvitationData
  unfolding credential_by_id revoke_row revoked_row account_by_id invitation_data
  revoke_found now actor_id workspace_id invitation_id = do
    candidate ←
        gets (λ db.
          scalar (λ i. i.workspace_id == workspace_id && i.id == invitation_id) db.invitations)
    i ← or_raise candidate workspace_invitation_unavailable
    found ← gets (credential_by_id i.credential_id)
    c ← or_raise found workspace_invitation_unavailable
    modify (revoke_row str now actor_id i c)
    recipient ← gets (account_by_id i.account_id)
    account ← or_raise recipient workspace_invitation_unavailable
    commit
    mail ← gets (λ db. scalar (λ o. holds o.credential_id c.id) db.outbox)
    pure (invitation_data (revoked_row now i c) account c mail now)

  unfoldable pub revoke_invitation :
      (now actor_id workspace_id invitation_id : ℕ) → Exec WorkspaceInvitationData
  unfolding require_workspace_manager ensure_workspace_writable revoke_found
  revoke_invitation now actor_id workspace_id invitation_id =
      or_retryable workspace_operation_retryable (do
        workspace ← require_workspace_manager visible workspace_id actor_id
        ensure_workspace_writable visible workspace.id
        revoke_found now actor_id workspace.id invitation_id)
