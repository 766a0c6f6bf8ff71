-- ===== src/Workspaces/Accepting.antt =====
-- The three ways to accept an invitation in src/app/workspaces/service.py.
use rulefolio_server.Prelude.{
  ℕ, String, Bool, true, false, not, ◌&&◌, ◌||◌, Option, none, some, [], ◌∷◌, ◌==◌, if◌then◌else◌,
  scalar,
}
use rulefolio_server.Settings.{Settings}
use rulefolio_server.Crypto.{Crypto}
use rulefolio_server.Identity.Models.{Account, is_pending_activation, OneTimeCredential}
use rulefolio_server.Identity.Accounts.{activate_invited_account}
use rulefolio_server.Identity.Attempts.{attempt_subject}
use rulefolio_server.Identity.Passwords.{validate_password}
use rulefolio_server.Identity.Sessions.{account_by_id, SessionResult}
use rulefolio_server.Identity.Credentials.{
  Draws, Clock, after, consume_workspace_invitation_credential,
}
use rulefolio_server.Notifications.Models.{cancelled, TodoKind}
use rulefolio_server.Notifications.Outbox.{clear_outbox_envelopes}
use rulefolio_server.Notifications.Todos.{complete_todo_by_source}
use rulefolio_server.Notifications.Requests.{holds_key}
use rulefolio_server.Workspaces.Models.{
  Workspace, WorkspaceInvitation, InvitationStatus, Operation, same_operation, current_session,
  account_activation, inbox,
}
use rulefolio_server.Workspaces.Members.{has_workspace_member}
use rulefolio_server.Workspaces.Access.{WorkspaceData, workspace_data, ensure_workspace_writable}
use rulefolio_server.Workspaces.Invitations.{
  invitation_status, is_expired, write_invitation, as_expired, credential_by_id, expire_invitation,
  lock_invitation_for_exchange, is_exchange_available, invitation_retry_after,
  record_invitation_attempt, record_unavailable, clear_invitation_attempt,
}
use rulefolio_server.Workspaces.Membership.{insert_member, workspace_audit}
use rulefolio_server.Database.{
  Db, Exec, pure, gets, modify, statement, commit, commit_raise, raise, or_raise, refuse_if,
  rollback, rollback_raise, or_retryable, add_audit, ◌>>=◌, ◌>>◌, workspace_operation_retryable,
  workspace_invitation_unavailable, workspace_invitation_account_mismatch,
  workspace_invitation_rate_limited,
}

pub record InvitationExchangeResult : Type 0 where
  pub workspace : WorkspaceData
  pub login_required : Bool
  pub session_result : Option SessionResult

abbrev pub joined : Workspace → (account_id : ℕ) → InvitationExchangeResult
joined w account_id = record {
  workspace = workspace_data w account_id;
  login_required = false;
  session_result = none;
}

abbrev pub is_accepted : InvitationStatus → Bool
is_accepted InvitationStatus.accepted = true
is_accepted _ = false

abbrev pub by_operation : Operation → Option Operation → Bool
by_operation o none = false
by_operation o (some p) = same_operation p o

-- the invitation was accepted by this very request
unfoldable pub is_repeated : Operation → String → WorkspaceInvitation → Bool
is_repeated operation key i =
    by_operation operation i.accepted_operation && holds_key i.accepted_operation_key key

abbrev pub as_accepted : Operation → String → (now : ℕ) → WorkspaceInvitation → WorkspaceInvitation
as_accepted operation key now i = record i {
  status = InvitationStatus.accepted;
  accepted_at = some now;
  accepted_operation_key = some key;
  accepted_operation = some operation;
}

-- the new member, the accepted invitation and the consumed credential; `false` where the
-- credential could not be consumed
unfoldable pub accept :
    Operation
    → (key : String) → (now account_id : ℕ) → WorkspaceInvitation
    → OneTimeCredential
    → Exec Bool
unfolding insert_member consume_workspace_invitation_credential
accept operation key now account_id i c = do
  insert_member i.workspace_id account_id
  modify (write_invitation i.id (as_accepted operation key now))
  statement (consume_workspace_invitation_credential c now)

-- the audit of a granted membership
unfoldable pub granted : (ℕ → String) → (account_id workspace_id : ℕ) → Db → Db
unfolding workspace_audit
granted str account_id workspace_id = add_audit (
    workspace_audit "workspace_member_granted" (some account_id) (some account_id)
      (str workspace_id))

-- the to-do and the mail of an accepted invitation
unfoldable pub settle :
    (ℕ → String) → (now account_id : ℕ) → WorkspaceInvitation → OneTimeCredential → Db → Db
unfolding complete_todo_by_source clear_outbox_envelopes
settle str now account_id i c db =
    clear_outbox_envelopes (c.id ∷ []) cancelled
      (complete_todo_by_source now account_id TodoKind.workspace_invitation (str i.id) db)

module _ (visible : Workspace → Bool) (str : ℕ → String) where
  -- the workspace as row security shows it
  unfoldable pub shown_workspace : ℕ → Db → Option Workspace
  shown_workspace workspace_id db = scalar (λ w. w.id == workspace_id && visible w) db.workspaces

  -- `exchange_inbox_invitation` for an invitation that can be accepted
  unfoldable pub join_from_inbox :
      (now actor_id : ℕ)
      → (key : String) → Workspace
      → WorkspaceInvitation
      → OneTimeCredential
      → Exec InvitationExchangeResult
  unfolding has_workspace_member accept settle granted workspace_data
  join_from_inbox now actor_id key workspace i c = do
    member ← gets (has_workspace_member i.workspace_id actor_id)
    refuse_if member workspace_invitation_unavailable
    consumed ← accept inbox key now actor_id i c
    refuse_if (not consumed) workspace_invitation_unavailable
    modify (settle str now actor_id i c)
    modify (granted str actor_id i.workspace_id)
    commit
    pure (joined workspace actor_id)

  -- an invitation that can not be accepted any more: it is marked as expired if it is
  unfoldable pub decline_from_inbox :
      (now : ℕ) → WorkspaceInvitation → OneTimeCredential → Exec InvitationExchangeResult
  unfolding expire_invitation
  decline_from_inbox now i c = do
    gone ← statement (expire_invitation str i (some c) now)
    if gone then commit else rollback
    raise workspace_invitation_unavailable

  -- the branches of `exchange_inbox_invitation` after its guards
  unfoldable pub answer_from_inbox :
      (now actor_id : ℕ)
      → (key : String) → Workspace
      → WorkspaceInvitation
      → OneTimeCredential
      → Exec InvitationExchangeResult
  unfolding is_repeated is_exchange_available join_from_inbox decline_from_inbox
  answer_from_inbox now actor_id key workspace i c =
      if is_accepted i.status
      then (if is_repeated inbox key i
          then (commit >> pure (joined workspace actor_id))
          else rollback_raise workspace_invitation_unavailable)
      else if is_exchange_available c i now
      then join_from_inbox now actor_id key workspace i c
      else decline_from_inbox now i c

  -- the guards of `exchange_inbox_invitation`
  unfoldable pub find_in_inbox :
      (actor_id invitation_id : ℕ) → Exec (WorkspaceInvitation × OneTimeCredential × Workspace)
  unfolding credential_by_id shown_workspace ensure_workspace_writable
  find_in_inbox actor_id invitation_id = do
    mine ←
        gets (λ db. scalar (λ i. i.id == invitation_id && i.account_id == actor_id) db.invitations)
    i ← or_raise mine workspace_invitation_unavailable
    c ← or_raise (← gets (credential_by_id i.credential_id)) workspace_invitation_unavailable
    there ← gets (shown_workspace i.workspace_id)
    workspace ← or_raise there workspace_invitation_unavailable
    ensure_workspace_writable visible workspace.id
    pure (i, c, workspace)

  unfoldable pub exchange_inbox_invitation :
      (now actor_id invitation_id : ℕ) → (key : String) → Exec InvitationExchangeResult
  unfolding find_in_inbox answer_from_inbox
  exchange_inbox_invitation now actor_id invitation_id key =
      or_retryable workspace_operation_retryable (
        find_in_inbox actor_id invitation_id >>= λ (i, c, workspace).
        answer_from_inbox now actor_id key workspace i c)

  module _ (cfg : Settings) (crypto : Crypto) where
    -- the part that the two exchanges of a token share: the token finds an invitation, and the
    -- limiter lets it pass
    unfoldable pub find_by_token :
        (now subject : ℕ) → String → Exec (OneTimeCredential × WorkspaceInvitation)
    unfolding lock_invitation_for_exchange invitation_retry_after
    find_by_token now subject token = do
      found ← gets (lock_invitation_for_exchange crypto token)
      (c, i) ← or_raise found workspace_invitation_unavailable
      retry_after ← statement (invitation_retry_after cfg now subject)
      elim retry_after [
        | some seconds ↦ commit_raise (workspace_invitation_rate_limited seconds)
        | none ↦ pure (c, i)
      ]

    -- an invitation that can not be accepted: it is marked as expired if it is, and the failed
    -- attempt is recorded
    unfoldable pub decline :
        (now later subject : ℕ)
        → WorkspaceInvitation
        → OneTimeCredential
        → Exec InvitationExchangeResult
    unfolding invitation_status record_unavailable
    decline now later subject i c = do
      modify (λ db.
          if is_expired (invitation_status i (some c) now)
          then write_invitation i.id as_expired db
          else db)
      record_unavailable cfg later subject

    -- `exchange_current_session_invitation` for an invitation that can be accepted
    unfoldable pub join_session :
        Clock
        → (subject actor_id : ℕ) → (key : String) → Workspace
        → WorkspaceInvitation
        → OneTimeCredential
        → Exec InvitationExchangeResult
    unfolding has_workspace_member record_unavailable accept settle clear_invitation_attempt granted
    join_session clock subject actor_id key workspace i c = do
      member ← gets (has_workspace_member i.workspace_id actor_id)
      if member then record_unavailable cfg (clock 2) subject else (do
        consumed ← accept current_session key (clock 1) actor_id i c
        if consumed
            then (do
              modify (settle str (clock 2) actor_id i c)
              modify (clear_invitation_attempt subject)
              modify (granted str actor_id i.workspace_id)
              commit
              pure (joined workspace actor_id))
            else (do rollback; record_unavailable cfg (clock 2) subject))

    -- the branches after the guards
    unfoldable pub answer_session :
        Clock
        → (subject actor_id : ℕ) → (key : String) → Workspace
        → WorkspaceInvitation
        → OneTimeCredential
        → Exec InvitationExchangeResult
    unfolding is_repeated clear_invitation_attempt record_unavailable is_exchange_available
        join_session decline
    answer_session clock subject actor_id key workspace i c =
        if is_accepted i.status
        then (if is_repeated current_session key i
            then (do
              modify (clear_invitation_attempt subject)
              commit
              pure (joined workspace actor_id))
            else record_unavailable cfg (clock 2) subject)
        else if is_exchange_available c i (clock 1)
        then join_session clock subject actor_id key workspace i c
        else decline (clock 1) (clock 2) subject i c

    unfoldable pub exchange_current_session_invitation :
        Clock → (actor_id : ℕ) → (token key : String) → Exec InvitationExchangeResult
    unfolding attempt_subject find_by_token record_invitation_attempt shown_workspace
        record_unavailable ensure_workspace_writable answer_session
    exchange_current_session_invitation clock actor_id token key = do
      subject ← attempt_subject cfg crypto token
      or_retryable workspace_operation_retryable (do
        (c, i) ← find_by_token (clock 0) subject token
        if i.account_id == actor_id
            then (do
              there ← gets (shown_workspace i.workspace_id)
              elim there [
                | none ↦ record_unavailable cfg (clock 2) subject
                | some workspace ↦ do
                  ensure_workspace_writable visible workspace.id
                  answer_session clock subject actor_id key workspace i c
              ])
            else (do
              modify (record_invitation_attempt cfg (clock 2) subject)
              commit_raise workspace_invitation_account_mismatch))

    -- `exchange_account_activation_invitation` for an invitation that can be accepted
    unfoldable pub join_activated :
        Draws
        → Clock
        → (subject : ℕ) → (password key : String) → Workspace
        → Account
        → WorkspaceInvitation
        → OneTimeCredential
        → Exec InvitationExchangeResult
    unfolding has_workspace_member record_unavailable insert_member activate_invited_account
        consume_workspace_invitation_credential clear_invitation_attempt granted workspace_data
    join_activated d clock subject password key workspace account i c = do
      member ← gets (has_workspace_member i.workspace_id account.id)
      if not (is_pending_activation account.status) || member
          then record_unavailable cfg (clock 2) subject
          else (do
            insert_member i.workspace_id account.id
            session_result ← activate_invited_account cfg crypto d (after 2 clock) account password
            modify (write_invitation i.id (as_accepted account_activation key (clock 1)))
            consumed ← statement (consume_workspace_invitation_credential c (clock 1))
            if consumed
                then (do
                  modify (clear_invitation_attempt subject)
                  modify (granted str account.id i.workspace_id)
                  commit
                  pure (record (joined workspace account.id) {
                    session_result = some session_result;
                  }))
                else (do rollback; record_unavailable cfg (clock 5) subject))

    -- the branches after the guards
    unfoldable pub answer_activation :
        Draws
        → Clock
        → (subject : ℕ) → (password key : String) → Workspace
        → Account
        → WorkspaceInvitation
        → OneTimeCredential
        → Exec InvitationExchangeResult
    unfolding is_repeated clear_invitation_attempt record_unavailable is_exchange_available
        join_activated decline workspace_data
    answer_activation d clock subject password key workspace account i c =
        if is_accepted i.status
        then (if is_repeated account_activation key i
            then (do
              modify (clear_invitation_attempt subject)
              commit
              pure (record (joined workspace i.account_id) { login_required = true }))
            else record_unavailable cfg (clock 2) subject)
        else if is_exchange_available c i (clock 1)
        then join_activated d clock subject password key workspace account i c
        else decline (clock 1) (clock 2) subject i c

    unfoldable pub exchange_account_activation_invitation :
        Draws → Clock → (token password key : String) → Exec InvitationExchangeResult
    unfolding validate_password attempt_subject find_by_token account_by_id shown_workspace
        record_unavailable answer_activation
    exchange_account_activation_invitation d clock token password key = do
      validate_password cfg password
      subject ← attempt_subject cfg crypto token
      or_retryable workspace_operation_retryable (do
        (c, i) ← find_by_token (clock 0) subject token
        recipient ← gets (account_by_id i.account_id)
        there ← gets (shown_workspace i.workspace_id)
        elim recipient [
          | none ↦ record_unavailable cfg (clock 2) subject
          | some account ↦ elim there [
            | none ↦ record_unavailable cfg (clock 2) subject
            | some workspace ↦ answer_activation d clock subject password key workspace account i c
          ]
        ])
