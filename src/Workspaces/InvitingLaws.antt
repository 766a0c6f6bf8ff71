-- ===== src/Workspaces/InvitingLaws.antt =====
-- An account has one active invitation of a workspace after it is invited.
use rulefolio_server.Prelude.{
  ℕ, String, Bool, true, false, ◌≡◌, refl, ◌∙◌, ap, List, [], ◌∷◌, Option, some, none, arith,
  scalar, select, map, update, rowcount, rowcount-zero, All, All-map, All-update, Bool-cases, inl,
  inr,
}
use rulefolio_server.Settings.{Settings}
use rulefolio_server.Crypto.{Crypto}
use rulefolio_server.Identity.Models.{Account, OneTimeCredential, is_active}
use rulefolio_server.Identity.Credentials.{
  Draws, Clock, issue_workspace_invitation_credential, revoke_workspace_invitation_credential,
}
use rulefolio_server.Identity.Sessions.{among}
use rulefolio_server.Notifications.Models.{NotificationTodo, TodoKind, TodoStatus, cancelled}
use rulefolio_server.Notifications.Todos.{create_todo, NewTodo, cancel_todo_by_source}
use rulefolio_server.Notifications.Outbox.{enqueue_token_mail}
use rulefolio_server.Notifications.Scope.{
  end_todo_by_source-Renotified, clear_outbox_envelopes-Renotified,
}
use rulefolio_server.Workspaces.Models.{Workspace, WorkspaceInvitation}
use rulefolio_server.Workspaces.Invitations.{
  invitation_status, is_expired, has_invitation_id, as_expired, write_invitation, withdraw,
  expire_invitation, expire_each, credential_by_id, is_open_invitation, expire_active_invitations,
  WorkspaceInvitationData,
}
use rulefolio_server.Workspaces.Inviting.{
  InvitationDraws, invitation_row, invitation_todo, notify_invited, invite, invite_account,
}
use rulefolio_server.Database.{Db, Session, ok}

withdraw-invitations :
    (key : ℕ → String) (i : WorkspaceInvitation) (c : Option OneTimeCredential) (now : ℕ) (db : Db)
    → (withdraw key i c now db).invitations ≡ db.invitations
unfolding withdraw cancel_todo_by_source revoke_workspace_invitation_credential
withdraw-invitations key i none now db =
    let (o, t, e) =
      end_todo_by_source-Renotified TodoStatus.cancelled now i.account_id
        TodoKind.workspace_invitation (key i.id) db in
    ap (λ (d : Db). d.invitations) e
withdraw-invitations key i (some c) now db =
    let (o, t, e) =
      end_todo_by_source-Renotified TodoStatus.cancelled now i.account_id
        TodoKind.workspace_invitation (key i.id) db in
    let todo = cancel_todo_by_source now i.account_id TodoKind.workspace_invitation (key i.id) db in
    let (o', t', e') =
      clear_outbox_envelopes-Renotified (c.id ∷ []) cancelled
        (revoke_workspace_invitation_credential c now todo).1 in
    ap (λ (d : Db). d.invitations) e' ∙ ap (λ (d : Db). d.invitations) e

-- the open invitations of the account are among those with these ids
abbrev OnlyOpen : (workspace_id account_id : ℕ) → List ℕ → List WorkspaceInvitation → Type 0
OnlyOpen workspace_id account_id ids rows =
    All (λ i. is_open_invitation workspace_id account_id i ≡ true → among ids i.id ≡ true) rows

expired_rows :
    (workspace_id account_id : ℕ) (i : WorkspaceInvitation) (ids : List ℕ)
    (rows : List WorkspaceInvitation)
    → OnlyOpen workspace_id account_id (i.id ∷ ids) rows
    → OnlyOpen workspace_id account_id ids (update (has_invitation_id i.id) as_expired rows)
unfolding is_open_invitation
expired_rows workspace_id account_id i ids rows only =
    All-update
      (λ j. is_open_invitation workspace_id account_id j ≡ true → among (i.id ∷ ids) j.id ≡ true) _
      (has_invitation_id i.id) as_expired rows (λ j h hit a. ground (arith, a))
      (λ j h miss a. ground (arith, h a, miss)) only

-- the loop over the open invitations leaves none open, if it says so
expire_each-closes :
    (workspace_id account_id : ℕ) (key : ℕ → String) (now : ℕ) (locked : Db)
    (is : List WorkspaceInvitation) (db : Db)
    → (expire_each key now locked is db).0 ≡ false
    → OnlyOpen workspace_id account_id (map (λ i. i.id) is) db.invitations
    → All
        (λ i. is_open_invitation workspace_id account_id i ≡ false)
        (expire_each key now locked is db).1.invitations
unfolding expire_each expire_invitation
expire_each-closes workspace_id account_id key now locked [] db none_left only =
    All-map (λ i. is_open_invitation workspace_id account_id i ≡ true → false ≡ true) _
      db.invitations
      (λ i h. elim (Bool-cases (is_open_invitation workspace_id account_id i)) [
        | inl a ↦ cc (h a)
        | inr a ↦ a
      ])
      only
expire_each-closes workspace_id account_id key now locked (i ∷ is) db none_left only =
    let c = credential_by_id i.credential_id locked in
    elim (Bool-cases (is_expired (invitation_status i c now))) [
      | inr live ↦ ground (arith, live, none_left)
      | inl gone ↦
          let after = withdraw key i c now (write_invitation i.id as_expired db) in
          rw (gone, expire_each)
            (expire_each-closes workspace_id account_id key now locked is after
              (ground (arith, gone, none_left))
              (rw (withdraw-invitations key i c now (write_invitation i.id as_expired db))
                (expired_rows workspace_id account_id i (map (λ j. j.id) is) db.invitations only)))
    ]

select-OnlyOpen :
    (workspace_id account_id : ℕ) (rows : List WorkspaceInvitation)
    → OnlyOpen workspace_id account_id
        (map (λ i. i.id) (select (is_open_invitation workspace_id account_id) rows))
        rows
unfolding select
select-OnlyOpen workspace_id account_id [] = tt
select-OnlyOpen workspace_id account_id (i ∷ rows) =
    let p = is_open_invitation workspace_id account_id in
    elim (Bool-cases (is_open_invitation workspace_id account_id i)) [
      | inl mine ↦ (
        λ a. ground (arith, mine),
        All-map
            (λ j.
              is_open_invitation workspace_id account_id j ≡ true
              → among (map (λ k. k.id) (select (is_open_invitation workspace_id account_id) rows))
                  j.id
                ≡ true)
            _ rows (λ j h a. ground (arith, h a, mine))
            (select-OnlyOpen workspace_id account_id rows),
      )
      | inr other ↦ (
        λ a. ground (arith, a, other),
        All-map
            (λ j.
              is_open_invitation workspace_id account_id j ≡ true
              → among (map (λ k. k.id) (select (is_open_invitation workspace_id account_id) rows))
                  j.id
                ≡ true)
            _ rows (λ j h a. ground (arith, h a, other))
            (select-OnlyOpen workspace_id account_id rows),
      )
    ]

create_todo-invitations :
    (id now : ℕ) (n : NewTodo) (rivals : List NotificationTodo) (db : Db)
    → (create_todo id now n rivals db).1.invitations ≡ db.invitations
unfolding create_todo
create_todo-invitations id now n rivals db = ground arith

notify_invited-invitations :
    (str : ℕ → String) (rivals : List NotificationTodo) (w : Workspace) (a : Account)
    (todo_id now id : ℕ) (db : Db)
    → (notify_invited str rivals w a todo_id now id db).1.invitations ≡ db.invitations
unfolding notify_invited
notify_invited-invitations str rivals w a todo_id now id db =
    elim (Bool-cases (is_active a.status)) [
      | inl known ↦
          rw known (create_todo-invitations todo_id now (invitation_todo str w a.id id) rivals db)
      | inr new ↦ rw new refl
    ]

module _ (cfg : Settings) (crypto : Crypto) (visible : Workspace → Bool) (str : ℕ → String) where
  invite-invitations :
      (d : Draws) (draws : InvitationDraws) (clock : Clock) (rivals : List NotificationTodo)
      (actor_id : ℕ) (w : Workspace) (a : Account) (db : Db)
      → (invite cfg crypto visible str d draws clock rivals actor_id w a db).1.invitations
        ≡ invitation_row draws.invitation_id w.id a.id d.credential_id ∷ db.invitations
  unfolding invite issue_workspace_invitation_credential enqueue_token_mail
  invite-invitations d draws clock rivals actor_id w a db =
      notify_invited-invitations str rivals w a draws.todo_id (clock 2) draws.invitation_id _

  invite_account-writes :
      (d : Draws) (draws : InvitationDraws) (clock : Clock) (rivals : List NotificationTodo)
      (actor_id : ℕ) (w : Workspace) (a : Account) (s : Session) {r : WorkspaceInvitationData}
      → let expiry = expire_active_invitations str w.id a.id (clock 0) s.current in
        (invite_account cfg crypto visible str d draws clock rivals actor_id w a s).0 ≡ ok r
        → (expiry.0 ≡ false)
          × ((invite_account cfg crypto visible str d draws clock rivals actor_id w a s).1.durable
              ≡ (invite cfg crypto visible str d draws clock rivals actor_id w a expiry.1).1)
  unfolding invite_account
  invite_account-writes d draws clock rivals actor_id w a s e = ground (arith, e)

  -- After the part of create_invitation that follows its checks of the workspace and the account
  -- succeeds, exactly one active invitation of the workspace is for the account: the new one.
  pub one_invitation :
      (d : Draws) (draws : InvitationDraws) (clock : Clock) (rivals : List NotificationTodo)
      (actor_id : ℕ) (w : Workspace) (a : Account) (s : Session) {r : WorkspaceInvitationData}
      → let run = invite_account cfg crypto visible str d draws clock rivals actor_id w a s in
        let mine = is_open_invitation w.id a.id in
        run.0 ≡ ok r
        → (rowcount mine run.1.durable.invitations ≡ 1)
          × (scalar mine run.1.durable.invitations
              ≡ some (invitation_row draws.invitation_id w.id a.id d.credential_id))
  unfolding is_open_invitation invitation_row rowcount scalar expire_active_invitations
  one_invitation d draws clock rivals actor_id w a s {r} e =
      let (none_left, wrote) =
        invite_account-writes d draws clock rivals actor_id w a s {r = r} e in
      let before = select (is_open_invitation w.id a.id) s.current.invitations in
      let closed =
        expire_each-closes w.id a.id str (clock 0) s.current before s.current none_left
          (select-OnlyOpen w.id a.id s.current.invitations) in
      let expiry = (expire_active_invitations str w.id a.id (clock 0) s.current).1 in
      let added = invite-invitations d draws clock rivals actor_id w a expiry in
      let zero = rowcount-zero (is_open_invitation w.id a.id) expiry.invitations closed in
      (rw wrote (rw added (ground (arith, zero))), rw wrote (rw added (ground arith)))
