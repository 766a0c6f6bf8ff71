-- ===== src/Workspaces/CloseLaws.antt =====
-- What `close_workspace`, the body of the exit of a workspace, leaves in each table.
use rulefolio_server.Prelude.{
  ℕ, Bool, true, false, ◌≡◌, refl, ◌&&◌, ◌==◌, is_none, some, none, List, [], ◌∷◌, arith, delete,
  select, map, All, All-update, All-pure, All-map, Bool-cases, inl, inr, Option, update, ◌∙◌, ap,
  scalar-none, scalar-delete,
}
use rulefolio_server.Identity.Models.{SessionRecord, OneTimeCredential, RevokeReason}
use rulefolio_server.Identity.Credentials.{revoke_workspace_invitation_credential}
use rulefolio_server.Identity.Sessions.{among, ended, revoke_sessions_for_accounts}
use rulefolio_server.Notifications.Models.{cancelled, is_open}
use rulefolio_server.Notifications.Closing.{end_workspace}
use rulefolio_server.Notifications.Outbox.{clear_outbox_envelopes}
use rulefolio_server.Notifications.Todos.{cancel_workspace_todos}
use rulefolio_server.Notifications.Scope.{
  cancel_workspace_todos-Renotified, clear_outbox_envelopes-Renotified,
}
use rulefolio_server.Workspaces.Models.{WorkspaceInvitation, WorkspaceMember, invitation_active}
use rulefolio_server.Workspaces.Invitations.{
  write_invitation, as_revoked, credential_by_id, has_invitation_id,
}
use rulefolio_server.Workspaces.Exit.{
  completed, in_workspace, revoke_credential_of, revoke_all, close_workspace,
}
use rulefolio_server.Workspaces.Membership.{has_workspace_id}
use rulefolio_server.Database.{Db}

-- no invitation in `rows` is active for the workspace, but those whose id is among `ids`
abbrev OnlyActive : ℕ → List ℕ → List WorkspaceInvitation → Type 0
OnlyActive workspace_id ids rows =
    All (λ i. in_workspace workspace_id i ≡ true → among ids i.id ≡ true) rows

revoke_credential_of-invitations :
    (now : ℕ) (c : Option OneTimeCredential) (db : Db)
    → (revoke_credential_of now c db).invitations ≡ db.invitations
unfolding revoke_credential_of revoke_workspace_invitation_credential
revoke_credential_of-invitations now none db = refl
revoke_credential_of-invitations now (some c) db = refl

-- the loop revokes each invitation that it is given
revoke_all-OnlyActive :
    (workspace_id now : ℕ) (locked : Db) (is : List WorkspaceInvitation) (db : Db)
    → OnlyActive workspace_id (map (λ i. i.id) is) db.invitations
    → All (λ i. in_workspace workspace_id i ≡ false) (revoke_all now locked is db).invitations
unfolding revoke_all
revoke_all-OnlyActive workspace_id now locked [] db only =
    All-map (λ i. in_workspace workspace_id i ≡ true → false ≡ true) _ db.invitations
      (λ i h. ground (arith, h)) only
revoke_all-OnlyActive workspace_id now locked (i ∷ is) db only =
    revoke_all-OnlyActive workspace_id now locked is _ (
      rw
        (revoke_credential_of-invitations now (credential_by_id i.credential_id locked)
          (write_invitation i.id (as_revoked now) db))
        (All-update
          (λ j. in_workspace workspace_id j ≡ true → among (map (λ k. k.id) (i ∷ is)) j.id ≡ true) _
          (has_invitation_id i.id) (as_revoked now) db.invitations
          (λ j h hit. λ open_now. ground (arith, open_now))
          (λ j h miss. λ open_now. ground (arith, h open_now, miss)) only))

select-OnlyActive :
    (workspace_id : ℕ) (rows : List WorkspaceInvitation)
    → OnlyActive workspace_id (map (λ i. i.id) (select (in_workspace workspace_id) rows)) rows
unfolding select
select-OnlyActive workspace_id [] = tt
select-OnlyActive workspace_id (i ∷ rows) = elim (Bool-cases (in_workspace workspace_id i)) [
  | inl mine ↦ rw mine (
    λ _. ground arith,
    All-map
        (λ j.
          in_workspace workspace_id j ≡ true
          → among (map (λ k. k.id) (select (in_workspace workspace_id) rows)) j.id ≡ true)
        _ rows (λ j h a. ground (arith, h a)) (select-OnlyActive workspace_id rows),
  )
  | inr other ↦ (
    λ a. ground (arith, a, other),
    All-map
        (λ j.
          in_workspace workspace_id j ≡ true
          → among (map (λ k. k.id) (select (in_workspace workspace_id) rows)) j.id ≡ true)
        _ rows (λ j h a. ground (arith, h a, other)) (select-OnlyActive workspace_id rows),
  )
]

-- the accounts of the members are among those whose sessions are revoked
abbrev pub member_ids : ℕ → List WorkspaceMember → List ℕ
member_ids workspace_id rows =
    map (λ m. m.account_id) (select (λ m. m.workspace_id == workspace_id) rows)

members_listed :
    (workspace_id : ℕ) (rows : List WorkspaceMember)
    → All
        (λ m.
          m.workspace_id == workspace_id ≡ true
          → among (member_ids workspace_id rows) m.account_id ≡ true)
        rows
unfolding select
members_listed workspace_id [] = tt
members_listed workspace_id (m ∷ rows) = (
  λ mine. ground (arith, mine),
  All-map
      (λ n.
        n.workspace_id == workspace_id ≡ true
        → among (member_ids workspace_id rows) n.account_id ≡ true)
      _ rows (λ n h mine. ground (arith, h mine)) (members_listed workspace_id rows),
)

-- no session of the account is live
abbrev pub HasNoSession : ℕ → List SessionRecord → Type 0
HasNoSession account_id sessions =
    All (λ r. r.account_id == account_id && is_none r.revoked_at ≡ false) sessions

revoked_sessions :
    (now : ℕ) (ids : List ℕ) (reason : RevokeReason) (db : Db) (account_id : ℕ)
    → among ids account_id ≡ true
    → HasNoSession account_id (revoke_sessions_for_accounts now ids reason db).sessions
unfolding revoke_sessions_for_accounts
revoked_sessions now [] reason db account_id h = cc
revoked_sessions now (i ∷ ids) reason db account_id h =
    All-update (λ r. Unit {0}) _ _ (ended reason now) db.sessions (λ r u hit. ground arith)
      (λ r u miss. ground (arith, h)) (All-pure (λ r. Unit {0}) db.sessions (λ r. tt))

-- what a closed workspace has no more of, and the sessions of the members that it had before
abbrev pub IsClosed : ℕ → (before : Db) → Db → Type 0
IsClosed workspace_id before db =
    All (λ i. i.workspace_id == workspace_id && invitation_active i.status ≡ false) db.invitations
    × All (λ m. m.workspace_id == workspace_id ≡ false) db.members
    × All (λ a. a.workspace_id == workspace_id ≡ false) db.accesses
    × All (λ t. t.workspace_id == workspace_id && is_open t.status ≡ false) db.todos
    × All (λ m. m.workspace_id == workspace_id ≡ true → HasNoSession m.account_id db.sessions)
        before.members

pub sessions_only :
    (now : ℕ) (ids : List ℕ) (reason : RevokeReason) (db : Db)
    → (revoke_sessions_for_accounts now ids reason db
        ≡ record db { sessions = (revoke_sessions_for_accounts now ids reason db).sessions })
unfolding revoke_sessions_for_accounts
sessions_only now [] reason db = refl
sessions_only now (i ∷ ids) reason db = refl

deleted : {A : Type 0} (p : A → Bool) (xs : List A) → All (λ x. p x ≡ false) (delete p xs)
deleted p xs = scalar-none p (delete p xs) (scalar-delete p xs)

pub close_workspace-IsClosed :
    (now workspace_id : ℕ) (db : Db)
    → IsClosed workspace_id db (close_workspace now workspace_id db)
unfolding close_workspace
close_workspace-IsClosed now workspace_id db =
    let invitations = select (in_workspace workspace_id) db.invitations in
    let revoked = revoke_all now db invitations db in
    let ids = map (λ (i : WorkspaceInvitation). i.credential_id) invitations in
    let cleared = clear_outbox_envelopes ids cancelled revoked in
    let quiet = cancel_workspace_todos now workspace_id cleared in
    let emptied = record quiet {
      accesses = delete (λ a. a.workspace_id == workspace_id) quiet.accesses;
      members = delete (λ m. m.workspace_id == workspace_id) quiet.members;
    } in
    let same =
      sessions_only now (member_ids workspace_id db.members) (RevokeReason.other "workspace_exit")
        emptied in
    let (o, t, clear_keeps) = clear_outbox_envelopes-Renotified ids cancelled revoked in
    let (o', t', quiet_keeps) = cancel_workspace_todos-Renotified now workspace_id cleared in
    (
      rw same (
          rw quiet_keeps (
            rw clear_keeps (
              revoke_all-OnlyActive workspace_id now db invitations db
                (select-OnlyActive workspace_id db.invitations)))),
      rw same (deleted (λ m. m.workspace_id == workspace_id) quiet.members),
      rw same (deleted (λ a. a.workspace_id == workspace_id) quiet.accesses),
      rw same (end_workspace now workspace_id cleared).0,
      All-map
          (λ m.
            m.workspace_id == workspace_id ≡ true
            → among (member_ids workspace_id db.members) m.account_id ≡ true)
          _ db.members
          (λ m h mine.
            revoked_sessions now (member_ids workspace_id db.members)
              (RevokeReason.other "workspace_exit") emptied m.account_id (h mine))
          (members_listed workspace_id db.members),
    )

revoke_all-workspaces :
    (now : ℕ) (locked : Db) (is : List WorkspaceInvitation) (db : Db)
    → (revoke_all now locked is db).workspaces ≡ db.workspaces
unfolding revoke_all
revoke_all-workspaces now locked [] db = refl
revoke_all-workspaces now locked (i ∷ is) db =
    revoke_all-workspaces now locked is _
    ∙ one now (credential_by_id i.credential_id locked) (write_invitation i.id (as_revoked now) db)
  where
    one :
        (now : ℕ) (c : Option OneTimeCredential) (db : Db)
        → (revoke_credential_of now c db).workspaces ≡ db.workspaces
    one now none db = unfold revoke_credential_of in refl
    one now (some c) db = unfold revoke_credential_of revoke_workspace_invitation_credential in refl

pub close_workspace-workspaces :
    (now workspace_id : ℕ) (db : Db)
    → (close_workspace now workspace_id db).workspaces
      ≡ update (has_workspace_id workspace_id) (completed now) db.workspaces
unfolding close_workspace
close_workspace-workspaces now workspace_id db =
    let invitations = select (in_workspace workspace_id) db.invitations in
    let revoked = revoke_all now db invitations db in
    let ids = map (λ (i : WorkspaceInvitation). i.credential_id) invitations in
    let cleared = clear_outbox_envelopes ids cancelled revoked in
    let quiet = cancel_workspace_todos now workspace_id cleared in
    let emptied = record quiet {
      accesses = delete (λ a. a.workspace_id == workspace_id) quiet.accesses;
      members = delete (λ m. m.workspace_id == workspace_id) quiet.members;
    } in
    let same =
      sessions_only now (member_ids workspace_id db.members) (RevokeReason.other "workspace_exit")
        emptied in
    let (o, t, clear_keeps) = clear_outbox_envelopes-Renotified ids cancelled revoked in
    let (o', t', quiet_keeps) = cancel_workspace_todos-Renotified now workspace_id cleared in
    rw same (
      rw quiet_keeps (
        rw clear_keeps (
          ap (λ rows. update (has_workspace_id workspace_id) (completed now) rows)
            (revoke_all-workspaces now db invitations db))))
