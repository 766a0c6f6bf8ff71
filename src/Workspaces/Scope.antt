-- ===== src/Workspaces/Scope.antt =====
-- Which tables the invitation functions leave alone: works, accesses and members.
use rulefolio_server.Prelude.{
  ℕ, String, List, [], ◌∷◌, Option, none, some, ◌≡◌, refl, ◌∙◌, ap, select,
}
use rulefolio_server.Identity.Models.{OneTimeCredential}
use rulefolio_server.Identity.Credentials.{revoke_workspace_invitation_credential}
use rulefolio_server.Notifications.Models.{cancelled, TodoStatus, TodoKind}
use rulefolio_server.Notifications.Outbox.{clear_outbox_envelopes}
use rulefolio_server.Notifications.Todos.{cancel_todo_by_source}
use rulefolio_server.Notifications.Scope.{
  Renotified, end_todo_by_source-Renotified, clear_outbox_envelopes-Renotified,
}
use rulefolio_server.Workspaces.Models.{WorkspaceInvitation}
use rulefolio_server.Workspaces.Invitations.{
  credential_by_id, write_invitation, as_revoked, is_open_invitation,
}
use rulefolio_server.Workspaces.Membership.{revoke_one, revoke_each, revoke_invitations}
use rulefolio_server.Database.{Db}

abbrev pub SameWorks : Db → Db → Type 0
SameWorks db db' =
    (db'.works ≡ db.works) × (db'.accesses ≡ db.accesses) × (db'.members ≡ db.members)

pub SameWorks-trans : (a b c : Db) → SameWorks a b → SameWorks b c → SameWorks a c
SameWorks-trans a b c (w, x, m) (w', x', m') = (w' ∙ w, x' ∙ x, m' ∙ m)

pub Renotified-SameWorks : (db db' : Db) → Renotified db db' → SameWorks db db'
Renotified-SameWorks db db' (o, t, e) =
    (ap (λ (d : Db). d.works) e, ap (λ (d : Db). d.accesses) e, ap (λ (d : Db). d.members) e)

revoke_one-SameWorks :
    (key : ℕ → String) (now : ℕ) (i : WorkspaceInvitation) (c : Option OneTimeCredential) (db : Db)
    → SameWorks db (revoke_one key now i c db)
unfolding revoke_one cancel_todo_by_source revoke_workspace_invitation_credential
revoke_one-SameWorks key now i none db =
    Renotified-SameWorks (write_invitation i.id (as_revoked now) db) _ (
      end_todo_by_source-Renotified TodoStatus.cancelled now i.account_id
        TodoKind.workspace_invitation (key i.id) (write_invitation i.id (as_revoked now) db))
revoke_one-SameWorks key now i (some c) db =
    Renotified-SameWorks (write_invitation i.id (as_revoked now) db)
      (cancel_todo_by_source now i.account_id TodoKind.workspace_invitation (key i.id)
        (write_invitation i.id (as_revoked now) db))
      (end_todo_by_source-Renotified TodoStatus.cancelled now i.account_id
        TodoKind.workspace_invitation (key i.id) (write_invitation i.id (as_revoked now) db))

revoke_each-SameWorks :
    (key : ℕ → String) (now : ℕ) (locked : Db) (is : List WorkspaceInvitation) (db : Db)
    → SameWorks db (revoke_each key now locked is db).1
unfolding revoke_each
revoke_each-SameWorks key now locked [] db = (refl, refl, refl)
revoke_each-SameWorks key now locked (i ∷ is) db =
    let c = credential_by_id i.credential_id locked in
    let first = revoke_one key now i c db in
    SameWorks-trans db first (revoke_each key now locked is first).1
      (revoke_one-SameWorks key now i c db) (revoke_each-SameWorks key now locked is first)

pub revoke_invitations-SameWorks :
    (key : ℕ → String) (now workspace_id account_id : ℕ) (db : Db)
    → SameWorks db (revoke_invitations key now workspace_id account_id db)
unfolding revoke_invitations
revoke_invitations-SameWorks key now workspace_id account_id db =
    let mine = select (is_open_invitation workspace_id account_id) db.invitations in
    let run = revoke_each key now db mine db in
    SameWorks-trans db run.1 (clear_outbox_envelopes run.0 cancelled run.1)
      (revoke_each-SameWorks key now db mine db)
      (Renotified-SameWorks run.1 _ (clear_outbox_envelopes-Renotified run.0 cancelled run.1))
