-- ===== src/Examples/Workspaces.antt =====
-- The invitations and the exit of a workspace at concrete inputs.
use rulefolio_server.Prelude.{
  ℕ, String, true, false, some, [], ◌≡◌, ◌⊎◌, ◌<◌, ◌≤◌, ◌==◌, ◌&&◌, not, refl, All, is_none, str_eq,
  scalar, select, pick, rowcount, update,
}
use rulefolio_server.Workspaces.Models.{Workspace, WorkspaceInvitation, inbox, invitation_active}
use rulefolio_server.Workspaces.Members.{has_workspace_member}
use rulefolio_server.Workspaces.Invitations.{is_open_invitation, invitation_data}
use rulefolio_server.Workspaces.Inviting.{InvitationDraws, invitation_row, invite, invite_account}
use rulefolio_server.Workspaces.InvitingLaws.{one_invitation}
use rulefolio_server.Workspaces.Accepting.{
  joined, is_repeated, as_accepted, shown_workspace, exchange_inbox_invitation,
}
use rulefolio_server.Workspaces.InboxLaws.{mine}
use rulefolio_server.Workspaces.InboxReplay.{inbox_joins, inbox_repeats}
use rulefolio_server.Workspaces.Exit.{
  is_due_exit, read_until_of, sooner, process_next_due_workspace_exit,
}
use rulefolio_server.Workspaces.CloseLaws.{IsClosed}
use rulefolio_server.Workspaces.ExitLaws.{IsEnding, is_free, exit_closes}
use rulefolio_server.Workspaces.ExitProgress.{exits_end}
use rulefolio_server.Recovery.Gate.{dispatcher_allowed}
use rulefolio_server.Database.{Db, begin, ok, err, workspace_invitation_unavailable}
use rulefolio_server.Examples.Fixtures.{cfg, crypto, draws, clock, unlocked, taken_always}
use rulefolio_server.Examples.Teams.{everything, str, team, guest, invited_db, leaving_db}

abbrev joined_db : Db
joined_db =
    (exchange_inbox_invitation everything str 1000 2 18 "key"
      (begin invited_db taken_always)).1.durable

inbox_joins_example :
    (i : WorkspaceInvitation) × (w : Workspace) × (scalar
        (mine everything str 1000 2 "key" 18)
        invited_db.invitations
      ≡ some i)
    × (shown_workspace everything str i.workspace_id invited_db ≡ some w)
    × (is_none w.exit_requested_at ≡ true)
    × (joined team 2 ≡ joined w 2)
    × (((is_repeated inbox "key" i ≡ true) × (joined_db ≡ invited_db))
        ⊎ ((invitation_active i.status ≡ true)
            × (has_workspace_member i.workspace_id 2 invited_db ≡ false)
            × (has_workspace_member i.workspace_id 2 joined_db ≡ true)
            × (scalar (mine everything str 1000 2 "key" 18) joined_db.invitations
                ≡ some (as_accepted inbox "key" 1000 i))))
unfolding exchange_inbox_invitation scalar rowcount
inbox_joins_example =
    inbox_joins everything str 1000 2 18 "key" invited_db taken_always {r = joined team 2} refl

inbox_repeats_example :
    ((exchange_inbox_invitation everything str 2000 2 18 "key" (begin joined_db taken_always)).0
      ≡ ok (joined team 2))
    × ((exchange_inbox_invitation everything str 2000 2 18 "key"
          (begin joined_db taken_always)).1.durable
        ≡ joined_db)
    × (str_eq "key" "other" ≡ false
        → ((exchange_inbox_invitation everything str 2000 2 18 "other"
              (begin joined_db taken_always)).0
            ≡ err workspace_invitation_unavailable)
          × ((exchange_inbox_invitation everything str 2000 2 18 "other"
                (begin joined_db taken_always)).1.durable
              ≡ joined_db))
unfolding exchange_inbox_invitation scalar rowcount
inbox_repeats_example =
    inbox_repeats everything str 1000 2000 2 18 "key" "other" invited_db taken_always taken_always
      {r = joined team 2} refl refl

abbrev invitation_draws : InvitationDraws
invitation_draws = record { invitation_id = 28; todo_id = 38 }

abbrev uninvited_db : Db
uninvited_db = record invited_db { invitations = [] }

one_invitation_example :
    let run =
      invite_account cfg crypto everything str draws invitation_draws clock [] 1 team guest
        (begin uninvited_db taken_always) in
    (rowcount (is_open_invitation 5 2) run.1.durable.invitations ≡ 1)
    × (scalar (is_open_invitation 5 2) run.1.durable.invitations ≡ some (invitation_row 28 5 2 29))
unfolding invite_account scalar select
one_invitation_example =
    one_invitation cfg crypto everything str draws invitation_draws clock [] 1 team guest
      (begin uninvited_db taken_always)
      {r = invitation_data
        (invite cfg crypto everything str draws invitation_draws clock [] 1 team guest
          uninvited_db).0.0
        guest
        (invite cfg crypto everything str draws invitation_draws clock [] 1 team guest
          uninvited_db).0.1
        (some
          (invite cfg crypto everything str draws invitation_draws clock [] 1 team guest
            uninvited_db).0.2)
        1000}
      refl

abbrev scope : ℕ → String
scope n = "scope"

exit_closes_example :
    let after =
      (process_next_due_workspace_exit cfg unlocked scope 1000
        (begin leaving_db taken_always)).1.durable in
    (w : Workspace) × (pick sooner (is_free cfg unlocked scope 1000) leaving_db.workspaces ≡ some w)
    × (unlocked w.id ≡ false)
    × IsEnding 1000 w
    × All
        (λ v. is_free cfg unlocked scope 1000 v ≡ true → read_until_of w ≤ read_until_of v)
        leaving_db.workspaces
    × IsClosed w.id leaving_db after
    × (after.workspaces
        ≡ update
            (λ v. v.id == w.id)
            (λ v. record v { exit_completed_at = some 1000 })
            leaving_db.workspaces)
unfolding process_next_due_workspace_exit pick
exit_closes_example = exit_closes cfg unlocked scope 1000 leaving_db taken_always refl

exits_end_example :
    let run =
      process_next_due_workspace_exit cfg unlocked scope 1000 (begin leaving_db taken_always) in
    (run.0 ≡ ok true
      → rowcount (is_due_exit 1000) run.1.durable.workspaces
        < rowcount (is_due_exit 1000) leaving_db.workspaces)
    × (run.0 ≡ ok false
        → dispatcher_allowed cfg leaving_db ≡ true
        → (run.1.durable ≡ leaving_db)
          × All (λ w. is_due_exit 1000 w && not (unlocked w.id) ≡ false) leaving_db.workspaces)
exits_end_example = exits_end cfg unlocked scope 1000 leaving_db taken_always
