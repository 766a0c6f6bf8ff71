-- ===== src/Workspaces/InboxReplay.antt =====
-- A repeated acceptance of an invitation from the inbox.
use rulefolio_server.Prelude.{
  ℕ, String, Bool, true, false, ◌≡◌, refl, sym, ◌∙◌, ap, str_eq, eq_iff, arith, some, Option-cases,
  inl, inr, ◌⊎◌, scalar, scalar-update, is_none,
}
use rulefolio_server.Identity.Models.{OneTimeCredential}
use rulefolio_server.Workspaces.Models.{Workspace, WorkspaceInvitation, inbox, invitation_active}
use rulefolio_server.Workspaces.Members.{is_member, has_workspace_member}
use rulefolio_server.Workspaces.Invitations.{has_invitation_id, is_exchange_available}
use rulefolio_server.Workspaces.Accepting.{
  as_accepted, shown_workspace, InvitationExchangeResult, joined, is_accepted, is_repeated,
  find_in_inbox, answer_from_inbox, exchange_inbox_invitation,
}
use rulefolio_server.Workspaces.InboxLaws.{
  mine, Exchanged, Answered, exchange_writes, accepted_tables, Settled, Found, exchange-Settled,
  find_runs, answer_found,
}
use rulefolio_server.Database.{
  Db, Session, Result, begin, ok, err, bind_found, commit_taken, or_retryable, pure,
  workspace_operation_retryable, workspace_invitation_unavailable,
}

module _ (visible : Workspace → Bool) (str : ℕ → String) (now actor_id : ℕ) (key : String) where
  answer_repeated :
      (w : Workspace) (i : WorkspaceInvitation) (c : OneTimeCredential) (after : Db)
      (accepts : ℕ → Bool)
      → is_accepted i.status ≡ true
      → is_repeated inbox key i ≡ true
      → accepts 0 ≡ true
      → answer_from_inbox visible str now actor_id key w i c (begin after accepts)
        ≡ (ok (joined w actor_id), record (begin after accepts) { commits = 1 })
  unfolding answer_from_inbox
  answer_repeated w i c after accepts done same taken =
      rw (done, answer_from_inbox)
        (rw (same, answer_from_inbox)
          (commit_taken (pure (joined w actor_id)) (begin after accepts) taken))

  answer_refused :
      (w : Workspace) (i : WorkspaceInvitation) (c : OneTimeCredential) (after : Db)
      (accepts : ℕ → Bool)
      → is_accepted i.status ≡ true
      → is_repeated inbox key i ≡ false
      → answer_from_inbox visible str now actor_id key w i c (begin after accepts)
        ≡ (err workspace_invitation_unavailable, begin after accepts)
  unfolding answer_from_inbox
  answer_refused w i c after accepts done other =
      rw (done, answer_from_inbox) (rw (other, answer_from_inbox) refl)

  -- an exchange on a database in which its rows are found
  exchange_on :
      (invitation_id : ℕ) (i : WorkspaceInvitation) (c : OneTimeCredential) (w : Workspace)
      (s : Session) {p : Result InvitationExchangeResult × Session}
      → Found visible str now actor_id key invitation_id s.current i c w
      → answer_from_inbox visible str now actor_id key w i c s ≡ p
      → exchange_inbox_invitation visible str now actor_id invitation_id key s
        ≡ or_retryable workspace_operation_retryable (λ t. p) s
  unfolding exchange_inbox_invitation
  exchange_on invitation_id i c w s {p} found answered =
      let find = find_in_inbox visible str actor_id invitation_id in
      let answer = answer_found visible str now actor_id key in
      ap
        (λ (q : Result InvitationExchangeResult × Session).
          or_retryable workspace_operation_retryable (λ t. q) s)
        (bind_found find answer s s
            (find_runs visible str now actor_id key invitation_id i c w s found)
          ∙ answered)

other_key :
    (i : WorkspaceInvitation) (key key' : String)
    → is_repeated inbox key i ≡ true
    → str_eq key key' ≡ false
    → is_repeated inbox key' i ≡ false
unfolding is_repeated
other_key i key key' same other = elim (Option-cases i.accepted_operation_key) [
  | inl missing ↦ ground (arith, same)
  | inr (k, stored) ↦ ground (arith, same, other, eq_iff k key)
]

-- After an acceptance from the inbox succeeds, the same request at any later time, with its commit
-- taken, gives the same answer and changes nothing, and a request with another key is refused as
-- unavailable and changes nothing.
pub inbox_repeats :
    (visible : Workspace → Bool) (str : ℕ → String) (now later actor_id invitation_id : ℕ)
    (key key' : String) (db : Db) (accepts accepts' : ℕ → Bool) {r : InvitationExchangeResult}
    → let first =
        exchange_inbox_invitation visible str now actor_id invitation_id key (begin db accepts) in
      let after = first.1.durable in
      let again = λ (k : String).
        exchange_inbox_invitation visible str later actor_id invitation_id k
          (begin after accepts') in
      first.0 ≡ ok r
      → accepts' 0 ≡ true
      → ((again key).0 ≡ ok r)
        × ((again key).1.durable ≡ after)
        × (str_eq key key' ≡ false
            → ((again key').0 ≡ err workspace_invitation_unavailable)
              × ((again key').1.durable ≡ after))
unfolding Settled Found
inbox_repeats visible str now later actor_id invitation_id key key' db accepts accepts' {r} e
      taken =
    let after =
      (exchange_inbox_invitation visible str now actor_id invitation_id key
        (begin db accepts)).1.durable in
    let (i, c, w, found, done, same, told) =
      exchange-Settled visible str now actor_id key invitation_id (begin db accepts) e in
    let repeated =
      exchange_on visible str later actor_id key invitation_id i c w (begin after accepts') found
        (answer_repeated visible str later actor_id key w i c after accepts' done same taken) in
    (
      rw repeated (ap (λ x. ok x) (sym told)),
      rw repeated refl,
      λ other.
          let refused =
            exchange_on visible str later actor_id key' invitation_id i c w (begin after accepts')
              found
              (answer_refused visible str later actor_id key' w i c after accepts' done
                (other_key i key key' same other)) in
          (rw refused refl, rw refused refl),
    )

-- When an invitation is accepted from the inbox, it is of the account and its workspace is not
-- leaving; and either the request repeats an earlier one and nothing changes, or the invitation
-- was active, and the account, which was no member, is one, with the invitation accepted under the
-- key of the request.
pub inbox_joins :
    (visible : Workspace → Bool) (str : ℕ → String) (now actor_id invitation_id : ℕ) (key : String)
    (db : Db) (accepts : ℕ → Bool) {r : InvitationExchangeResult}
    → let run =
        exchange_inbox_invitation visible str now actor_id invitation_id key (begin db accepts) in
      let after = run.1.durable in
      run.0 ≡ ok r
      → (i : WorkspaceInvitation) × (w : Workspace) × (scalar
            (mine visible str now actor_id key invitation_id)
            db.invitations
          ≡ some i)
        × (shown_workspace visible str i.workspace_id db ≡ some w)
        × (is_none w.exit_requested_at ≡ true)
        × (r ≡ joined w actor_id)
        × (((is_repeated inbox key i ≡ true) × (after ≡ db))
            ⊎ ((invitation_active i.status ≡ true)
                × (has_workspace_member i.workspace_id actor_id db ≡ false)
                × (has_workspace_member i.workspace_id actor_id after ≡ true)
                × (scalar (mine visible str now actor_id key invitation_id) after.invitations
                    ≡ some (as_accepted inbox key now i))))
unfolding Found Exchanged Answered is_exchange_available has_workspace_member
inbox_joins visible str now actor_id invitation_id key db accepts {r} e =
    let (i, c, w, found, answered, told) =
      exchange_writes visible str now actor_id key invitation_id (begin db accepts) e in
    (
      i,
      w,
      found.0,
      found.2,
      found.3,
      told,
      elim answered [
        | inl (done, same, unchanged) ↦ inl (same, unchanged)
        | inr (live, outside, wrote) ↦
            let (invitations, workspaces, members, credentials) =
              accepted_tables visible str now actor_id key i c db in
            inr (
              ground (arith, live),
              outside,
              rw wrote (rw members (unfold scalar is_member in ground arith)),
              rw wrote (
                  rw invitations (
                    scalar-update (mine visible str now actor_id key invitation_id)
                      (has_invitation_id i.id) (as_accepted inbox key now) db.invitations
                      (λ x. refl)
                    ∙ rw found.0 (ground arith))),
            )
      ],
    )
