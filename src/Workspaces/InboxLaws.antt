-- ===== src/Workspaces/InboxLaws.antt =====
-- The acceptance of an invitation from the inbox, as a whole.
use rulefolio_server.Prelude.{
  ℕ, String, Bool, true, false, not, ◌≡◌, refl, subst, sym, ◌∙◌, ap, ◌⊎◌, ◌&&◌, ◌==◌, is_none, some,
  leb, if◌then◌else◌, [], ◌∷◌, arith, scalar, scalar-hit, scalar-update, update, Bool-cases,
  Option-cases, inl, inr,
}
use text.Mathlib.TextPositions.{eq_refl}
use rulefolio_server.Identity.Models.{OneTimeCredential}
use rulefolio_server.Identity.Credentials.{
  is_invitation, used, consume_workspace_invitation_credential,
}
use rulefolio_server.Notifications.Models.{cancelled, TodoKind, TodoStatus}
use rulefolio_server.Notifications.Todos.{end_todo_by_source, complete_todo_by_source}
use rulefolio_server.Notifications.Scope.{
  Renotified, end_todo_by_source-Renotified, clear_outbox_envelopes-Renotified,
}
use rulefolio_server.Workspaces.Models.{Workspace, WorkspaceInvitation, inbox}
use rulefolio_server.Workspaces.Members.{has_workspace_member}
use rulefolio_server.Workspaces.Access.{load_visible_workspace, ensure_workspace_writable}
use rulefolio_server.Workspaces.Invitations.{
  has_invitation_id, credential_by_id, is_exchange_available, write_invitation,
}
use rulefolio_server.Workspaces.Membership.{insert_member, add_member}
use rulefolio_server.Workspaces.Accepting.{
  InvitationExchangeResult, joined, is_accepted, is_repeated, as_accepted, accept, granted, settle,
  shown_workspace, find_in_inbox, join_from_inbox, decline_from_inbox, answer_from_inbox,
  exchange_inbox_invitation,
}
use rulefolio_server.Database.{
  Db, Session, Exec, ok, bind_found, or_retryable_ok, bind_ok, ◌>>=◌, workspace_operation_retryable,
}

module _ (visible : Workspace → Bool) (str : ℕ → String) (now actor_id : ℕ) (key : String) where
  abbrev pub mine : (invitation_id : ℕ) → WorkspaceInvitation → Bool
  mine invitation_id i = i.id == invitation_id && i.account_id == actor_id

  -- the database after an acceptance
  abbrev pub accepted_db : WorkspaceInvitation → OneTimeCredential → Db → Db
  accepted_db i c db = granted str actor_id i.workspace_id (
      settle str now actor_id i c
        (consume_workspace_invitation_credential c now (
          write_invitation i.id (as_accepted inbox key now)
            (add_member i.workspace_id actor_id db))).1)

  join_writes :
      (w : Workspace) (i : WorkspaceInvitation) (c : OneTimeCredential) (s : Session)
      {r : InvitationExchangeResult}
      → (join_from_inbox visible str now actor_id key w i c s).0 ≡ ok r
      → ((join_from_inbox visible str now actor_id key w i c s).1.durable
          ≡ accepted_db i c s.current)
        × (r ≡ joined w actor_id)
        × (has_workspace_member i.workspace_id actor_id s.current ≡ false)
  unfolding join_from_inbox accept insert_member
  join_writes w i c s e = ground (arith, e)

  -- what a successful answer has done: nothing, for a repeated request, or the acceptance
  unfoldable pub Answered : WorkspaceInvitation → OneTimeCredential → (before after : Db) → Type 0
  Answered i c before after =
      ((is_accepted i.status ≡ true) × (is_repeated inbox key i ≡ true) × (after ≡ before))
      ⊎ ((is_exchange_available c i now ≡ true)
          × (has_workspace_member i.workspace_id actor_id before ≡ false)
          × (after ≡ accepted_db i c before))

  answer_writes :
      (w : Workspace) (i : WorkspaceInvitation) (c : OneTimeCredential) (s : Session)
      {r : InvitationExchangeResult}
      → (answer_from_inbox visible str now actor_id key w i c s).0 ≡ ok r
      → Answered i c s.current (answer_from_inbox visible str now actor_id key w i c s).1.durable
        × (r ≡ joined w actor_id)
  unfolding Answered answer_from_inbox decline_from_inbox
  answer_writes w i c s {r} e = elim (Bool-cases (is_accepted i.status)) [
    | inl done ↦ elim (Bool-cases (is_repeated inbox key i)) [
      | inl same ↦ (inl (done, same, ground (arith, e)), ground (arith, e))
      | inr other ↦ ground (arith, e)
    ]
    | inr open_yet ↦ elim (Bool-cases (is_exchange_available c i now)) [
      | inr gone ↦ ground (arith, e)
      | inl live ↦
          let (wrote, told, outside) =
            join_writes w i c s {r = r}
              (rw (open_yet, answer_from_inbox) at (rw (live, answer_from_inbox) at e)) in
          (inr (live, outside, ground (arith, wrote)), told)
    ]
  ]

  at_id : (w : Workspace) (id : ℕ) → w.id == id && visible w ≡ true → w.id ≡ id
  at_id w id h = ground arith

  shown-scalar :
      (id : ℕ) (s : Session) {w : Workspace}
      → shown_workspace visible str id s.current ≡ some w
      → scalar (λ v. v.id == id && visible v) s.current.workspaces ≡ some w
  unfolding shown_workspace
  shown-scalar id s e = e

  found_again :
      (s : Session) (w : Workspace) (id : ℕ)
      → w.id ≡ id
      → scalar (λ v. v.id == id && visible v) s.current.workspaces ≡ some w
      → scalar (λ v. v.id == w.id && visible v) s.current.workspaces ≡ some w
  found_again s w id same there =
      subst (λ n. scalar (λ v. v.id == n && visible v) s.current.workspaces ≡ some w) (sym same)
        there

  -- the guards find the three rows, and read only
  unfoldable pub Found :
      (invitation_id : ℕ) → Db → WorkspaceInvitation → OneTimeCredential → Workspace → Type 0
  Found invitation_id db i c w =
      (scalar (mine invitation_id) db.invitations ≡ some i)
      × (credential_by_id i.credential_id db ≡ some c)
      × (shown_workspace visible str i.workspace_id db ≡ some w)
      × (is_none w.exit_requested_at ≡ true)

  Found-by_guards :
      (invitation_id : ℕ) (s : Session) {t : WorkspaceInvitation × OneTimeCredential × Workspace}
      → (find_in_inbox visible str actor_id invitation_id s).0 ≡ ok t
      → (i : WorkspaceInvitation) × (c : OneTimeCredential) × (w : Workspace) × Found invitation_id
          s.current i c w
        × (find_in_inbox visible str actor_id invitation_id s ≡ (ok (i, c, w), s))
  unfolding Found find_in_inbox ensure_workspace_writable load_visible_workspace
  Found-by_guards invitation_id s e =
      elim (Option-cases (scalar (mine invitation_id) s.current.invitations)) [
        | inl missing ↦ ground (arith, e)
        | inr (i, found) ↦ elim (Option-cases (credential_by_id i.credential_id s.current)) [
          | inl missing ↦ ground (arith, e)
          | inr (c, credential) ↦
              elim (Option-cases (shown_workspace visible str i.workspace_id s.current)) [
                | inl missing ↦ ground (arith, e)
                | inr (w, there) ↦
                    let listed = shown-scalar i.workspace_id s there in
                    let hit =
                      scalar-hit (λ w. w.id == i.workspace_id && visible w) s.current.workspaces
                        listed in
                    let again =
                      found_again s w i.workspace_id (at_id w i.workspace_id hit) listed in
                    elim (Option-cases w.exit_requested_at) [
                      | inr (t, exiting) ↦ ground (arith, e)
                      | inl live ↦ (i, c, w, (found, credential, there, ground arith), ground arith)
                    ]
              ]
        ]
      ]

  -- what an exchange that succeeds has found, and what it has done
  unfoldable pub Exchanged :
      (invitation_id : ℕ) → (before after : Db) → InvitationExchangeResult → Type 0
  Exchanged invitation_id before after r =
      (i : WorkspaceInvitation) × (c : OneTimeCredential) × (w : Workspace) × Found invitation_id
        before i c w
      × Answered i c before after
      × (r ≡ joined w actor_id)

  abbrev pub answer_found :
      WorkspaceInvitation × OneTimeCredential × Workspace → Exec InvitationExchangeResult
  answer_found (i, c, w) = answer_from_inbox visible str now actor_id key w i c

  exchange_passes :
      (invitation_id : ℕ) (s : Session) {r : InvitationExchangeResult}
      → (exchange_inbox_invitation visible str now actor_id invitation_id key s).0 ≡ ok r
      → (t : WorkspaceInvitation × OneTimeCredential × Workspace) × ((find_in_inbox visible str
            actor_id invitation_id s).0
          ≡ ok t)
  unfolding exchange_inbox_invitation
  exchange_passes invitation_id s {r} e =
      let find = find_in_inbox visible str actor_id invitation_id in
      let (done, same) =
        or_retryable_ok workspace_operation_retryable (find >>= answer_found) s {a = r} e in
      let (t, passed, ran) = bind_ok find answer_found s {b = r} done in (t, passed)

  -- an exchange that passes its guards is its answer
  exchange_answers :
      (invitation_id : ℕ) (i : WorkspaceInvitation) (c : OneTimeCredential) (w : Workspace)
      (s : Session) {r : InvitationExchangeResult}
      → find_in_inbox visible str actor_id invitation_id s ≡ (ok (i, c, w), s)
      → (exchange_inbox_invitation visible str now actor_id invitation_id key s).0 ≡ ok r
      → exchange_inbox_invitation visible str now actor_id invitation_id key s
        ≡ answer_from_inbox visible str now actor_id key w i c s
  unfolding exchange_inbox_invitation
  exchange_answers invitation_id i c w s {r} at e =
      let find = find_in_inbox visible str actor_id invitation_id in
      let (done, same) =
        or_retryable_ok workspace_operation_retryable (find >>= answer_found) s {a = r} e in
      same ∙ bind_found find answer_found s s at

  pub exchange_writes :
      (invitation_id : ℕ) (s : Session) {r : InvitationExchangeResult}
      → (exchange_inbox_invitation visible str now actor_id invitation_id key s).0 ≡ ok r
      → Exchanged invitation_id s.current
          (exchange_inbox_invitation visible str now actor_id invitation_id key s).1.durable
          r
  unfolding Exchanged
  exchange_writes invitation_id s {r} e =
      let (t, passed) = exchange_passes invitation_id s e in
      let (i, c, w, found, at) = Found-by_guards invitation_id s passed in
      let run = exchange_answers invitation_id i c w s at e in
      let (did, told) = answer_writes w i c s (rw run at e) in (i, c, w, found, rw run did, told)

  settle-Renotified :
      (i : WorkspaceInvitation) (c : OneTimeCredential) (db : Db)
      → Renotified db (settle str now actor_id i c db)
  unfolding settle complete_todo_by_source
  settle-Renotified i c db =
      let todo =
        end_todo_by_source TodoStatus.completed now actor_id TodoKind.workspace_invitation
          (str i.id) db in
      let (o, t, first) =
        end_todo_by_source-Renotified TodoStatus.completed now actor_id
          TodoKind.workspace_invitation (str i.id) db in
      let (o', t', second) = clear_outbox_envelopes-Renotified (c.id ∷ []) cancelled todo in
      (o', t', second ∙ ap (λ (d : Db). record d { outbox = o'; todos = t' }) first)

  -- an acceptance on the tables that a second request reads
  pub accepted_tables :
      (i : WorkspaceInvitation) (c : OneTimeCredential) (db : Db)
      → ((accepted_db i c db).invitations
          ≡ update (has_invitation_id i.id) (as_accepted inbox key now) db.invitations)
        × ((accepted_db i c db).workspaces ≡ db.workspaces)
        × ((accepted_db i c db).members
            ≡ record { workspace_id = i.workspace_id; account_id = actor_id } ∷ db.members)
        × ((n : ℕ) (x : OneTimeCredential)
            → credential_by_id n db ≡ some x
            → (y : OneTimeCredential) × (credential_by_id n (accepted_db i c db) ≡ some y))
  unfolding granted consume_workspace_invitation_credential credential_by_id
  accepted_tables i c db =
      let consumed =
        (consume_workspace_invitation_credential c now (
          write_invitation i.id (as_accepted inbox key now)
            (add_member i.workspace_id actor_id db))).1 in
      let (o, t, e) = settle-Renotified i c consumed in
      (
        rw e refl,
        rw e refl,
        rw e refl,
        λ n x there. (
          if is_invitation c.id x && not (leb x.expires_at now) then used now x else x,
          rw e (
              scalar-update (λ y. y.id == n)
                (λ y. is_invitation c.id y && not (leb y.expires_at now)) (used now) db.credentials
                (λ y. refl)
              ∙ rw there refl),
        ),
      )

  -- a database in which the request has been accepted: it is answered, and changes nothing
  unfoldable pub Settled : (invitation_id : ℕ) → InvitationExchangeResult → Db → Type 0
  Settled invitation_id r db =
      (i : WorkspaceInvitation) × (c : OneTimeCredential) × (w : Workspace) × Found invitation_id db
        i c w
      × (is_accepted i.status ≡ true)
      × (is_repeated inbox key i ≡ true)
      × (r ≡ joined w actor_id)

  accepted-Settled :
      (invitation_id : ℕ) (i : WorkspaceInvitation) (c : OneTimeCredential) (w : Workspace)
      (db : Db)
      → Found invitation_id db i c w
      → Settled invitation_id (joined w actor_id) (accepted_db i c db)
  unfolding Settled Found shown_workspace is_repeated
  accepted-Settled invitation_id i c w db (found, credential, there, live) =
      let (invitations, workspaces, members, credentials) = accepted_tables i c db in
      let (y, kept) = credentials i.credential_id c credential in
      (
        as_accepted inbox key now i,
        y,
        w,
        (
          rw invitations (
              scalar-update (mine invitation_id) (has_invitation_id i.id)
                (as_accepted inbox key now) db.invitations (λ x. refl)
              ∙ rw found (ground arith)),
          kept,
          rw workspaces there,
          live,
        ),
        refl,
        ground (arith, eq_refl key),
        refl,
      )

  pub exchange-Settled :
      (invitation_id : ℕ) (s : Session) {r : InvitationExchangeResult}
      → (exchange_inbox_invitation visible str now actor_id invitation_id key s).0 ≡ ok r
      → Settled invitation_id r
          (exchange_inbox_invitation visible str now actor_id invitation_id key s).1.durable
  unfolding Settled Exchanged Answered
  exchange-Settled invitation_id s {r} e =
      let (i, c, w, found, answered, told) = exchange_writes invitation_id s e in
      elim answered [
        | inl (done, repeated, same) ↦ rw same (i, c, w, found, done, repeated, told)
        | inr (live, outside, wrote) ↦
            rw (wrote, told) (accepted-Settled invitation_id i c w s.current found)
      ]

  pub find_runs :
      (invitation_id : ℕ) (i : WorkspaceInvitation) (c : OneTimeCredential) (w : Workspace)
      (s : Session)
      → Found invitation_id s.current i c w
      → find_in_inbox visible str actor_id invitation_id s ≡ (ok (i, c, w), s)
  unfolding Found find_in_inbox ensure_workspace_writable load_visible_workspace
  find_runs invitation_id i c w s (found, credential, there, live) =
      let listed = shown-scalar i.workspace_id s there in
      let hit = scalar-hit (λ w. w.id == i.workspace_id && visible w) s.current.workspaces listed in
      let again = found_again s w i.workspace_id (at_id w i.workspace_id hit) listed in ground arith
