-- ===== src/Workspaces/ExitLaws.antt =====
-- Which workspace a run of `process_next_due_workspace_exit` closes, and that it does.
use rulefolio_server.Prelude.{
  ℕ, String, Bool, true, false, not, ◌≡◌, ◌&&◌, ◌==◌, is_none, some, none, arith, Bool-cases,
  Option-cases, inl, inr, update, ◌≤◌, pick, pick-hit, pick-least, All,
}
use rulefolio_server.Workspaces.Models.{Workspace}
use rulefolio_server.Workspaces.Exit.{
  is_due_exit, read_until_of, sooner, completed, process_next_due_workspace_exit, close_workspace,
}
use rulefolio_server.Workspaces.Membership.{workspace_audit}
use rulefolio_server.Settings.{Settings}
use rulefolio_server.Recovery.Gate.{dispatcher_allowed}
use rulefolio_server.Workspaces.CloseLaws.{
  IsClosed, close_workspace-IsClosed, close_workspace-workspaces,
}
use rulefolio_server.Database.{Db, begin, ok, add_audit}

-- the exit was requested and is not completed, and the time to read is over
abbrev pub IsEnding : (now : ℕ) → Workspace → Type 0
IsEnding now w =
    (is_none w.exit_requested_at ≡ false)
    × (w.exit_completed_at ≡ none)
    × ((t : ℕ) × (w.exit_read_until ≡ some t) × (t ≤ now))

due-IsEnding : (now : ℕ) (w : Workspace) → is_due_exit now w ≡ true → IsEnding now w
unfolding is_due_exit
due-IsEnding now w due = elim (Option-cases w.exit_completed_at) [
  | inr (t, completed) ↦ ground (arith, due)
  | inl running ↦ elim (Option-cases w.exit_read_until) [
    | inl never ↦ ground (arith, due)
    | inr (t, until) ↦ (ground (arith, due), running, (t, until, ground (arith, due)))
  ]
]

module _ (cfg : Settings) (locked : ℕ → Bool) (scope : ℕ → String) where
  abbrev pub is_free : ℕ → Workspace → Bool
  is_free now w = is_due_exit now w && not (locked w.id)

  pub process-closes :
      (now : ℕ) (db : Db) (accepts : ℕ → Bool)
      → (process_next_due_workspace_exit cfg locked scope now (begin db accepts)).0 ≡ ok true
      → (w : Workspace) × (pick sooner (is_free now) db.workspaces ≡ some w)
        × ((process_next_due_workspace_exit cfg locked scope now (begin db accepts)).1.durable
            ≡ add_audit
                (workspace_audit "workspace_exit_completed" none none (scope w.id))
                (close_workspace now w.id db))
  unfolding process_next_due_workspace_exit
  process-closes now db accepts e = elim (Bool-cases (dispatcher_allowed cfg db)) [
    | inr shut ↦ ground (arith, e)
    | inl allowed ↦ elim (Option-cases (pick sooner (is_free now) db.workspaces)) [
      | inl nothing ↦ ground (arith, e)
      | inr (w, found) ↦ elim (Bool-cases (accepts 0)) [
        | inr refused ↦ ground (arith, e)
        | inl taken ↦ (w, found, ground arith)
      ]
    ]
  ]

  -- When a run of process_next_due_workspace_exit answers "completed", it has chosen a workspace
  -- of the database that no other transaction has locked, whose exit was requested and not
  -- completed and whose time to read is over, and no other such workspace that is not locked had
  -- to close earlier. What it has committed has no active invitation, no member, no access and no
  -- open to-do of this workspace, no account that was its member has a session that is not
  -- revoked, and the table of the workspaces is the one before with the time of the completion in
  -- the rows with its id.
  pub exit_closes :
      (now : ℕ) (db : Db) (accepts : ℕ → Bool)
      → (process_next_due_workspace_exit cfg locked scope now (begin db accepts)).0 ≡ ok true
      → let after =
          (process_next_due_workspace_exit cfg locked scope now (begin db accepts)).1.durable in
        (w : Workspace) × (pick sooner (is_free now) db.workspaces ≡ some w)
        × (locked w.id ≡ false)
        × IsEnding now w
        × All (λ v. is_free now v ≡ true → read_until_of w ≤ read_until_of v) db.workspaces
        × IsClosed w.id db after
        × (after.workspaces
            ≡ update
                (λ v. v.id == w.id)
                (λ v. record v { exit_completed_at = some now })
                db.workspaces)
  exit_closes now db accepts e =
      let (w, found, wrote) = process-closes now db accepts e in
      let hit = pick-hit sooner (is_free now) db.workspaces found in
      (
        w,
        found,
        ground (arith, hit),
        due-IsEnding now w (ground (arith, hit)),
        pick-least sooner read_until_of (is_free now) db.workspaces (λ u v le. ground (arith, le))
            (λ u v gt. ground (arith, gt)) found,
        rw wrote (close_workspace-IsClosed now w.id db),
        rw wrote (close_workspace-workspaces now w.id db),
      )
