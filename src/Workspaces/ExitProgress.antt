-- ===== src/Workspaces/ExitProgress.antt =====
-- The completion of exits comes to an end.
use rulefolio_server.Prelude.{
  ℕ, ◌+◌, ◌<◌, ◌≤◌, String, Bool, true, false, not, ◌≡◌, refl, ◌&&◌, ◌==◌, some, List, [], ◌∷◌,
  arith, pick, pick-hit, pick-none, update, rowcount, rowcount_unmet, All-pick, both, All,
  Bool-cases, Option-cases, inl, inr,
}
use rulefolio_server.Settings.{Settings}
use rulefolio_server.Recovery.Gate.{dispatcher_allowed}
use rulefolio_server.Workspaces.Models.{Workspace}
use rulefolio_server.Workspaces.Membership.{has_workspace_id}
use rulefolio_server.Workspaces.Exit.{
  completed, is_due_exit, sooner, process_next_due_workspace_exit,
}
use rulefolio_server.Workspaces.CloseLaws.{close_workspace-workspaces}
use rulefolio_server.Workspaces.ExitLaws.{is_free, process-closes}
use rulefolio_server.Database.{Db, begin, ok}

-- a completed exit is not due any more
due_completed :
    (now id : ℕ) (rows : List Workspace)
    → rowcount (is_due_exit now) rows
      ≡ rowcount (is_due_exit now) (update (has_workspace_id id) (completed now) rows)
        + rowcount (both (has_workspace_id id) (is_due_exit now)) rows
unfolding rowcount update is_due_exit
due_completed now id [] = refl
due_completed now id (w ∷ rows) = ground (arith, due_completed now id rows)

-- the row that is picked is counted
picked_counts :
    {A : Type 0} (first : A → A → Bool) (p q : A → Bool) (xs : List A) {x : A}
    → pick first p xs ≡ some x
    → q x ≡ true
    → 1 ≤ rowcount q xs
picked_counts first p q xs {x} found hit = elim (Bool-cases (rowcount q xs == 0)) [
  | inr some_row ↦ ground (arith, some_row)
  | inl no_row ↦
      let missed =
        All-pick (λ y. q y ≡ false) first p xs (rowcount_unmet q xs (ground (arith, no_row)))
          found in
      ground (arith, missed, hit)
]

module _ (cfg : Settings) (locked : ℕ → Bool) (scope : ℕ → String) where
  idle_run :
      (now : ℕ) (db : Db) (accepts : ℕ → Bool)
      → let run = process_next_due_workspace_exit cfg locked scope now (begin db accepts) in
        run.0 ≡ ok false
        → dispatcher_allowed cfg db ≡ true
        → (run.1.durable ≡ db)
          × All (λ w. is_due_exit now w && not (locked w.id) ≡ false) db.workspaces
  unfolding process_next_due_workspace_exit
  idle_run now db accepts idle allowed =
      elim (Option-cases (pick sooner (is_free cfg locked scope now) db.workspaces)) [
        | inl nothing ↦
            (ground arith, pick-none sooner (is_free cfg locked scope now) db.workspaces nothing)
        | inr (w, found) ↦ elim (Bool-cases (accepts 0)) [
          | inl taken ↦ ground (arith, idle)
          | inr refused ↦ ground (arith, idle)
        ]
      ]

  -- Each run of process_next_due_workspace_exit that answers "completed" lowers the number of the
  -- due exits, and a run that answers nothing while the dispatcher is allowed changes nothing and
  -- leaves no due exit but locked ones.
  pub exits_end :
      (now : ℕ) (db : Db) (accepts : ℕ → Bool)
      → let run = process_next_due_workspace_exit cfg locked scope now (begin db accepts) in
        (run.0 ≡ ok true
          → rowcount (is_due_exit now) run.1.durable.workspaces
            < rowcount (is_due_exit now) db.workspaces)
        × (run.0 ≡ ok false
            → dispatcher_allowed cfg db ≡ true
            → (run.1.durable ≡ db)
              × All (λ w. is_due_exit now w && not (locked w.id) ≡ false) db.workspaces)
  exits_end now db accepts = (
    λ done.
        let (w, found, wrote) = process-closes cfg locked scope now db accepts done in
        let hit = pick-hit sooner (is_free cfg locked scope now) db.workspaces found in
        let counted =
          picked_counts sooner (is_free cfg locked scope now)
            (both (has_workspace_id w.id) (is_due_exit now)) db.workspaces found
            (ground (arith, hit)) in
        rw wrote (
          rw (close_workspace-workspaces now w.id db)
            (omega (arith, counted, due_completed now w.id db.workspaces))),
    λ idle allowed. idle_run now db accepts idle allowed,
  )
