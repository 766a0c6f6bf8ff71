-- ===== src/Works/Refinement.antt =====
-- The requests for an access refine the abstract map of roles.
use rulefolio_server.Prelude.{
  ℕ, String, Bool, ◌≡◌, ◌∙◌, ap, some, none, List, scalar, scalar-hit, arith, Option,
}
use rulefolio_server.Workspaces.Models.{Workspace, Role, WorkAccess}
use rulefolio_server.Workspaces.Members.{lock_work_accesses}
use rulefolio_server.Works.Models.{Work}
use rulefolio_server.Works.Guards.{is_shown, prepare_manager_write}
use rulefolio_server.Works.GuardLaws.{prepare_manager_write-Reads}
use rulefolio_server.Works.Roles.{roles, assign, set_access-refines, revoke_access-refines}
use rulefolio_server.Works.Service.{
  work_role, set_access, revoke_access, set_work_access, revoke_work_access,
}
use rulefolio_server.Database.{
  Db, Exec, Session, begin, ok, or_retryable, or_retryable_ok, bind_ok, bind_found, or_fail_ok,
  ◌>>=◌, work_operation_retryable, value_error,
}

-- a run is known by what it returns and the session that it leaves
found_run :
    {A B : Type 0} (m : Exec (A × B)) (s : Session) {a : A} {b c : B}
    → (m s).0 ≡ ok (a, b)
    → (m s).1 ≡ s
    → b ≡ c
    → m s ≡ (ok (a, c), s)
found_run m s returned left same = cc

module _ (visible : Workspace → Bool) (visible_work : Work → Bool) where
  shown_id :
      (workspace_id work_id : ℕ) (rows : List Work) {w : Work}
      → scalar (is_shown visible visible_work workspace_id work_id) rows ≡ some w
      → w.id ≡ work_id
  unfolding is_shown
  shown_id workspace_id work_id rows found =
      ground (arith, scalar-hit (is_shown visible visible_work workspace_id work_id) rows found)

  -- a manager's write that succeeds runs on the accesses of the work
  manager_ok :
      {A : Type 0} (k : Work × List WorkAccess → Exec A) (workspace_id work_id actor_id : ℕ)
      (target : Option ℕ) (s : Session) {a : A}
      → let run =
          or_retryable work_operation_retryable
            (prepare_manager_write visible visible_work workspace_id work_id actor_id target >>= k)
            s in
        run.0 ≡ ok a
        → (work : Work) × (work.id ≡ work_id)
          × (run ≡ k (work, lock_work_accesses work.id s.current) s)
  manager_ok k workspace_id work_id actor_id target s {a} e =
      let manager =
        prepare_manager_write visible visible_work workspace_id work_id actor_id target in
      let (done, same) = or_retryable_ok work_operation_retryable (manager >>= k) s {a = a} e in
      let ((work, accesses), passed, ran) = bind_ok manager k s {b = a} done in
      let (held, read) =
        prepare_manager_write-Reads visible visible_work workspace_id work_id actor_id target s in
      let (kept, (locked, found)) = read (work, accesses) passed in
      (
        work,
        shown_id workspace_id work_id s.current.works found,
        same ∙ bind_found manager k s s (found_run manager s passed kept locked),
      )

  module _ (label : ℕ → ℕ → String) where
    -- When set_work_access succeeds, the name of the role is known, and the map from works and
    -- accounts to roles that is committed is the one before with this one entry replaced, whatever
    -- that entry was.
    pub set_refines :
        (actor_id workspace_id work_id account_id : ℕ) (name : String) (db : Db)
        (accepts : ℕ → Bool) {r : ℕ × Role}
        → let run =
            set_work_access visible visible_work label actor_id workspace_id work_id account_id name
              (begin db accepts) in
          run.0 ≡ ok r
          → (role : Role) × (work_role name ≡ some role)
            × ((w a : ℕ)
                → roles run.1.durable w a ≡ assign work_id account_id (some role) (roles db) w a)
    unfolding set_work_access
    set_refines actor_id workspace_id work_id account_id name db accepts {r} e =
        let s = begin db accepts in
        let manager =
          prepare_manager_write visible visible_work workspace_id work_id actor_id
            (some account_id) in
        let (role, named, ran) =
          or_fail_ok (work_role name) value_error
            (λ role.
              or_retryable work_operation_retryable
                (manager >>= set_access label actor_id workspace_id account_id role))
            s {b = r} e in
        let (work, same, run) =
          manager_ok (set_access label actor_id workspace_id account_id role) workspace_id work_id
            actor_id (some account_id) s {a = r} (rw ran at e) in
        (
          role,
          named,
          λ w a. rw ran (
              rw run (
                set_access-refines label actor_id workspace_id account_id role work s {r = r}
                  (rw run at (rw ran at e)) w a
                ∙ ap (λ id. assign id account_id (some role) (roles db) w a) same)),
        )

    -- When revoke_work_access succeeds, the map from works and accounts to roles that is committed
    -- is the one before without this one entry.
    pub revoke_refines :
        (actor_id workspace_id work_id account_id : ℕ) (db : Db) (accepts : ℕ → Bool) {r : Unit {0}}
        → let run =
            revoke_work_access visible visible_work label actor_id workspace_id work_id account_id
              (begin db accepts) in
          run.0 ≡ ok r
          → (w a : ℕ) → roles run.1.durable w a ≡ assign work_id account_id none (roles db) w a
    unfolding revoke_work_access
    revoke_refines actor_id workspace_id work_id account_id db accepts {r} e w a =
        let s = begin db accepts in
        let (work, same, run) =
          manager_ok (revoke_access label actor_id workspace_id account_id) workspace_id work_id
            actor_id (some account_id) s {a = r} e in
        rw run (
          revoke_access-refines label actor_id workspace_id account_id work s {r = r} (rw run at e)
            w a
          ∙ ap (λ id. assign id account_id none (roles db) w a) same)
