-- ===== src/Works/Laws.antt =====
-- The operations of src/app/works/service.py as wholes.
use rulefolio_server.Prelude.{
  ℕ, ◌≤◌, rowcount, String, Bool, true, ◌≡◌, some, none, arith, rowcount-found, scalar-hit, scalar,
}
use rulefolio_server.Workspaces.Models.{Workspace}
use rulefolio_server.Works.Models.{Work}
use rulefolio_server.Works.Guards.{
  WorkValues, validate_work_values, require_workspace_member, prepare_manager_write, is_shown,
}
use rulefolio_server.Works.GuardLaws.{
  require_workspace_member-Reads, Locked, prepare_manager_write-Reads,
}
use rulefolio_server.Works.Service.{
  has_work_id, work_role, insert_work, write_work, set_access, revoke_access, create_work,
  update_work, set_work_access, revoke_work_access,
}
use rulefolio_server.Works.Writes.{
  Managed, insert_work-Managed, write_work-Managed, set_access-Managed, revoke_access-Managed,
}
use rulefolio_server.Database.{Session, or_retryable, ◌>>=◌, work_operation_retryable, value_error}
use rulefolio_server.Database.Leaves.{Leaves, or_retryable-Leaves, or_fail-Leaves}
use rulefolio_server.Database.Reads.{Reads, Any, Reads-Leaves}

validate_work_values-Reads : (v : WorkValues) (s : Session) → Reads Any (validate_work_values v) s
unfolding validate_work_values
validate_work_values-Reads v s = ground arith

module _ (visible : Workspace → Bool) (visible_work : Work → Bool) (label : ℕ → ℕ → String) where
  there :
      (workspace_id work_id : ℕ) (s : Session) (work : Work)
      → scalar (is_shown visible visible_work workspace_id work_id) s.current.works ≡ some work
      → 1 ≤ rowcount (has_work_id work.id) s.current.works
  unfolding is_shown
  there workspace_id work_id s work found =
      rowcount-found (has_work_id work.id) (is_shown visible visible_work workspace_id work_id)
        s.current.works found
        (ground (
          arith,
          scalar-hit (is_shown visible visible_work workspace_id work_id) s.current.works found,
        ))

  pub create_work-Managed :
      (id actor_id workspace_id : ℕ) (v : WorkValues) (s : Session)
      → Managed s.durable
      → Managed s.current
      → Leaves Managed (create_work visible visible_work label id actor_id workspace_id v) s
  unfolding create_work
  create_work-Managed id actor_id workspace_id v s base now =
      let member = require_workspace_member visible visible_work workspace_id actor_id true in
      let rest = λ (v : WorkValues).
        or_retryable work_operation_retryable
          (member >>= insert_work label id actor_id workspace_id v) in
      Reads-Leaves Managed Any (validate_work_values v) rest s (validate_work_values-Reads v s) base
        λ v u.
          or_retryable-Leaves Managed work_operation_retryable
            (member >>= insert_work label id actor_id workspace_id v) s
            (Reads-Leaves Managed Any member (insert_work label id actor_id workspace_id v) s
              (require_workspace_member-Reads visible visible_work workspace_id actor_id s) base
              λ u w. insert_work-Managed label id actor_id workspace_id v s base now)

  pub update_work-Managed :
      (actor_id workspace_id work_id : ℕ) (v : WorkValues) (revision : ℕ) (s : Session)
      → Managed s.durable
      → Managed s.current
      → Leaves Managed
          (update_work visible visible_work label actor_id workspace_id work_id v revision)
          s
  unfolding update_work
  update_work-Managed actor_id workspace_id work_id v revision s base now =
      let manager = prepare_manager_write visible visible_work workspace_id work_id actor_id none in
      let rest = λ (v : WorkValues).
        or_retryable work_operation_retryable (manager >>= write_work v revision) in
      Reads-Leaves Managed Any (validate_work_values v) rest s (validate_work_values-Reads v s) base
        λ v u.
          or_retryable-Leaves Managed work_operation_retryable (manager >>= write_work v revision) s
            (Reads-Leaves Managed (Locked visible visible_work workspace_id work_id s) manager
              (write_work v revision) s
              (prepare_manager_write-Reads visible visible_work workspace_id work_id actor_id none
                s)
              base λ found w. write_work-Managed v revision found s base now)

  pub set_work_access-Managed :
      (actor_id workspace_id work_id account_id : ℕ) (role : String) (s : Session)
      → Managed s.durable
      → Managed s.current
      → Leaves Managed
          (set_work_access visible visible_work label actor_id workspace_id work_id account_id role)
          s
  unfolding set_work_access
  set_work_access-Managed actor_id workspace_id work_id account_id role s base now =
      let manager =
        prepare_manager_write visible visible_work workspace_id work_id actor_id
          (some account_id) in
      let set = set_access label actor_id workspace_id account_id in
      or_fail-Leaves Managed (work_role role) value_error
        (λ role. or_retryable work_operation_retryable (manager >>= set role)) s base
        λ role e. or_retryable-Leaves Managed work_operation_retryable (manager >>= set role) s (
          Reads-Leaves Managed (Locked visible visible_work workspace_id work_id s) manager
            (set role) s
            (prepare_manager_write-Reads visible visible_work workspace_id work_id actor_id
              (some account_id) s)
            base
            λ (work, accesses) (locked, found). rw locked (
              set_access-Managed label actor_id workspace_id account_id role work s base now
                (there workspace_id work_id s work found)))

  pub revoke_work_access-Managed :
      (actor_id workspace_id work_id account_id : ℕ) (s : Session)
      → Managed s.durable
      → Managed s.current
      → Leaves Managed
          (revoke_work_access visible visible_work label actor_id workspace_id work_id account_id)
          s
  unfolding revoke_work_access
  revoke_work_access-Managed actor_id workspace_id work_id account_id s base now =
      let manager =
        prepare_manager_write visible visible_work workspace_id work_id actor_id
          (some account_id) in
      let revoke = revoke_access label actor_id workspace_id account_id in
      or_retryable-Leaves Managed work_operation_retryable (manager >>= revoke) s (
        Reads-Leaves Managed (Locked visible visible_work workspace_id work_id s) manager revoke s
          (prepare_manager_write-Reads visible visible_work workspace_id work_id actor_id
            (some account_id) s)
          base
          λ (work, accesses) (locked, found).
            rw locked
              (revoke_access-Managed label actor_id workspace_id account_id work s base now))
