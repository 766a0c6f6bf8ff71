-- ===== src/Works/GuardLaws.antt =====
-- The guards of works only read.
use rulefolio_server.Prelude.{ℕ, Bool, true, List, Option, ◌≡◌, scalar, some, arith}
use rulefolio_server.Workspaces.Models.{Workspace, WorkAccess}
use rulefolio_server.Workspaces.Access.{load_visible_workspace, ensure_workspace_writable}
use rulefolio_server.Workspaces.Members.{lock_work_accesses}
use rulefolio_server.Works.Models.{Work}
use rulefolio_server.Works.Guards.{
  require_workspace_member, is_shown, load_visible_work, require_manager, prepare_manager_write,
}
use rulefolio_server.Database.{Session}
use rulefolio_server.Database.Reads.{Reads, Any}

module _ (visible : Workspace → Bool) where
  pub ensure_workspace_writable-Reads :
      (workspace_id : ℕ) (s : Session)
      → Reads Any (ensure_workspace_writable visible workspace_id) s
  unfolding ensure_workspace_writable load_visible_workspace
  ensure_workspace_writable-Reads workspace_id s = ground arith

  module _ (visible_work : Work → Bool) where
    pub require_workspace_member-Reads :
        (workspace_id account_id : ℕ) (s : Session)
        → Reads Any (require_workspace_member visible visible_work workspace_id account_id true) s
    unfolding require_workspace_member ensure_workspace_writable load_visible_workspace
    require_workspace_member-Reads workspace_id account_id s = ground arith

    -- a manager's write begins with a work that is shown and with the accesses of this work
    abbrev pub Locked : (workspace_id work_id : ℕ) → Session → Work × List WorkAccess → Type 0
    Locked workspace_id work_id s (work, accesses) =
        (accesses ≡ lock_work_accesses work.id s.current)
        × (scalar (is_shown visible visible_work workspace_id work_id) s.current.works ≡ some work)

    pub prepare_manager_write-Reads :
        (workspace_id work_id actor_id : ℕ) (target : Option ℕ) (s : Session)
        → Reads
            (Locked workspace_id work_id s)
            (prepare_manager_write visible visible_work workspace_id work_id actor_id target)
            s
    unfolding prepare_manager_write require_manager load_visible_work ensure_workspace_writable
        load_visible_workspace
    prepare_manager_write-Reads workspace_id work_id actor_id target s = ground arith
