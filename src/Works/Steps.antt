-- ===== src/Works/Steps.antt =====
-- The requests that change works, their accesses and the members of a workspace, as steps of the
-- database, in whatever order they come. A step is a whole request: it may fail, and its commit may
-- be refused.
use rulefolio_server.Prelude.{ℕ, String, Bool}
use rulefolio_server.Workspaces.Models.{Workspace}
use rulefolio_server.Workspaces.Membership.{remove_member}
use rulefolio_server.Works.Models.{Work}
use rulefolio_server.Works.Guards.{WorkValues}
use rulefolio_server.Works.Service.{create_work, update_work, set_work_access, revoke_work_access}
use rulefolio_server.Works.Writes.{Managed}
use rulefolio_server.Works.Laws.{
  create_work-Managed, update_work-Managed, set_work_access-Managed, revoke_work_access-Managed,
}
use rulefolio_server.Works.Removal.{remove_member-Managed}
use rulefolio_server.Database.{Db, begin}

-- Each request sees its own part of the database: `visible` and `visible_work` are its own.
pub data Step (label : ℕ → ℕ → String) (str : ℕ → String) : Db → Db → Type 0 where
  creates :
      (visible : Workspace → Bool) (visible_work : Work → Bool) (accepts : ℕ → Bool)
      (id actor_id workspace_id : ℕ) (v : WorkValues) (db : Db)
      → Step label str db
          (create_work visible visible_work label id actor_id workspace_id v
            (begin db accepts)).1.durable
  updates :
      (visible : Workspace → Bool) (visible_work : Work → Bool) (accepts : ℕ → Bool)
      (actor_id workspace_id work_id : ℕ) (v : WorkValues) (revision : ℕ) (db : Db)
      → Step label str db
          (update_work visible visible_work label actor_id workspace_id work_id v revision
            (begin db accepts)).1.durable
  sets :
      (visible : Workspace → Bool) (visible_work : Work → Bool) (accepts : ℕ → Bool)
      (actor_id workspace_id work_id account_id : ℕ) (role : String) (db : Db)
      → Step label str db
          (set_work_access visible visible_work label actor_id workspace_id work_id account_id role
            (begin db accepts)).1.durable
  revokes :
      (visible : Workspace → Bool) (visible_work : Work → Bool) (accepts : ℕ → Bool)
      (actor_id workspace_id work_id account_id : ℕ) (db : Db)
      → Step label str db
          (revoke_work_access visible visible_work label actor_id workspace_id work_id account_id
            (begin db accepts)).1.durable
  removes :
      (visible : Workspace → Bool) (accepts : ℕ → Bool) (now actor_id workspace_id account_id : ℕ)
      (db : Db)
      → Step label str db
          (remove_member visible label str now actor_id workspace_id account_id
            (begin db accepts)).1.durable

pub data Reach (label : ℕ → ℕ → String) (str : ℕ → String) : Db → Db → Type 0 where
  stay : (db : Db) → Reach label str db db
  then_step : (a b c : Db) → Reach label str a b → Step label str b c → Reach label str a c

module _ (label : ℕ → ℕ → String) (str : ℕ → String) where
  Step-Managed : (a b : Db) → Step label str a b → Managed a → Managed b
  Step-Managed _ _ (creates visible visible_work accepts id actor_id workspace_id v a) m =
      create_work-Managed visible visible_work label id actor_id workspace_id v (begin a accepts) m
        m
  Step-Managed _ _ (updates visible visible_work accepts actor_id workspace_id work_id v revision a)
        m =
      update_work-Managed visible visible_work label actor_id workspace_id work_id v revision
        (begin a accepts) m m
  Step-Managed _ _
        (sets visible visible_work accepts actor_id workspace_id work_id account_id role a) m =
      set_work_access-Managed visible visible_work label actor_id workspace_id work_id account_id
        role (begin a accepts) m m
  Step-Managed _ _ (revokes visible visible_work accepts actor_id workspace_id work_id account_id a)
        m =
      revoke_work_access-Managed visible visible_work label actor_id workspace_id work_id account_id
        (begin a accepts) m m
  Step-Managed _ _ (removes visible accepts now actor_id workspace_id account_id a) m =
      remove_member-Managed label visible str now actor_id workspace_id account_id (begin a accepts)
        m m

  -- Whatever requests that create or change works, set or revoke accesses, or remove members run,
  -- in whatever order, each of them failing or having its commit refused or not: if every work has
  -- a maintainer, an account has at most one access to a work, and every access is to a work that
  -- exists, this stays so.
  pub Reach-Managed : (a b : Db) → Reach label str a b → Managed a → Managed b
  Reach-Managed _ _ (stay a) m = m
  Reach-Managed _ _ (then_step a b c run last) m = Step-Managed b c last (Reach-Managed a b run m)
