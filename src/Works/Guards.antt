-- ===== src/Works/Guards.antt =====
-- The guards of src/app/works/service.py. Row security hides a work and a workspace from those who
-- have no access; `visible` and `visible_work` tell what it shows the actor.
use rulefolio_server.Prelude.{
  ℕ, String, Bool, true, false, not, ◌&&◌, Option, none, some, List, [], ◌∷◌, ◌==◌, leb, ltb,
  str_eq, is_none, if◌then◌else◌, scalar,
}
use rulefolio_server.Recovery.Request.{strip}
use rulefolio_server.Workspaces.Models.{
  Workspace, Role, maintainer, organizer, is_maintainer, WorkAccess,
}
use rulefolio_server.Workspaces.Access.{ensure_workspace_writable}
use rulefolio_server.Workspaces.Members.{
  access_for, access_maintains, has_workspace_member, work_access_role, one_of, lock_work_members,
  lock_work_accesses,
}
use rulefolio_server.Works.Models.{Work}
use rulefolio_server.Database.{
  Exec, pure, gets, or_raise, fail_if, refuse_if, ◌>>=◌, ◌>>◌, value_error, workspace_unavailable,
  work_unavailable, work_management_forbidden, work_access_member_unavailable,
  work_operation_retryable, or_retryable,
}

pub record WorkData : Type 0 where
  pub work : Work
  pub own_role : Role
  pub can_manage_access : Bool

-- `_work_data`; the columns that it copies are those of `work`
unfoldable pub work_data : Work → Role → WorkData
work_data work own_role = record {
  work = work;
  own_role = own_role;
  can_manage_access = is_maintainer own_role;
}

-- what a request tells of a work
pub record WorkValues : Type 0 where
  pub name : String
  pub description : String
  pub creative_stage : String
  pub target_experience : String
  pub min_players : ℕ
  pub max_players : ℕ
  pub estimated_duration_minutes : ℕ

abbrev pub stripped : WorkValues → WorkValues
stripped v = record v {
  name = strip v.name;
  description = strip v.description;
  creative_stage = strip v.creative_stage;
  target_experience = strip v.target_experience;
}

abbrev is_text : String → Bool
is_text t = not (str_eq t "")

-- the constraints on the values, which are stripped before
unfoldable pub is_sound : WorkValues → Bool
is_sound v =
    is_text v.name
    && is_text v.description
    && is_text v.creative_stage
    && is_text v.target_experience
    && ltb 0 v.min_players
    && leb v.min_players v.max_players
    && ltb 0 v.estimated_duration_minutes

-- `_validate_work_values`
unfoldable pub validate_work_values : WorkValues → Exec WorkValues
unfolding is_sound
validate_work_values v = do fail_if (not (is_sound (stripped v))) value_error; pure (stripped v)

abbrev pub own_role_is : (Role → Bool) → Option Role → Bool
own_role_is test none = false
own_role_is test (some role) = test role

-- MAINTAINER and "organizer"
abbrev pub may_manage_playtests : Role → Bool
may_manage_playtests maintainer = true
may_manage_playtests organizer = true
may_manage_playtests _ = false

-- the account that an operation is about, if it is about one, is among the locked members
abbrev pub target_missing : Option ℕ → List ℕ → Bool
target_missing none ids = false
target_missing (some account_id) ids = not (one_of ids account_id)

abbrev pub with_target : ℕ → Option ℕ → List ℕ
with_target actor_id none = actor_id ∷ []
with_target actor_id (some account_id) = actor_id ∷ account_id ∷ []

module _ (visible : Workspace → Bool) (visible_work : Work → Bool) where
  -- `_require_workspace_member`
  unfoldable pub require_workspace_member : (workspace_id account_id : ℕ) → Bool → Exec (Unit {0})
  unfolding ensure_workspace_writable has_workspace_member
  require_workspace_member workspace_id account_id writable = do
    if writable then ensure_workspace_writable visible workspace_id else pure tt
    member ← gets (has_workspace_member workspace_id account_id)
    refuse_if (not member) workspace_unavailable

  unfoldable pub is_shown : (workspace_id work_id : ℕ) → Work → Bool
  is_shown workspace_id work_id w =
      w.id == work_id && w.workspace_id == workspace_id && visible_work w

  -- `_load_visible_work`
  unfoldable pub load_visible_work : (workspace_id work_id : ℕ) → Exec Work
  unfolding is_shown
  load_visible_work workspace_id work_id = do
    found ← gets (λ db. scalar (is_shown workspace_id work_id) db.works)
    or_raise found work_unavailable

  -- `_require_manager`
  unfoldable pub require_manager : (workspace_id work_id actor_id : ℕ) → Exec Work
  unfolding load_visible_work work_access_role
  require_manager workspace_id work_id actor_id = do
    work ← load_visible_work workspace_id work_id
    role ← gets (work_access_role work.id actor_id)
    refuse_if (not (own_role_is is_maintainer role)) work_management_forbidden
    pure work

  -- `_prepare_manager_write`
  unfoldable pub prepare_manager_write :
      (workspace_id work_id actor_id : ℕ) → Option ℕ → Exec (Work × List WorkAccess)
  unfolding ensure_workspace_writable require_manager lock_work_members lock_work_accesses
  prepare_manager_write workspace_id work_id actor_id target = do
    ensure_workspace_writable visible workspace_id
    work ← require_manager workspace_id work_id actor_id
    member_ids ← gets (lock_work_members work.workspace_id (with_target actor_id target))
    refuse_if (not (one_of member_ids actor_id)) work_management_forbidden
    refuse_if (target_missing target member_ids) work_access_member_unavailable
    accesses ← gets (lock_work_accesses work.id)
    let own_access = scalar (access_for actor_id) accesses
    refuse_if (not (access_maintains own_access)) work_management_forbidden
    pure (work, accesses)

  unfoldable pub ensure_work_access : (actor_id workspace_id work_id : ℕ) → Exec (Unit {0})
  unfolding load_visible_work work_access_role
  ensure_work_access actor_id workspace_id work_id = or_retryable work_operation_retryable (do
    work ← load_visible_work workspace_id work_id
    role ← gets (work_access_role work.id actor_id)
    refuse_if (is_none role) work_unavailable)

  unfoldable pub ensure_work_management : (actor_id workspace_id work_id : ℕ) → Exec (Unit {0})
  unfolding require_manager
  ensure_work_management actor_id workspace_id work_id =
      or_retryable work_operation_retryable
        (do work ← require_manager workspace_id work_id actor_id; pure tt)

  unfoldable pub ensure_playtest_management : (actor_id workspace_id work_id : ℕ) → Exec Work
  unfolding load_visible_work work_access_role
  ensure_playtest_management actor_id workspace_id work_id =
      or_retryable work_operation_retryable (do
        work ← load_visible_work workspace_id work_id
        role ← gets (work_access_role work.id actor_id)
        refuse_if (not (own_role_is may_manage_playtests role)) work_management_forbidden
        pure work)
