-- ===== src/Workspaces/Members.antt =====
-- The members of a workspace and the roles on its works in src/app/workspaces/service.py.
use rulefolio_server.Prelude.{
  ℕ, Bool, false, not, ◌&&◌, ◌||◌, Option, none, some, List, [], ◌∷◌, ◌==◌, is_none, scalar, update,
  delete, select, map, rowcount,
}
use rulefolio_server.Workspaces.Models.{WorkspaceMember, Role, is_maintainer, WorkAccess}
use rulefolio_server.Database.{Db}

unfoldable pub is_member : (workspace_id account_id : ℕ) → WorkspaceMember → Bool
is_member workspace_id account_id m = m.workspace_id == workspace_id && m.account_id == account_id

unfoldable pub has_workspace_member : (workspace_id account_id : ℕ) → Db → Bool
unfolding is_member
has_workspace_member workspace_id account_id db =
    not (is_none (scalar (is_member workspace_id account_id) db.members))

-- the primary key of an access
unfoldable pub is_access : (work_id account_id : ℕ) → WorkAccess → Bool
is_access work_id account_id a = a.work_id == work_id && a.account_id == account_id

unfoldable pub work_access_role : (work_id account_id : ℕ) → Db → Option Role
unfolding is_access
work_access_role work_id account_id db = elim (scalar (is_access work_id account_id) db.accesses) [
  | none ↦ none
  | some a ↦ some a.role
]

-- `column.in_(account_ids)`
abbrev pub one_of : List ℕ → ℕ → Bool
one_of [] n = false
one_of (i ∷ ids) n = i == n || one_of ids n

-- the accounts among the given ones that are members; their order is not read
unfoldable pub lock_work_members : (workspace_id : ℕ) → List ℕ → Db → List ℕ
lock_work_members workspace_id account_ids db =
    map (λ m. m.account_id)
      (select (λ m. m.workspace_id == workspace_id && one_of account_ids m.account_id) db.members)

unfoldable pub on_work : (work_id : ℕ) → WorkAccess → Bool
on_work work_id a = a.work_id == work_id

-- the accesses of a work; the order is not read
unfoldable pub lock_work_accesses : (work_id : ℕ) → Db → List WorkAccess
unfolding on_work
lock_work_accesses work_id db = select (on_work work_id) db.accesses

abbrev pub access_for : ℕ → WorkAccess → Bool
access_for account_id a = a.account_id == account_id

abbrev pub access_maintains : Option WorkAccess → Bool
access_maintains none = false
access_maintains (some a) = is_maintainer a.role

-- the removal of the last maintainer of a work
abbrev pub is_last_maintainer : Option WorkAccess → List WorkAccess → Bool
is_last_maintainer access accesses =
    access_maintains access && rowcount (λ a. is_maintainer a.role) accesses == 1

unfoldable pub maintains : (work_id : ℕ) → WorkAccess → Bool
maintains work_id a = a.work_id == work_id && is_maintainer a.role

unfoldable pub current_work_maintainer_ids : (work_id : ℕ) → Db → List ℕ
unfolding maintains
current_work_maintainer_ids work_id db =
    map (λ a. a.account_id) (select (maintains work_id) db.accesses)

abbrev pub access_row : (work_id workspace_id account_id : ℕ) → Role → WorkAccess
access_row work_id workspace_id account_id role = record {
  work_id = work_id;
  workspace_id = workspace_id;
  account_id = account_id;
  role = role;
}

unfoldable pub add_work_access : (work_id workspace_id account_id : ℕ) → Role → Db → Db
add_work_access work_id workspace_id account_id role db = record db {
  accesses = access_row work_id workspace_id account_id role ∷ db.accesses;
}

abbrev pub with_role : Role → WorkAccess → WorkAccess
with_role role a = record a { role = role }

unfoldable pub update_work_access_role : (work_id account_id : ℕ) → Role → Db → Db
unfolding is_access
update_work_access_role work_id account_id role db = record db {
  accesses = update (is_access work_id account_id) (with_role role) db.accesses;
}

unfoldable pub delete_work_access : (work_id account_id : ℕ) → Db → Db
unfolding is_access
delete_work_access work_id account_id db = record db {
  accesses = delete (is_access work_id account_id) db.accesses;
}
