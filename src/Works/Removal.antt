-- ===== src/Works/Removal.antt =====
-- The removal of a member (src/app/workspaces/service.py) leaves every work a maintainer.
use rulefolio_server.Prelude.{
  ℕ, String, Bool, false, ◌≡◌, sym, ◌∙◌, List, [], ◌∷◌, some, scalar, select, map, rowcount, not,
  Bool-cases, Option-cases, inl, inr, arith, ◌==◌, ◌&&◌,
}
use rulefolio_server.Workspaces.Models.{Workspace, WorkAccess, is_maintainer, WorkspaceMember}
use rulefolio_server.Workspaces.Members.{
  access_for, is_last_maintainer, is_access, maintains, lock_work_accesses, delete_work_access,
}
use rulefolio_server.Workspaces.Access.{
  require_workspace_manager, load_visible_workspace, ensure_workspace_writable,
}
use rulefolio_server.Workspaces.Membership.{
  removable, drop_access, drop_accesses, revoke_invitations, delete_member, drop_member,
  find_removable, remove_member,
}
use rulefolio_server.Workspaces.Scope.{revoke_invitations-SameWorks}
use rulefolio_server.Works.Maintained.{locked, found-is_access, counted-maintains, delete-IsManaged}
use rulefolio_server.Works.Writes.{Managed, tables_kept}
use rulefolio_server.Database.{
  Db, Session, modify, commit, ◌>>=◌, ◌>>◌, workspace_operation_retryable,
  workspace_member_last_maintainer_required,
}
use rulefolio_server.Database.Leaves.{
  Leaves, or_retryable-Leaves, refuse_if-Leaves, last_commit-Leaves,
}
use rulefolio_server.Database.Reads.{Reads, Any, Reads-Leaves}

module _ (label : ℕ → ℕ → String) where
  drop_access-Managed :
      (actor_id workspace_id work_id account_id : ℕ) (db : Db) {a : WorkAccess}
      → Managed db
      → scalar (is_access work_id account_id) db.accesses ≡ some a
      → is_maintainer a.role && rowcount (maintains work_id) db.accesses == 1 ≡ false
      → Managed (drop_access label actor_id workspace_id work_id account_id db)
  unfolding drop_access delete_work_access
  drop_access-Managed actor_id workspace_id work_id account_id db managed found last =
      let (same_works, same_accesses) = tables_kept account_id work_id db in
      rw (same_works, same_accesses)
        (delete-IsManaged work_id account_id db.works db.accesses managed found last)

  drop_accesses-Managed :
      (actor_id workspace_id account_id : ℕ) (work_ids : List ℕ) (db : Db)
      → Managed db
      → Managed (drop_accesses label actor_id workspace_id account_id work_ids db).1
  unfolding drop_accesses lock_work_accesses
  drop_accesses-Managed actor_id workspace_id account_id [] db managed = managed
  drop_accesses-Managed actor_id workspace_id account_id (work_id ∷ later) db managed =
      let rows = db.accesses in
      elim (Option-cases (scalar (access_for account_id) (locked work_id rows))) [
        | inl missing ↦
            rw (missing, drop_accesses)
              (drop_accesses-Managed actor_id workspace_id account_id later db managed)
        | inr (a, found) ↦ elim (Bool-cases (is_last_maintainer (some a) (locked work_id rows))) [
          | inl last ↦ rw (found, drop_accesses) (rw (last, drop_accesses) managed)
          | inr free ↦
              rw (found, drop_accesses)
                (rw (free, drop_accesses)
                  (drop_accesses-Managed actor_id workspace_id account_id later _ (
                    drop_access-Managed actor_id workspace_id work_id account_id db managed
                      (sym (found-is_access work_id account_id rows) ∙ found)
                      (rw (sym (counted-maintains work_id rows)) free))))
        ]
      ]

  module _ (visible : Workspace → Bool) (str : ℕ → String) where
    find_removable-Reads :
        (actor_id workspace_id account_id : ℕ) (s : Session)
        → Reads Any (find_removable visible label str actor_id workspace_id account_id) s
    unfolding find_removable require_workspace_manager load_visible_workspace
        ensure_workspace_writable
    find_removable-Reads actor_id workspace_id account_id s = ground arith

    drop_member-Managed :
        (now actor_id workspace_id account_id : ℕ) (s : Session)
        → Managed s.durable
        → Managed s.current
        → Leaves Managed (drop_member visible label str now actor_id workspace_id account_id) s
    unfolding drop_member
    drop_member-Managed now actor_id workspace_id account_id s base managed =
        let work_ids =
          map (λ (a : WorkAccess). a.work_id)
            (select (removable workspace_id account_id) s.current.accesses) in
        let dropped = drop_accesses label actor_id workspace_id account_id work_ids s.current in
        let revoked = revoke_invitations str now workspace_id account_id dropped.1 in
        let written = delete_member str actor_id workspace_id account_id revoked in
        let (same_works, same_accesses, same_members) =
          revoke_invitations-SameWorks str now workspace_id account_id dropped.1 in
        refuse_if-Leaves Managed (not dropped.0) workspace_member_last_maintainer_required
          (modify (λ db. written) >> commit) s base
          λ all.
            last_commit-Leaves Managed (record s { current = written }) base
              (unfold delete_member in
                rw (same_works, same_accesses)
                  (drop_accesses-Managed actor_id workspace_id account_id work_ids s.current
                    managed))

    pub remove_member-Managed :
        (now actor_id workspace_id account_id : ℕ) (s : Session)
        → Managed s.durable
        → Managed s.current
        → Leaves Managed (remove_member visible label str now actor_id workspace_id account_id) s
    unfolding remove_member
    remove_member-Managed now actor_id workspace_id account_id s base managed =
        let found = find_removable visible label str actor_id workspace_id account_id in
        let rest = λ (member : WorkspaceMember).
          drop_member visible label str now actor_id workspace_id account_id in
        or_retryable-Leaves Managed workspace_operation_retryable (found >>= rest) s (
          Reads-Leaves Managed Any found rest s
            (find_removable-Reads actor_id workspace_id account_id s) base
            λ member u. drop_member-Managed now actor_id workspace_id account_id s base managed)
