-- ===== src/Works/Writes.antt =====
-- What the operations of src/app/works/service.py commit, after their guards.
use rulefolio_server.Prelude.{
  ℕ, String, false, not, ◌≡◌, refl, sym, ◌∙◌, ◌≤◌, ap, inl, inr, ◌&&◌, ◌==◌, arith, Option, none,
  some, List, [], ◌∷◌, scalar, update, rowcount, Option-cases, Bool-cases,
}
use rulefolio_server.Workspaces.Models.{Role, maintainer, is_maintainer, same_role, WorkAccess}
use rulefolio_server.Workspaces.Members.{
  access_for, is_last_maintainer, access_row, is_access, with_role, maintains, one_of,
  lock_work_members, lock_work_accesses, update_work_access_role, add_work_access,
  delete_work_access,
}
use rulefolio_server.Notifications.Todos.{delete_work_access_todos}
use rulefolio_server.Works.Models.{Work}
use rulefolio_server.Works.Guards.{WorkValues}
use rulefolio_server.Notifications.Scope.{delete_work_access_todos-Renotified}
use rulefolio_server.Works.Maintained.{
  locked, found-is_access, counted-maintains, IsManaged, create-IsManaged, update-IsManaged,
  add-IsManaged, delete-IsManaged, with_role-IsManaged,
}
use rulefolio_server.Works.Service.{
  has_work_id, at_revision, revised, work_row, work_audit, change_role, insert_work, write_work,
  alter_access, write_access, set_access, revoke_access,
}
use rulefolio_server.Database.{Db, Session, Exec, pure, add_audit, work_last_maintainer_required}
use rulefolio_server.Database.Leaves.{refuse_if-Leaves, commit-Leaves}

-- every work has a maintainer, and accesses are unique and linked, in the whole database
abbrev pub Managed : Db → Type 0
Managed db = IsManaged db.works db.accesses

Managed-of :
    {A : Type 0} {works : List Work} {accesses : List WorkAccess} (m : Exec A) (s : Session)
    → IsManaged works accesses
    → (m s).1.durable.works ≡ works
    → (m s).1.durable.accesses ≡ accesses
    → Managed (m s).1.durable
Managed-of m s managed same_works same_accesses = rw (same_works, same_accesses) managed

pub tables_kept :
    (account_id work_id : ℕ) (db : Db)
    → ((delete_work_access_todos account_id work_id db).works ≡ db.works)
      × ((delete_work_access_todos account_id work_id db).accesses ≡ db.accesses)
tables_kept account_id work_id db =
    let (outbox, todos, e) = delete_work_access_todos-Renotified account_id work_id db in
    (ap (λ (d : Db). d.works) e, ap (λ (d : Db). d.accesses) e)

pub role_written :
    (a : WorkAccess) (work_id account_id : ℕ) (role : Role) (db : Db)
    → ((change_role a work_id account_id role db).works ≡ db.works)
      × ((change_role a work_id account_id role db).accesses
          ≡ update (is_access work_id account_id) (with_role role) db.accesses)
unfolding change_role update_work_access_role
role_written a work_id account_id role db =
    let (same_works, same_accesses) = tables_kept account_id work_id db in
    elim (Bool-cases (is_maintainer a.role && not (is_maintainer role))) [
      | inl lowered ↦ (rw lowered same_works, rw (lowered, same_accesses) refl)
      | inr kept ↦ (rw kept refl, rw kept refl)
    ]

pub write_work-Managed :
    (v : WorkValues) (revision : ℕ) (found : Work × List WorkAccess) (s : Session)
    → Managed s.durable
    → Managed s.current
    → Managed (write_work v revision found s).1.durable
unfolding write_work
write_work-Managed v revision (work, accesses) s base now =
    let run = write_work v revision (work, accesses) in
    elim (Option-cases (scalar (at_revision work.id revision) s.current.works)) [
      | inl stale ↦ Managed-of run s base (ground arith) (ground arith)
      | inr (w, current) ↦ elim (Bool-cases (s.accepts s.commits)) [
        | inr refused ↦ Managed-of run s base (ground arith) (ground arith)
        | inl taken ↦
            Managed-of run s
              (update-IsManaged (at_revision work.id revision) (revised v) s.current.works
                s.current.accesses (λ w. unfold revised work_row in refl) now)
              (ground arith) (ground arith)
      ]
    ]

module _ (label : ℕ → ℕ → String) where
  pub insert_work-Managed :
      (id actor_id workspace_id : ℕ) (v : WorkValues) (s : Session)
      → Managed s.durable
      → Managed s.current
      → Managed (insert_work label id actor_id workspace_id v tt s).1.durable
  unfolding insert_work add_work_access work_row
  insert_work-Managed id actor_id workspace_id v s base now =
      let run = insert_work label id actor_id workspace_id v tt in
      elim (Option-cases (scalar (has_work_id id) s.current.works)) [
        | inr (w, clash) ↦ Managed-of run s base (ground arith) (ground arith)
        | inl free ↦
            elim (Bool-cases
              (one_of (lock_work_members workspace_id (actor_id ∷ []) s.current) actor_id)) [
                | inr outside ↦ Managed-of run s base (ground arith) (ground arith)
                | inl member ↦ elim (Bool-cases (s.accepts s.commits)) [
                  | inr refused ↦ Managed-of run s base (ground arith) (ground arith)
                  | inl taken ↦
                      Managed-of run s
                        (create-IsManaged (work_row id workspace_id v)
                          (access_row id workspace_id actor_id maintainer) s.current.works
                          s.current.accesses now free refl refl)
                        (ground arith) (ground arith)
                ]
              ]
      ]

  -- the work of a manager's write is there
  abbrev IsThere : ℕ → Session → Type 0
  IsThere work_id s = 1 ≤ rowcount (has_work_id work_id) s.current.works

  alter_access-Managed :
      (actor_id workspace_id account_id : ℕ) (role : Role) (work : Work) (a : WorkAccess)
      (s : Session)
      → Managed s.durable
      → IsManaged s.current.works
          (update (is_access work.id account_id) (with_role role) s.current.accesses)
      → Managed (alter_access label actor_id workspace_id account_id role work a s).1.durable
  unfolding alter_access
  alter_access-Managed actor_id workspace_id account_id role work a s base changed =
      let (same_works, same_accesses) = role_written a work.id account_id role s.current in
      let audit =
        work_audit label "work_access_role_changed" actor_id account_id workspace_id work.id in
      let written = add_audit audit (change_role a work.id account_id role s.current) in
      commit-Leaves Managed (pure (account_id, role)) (record s { current = written }) base
        (λ s' d c. rw d (rw (same_works, same_accesses) changed))

  -- the writes of `set_work_access`, for the access that the account has
  write_access-Managed :
      (actor_id workspace_id account_id : ℕ) (role : Role) (work : Work) (o : Option WorkAccess)
      (s : Session)
      → Managed s.durable
      → Managed s.current
      → IsThere work.id s
      → scalar (is_access work.id account_id) s.current.accesses ≡ o
      → ((a : WorkAccess)
          → o ≡ some a
          → (is_maintainer a.role && rowcount (maintains work.id) s.current.accesses == 1)
              && not (is_maintainer role)
            ≡ false)
      → Managed (write_access label actor_id workspace_id account_id role work o s).1.durable
  unfolding write_access add_work_access
  write_access-Managed actor_id workspace_id account_id role work none s base now there new last =
      let row = access_row work.id work.workspace_id account_id role in
      let audit = work_audit label "work_access_granted" actor_id account_id workspace_id work.id in
      let written =
        add_audit audit (add_work_access work.id work.workspace_id account_id role s.current) in
      commit-Leaves Managed (pure (account_id, role)) (record s { current = written }) base
        (λ s' d c. rw d (add-IsManaged row s.current.works s.current.accesses now new there))
  write_access-Managed actor_id workspace_id account_id role work (some a) s base now there found
        last =
      elim (Bool-cases (same_role a.role role)) [
        | inl same ↦
            rw (same, write_access)
              (commit-Leaves Managed (pure (account_id, role)) s base (λ s' d c. rw d now))
        | inr other ↦
            rw (other, write_access)
              (alter_access-Managed actor_id workspace_id account_id role work a s base (
                with_role-IsManaged work.id account_id s.current.works s.current.accesses now found
                  role (last a refl)))
      ]

  pub set_access-Managed :
      (actor_id workspace_id account_id : ℕ) (role : Role) (work : Work) (s : Session)
      → Managed s.durable
      → Managed s.current
      → IsThere work.id s
      → Managed
          (set_access label actor_id workspace_id account_id role
            (work, lock_work_accesses work.id s.current)
            s).1.durable
  unfolding set_access lock_work_accesses
  set_access-Managed actor_id workspace_id account_id role work s base now there =
      let rows = s.current.accesses in
      let access = scalar (access_for account_id) (locked work.id rows) in
      refuse_if-Leaves Managed
        (is_last_maintainer access (locked work.id rows) && not (is_maintainer role))
        work_last_maintainer_required
        (write_access label actor_id workspace_id account_id role work access) s base
        (λ go.
          write_access-Managed actor_id workspace_id account_id role work access s base now there
            (sym (found-is_access work.id account_id rows))
            (λ a found. rw (sym (counted-maintains work.id rows)) (rw found at go)))

  pub revoke_access-Managed :
      (actor_id workspace_id account_id : ℕ) (work : Work) (s : Session)
      → Managed s.durable
      → Managed s.current
      → Managed
          (revoke_access label actor_id workspace_id account_id
            (work, lock_work_accesses work.id s.current)
            s).1.durable
  unfolding revoke_access delete_work_access lock_work_accesses
  revoke_access-Managed actor_id workspace_id account_id work s base now =
      let rows = s.current.accesses in
      let run = revoke_access label actor_id workspace_id account_id (work, locked work.id rows) in
      let (same_works, same_accesses) = tables_kept account_id work.id s.current in
      elim (Option-cases (scalar (access_for account_id) (locked work.id rows))) [
        | inl missing ↦ Managed-of run s base (ground arith) (ground arith)
        | inr (a, found) ↦ elim (Bool-cases (is_last_maintainer (some a) (locked work.id rows))) [
          | inl last ↦ Managed-of run s base (ground arith) (ground arith)
          | inr free ↦ elim (Bool-cases (s.accepts s.commits)) [
            | inr refused ↦ Managed-of run s base (ground arith) (ground arith)
            | inl taken ↦
                Managed-of run s
                  (delete-IsManaged work.id account_id s.current.works rows now
                    (sym (found-is_access work.id account_id rows) ∙ found)
                    (rw (sym (counted-maintains work.id rows)) free))
                  (ground arith) (ground arith)
          ]
        ]
      ]
