-- ===== src/Works/Roles.antt =====
-- The table of accesses as a finite map: the role of an account on a work, if it has one, and what
-- a request for an access does to this map.
use mathlib.Core.Option
use rulefolio_server.Prelude.{
  ℕ, String, true, false, ◌≡◌, refl, sym, ◌∙◌, ap, List, [], ◌∷◌, Option, some, none, arith, scalar,
  scalar-hit, scalar-update, update, delete, if◌then◌else◌, ◌==◌, ◌&&◌, not, Option-cases,
  Bool-cases, inl, inr,
}
use rulefolio_server.Workspaces.Models.{Role, same_role, WorkAccess, is_maintainer}
use rulefolio_server.Workspaces.Members.{
  access_for, is_last_maintainer, is_access, work_access_role, lock_work_accesses, with_role,
  access_row, add_work_access, delete_work_access,
}
use rulefolio_server.Works.Models.{Work}
use rulefolio_server.Works.Maintained.{locked, found-is_access}
use rulefolio_server.Works.Service.{
  work_audit, change_role, alter_access, write_access, set_access, revoke_access,
}
use rulefolio_server.Works.Writes.{tables_kept, role_written}
use rulefolio_server.Database.{
  Db, Session, ok, commit, commit_taken, pure, ◌>>◌, add_audit, work_last_maintainer_required,
  refuse_ok,
}

-- the abstract map, and one of its entries replaced
abbrev pub Roles : Type 0
Roles = ℕ → ℕ → Option Role

abbrev pub roles : Db → Roles
roles db work_id account_id = work_access_role work_id account_id db

abbrev pub assign : (work_id account_id : ℕ) → Option Role → Roles → Roles
assign work_id account_id o f w a = if w == work_id && a == account_id then o else f w a

-- the entry of a list of rows
abbrev role_in : List WorkAccess → Roles
role_in rows w a = Option.map (λ x. x.role) (scalar (is_access w a) rows)

role_in-roles : (db : Db) (w a : ℕ) → roles db w a ≡ role_in db.accesses w a
unfolding work_access_role
role_in-roles db w a = elim (Option-cases (scalar (is_access w a) db.accesses)) [
  | inl missing ↦ ground arith
  | inr (x, found) ↦ ground arith
]

role_in-cons :
    (work_id workspace_id account_id : ℕ) (role : Role) (rows : List WorkAccess) (w a : ℕ)
    → role_in (access_row work_id workspace_id account_id role ∷ rows) w a
      ≡ assign work_id account_id (some role) (role_in rows) w a
unfolding scalar is_access
role_in-cons work_id workspace_id account_id role rows w a = ground arith

role_in-delete :
    (work_id account_id : ℕ) (rows : List WorkAccess) (w a : ℕ)
    → role_in (delete (is_access work_id account_id) rows) w a
      ≡ assign work_id account_id none (role_in rows) w a
unfolding scalar delete is_access
role_in-delete work_id account_id [] w a = ground arith
role_in-delete work_id account_id (x ∷ rows) w a =
    ground (arith, role_in-delete work_id account_id rows w a)

role_in-update :
    (work_id account_id : ℕ) (role : Role) (rows : List WorkAccess) {x : WorkAccess} (w a : ℕ)
    → scalar (is_access work_id account_id) rows ≡ some x
    → role_in (update (is_access work_id account_id) (with_role role) rows) w a
      ≡ assign work_id account_id (some role) (role_in rows) w a
role_in-update work_id account_id role rows {x} w a found =
    let moved =
      scalar-update (is_access w a) (is_access work_id account_id) (with_role role) rows
        (λ y. unfold is_access in refl) in
    ap (λ (o : Option WorkAccess). Option.map (λ y. y.role) o) moved
    ∙ elim (Bool-cases (w == work_id && a == account_id)) [
      | inl here ↦ entry_here work_id account_id role rows w a here found
      | inr other ↦ elim (Option-cases (scalar (is_access w a) rows)) [
        | inl missing ↦ rw (missing, other) refl
        | inr (z, there) ↦
            rw (there, other)
              (entry_kept work_id account_id role w a z other
                (scalar-hit (is_access w a) rows there))
      ]
    ]
  where
    entry_here :
        (work_id account_id : ℕ) (role : Role) (rows : List WorkAccess) {x : WorkAccess} (w a : ℕ)
        → w == work_id && a == account_id ≡ true
        → scalar (is_access work_id account_id) rows ≡ some x
        → Option.map
            (λ y. y.role)
            (Option.map
              (λ y. if is_access work_id account_id y then with_role role y else y)
              (scalar (is_access w a) rows))
          ≡ assign work_id account_id (some role) (role_in rows) w a
    entry_here work_id account_id role rows {x} w a here found =
        let same_w : w ≡ work_id = ground (arith, here) in
        let same_a : a ≡ account_id = ground (arith, here) in
        let there : scalar (is_access w a) rows ≡ some x = rw (same_w, same_a) found in
        rw (there, here) (rw (scalar-hit (is_access work_id account_id) rows found) refl)

    entry_kept :
        (work_id account_id : ℕ) (role : Role) (w a : ℕ) (z : WorkAccess)
        → w == work_id && a == account_id ≡ false
        → is_access w a z ≡ true
        → some (if is_access work_id account_id z then with_role role z else z).role ≡ some z.role
    entry_kept work_id account_id role w a z other hit =
        unfold is_access in ground (arith, other, hit)

same_role_eq : (r r' : Role) → same_role r r' ≡ true → r ≡ r'
same_role_eq r r' h = ground arith

role_in-same :
    (work_id account_id : ℕ) (role : Role) (rows : List WorkAccess) {x : WorkAccess} (w a : ℕ)
    → scalar (is_access work_id account_id) rows ≡ some x
    → x.role ≡ role
    → role_in rows w a ≡ assign work_id account_id (some role) (role_in rows) w a
unfolding scalar is_access
role_in-same work_id account_id role [] w a found same = cc
role_in-same work_id account_id role (y ∷ rows) {x} w a found same =
    ground (arith, role_in-same work_id account_id role rows {x = x} w a)

-- a commit that succeeds makes the working copy durable
committed-current :
    {A : Type 0} (a : A) {b : A} (s : Session)
    → ((commit >> pure a) s).0 ≡ ok b
    → ((commit >> pure a) s).1.durable.accesses ≡ s.current.accesses
committed-current a s e = elim (Bool-cases (s.accepts s.commits)) [
  | inl taken ↦ rw (commit_taken (pure a) s taken) refl
  | inr refused ↦ ground (arith, refused, e)
]

module _ (label : ℕ → ℕ → String) where
  revoke_access-accesses :
      (actor_id workspace_id account_id : ℕ) (work : Work) (s : Session) {r : Unit {0}}
      → (revoke_access label actor_id workspace_id account_id
          (work, lock_work_accesses work.id s.current)
          s).0
        ≡ ok r
      → (revoke_access label actor_id workspace_id account_id
          (work, lock_work_accesses work.id s.current)
          s).1.durable.accesses
        ≡ delete (is_access work.id account_id) s.current.accesses
  unfolding revoke_access delete_work_access
  revoke_access-accesses actor_id workspace_id account_id work s e =
      ground (arith, e, tables_kept account_id work.id s.current)

  grant-accesses :
      (actor_id workspace_id account_id : ℕ) (role : Role) (work : Work) (s : Session)
      {r : ℕ × Role}
      → (write_access label actor_id workspace_id account_id role work none s).0 ≡ ok r
      → (write_access label actor_id workspace_id account_id role work none s).1.durable.accesses
        ≡ access_row work.id work.workspace_id account_id role ∷ s.current.accesses
  unfolding write_access add_work_access
  grant-accesses actor_id workspace_id account_id role work s e =
      let audit = work_audit label "work_access_granted" actor_id account_id workspace_id work.id in
      let written =
        add_audit audit (add_work_access work.id work.workspace_id account_id role s.current) in
      committed-current (account_id, role) (record s { current = written }) e

  alter-accesses :
      (actor_id workspace_id account_id : ℕ) (role : Role) (work : Work) (a : WorkAccess)
      (s : Session) {r : ℕ × Role}
      → (alter_access label actor_id workspace_id account_id role work a s).0 ≡ ok r
      → (alter_access label actor_id workspace_id account_id role work a s).1.durable.accesses
        ≡ update (is_access work.id account_id) (with_role role) s.current.accesses
  unfolding alter_access
  alter-accesses actor_id workspace_id account_id role work a s e =
      let audit =
        work_audit label "work_access_role_changed" actor_id account_id workspace_id work.id in
      let written = add_audit audit (change_role a work.id account_id role s.current) in
      committed-current (account_id, role) (record s { current = written }) e
      ∙ (role_written a work.id account_id role s.current).1

  repeat-accesses :
      (actor_id workspace_id account_id : ℕ) (role : Role) (work : Work) (a : WorkAccess)
      (s : Session) {r : ℕ × Role}
      → same_role a.role role ≡ true
      → (write_access label actor_id workspace_id account_id role work (some a) s).0 ≡ ok r
      → (write_access label actor_id workspace_id account_id role work
          (some a)
          s).1.durable.accesses
        ≡ s.current.accesses
  unfolding write_access
  repeat-accesses actor_id workspace_id account_id role work a s {r} same e =
      rw (same, write_access)
        (committed-current (account_id, role) {b = r} s (rw (same, write_access) at e))

  -- what `set_work_access` writes, by the access that the account has
  write_access-refines :
      (actor_id workspace_id account_id : ℕ) (role : Role) (work : Work) (o : Option WorkAccess)
      (s : Session) {r : ℕ × Role}
      → scalar (is_access work.id account_id) s.current.accesses ≡ o
      → (write_access label actor_id workspace_id account_id role work o s).0 ≡ ok r
      → (w a : ℕ)
      → role_in
          (write_access label actor_id workspace_id account_id role work o s).1.durable.accesses
          w
          a
        ≡ assign work.id account_id (some role) (role_in s.current.accesses) w a
  unfolding write_access
  write_access-refines actor_id workspace_id account_id role work none s {r} found e w a =
      rw (grant-accesses actor_id workspace_id account_id role work s {r = r} e)
        (role_in-cons work.id work.workspace_id account_id role s.current.accesses w a)
  write_access-refines actor_id workspace_id account_id role work (some x) s {r} found e w a =
      elim (Bool-cases (same_role x.role role)) [
        | inl same ↦
            let kept =
              repeat-accesses actor_id workspace_id account_id role work x s {r = r} same e in
            rw kept (
              role_in-same work.id account_id role s.current.accesses w a found
                (same_role_eq x.role role same))
        | inr other ↦
            let altered =
              alter-accesses actor_id workspace_id account_id role work x s {r = r}
                (rw (other, write_access) at e) in
            rw (other, write_access)
              (rw altered (role_in-update work.id account_id role s.current.accesses w a found))
      ]

  pub set_access-refines :
      (actor_id workspace_id account_id : ℕ) (role : Role) (work : Work) (s : Session)
      {r : ℕ × Role}
      → (set_access label actor_id workspace_id account_id role
          (work, lock_work_accesses work.id s.current)
          s).0
        ≡ ok r
      → (w a : ℕ)
      → roles
          (set_access label actor_id workspace_id account_id role
            (work, lock_work_accesses work.id s.current)
            s).1.durable
          w
          a
        ≡ assign work.id account_id (some role) (roles s.current) w a
  unfolding set_access lock_work_accesses
  set_access-refines actor_id workspace_id account_id role work s {r} e w a =
      let rows = s.current.accesses in
      let access = scalar (access_for account_id) (locked work.id rows) in
      let passed =
        refuse_ok (is_last_maintainer access (locked work.id rows) && not (is_maintainer role))
          work_last_maintainer_required
          (write_access label actor_id workspace_id account_id role work access) s {a = r} e in
      role_in-roles _ w a
      ∙ rw passed (
          write_access-refines actor_id workspace_id account_id role work access s {r = r}
            (sym (found-is_access work.id account_id rows)) (rw passed at e) w a
          ∙ ap (λ o. if w == work.id && a == account_id then some role else o)
              (sym (role_in-roles s.current w a)))

  pub revoke_access-refines :
      (actor_id workspace_id account_id : ℕ) (work : Work) (s : Session) {r : Unit {0}}
      → (revoke_access label actor_id workspace_id account_id
          (work, lock_work_accesses work.id s.current)
          s).0
        ≡ ok r
      → (w a : ℕ)
      → roles
          (revoke_access label actor_id workspace_id account_id
            (work, lock_work_accesses work.id s.current)
            s).1.durable
          w
          a
        ≡ assign work.id account_id none (roles s.current) w a
  revoke_access-refines actor_id workspace_id account_id work s {r} e w a =
      let wrote = revoke_access-accesses actor_id workspace_id account_id work s {r = r} e in
      role_in-roles _ w a
      ∙ rw wrote (
          role_in-delete work.id account_id s.current.accesses w a
          ∙ ap (λ o. if w == work.id && a == account_id then none else o)
              (sym (role_in-roles s.current w a)))
