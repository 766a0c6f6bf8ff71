-- ===== src/Works/Maintained.antt =====
-- Every work keeps a maintainer: what the tables of works and accesses have at all times.
use rulefolio_server.Prelude.{
  ℕ, select, ◌≤◌, ◌+◌, Bool, false, ◌≡◌, refl, ◌∙◌, ◌&&◌, ◌==◌, not, arith, none, some, List, ◌∷◌,
  scalar, update, delete, rowcount, rowcount-update, rowcount-select, rowcount-delete,
  rowcount-update_lost, rowcount-update_kept, rowcount_unless, rowcount_same, scalar_same,
  scalar-select, unique_row_misses, both, All, All-map, All-update, All-delete, rowcount_mono,
  Bool-cases, inl, inr, rowcount-zero, scalar-none,
}
use rulefolio_server.Workspaces.Models.{Role, maintainer, is_maintainer, WorkAccess}
use rulefolio_server.Workspaces.Members.{access_for, is_access, on_work, maintains, with_role}
use rulefolio_server.Works.Models.{Work}
use rulefolio_server.Works.Service.{has_work_id}

-- every work has a maintainer
abbrev pub HasMaintainers : List Work → List WorkAccess → Type 0
HasMaintainers works accesses = All (λ w. 1 ≤ rowcount (maintains w.id) accesses) works

-- an account has one role on a work
abbrev pub IsUnique : List WorkAccess → Type 0
IsUnique accesses = (work_id account_id : ℕ) → rowcount (is_access work_id account_id) accesses ≤ 1

-- every access is to a work that is there
abbrev pub IsLinked : List Work → List WorkAccess → Type 0
IsLinked works accesses = All (λ a. 1 ≤ rowcount (has_work_id a.work_id) works) accesses

abbrev pub IsManaged : List Work → List WorkAccess → Type 0
IsManaged works accesses =
    HasMaintainers works accesses × IsUnique accesses × IsLinked works accesses

abbrev pub locked : ℕ → List WorkAccess → List WorkAccess
locked work_id rows = select (on_work work_id) rows

-- the access that a manager's write finds is the one with the key
pub found-is_access :
    (work_id account_id : ℕ) (rows : List WorkAccess)
    → scalar (access_for account_id) (locked work_id rows)
      ≡ scalar (is_access work_id account_id) rows
found-is_access work_id account_id rows =
    scalar-select (access_for account_id) (on_work work_id) rows
    ∙ scalar_same (both (on_work work_id) (access_for account_id)) (is_access work_id account_id)
        rows (λ a. unfold is_access on_work in refl)

pub counted-maintains :
    (work_id : ℕ) (rows : List WorkAccess)
    → rowcount (λ a. is_maintainer a.role) (locked work_id rows) ≡ rowcount (maintains work_id) rows
counted-maintains work_id rows =
    rowcount-select (λ a. is_maintainer a.role) (on_work work_id) rows
    ∙ rowcount_same (both (on_work work_id) (λ a. is_maintainer a.role)) (maintains work_id) rows
        (λ a. unfold maintains on_work in refl)

-- a work that an access may be taken from has a maintainer without it
reached :
    (w work_id account_id : ℕ) (rows : List WorkAccess) {a : WorkAccess}
    → IsUnique rows
    → scalar (is_access work_id account_id) rows ≡ some a
    → is_maintainer a.role && rowcount (maintains work_id) rows == 1 ≡ false
    → 1 ≤ rowcount (maintains w) rows
    → 1 + rowcount (both (is_access work_id account_id) (maintains w)) rows
      ≤ rowcount (maintains w) rows
reached w work_id account_id rows {a} unique found last some_left =
    let at = both (is_access work_id account_id) (maintains w) in
    elim (Bool-cases (w == work_id)) [
      | inr other ↦ ground (
        arith,
        some_left,
        rowcount_unless at rows (λ x. unfold is_access maintains in ground (arith, other)),
      )
      | inl same ↦ elim (Bool-cases (is_maintainer a.role)) [
        | inr no_maintainer ↦ ground (
          arith,
          some_left,
          unique_row_misses (is_access work_id account_id) (maintains w) rows
              (unique work_id account_id) found (unfold maintains in ground (arith, no_maintainer)),
        )
        | inl one ↦ ground (
          arith,
          same,
          one,
          last,
          some_left,
          unique work_id account_id,
          rowcount_mono at (is_access work_id account_id) rows
              (λ x h. unfold is_access maintains in ground (arith, h)),
        )
      ]
    ]

module _ (work_id account_id : ℕ) (works : List Work) (rows : List WorkAccess) {a : WorkAccess}
    (managed : IsManaged works rows)
    (found : scalar (is_access work_id account_id) rows ≡ some a) where
  -- without an access that is not the last maintainer's
  pub delete-IsManaged :
      is_maintainer a.role && rowcount (maintains work_id) rows == 1 ≡ false
      → IsManaged works (delete (is_access work_id account_id) rows)
  delete-IsManaged last = (
    All-map (λ w. 1 ≤ rowcount (maintains w.id) rows) _ works
        (λ w h. omega (
          arith,
          reached w.id work_id account_id rows managed.1 found last h,
          rowcount-delete (maintains w.id) (is_access work_id account_id) rows,
        ))
        managed.0,
    λ w k.
        omega (
          arith,
          managed.1 w k,
          rowcount-delete (is_access w k) (is_access work_id account_id) rows,
        ),
    All-delete _ (is_access work_id account_id) rows managed.2,
  )

  -- with another role for an access that is not the last maintainer's, or with a maintainer's
  pub with_role-IsManaged :
      (role : Role)
      → (is_maintainer a.role && rowcount (maintains work_id) rows == 1) && not (is_maintainer role)
        ≡ false
      → IsManaged works (update (is_access work_id account_id) (with_role role) rows)
  with_role-IsManaged role last = (
    elim (Bool-cases (is_maintainer role)) [
      | inl up ↦
          All-map (λ w. 1 ≤ rowcount (maintains w.id) rows) _ works
            (λ w h. omega (
              arith,
              h,
              rowcount-update_kept (maintains w.id) (is_access work_id account_id) (with_role role)
                  rows (λ x e. unfold maintains in ground (arith, up, e)),
            ))
            managed.0
      | inr down ↦
          All-map (λ w. 1 ≤ rowcount (maintains w.id) rows) _ works
            (λ w h. omega (
              arith,
              reached w.id work_id account_id rows managed.1 found (ground (arith, last, down)) h,
              rowcount-update_lost (maintains w.id) (is_access work_id account_id) (with_role role)
                  rows,
            ))
            managed.0
    ],
    λ w k.
        rw
          (rowcount-update (is_access w k) (is_access work_id account_id) (with_role role) rows
            (λ x. unfold is_access in refl))
          (managed.1 w k),
    All-update (λ x. 1 ≤ rowcount (has_work_id x.work_id) works) _ (is_access work_id account_id)
        (with_role role) rows (λ x h e. h) (λ x h e. h) managed.2,
  )

HasMaintainers-cons :
    (row : WorkAccess) (works : List Work) (rows : List WorkAccess)
    → HasMaintainers works rows
    → HasMaintainers works (row ∷ rows)
unfolding rowcount
HasMaintainers-cons row works rows h =
    All-map (λ w. 1 ≤ rowcount (maintains w.id) rows) _ works (λ w e. ground (arith, e)) h

IsUnique-cons :
    (row : WorkAccess) (rows : List WorkAccess)
    → rowcount (is_access row.work_id row.account_id) rows ≡ 0
    → IsUnique rows
    → IsUnique (row ∷ rows)
unfolding rowcount
IsUnique-cons row rows free unique w k = elim (Bool-cases (is_access w k row)) [
  | inr miss ↦ ground (arith, unique w k)
  | inl hit ↦ ground (
    arith,
    free,
    rowcount_mono (is_access w k) (is_access row.work_id row.account_id) rows
        (λ x e. unfold is_access in ground (arith, hit, e)),
  )
]

-- a new access to a work that is there
pub add-IsManaged :
    (row : WorkAccess) (works : List Work) (rows : List WorkAccess)
    → IsManaged works rows
    → scalar (is_access row.work_id row.account_id) rows ≡ none
    → 1 ≤ rowcount (has_work_id row.work_id) works
    → IsManaged works (row ∷ rows)
add-IsManaged row works rows managed new there = (
  HasMaintainers-cons row works rows managed.0,
  IsUnique-cons row rows (rowcount-zero _ rows (scalar-none _ rows new)) managed.1,
  (there, managed.2),
)

-- a new work with the access of its first maintainer
pub create-IsManaged :
    (w : Work) (row : WorkAccess) (works : List Work) (rows : List WorkAccess)
    → IsManaged works rows
    → scalar (has_work_id w.id) works ≡ none
    → row.work_id ≡ w.id
    → row.role ≡ maintainer
    → IsManaged (w ∷ works) (row ∷ rows)
unfolding rowcount
create-IsManaged w row works rows managed new same role =
    let gone = rowcount-zero (has_work_id w.id) works (scalar-none (has_work_id w.id) works new) in
    (
      (
        unfold maintains in ground (arith, same, role),
        HasMaintainers-cons row works rows managed.0,
      ),
      IsUnique-cons row rows
          (rowcount-zero (is_access row.work_id row.account_id) rows (
            All-map (λ a. 1 ≤ rowcount (has_work_id a.work_id) works)
              (λ a. is_access row.work_id row.account_id a ≡ false) rows
              (λ a there. unfold is_access in ground (arith, there, gone, same)) managed.2))
          managed.1,
      (
        ground (arith, same),
        All-map (λ a. 1 ≤ rowcount (has_work_id a.work_id) works) _ rows
            (λ a there. ground (arith, there)) managed.2,
      ),
    )

-- other values of a work
pub update-IsManaged :
    (p : Work → Bool) (f : Work → Work) (works : List Work) (rows : List WorkAccess)
    → ((w : Work) → (f w).id ≡ w.id)
    → IsManaged works rows
    → IsManaged (update p f works) rows
update-IsManaged p f works rows same managed = (
  All-update (λ w. 1 ≤ rowcount (maintains w.id) rows) _ p f works (λ w h e. rw (same w) h)
      (λ w h e. h) managed.0,
  managed.1,
  All-map (λ a. 1 ≤ rowcount (has_work_id a.work_id) works) _ rows
      (λ a h. rw (rowcount-update (has_work_id a.work_id) p f works (λ w. rw (same w) refl)) h)
      managed.2,
)
