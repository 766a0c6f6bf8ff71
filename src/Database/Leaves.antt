-- ===== src/Database/Leaves.antt =====
-- What a part of a service leaves committed: the rules by which a property of the database is
-- followed through the statements, the guards and the commit of a service.
use rulefolio_server.Prelude.{
  Bool, true, false, Option, none, some, ◌≡◌, refl, Bool-cases, inl, inr, suc,
}
use rulefolio_server.Database.{
  Db, Error, Result-cases, ok, Session, Exec, ◌>>=◌, ◌>>◌, or_raise, or_fail, refuse_if, fail_if,
  commit, commit_taken, or_retryable,
}

-- what the statement sequence `m`, begun in `s`, leaves committed has the property
abbrev pub Leaves : {A : Type 0} → (Db → Type 0) → Exec A → Session → Type 0
Leaves P m s = P (m s).1.durable

module _ {A : Type 0} (P : Db → Type 0) where
  pub refuse_if-Leaves :
      (b : Bool) (e : Error) (k : Exec A) (s : Session)
      → P s.durable
      → (b ≡ false → Leaves P k s)
      → Leaves P (refuse_if b e >> k) s
  refuse_if-Leaves true e k s base rest = base
  refuse_if-Leaves false e k s base rest = rest refl

  pub fail_if-Leaves :
      (b : Bool) (e : Error) (k : Exec A) (s : Session)
      → P s.durable
      → (b ≡ false → Leaves P k s)
      → Leaves P (fail_if b e >> k) s
  fail_if-Leaves true e k s base rest = base
  fail_if-Leaves false e k s base rest = rest refl

  pub or_raise-Leaves :
      {B : Type 0} (o : Option B) (e : Error) (k : B → Exec A) (s : Session)
      → P s.durable
      → ((b : B) → o ≡ some b → Leaves P (k b) s)
      → Leaves P (or_raise o e >>= k) s
  or_raise-Leaves none e k s base rest = base
  or_raise-Leaves (some b) e k s base rest = rest b refl

  pub or_fail-Leaves :
      {B : Type 0} (o : Option B) (e : Error) (k : B → Exec A) (s : Session)
      → P s.durable
      → ((b : B) → o ≡ some b → Leaves P (k b) s)
      → Leaves P (or_fail o e >>= k) s
  or_fail-Leaves none e k s base rest = base
  or_fail-Leaves (some b) e k s base rest = rest b refl

  -- a commit at the end of a sequence
  pub commit-Leaves :
      (k : Exec A) (s : Session)
      → P s.durable
      → ((s' : Session) → s'.durable ≡ s.current → s'.current ≡ s.current → Leaves P k s')
      → Leaves P (commit >> k) s
  commit-Leaves k s base rest = elim (Bool-cases (s.accepts s.commits)) [
    | inl taken ↦
        rw (commit_taken k s taken)
          (rest (record s { durable = s.current; commits = suc s.commits }) refl refl)
    | inr refused ↦ rw (refused, ◌>>=◌) (rw refused base)
  ]

  pub or_retryable-Leaves :
      (e : Error) (m : Exec A) (s : Session) → Leaves P m s → Leaves P (or_retryable e m) s
  or_retryable-Leaves e m s h = elim (Result-cases (m s).0) [
    | inl (x, failed) ↦ rw (failed, or_retryable) h
    | inr (a, found) ↦ rw (found, or_retryable) h
  ]

  -- a part that commits nothing, and then the rest
  pub bind-Leaves :
      {B : Type 0} (m : Exec B) (k : B → Exec A) (s : Session)
      → P (m s).1.durable
      → ((b : B) → (m s).0 ≡ ok b → Leaves P (k b) (m s).1)
      → Leaves P (m >>= k) s
  bind-Leaves m k s base rest = elim (Result-cases (m s).0) [
    | inl (x, failed) ↦ rw (failed, ◌>>=◌) base
    | inr (b, found) ↦ rw (found, ◌>>=◌) (rest b found)
  ]

-- a sequence that ends with the commit
pub last_commit-Leaves :
    (P : Db → Type 0) (s : Session) → P s.durable → P s.current → Leaves P commit s
last_commit-Leaves P s base now = elim (Bool-cases (s.accepts s.commits)) [
  | inl taken ↦ rw taken now
  | inr refused ↦ rw refused base
]
