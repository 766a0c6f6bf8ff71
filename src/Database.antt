-- ===== src/Database.antt =====
-- The database that the services share, and a SQLAlchemy session on it (src/app/core/database.py):
-- statements read and write the working copy, `commit` makes it durable, `rollback` drops it, and
-- what is not committed when a request ends is lost. A table is the list of its rows.
pub mod Leaves
pub mod Reads
use rulefolio_server.Prelude.{
  ℕ, suc, String, Bool, Option, List, ◌∷◌, if◌then◌else◌, none, some, ◌≡◌, ◌⊎◌, inl, inr, refl, ap,
  true, false, Bool-cases, arith,
}
use rulefolio_server.Identity.Models.{
  Account, PasswordCredential, SessionRecord, OneTimeCredential, AttemptRecord, RecoveryRequestJob,
}
use rulefolio_server.Notifications.Models.{MailOutbox, NotificationTodo}
use rulefolio_server.Recovery.Models.{RecoveryState, Phase}
use rulefolio_server.Files.Models.{StoredFile}
use rulefolio_server.Workspaces.Models.{
  Workspace, WorkspaceInvitation, WorkspaceMember, WorkAccess, WorkspaceInvitationAttempt,
}
use rulefolio_server.Works.Models.{Work}

pub record SecurityAudit : Type 0 where
  pub action : String
  pub actor_account_id : Option ℕ
  pub target_account_id : Option ℕ
  pub operator : Option String
  pub reason : Option String
  pub scope : Option String

pub record Db : Type 0 where
  pub accounts : List Account
  pub passwords : List PasswordCredential
  pub sessions : List SessionRecord
  pub credentials : List OneTimeCredential
  pub attempts : List AttemptRecord
  pub jobs : List RecoveryRequestJob
  pub outbox : List MailOutbox
  pub todos : List NotificationTodo
  pub invitations : List WorkspaceInvitation
  pub workspaces : List Workspace
  pub members : List WorkspaceMember
  pub accesses : List WorkAccess
  pub invitation_attempts : List WorkspaceInvitationAttempt
  pub works : List Work
  pub files : List StoredFile
  pub recovery : Option RecoveryState
  pub audits : List SecurityAudit

-- The exceptions of the services.
pub data Error : Type 0 where
  authentication_failed session_unavailable link_unavailable : Error
  rate_limited : ℕ → Error
  value_error runtime_error database_error : Error
  todo_unavailable todo_not_open mail_retry_used mail_retry_unavailable : Error
  workspace_unavailable workspace_exit_in_progress : Error
  workspace_management_forbidden invitation_recipient_unavailable : Error
  workspace_member_exists workspace_invitation_exists : Error
  workspace_owner_cannot_be_removed workspace_member_unavailable : Error
  workspace_member_last_maintainer_required : Error
  workspace_invitation_unavailable workspace_invitation_account_mismatch : Error
  workspace_operation_retryable workspace_exit_reauthentication_failed : Error
  workspace_revision_conflict workspace_exit_invalid : Error
  workspace_invitation_rate_limited : ℕ → Error
  work_unavailable work_management_forbidden work_revision_conflict : Error
  work_last_maintainer_required work_access_member_unavailable work_access_unavailable : Error
  work_operation_retryable : Error
  recovery_failed : Phase → List (String × ℕ) → Error

pub data Result (A : Type 0) : Type 0 where
  ok : A → Result A
  err : Error → Result A

-- `accepts n` tells whether the server takes the n-th commit of this session.
pub record Session : Type 0 where
  pub durable : Db
  pub current : Db
  pub accepts : ℕ → Bool
  pub commits : ℕ

abbrev pub Exec : Type 0 → Type 0
Exec A = Session → Result A × Session

module _ {A : Type 0} where
  abbrev pub pure : A → Exec A
  pure a s = (ok a, s)

  abbrev pub raise : Error → Exec A
  raise e s = (err e, s)

  abbrev pub gets : (Db → A) → Exec A
  gets f s = (ok (f s.current), s)

infixl 5 ◌>>=◌ ◌>>◌
abbrev pub ◌>>=◌ : {A B : Type 0} → Exec A → (A → Exec B) → Exec B
◌>>=◌ m f s = let (r, s') = m s in elim r [ ok a ↦ f a s' | err e ↦ (err e, s') ]

abbrev pub ◌>>◌ : {A B : Type 0} → Exec A → Exec B → Exec B
m >> k = m >>= λ _. k

abbrev pub modify : (Db → Db) → Exec (Unit {0})
modify f s = (ok tt, record s { current = f s.current })

abbrev pub rollback : Exec (Unit {0})
rollback s = (ok tt, record s { current = s.durable })

-- `commit`, and `_commit_or_rollback`: a refused commit ends the transaction and raises.
abbrev pub commit : Exec (Unit {0})
commit s =
    if s.accepts s.commits
    then (ok tt, record s { durable = s.current; commits = suc s.commits })
    else (err database_error, record s { current = s.durable; commits = suc s.commits })

-- `session.rollback()` before a raise
abbrev pub rollback_raise : {A : Type 0} → Error → Exec A
rollback_raise e = rollback >> raise e

abbrev pub commit_raise : {A : Type 0} → Error → Exec A
commit_raise e = commit >> raise e

abbrev pub or_raise : {A : Type 0} → Option A → Error → Exec A
or_raise none e = rollback_raise e
or_raise (some a) e = pure a

abbrev pub refuse_if : Bool → Error → Exec (Unit {0})
refuse_if b e = if b then rollback_raise e else pure tt

-- a raise with no rollback of its own
abbrev pub or_fail : {A : Type 0} → Option A → Error → Exec A
or_fail none e = raise e
or_fail (some a) e = pure a

abbrev pub fail_if : Bool → Error → Exec (Unit {0})
fail_if b e = if b then raise e else pure tt

abbrev pub retryable : Error → Error → Error
retryable e database_error = e
retryable e x = x

-- The handlers of a service: `except SQLAlchemyError: session.rollback(); raise e`, and
-- `except Exception: session.rollback(); raise`. An exception that a service passes on without a
-- rollback follows one, or a commit, after which this one changes nothing.
abbrev pub or_retryable : {A : Type 0} → Error → Exec A → Exec A
or_retryable e m s =
    let (r, s') = m s in
    elim r [ ok a ↦ (ok a, s') | err x ↦ (err (retryable e x), record s' { current = s'.durable }) ]

-- a statement that returns a value
abbrev pub statement : {A : Type 0} → (Db → A × Db) → Exec A
statement f s = let (a, db) = f s.current in (ok a, record s { current = db })

-- What other sessions commit before this one begins its next transaction.
abbrev pub others_commit : (Db → Db) → Exec (Unit {0})
others_commit f s = (ok tt, record s { durable = f s.durable; current = f s.durable })

-- The session that a request begins with: nothing is written yet.
abbrev pub begin : Db → (ℕ → Bool) → Session
begin db accepts = record { durable = db; current = db; accepts = accepts; commits = 0 }

-- `session.add(SecurityAudit(…))`
abbrev pub add_audit : SecurityAudit → Db → Db
add_audit a db = record db { audits = a ∷ db.audits }

pub Result-cases :
    {A : Type 0} (r : Result A) → ((e : Error) × (r ≡ err e)) ⊎ ((a : A) × (r ≡ ok a))
Result-cases (ok a) = inr (a, refl)
Result-cases (err e) = inl (e, refl)

-- the first part of a sequence that succeeds has succeeded
pub bind_ok :
    {A B : Type 0} (m : Exec A) (f : A → Exec B) (s : Session) {b : B}
    → ((m >>= f) s).0 ≡ ok b
    → (a : A) × ((m s).0 ≡ ok a) × ((m >>= f) s ≡ f a (m s).1)
bind_ok m f s {b} e = elim (Result-cases (m s).0) [
  | inl (x, failed) ↦ ground (arith, failed, e)
  | inr (a, found) ↦ (a, found, rw (found, ◌>>=◌) refl)
]

-- a guard that is passed
pub guard_ok :
    {A : Type 0} (b : Bool) (e : Error) (k : Exec A) (s : Session) {a : A}
    → ((fail_if b e >> k) s).0 ≡ ok a
    → (b ≡ false) × ((fail_if b e >> k) s ≡ k s)
guard_ok b e k s {a} h = elim (Bool-cases b) [
  | inl t ↦ ground (arith, t, h)
  | inr f ↦ (f, rw f refl)
]

-- a raise at the end leaves what came before
pub raise_after :
    {A : Type 0} (B : Type 0) (m : Exec A) (e : Error) (s : Session)
    → ((m >> raise {A = B} e) s).1 ≡ (m s).1
raise_after B m e s = elim (Result-cases (m s).0) [
  | inl (x, failed) ↦ rw (failed, ◌>>=◌) refl
  | inr (a, found) ↦ rw (found, ◌>>=◌) refl
]

commit_writes :
    (s : Session)
    → s.accepts s.commits ≡ true
    → commit s ≡ (ok tt, record s { durable = s.current; commits = suc s.commits })
commit_writes s taken = rw taken refl

-- a commit that is taken
pub commit_taken :
    {A : Type 0} (k : Exec A) (s : Session)
    → s.accepts s.commits ≡ true
    → (commit >> k) s ≡ k (record s { durable = s.current; commits = suc s.commits })
commit_taken {A} k s taken =
    ap
      (λ (p : Result (Unit {0}) × Session). elim p.0 as (λ r. Result A × Session) [
        | ok a ↦ k p.1
        | err e ↦ (err e, p.1)
      ])
      (commit_writes s taken)

-- a service that succeeds has done what its body does
pub or_retryable_ok :
    {A : Type 0} (e : Error) (m : Exec A) (s : Session) {a : A}
    → (or_retryable e m s).0 ≡ ok a
    → ((m s).0 ≡ ok a) × (or_retryable e m s ≡ m s)
or_retryable_ok e m s {a} h = elim (Result-cases (m s).0) [
  | inl (x, failed) ↦ ground (arith, failed, h)
  | inr (b, found) ↦ (ground (arith, found, h), ground (arith, found))
]

-- a sequence whose first part is known to return
pub bind_found :
    {A B : Type 0} (m : Exec A) (f : A → Exec B) (s s' : Session) {a : A}
    → m s ≡ (ok a, s')
    → (m >>= f) s ≡ f a s'
bind_found {A} {B} m f s s' {a} e =
    ap
      (λ (p : Result A × Session). elim p.0 as (λ r. Result B × Session) [
        | ok b ↦ f b p.1
        | err x ↦ (err x, p.1)
      ])
      e

-- a guard that rolls back and is passed
pub refuse_ok :
    {A : Type 0} (b : Bool) (e : Error) (k : Exec A) (s : Session) {a : A}
    → ((refuse_if b e >> k) s).0 ≡ ok a
    → (refuse_if b e >> k) s ≡ k s
refuse_ok true e k s h = cc
refuse_ok false e k s h = refl

-- an option that is there
pub or_fail_ok :
    {A B : Type 0} (o : Option A) (e : Error) (k : A → Exec B) (s : Session) {b : B}
    → ((or_fail o e >>= k) s).0 ≡ ok b
    → (a : A) × (o ≡ some a) × ((or_fail o e >>= k) s ≡ k a s)
or_fail_ok none e k s h = cc
or_fail_ok (some a) e k s h = (a, refl, refl)
