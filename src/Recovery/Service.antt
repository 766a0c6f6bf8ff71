-- ===== src/Recovery/Service.antt =====
-- The recovery commands of src/app/recovery/service.py.
use rulefolio_server.Prelude.{
  ℕ, suc, String, Bool, true, false, not, ◌&&◌, Option, none, some, List, [], ◌∷◌, str_eq, is_none,
  holds, if◌then◌else◌, ◌≡◌, arith, inl, inr, Bool-cases,
}
use Prim.Native.String.{◌++◌}
use rulefolio_server.Settings.{Settings}
use rulefolio_server.Recovery.Models.{
  Stage, open_stage, recovering, api_open, is_recovering, AuthorizationMode, restricted,
  RecoveryState, Phase, deployment_freeze, state, restricted_phase,
}
use rulefolio_server.Recovery.Request.{require_operator_and_reason, require_recovery_id}
use rulefolio_server.Recovery.Objects.{RecoveryManifest}
use rulefolio_server.Identity.Sessions.{revoke_for_restricted_recovery}
use rulefolio_server.Notifications.Outbox.{suppress_for_restricted_recovery}
use rulefolio_server.Database.{
  Db, SecurityAudit, Error, Exec, Session, ok, err, raise, gets, pure, modify, statement, fail_if,
  or_fail, add_audit, ◌>>=◌, ◌>>◌, recovery_failed, Result-cases,
}

pub record RecoveryResult : Type 0 where
  pub status : String
  pub phase : String
  pub counts : List (String × ℕ)

-- `_scope`
unfoldable pub scope : String → Option AuthorizationMode → String
scope recovery_id none = "recovery:" ++ recovery_id
scope recovery_id (some restricted) = "recovery:" ++ recovery_id ++ ";mode:restricted"

-- `_audit`
unfoldable pub audit :
    (action operator reason recovery_id : String) → Option AuthorizationMode → SecurityAudit
unfolding scope
audit action operator reason recovery_id mode = record {
  action = action;
  actor_account_id = none;
  target_account_id = none;
  operator = some operator;
  reason = some reason;
  scope = some (scope recovery_id mode);
}

-- `_commit`: a refused commit is a failure of the phase
unfoldable pub commit_phase : Phase → List (String × ℕ) → Exec (Unit {0})
commit_phase phase counts s =
    if s.accepts s.commits
    then (ok tt, record s { durable = s.current; commits = suc s.commits })
    else (
      err (recovery_failed phase counts),
      record s { current = s.durable; commits = suc s.commits },
    )

-- `except RecoveryFailed: session.rollback(); raise`
abbrev pub or_rollback : {A : Type 0} → Exec A → Exec A
or_rollback m s =
    let (r, s') = m s in
    elim r [ ok a ↦ (ok a, s') | err e ↦ (err e, record s' { current = s'.durable }) ]

-- `_state`
unfoldable pub locked_state : Exec RecoveryState
locked_state = do found ← gets (λ db. db.recovery); or_fail found (recovery_failed state [])

abbrev pub write_state : RecoveryState → Db → Db
write_state r db = record db { recovery = some r }

abbrev pub is_text : Option String → String → Bool
is_text none t = false
is_text (some u) t = str_eq u t

-- the state belongs to this manifest, in restricted mode
unfoldable pub is_for : RecoveryManifest → RecoveryState → Bool
is_for m r =
    is_text r.recovery_id m.recovery_id
    && holds r.manifest_sha256 m.raw_sha256
    && not (is_none r.authorization_mode)

abbrev pub started : RecoveryManifest → String → RecoveryState → RecoveryState
started m operator r = record {
  stage = recovering;
  recovery_id = some m.recovery_id;
  manifest_sha256 = some m.raw_sha256;
  recovery_target_at = some m.target_at;
  authorization_mode = some restricted;
  restricted_access_confirmed_at = none;
  verified_at = none;
  operator = some operator;
}

-- `_begin_recovery`
unfoldable pub begin_from :
    Stage → RecoveryManifest → (operator reason : String) → RecoveryState → Exec RecoveryState
unfolding is_for audit
begin_from api_open m operator reason r = raise (recovery_failed state [])
begin_from recovering m operator reason r =
    if is_for m r then pure r else raise (recovery_failed state [])
begin_from open_stage m operator reason r = do
  fail_if (is_text r.recovery_id m.recovery_id) (recovery_failed state [])
  modify (write_state (started m operator r))
  modify (add_audit (audit "recovery_started" operator reason m.recovery_id (some restricted)))
  pure (started m operator r)

unfoldable pub begin_recovery : RecoveryManifest → (operator reason : String) → Exec RecoveryState
unfolding begin_from locked_state
begin_recovery m operator reason = do r ← locked_state; begin_from r.stage m operator reason r

-- two optional texts are the same
abbrev pub same_text : Option String → Option String → Bool
same_text none none = true
same_text (some a) (some b) = str_eq a b
same_text _ _ = false

abbrev text_or_empty : Option String → String
text_or_empty none = ""
text_or_empty (some a) = a

length : List ℕ → ℕ
length [] = 0
length (x ∷ xs) = suc (length xs)

-- `_restrict`
unfoldable pub restrict :
    (now : ℕ) → RecoveryState → (operator reason : String) → Exec (List (String × ℕ))
unfolding locked_state commit_phase length audit
restrict now r operator reason = do
  current ← locked_state
  fail_if (not (is_recovering current.stage && same_text current.recovery_id r.recovery_id))
      (recovery_failed state [])
  (revoked_sessions, revoked_credentials) ← statement (revoke_for_restricted_recovery now)
  suppressed ← statement suppress_for_restricted_recovery
  let counts =
      ("sessions", revoked_sessions)
      ∷ ("credentials", length revoked_credentials)
      ∷ ("outbox", suppressed)
      ∷ []
  modify (
      add_audit (
        audit "recovery_restricted_converged" operator reason (text_or_empty current.recovery_id)
          (some restricted)))
  commit_phase restricted_phase counts
  pure counts

module _ (cfg : Settings) where
  unfoldable pub recover :
      (now : ℕ) → RecoveryManifest → (operator reason : String) → Exec RecoveryResult
  unfolding begin_recovery restrict require_recovery_id require_operator_and_reason
  recover now m operator reason = do
    fail_if (not cfg.recovery_deployment_frozen) (recovery_failed deployment_freeze [])
    require_recovery_id m.recovery_id
    (operator, reason) ← require_operator_and_reason operator reason
    counts ← or_rollback (do r ← begin_recovery m operator reason; restrict now r operator reason)
    pure (record {
      status = "restricted_access_confirmation_required";
      phase = "recovering";
      counts = counts;
    })

-- a command's transaction that succeeds
pub or_rollback_ok :
    {A B : Type 0} (m : Exec A) (f : A → B) (s : Session) {b : B}
    → ((or_rollback m >>= λ a. pure (f a)) s).0 ≡ ok b
    → (a : A) × ((m s).0 ≡ ok a) × (b ≡ f a) × (((or_rollback m >>= λ a. pure (f a)) s).1 ≡ (m s).1)
or_rollback_ok m f s {b} e = elim (Result-cases (m s).0) [
  | inl (x, failed) ↦ ground (arith, failed, e)
  | inr (a, found) ↦ (a, found, ground (arith, e, found), ground (arith, found))
]

-- a command that succeeds has passed its guards, and is then its transaction
pub command_ok :
    {P A B : Type 0} (b c d : Bool) (x y z : Error) (p : P) (m : P → Exec A) (f : A → B)
    (s : Session) {r : B}
    → let whole =
        fail_if b x
        >> (fail_if c y
            >> ((fail_if d z >> pure p) >>= λ q. or_rollback (m q) >>= λ a. pure (f a))) in
      (whole s).0 ≡ ok r
      → (b ≡ false) × ((a : A) × ((m p s).0 ≡ ok a) × (r ≡ f a)) × ((whole s).1 ≡ (m p s).1)
command_ok b c d x y z p m f s {r} e = elim (Bool-cases b) [
  | inl t ↦ ground (arith, t, e)
  | inr no_b ↦ elim (Bool-cases c) [
    | inl t ↦ ground (arith, no_b, t, e)
    | inr no_c ↦ elim (Bool-cases d) [
      | inl t ↦ ground (arith, no_b, no_c, t, e)
      | inr no_d ↦
          let (a, found, value, left) = or_rollback_ok (m p) f s (rw (no_b, no_c, no_d) at e) in
          (no_b, (a, found, value), rw (no_b, no_c, no_d) left)
    ]
  ]
]
