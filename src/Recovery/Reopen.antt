-- ===== src/Recovery/Reopen.antt =====
-- The end of a recovery in src/app/recovery/service.py: the confirmation of restricted access, the
-- verification that opens the API, and the command that opens the dispatcher.
use rulefolio_server.Prelude.{
  ℕ, String, Bool, false, not, ◌&&◌, ◌||◌, some, List, [], ◌∷◌, ◌==◌, is_none, if◌then◌else◌,
}
use rulefolio_server.Settings.{Settings}
use rulefolio_server.Recovery.Models.{
  recovering, api_open, open_stage, is_api_open, is_recovering, RecoveryState, restricted,
  deployment_freeze, state, authorization, objects, verification, dispatcher,
}
use rulefolio_server.Recovery.Request.{require_operator_and_reason, require_recovery_id}
use rulefolio_server.Recovery.Objects.{RecoveryManifest, Storage, object_checks}
use rulefolio_server.Recovery.Service.{
  RecoveryResult, audit, commit_phase, or_rollback, locked_state, write_state, is_text, is_for,
}
use rulefolio_server.Database.{
  Db, Error, Exec, ok, err, raise, gets, pure, modify, rollback, commit, fail_if, add_audit, ◌>>=◌,
  ◌>>◌, recovery_failed,
}

-- `any(counts.values())`
unfoldable pub any_positive : List (String × ℕ) → Bool
any_positive [] = false
any_positive ((_, n) ∷ counts) = not (n == 0) || any_positive counts

abbrev pub opened_api : (now : ℕ) → RecoveryState → RecoveryState
opened_api now r = record r { stage = api_open; verified_at = some now }

abbrev pub confirmed : (now : ℕ) → RecoveryState → RecoveryState
confirmed now r = record r { restricted_access_confirmed_at = some now }

-- the write of `_record_failure` for the state of this recovery
abbrev pub held_back : RecoveryState → RecoveryState
held_back r = record r { stage = recovering }

-- `_record_failure`: a refused commit is swallowed
unfoldable pub record_failure : (recovery_id operator reason : String) → Exec (Unit {0})
unfolding locked_state audit
record_failure recovery_id operator reason = do
  r ← locked_state
  modify (λ db.
      if is_text r.recovery_id recovery_id
      then add_audit
          (audit "recovery_verification_failed" operator reason recovery_id r.authorization_mode)
          (write_state (held_back r) db)
      else db)
  λ s. (ok tt, (commit s).1)

module _ (database_checks : Db → List (String × ℕ)) (storage : Storage) where
  -- the checks of `_verify_and_open`, the state first
  verified_state : RecoveryManifest → Exec RecoveryState
  unfolding locked_state is_for
  verified_state m = do
    r ← locked_state
    fail_if
        (not
          (is_recovering r.stage && is_for m r && not (is_none r.restricted_access_confirmed_at)))
        (recovery_failed state [])
    pure r

  checked : RecoveryManifest → Exec (List (String × ℕ))
  unfolding any_positive
  checked m = do
    counts ← gets database_checks
    fail_if (any_positive counts) (recovery_failed verification counts)
    report ← gets (λ db. object_checks storage db.files m)
    fail_if (not report.passed) (recovery_failed objects report.counts)
    pure report.counts

  -- the body of the `try` of `_verify_and_open`
  unfoldable pub try_open :
      (now : ℕ) → RecoveryManifest → (operator reason : String) → Exec RecoveryResult
  unfolding verified_state checked audit commit_phase
  try_open now m operator reason = do
    r ← verified_state m
    counts ← checked m
    modify (write_state (opened_api now r))
    modify (
        add_audit
          (audit "recovery_integrity_verified" operator reason m.recovery_id r.authorization_mode))
    modify
        (add_audit (audit "recovery_api_ready" operator reason m.recovery_id r.authorization_mode))
    commit_phase verification counts
    pure (record { status = "api_open"; phase = "complete"; counts = counts })

  -- `except RecoveryFailed`: the failure is recorded in a transaction of its own, then raised again
  abbrev failed_open : RecoveryManifest → (operator reason : String) → Error → Exec RecoveryResult
  failed_open m operator reason e = do
    rollback
    record_failure m.recovery_id operator reason
    raise e

  unfoldable pub verify_and_open :
      (now : ℕ) → RecoveryManifest → (operator reason : String) → Exec RecoveryResult
  unfolding try_open record_failure
  verify_and_open now m operator reason s =
      let (r, s') = try_open now m operator reason s in
      elim r [ ok result ↦ (ok result, s') | err e ↦ failed_open m operator reason e s' ]

  -- the first transaction of `confirm_restricted_access`
  unfoldable pub confirm :
      (now : ℕ) → RecoveryManifest → (operator reason : String) → Exec (Unit {0})
  unfolding locked_state is_for audit commit_phase
  confirm now m operator reason = do
    r ← locked_state
    fail_if (not (is_recovering r.stage && is_for m r)) (recovery_failed state [])
    if is_none r.restricted_access_confirmed_at
        then (do
          modify (write_state (confirmed now r))
          modify (
              add_audit (
                audit "recovery_restricted_access_confirmed" operator reason m.recovery_id
                  (some restricted)))
          commit_phase authorization [])
        else rollback

  module _ (cfg : Settings) where
    -- `now` and `later` are the readings for the confirmation and for the verification
    unfoldable pub confirm_restricted_access :
        (now later : ℕ) → RecoveryManifest → (operator reason : String) → Exec RecoveryResult
    unfolding confirm verify_and_open require_recovery_id require_operator_and_reason
    confirm_restricted_access now later m operator reason = do
      fail_if (not cfg.recovery_deployment_frozen) (recovery_failed deployment_freeze [])
      require_recovery_id m.recovery_id
      (operator, reason) ← require_operator_and_reason operator reason
      or_rollback (confirm now m operator reason)
      verify_and_open later m operator reason

abbrev pub reopened : RecoveryState → RecoveryState
reopened r = record r { stage = open_stage }

module _ (cfg : Settings) where
  unfoldable pub open_dispatcher : (recovery_id operator reason : String) → Exec RecoveryResult
  unfolding locked_state audit commit_phase require_recovery_id require_operator_and_reason
  open_dispatcher recovery_id operator reason = do
    fail_if cfg.recovery_deployment_frozen (recovery_failed deployment_freeze [])
    require_recovery_id recovery_id
    (operator, reason) ← require_operator_and_reason operator reason
    or_rollback (do
      r ← locked_state
      fail_if (not (is_api_open r.stage && is_text r.recovery_id recovery_id))
          (recovery_failed state [])
      modify (write_state (reopened r))
      modify (
          add_audit
            (audit "recovery_dispatcher_opened" operator reason recovery_id r.authorization_mode))
      commit_phase dispatcher [])
    pure (record { status = "open"; phase = "complete"; counts = [] })
