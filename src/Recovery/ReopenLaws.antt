-- ===== src/Recovery/ReopenLaws.antt =====
-- When the recovery commands of src/app/recovery/service.py open the API and the dispatcher.
use rulefolio_server.Prelude.{
  ℕ, String, Bool, true, false, ◌≡◌, ◌&&◌, not, [], refl, ap, ◌∙◌, some, List, is_none, arith,
  Option-cases, Bool-cases, inl, inr, ◌⊎◌,
}
use rulefolio_server.Settings.{Settings}
use rulefolio_server.Recovery.Models.{
  RecoveryState, recovering, api_open, is_api_open, state, dispatcher,
}
use rulefolio_server.Recovery.Gate.{api_requests_allowed, dispatcher_allowed}
use rulefolio_server.Recovery.Objects.{RecoveryManifest, Storage, object_checks}
use rulefolio_server.Recovery.Request.{
  strip, fits, matches_recovery_id, require_recovery_id, require_operator_and_reason,
}
use rulefolio_server.Recovery.Service.{
  RecoveryResult, locked_state, is_for, is_text, commit_phase, write_state, audit, command_ok,
}
use rulefolio_server.Recovery.Reopen.{
  any_positive, try_open, verify_and_open, record_failure, open_dispatcher, opened_api, held_back,
  reopened,
}
use rulefolio_server.Database.{
  Db, Session, Exec, fail_if, modify, add_audit, ◌>>◌, ◌>>=◌, recovery_failed, ok, err, begin,
  Error, Result-cases, rollback, raise_after,
}

record_failure_holds :
    (recovery_id operator reason : String) (s : Session)
    → let db' = (record_failure recovery_id operator reason (rollback s).1).1.durable in
      (db' ≡ s.durable) ⊎ ((r : RecoveryState) × (db'.recovery ≡ some r) × (r.stage ≡ recovering))
unfolding record_failure locked_state
record_failure_holds recovery_id operator reason s = elim (Option-cases s.durable.recovery) [
  | inl missing ↦ inl (ground arith)
  | inr (r, found) ↦ elim (Bool-cases (s.accepts s.commits)) [
    | inr refused ↦ inl (ground arith)
    | inl taken ↦ elim (Bool-cases (is_text r.recovery_id recovery_id)) [
      | inr other ↦ inl (ground arith)
      | inl mine ↦ inr (held_back r, ground arith, refl)
    ]
  ]
]

module _ (database_checks : Db → List (String × ℕ)) (storage : Storage) where
  -- When the verification of a recovery opens the API, the state was in the stage "recovering" for
  -- this manifest with the restricted access confirmed, every count of the database checks was
  -- zero, the object checks passed, and that state with the stage "api_open" and the time of
  -- verification is committed.
  pub opened_verified :
      (now : ℕ) (m : RecoveryManifest) (operator reason : String) (s : Session)
      {result : RecoveryResult}
      → (verify_and_open database_checks storage now m operator reason s).0 ≡ ok result
      → (r : RecoveryState) × (s.current.recovery ≡ some r)
        × (r.stage ≡ recovering)
        × (is_for m r ≡ true)
        × (is_none r.restricted_access_confirmed_at ≡ false)
        × (any_positive (database_checks s.current) ≡ false)
        × ((object_checks storage s.current.files m).passed ≡ true)
        × ((verify_and_open database_checks storage now m operator reason s).1.durable.recovery
            ≡ some (opened_api now r))
  unfolding verify_and_open try_open locked_state commit_phase record_failure
  opened_verified now m operator reason s {result} e = elim (Option-cases s.current.recovery) [
    | inl missing ↦ ground arith
    | inr (r, found) ↦ (
      r,
      found,
      ground arith,
      ground arith,
      ground arith,
      ground arith,
      ground arith,
      ground arith,
    )
  ]

  try_open_keeps :
      (now : ℕ) (m : RecoveryManifest) (operator reason : String) (s : Session) {problem : Error}
      → (try_open database_checks storage now m operator reason s).0 ≡ err problem
      → (try_open database_checks storage now m operator reason s).1.durable ≡ s.durable
  unfolding try_open locked_state commit_phase
  try_open_keeps now m operator reason s e = ground arith

  verify_and_open_ok :
      (now : ℕ) (m : RecoveryManifest) (operator reason : String) (s : Session)
      {result : RecoveryResult}
      → (try_open database_checks storage now m operator reason s).0 ≡ ok result
      → (verify_and_open database_checks storage now m operator reason s).0 ≡ ok result
  unfolding verify_and_open
  verify_and_open_ok now m operator reason s fine = rw (fine, verify_and_open) refl

  verify_and_open_err :
      (now : ℕ) (m : RecoveryManifest) (operator reason : String) (s : Session) {problem : Error}
      → (try_open database_checks storage now m operator reason s).0 ≡ err problem
      → (verify_and_open database_checks storage now m operator reason s).1.durable
        ≡ (record_failure m.recovery_id operator reason
            (rollback (try_open database_checks storage now m operator reason s).1).1).1.durable
  unfolding verify_and_open
  verify_and_open_err now m operator reason s {problem} failed =
      rw (failed, verify_and_open)
        (ap (λ (x : Session). x.durable)
          (raise_after RecoveryResult (record_failure m.recovery_id operator reason) problem
            (rollback (try_open database_checks storage now m operator reason s).1).1))

  -- When the verification of a recovery fails, either nothing of the database is changed, or the
  -- committed state is in the stage "recovering".
  pub failure_holds :
      (now : ℕ) (m : RecoveryManifest) (operator reason : String) (db : Db) (accepts : ℕ → Bool)
      {problem : Error}
      → (verify_and_open database_checks storage now m operator reason (begin db accepts)).0
        ≡ err problem
      → let db' =
          (verify_and_open database_checks storage now m operator reason
            (begin db accepts)).1.durable in
        (db' ≡ db) ⊎ ((r : RecoveryState) × (db'.recovery ≡ some r) × (r.stage ≡ recovering))
  unfolding verify_and_open
  failure_holds now m operator reason db accepts {problem} e =
      elim (Result-cases
        (try_open database_checks storage now m operator reason (begin db accepts)).0) [
          | inr (result, fine) ↦
              cc (e, verify_and_open_ok now m operator reason (begin db accepts) fine)
          | inl (x, failed) ↦
              elim (record_failure_holds m.recovery_id operator reason
                (try_open database_checks storage now m operator reason (begin db accepts)).1) [
                  | inl same ↦ inl (
                      verify_and_open_err now m operator reason (begin db accepts) failed
                      ∙ same
                      ∙ try_open_keeps now m operator reason (begin db accepts) failed)
                  | inr (r, written, at) ↦ inr (
                    r,
                    ap (λ (x : Db). x.recovery)
                          (verify_and_open_err now m operator reason (begin db accepts) failed)
                        ∙ written,
                    at,
                  )
                ]
        ]

-- the transaction of `open_dispatcher`
abbrev opening : String → String × String → Exec (Unit {0})
opening recovery_id q = do
  r ← locked_state
  fail_if (not (is_api_open r.stage && is_text r.recovery_id recovery_id))
      (recovery_failed state [])
  modify (write_state (reopened r))
  modify (add_audit (audit "recovery_dispatcher_opened" q.0 q.1 recovery_id r.authorization_mode))
  commit_phase dispatcher []

-- the row that it leaves, and the one that it found
opening-writes :
    (recovery_id : String) (q : String × String) (s : Session) {u : Unit {0}}
    → (opening recovery_id q s).0 ≡ ok u
    → (r : RecoveryState) × (s.current.recovery ≡ some r)
      × (is_api_open r.stage && is_text r.recovery_id recovery_id ≡ true)
      × ((opening recovery_id q s).1.durable.recovery ≡ some (reopened r))
unfolding locked_state commit_phase
opening-writes recovery_id q s e = elim (Option-cases s.current.recovery) [
  | inl missing ↦ ground arith
  | inr (r, found) ↦ (r, found, ground arith, ground arith)
]

module _ (cfg : Settings) (recovery_id operator reason : String) where
  reopened-allowed :
      (db : Db) (r : RecoveryState)
      → cfg.recovery_deployment_frozen ≡ false
      → db.recovery ≡ some (reopened r)
      → (dispatcher_allowed cfg db ≡ true) × (api_requests_allowed cfg db ≡ true)
  unfolding dispatcher_allowed api_requests_allowed
  reopened-allowed db r live written =
      (ground (arith, live, written), ground (arith, live, written))

  -- a command that succeeds has done its transaction
  open_dispatcher-runs :
      (s : Session) {result : RecoveryResult}
      → (open_dispatcher cfg recovery_id operator reason s).0 ≡ ok result
      → let inner = opening recovery_id (strip operator, strip reason) s in
        (cfg.recovery_deployment_frozen ≡ false)
        × ((u : Unit {0}) × (inner.0 ≡ ok u))
        × ((open_dispatcher cfg recovery_id operator reason s).1 ≡ inner.1)
  unfolding open_dispatcher require_recovery_id require_operator_and_reason
  open_dispatcher-runs s e =
      let (live, (u, done, value), same) =
        command_ok cfg.recovery_deployment_frozen (not (matches_recovery_id recovery_id))
          (not (fits 128 (strip operator) && fits 256 (strip reason))) _ _ _
          (strip operator, strip reason) (opening recovery_id)
          (λ u. record { status = "open"; phase = "complete"; counts = [] }) s e in
      (live, (u, done), same)

  -- When the command `open_dispatcher` succeeds, the dispatcher and the API are allowed in what it
  -- has committed, and before it the stage was "api_open" and the recovery had the given id.
  pub open_dispatcher_opens :
      (db : Db) (accepts : ℕ → Bool) {result : RecoveryResult}
      → let run = open_dispatcher cfg recovery_id operator reason (begin db accepts) in
        run.0 ≡ ok result
        → (dispatcher_allowed cfg run.1.durable ≡ true)
          × (api_requests_allowed cfg run.1.durable ≡ true)
          × ((r : RecoveryState) × (db.recovery ≡ some r)
              × (r.stage ≡ api_open)
              × (is_text r.recovery_id recovery_id ≡ true))
  open_dispatcher_opens db accepts e =
      let (live, (u, done), same) = open_dispatcher-runs (begin db accepts) e in
      let (r, found, at, written) =
        opening-writes recovery_id (strip operator, strip reason) (begin db accepts) done in
      let (sends, serves) = reopened-allowed _ r live written in
      rw same (sends, serves, (r, found, ground (arith, at), ground (arith, at)))

  pub open_dispatcher_fails :
      (db : Db) (accepts : ℕ → Bool) {problem : Error}
      → let run = open_dispatcher cfg recovery_id operator reason (begin db accepts) in
        run.0 ≡ err problem → run.1.durable ≡ db
  unfolding open_dispatcher locked_state commit_phase require_recovery_id
      require_operator_and_reason
  open_dispatcher_fails db accepts {problem} e = ground arith
