-- ===== src/Identity/RecoveryRequests.antt =====
-- The queue of recovery requests in src/app/identity/service.py.
use rulefolio_server.Prelude.{
  ℕ, ◌-◌, String, Bool, ◌&&◌, not, Option, none, some, ◌∷◌, ◌==◌, holds, before, is_none,
  if◌then◌else◌, scalar, update, rowcount, earliest,
}
use rulefolio_server.Settings.{Settings, minutes}
use rulefolio_server.Crypto.{Crypto, AssociatedData}
use rulefolio_server.Identity.Models.{
  Account, is_active, password_recovery, RecoveryRequestJob, JobStatus, pending, processing,
  job_pending, job_processing, recovery_request,
}
use rulefolio_server.Identity.Passwords.{password_of}
use rulefolio_server.Identity.Attempts.{attempt_subject, attempt_retry_after, record_attempt}
use rulefolio_server.Identity.Credentials.{Draws, Clock, after, create_one_time_credential}
use rulefolio_server.Identity.Login.{account_by_email}
use rulefolio_server.Recovery.Gate.{dispatcher_allowed}
use rulefolio_server.Database.{
  Db, SecurityAudit, Exec, or_fail, commit_raise, gets, pure, modify, statement, commit, rollback,
  others_commit, add_audit, ◌>>=◌, ◌>>◌, value_error, rate_limited,
}

pub record RecoveryRequestClaim : Type 0 where
  pub job_id : ℕ
  pub claim_id : ℕ

pub data JobOutcome : Type 0 where
  job_completed job_failed job_superseded : JobOutcome

-- `job.status = …` and the columns beside it
abbrev pub claimed : (claim_id now : ℕ) → RecoveryRequestJob → RecoveryRequestJob
claimed claim_id now j = record j {
  status = processing;
  claim_id = some claim_id;
  processing_started_at = some now;
}

abbrev pub requeued : RecoveryRequestJob → RecoveryRequestJob
requeued j = record j { status = pending; claim_id = none; processing_started_at = none }

abbrev pub finished : JobStatus → (now : ℕ) → RecoveryRequestJob → RecoveryRequestJob
finished status now j = record j {
  status = status;
  claim_id = none;
  email_ciphertext = none;
  email_nonce = none;
  key_version = none;
  completed_at = some now;
}

-- the job that a claim still holds
unfoldable pub is_held : RecoveryRequestClaim → RecoveryRequestJob → Bool
is_held c j = j.id == c.job_id && job_processing j.status && holds j.claim_id c.claim_id

unfoldable pub is_stale_job : (cutoff : ℕ) → RecoveryRequestJob → Bool
is_stale_job cutoff j = job_processing j.status && before j.processing_started_at cutoff

-- `locked` tells which rows another transaction has locked (`SKIP LOCKED`)
unfoldable pub claim_job : (ℕ → Bool) → (claim_id now : ℕ) → Db → Option RecoveryRequestClaim × Db
claim_job locked claim_id now db =
    elim (earliest (λ j. j.created_at) (λ j. job_pending j.status && not (locked j.id)) db.jobs) [
      | none ↦ (none, db)
      | some j ↦ (
        some (record { job_id = j.id; claim_id = claim_id }),
        record db { jobs = update (λ k. k.id == j.id) (claimed claim_id now) db.jobs },
      )
    ]

-- `_claim_recovery_request_job`
unfoldable pub claim_recovery_request_job :
    (ℕ → Bool) → (claim_id now : ℕ) → Exec (Option RecoveryRequestClaim)
unfolding claim_job
claim_recovery_request_job locked claim_id now = do
  claim ← statement (claim_job locked claim_id now)
  if is_none claim then rollback else commit
  pure claim

-- `_finish_recovery_request_job`
unfoldable pub finish_recovery_request_job :
    RecoveryRequestClaim → JobStatus → (now : ℕ) → Exec Bool
unfolding is_held
finish_recovery_request_job c status now = do
  count ← gets (λ db. rowcount (is_held c) db.jobs)
  modify (λ db. record db { jobs = update (is_held c) (finished status now) db.jobs })
  commit
  pure (count == 1)

module _ (cfg : Settings) (crypto : Crypto) where
  -- `_queue_recovery_request`; `created_at` is the server's clock
  unfoldable pub queue_recovery_request : Draws → (now : ℕ) → (email : String) → Db → Db
  queue_recovery_request d now email db =
      let version = cfg.token_encryption_key_version in
      let ciphertext =
        crypto.encrypt d.nonce email (AssociatedData.recovery_request d.job_id version) in
      record db {
        jobs =
            record {
              id = d.job_id;
              email_ciphertext = some ciphertext;
              email_nonce = some d.nonce;
              key_version = some version;
              status = pending;
              claim_id = none;
              processing_started_at = none;
              created_at = now;
              completed_at = none;
            }
            ∷ db.jobs;
      }

  -- the address in a job's envelope; `none` where it is gone or does not decrypt
  unfoldable pub job_email : RecoveryRequestJob → Option String
  job_email j = elim j.email_nonce [
    | none ↦ none
    | some nonce ↦ elim j.email_ciphertext [
      | none ↦ none
      | some ciphertext ↦
          crypto.decrypt nonce ciphertext
            (AssociatedData.recovery_request j.id cfg.token_encryption_key_version)
    ]
  ]

  unfoldable pub recover_stale_recovery_request_jobs : (ℕ → Bool) → (now : ℕ) → Exec ℕ
  unfolding is_stale_job
  recover_stale_recovery_request_jobs locked now = do
    allowed ← gets (dispatcher_allowed cfg)
    rollback
    let cutoff = now - minutes cfg.recovery_job_stale_minutes
    let stale = λ (j : RecoveryRequestJob). is_stale_job cutoff j && not (locked j.id)
    if allowed
        then (do
          count ← gets (λ db. rowcount stale db.jobs)
          modify (λ db. record db { jobs = update stale requeued db.jobs })
          commit
          pure count)
        else pure 0

  -- The account that a recovery mail goes to.
  unfoldable pub recoverable_account : (email : String) → Db → Option Account
  unfolding account_by_email password_of
  recoverable_account email db = elim (account_by_email email db) [
    | none ↦ none
    | some a ↦ if is_active a.status && not (is_none (password_of a.id db)) then some a else none
  ]

  recovery_audit : ℕ → SecurityAudit
  recovery_audit account_id = record {
    action = "recovery_requested";
    actor_account_id = none;
    target_account_id = some account_id;
    operator = none;
    reason = none;
    scope = none;
  }

  -- the credential and the audit of an eligible account
  unfoldable pub issue_recovery : Draws → Clock → (email : String) → Db → Db
  unfolding recoverable_account recovery_audit
  issue_recovery d clock email db = elim (recoverable_account email db) [
    | none ↦ db
    | some a ↦
        add_audit (recovery_audit a.id)
          (create_one_time_credential cfg crypto d clock a.id password_recovery db)
  ]

  finish_as : RecoveryRequestClaim → JobStatus → JobOutcome → (now : ℕ) → Exec (Option JobOutcome)
  finish_as c status outcome now = do
    done ← finish_recovery_request_job c status now
    pure (some (if done then outcome else job_superseded))

  -- the second transaction: the claimed job is read, answered and finished
  unfoldable pub process_claim : Draws → Clock → RecoveryRequestClaim → Exec (Option JobOutcome)
  unfolding finish_as issue_recovery
  process_claim d clock c = do
    held ← gets (λ db. scalar (is_held c) db.jobs)
    elim held [
      | none ↦ do rollback; pure (some job_superseded)
      | some j ↦ elim (job_email j) [
        | none ↦ finish_as c JobStatus.failed job_failed (clock 0)
        | some email ↦ do
          modify (issue_recovery d clock email)
          finish_as c JobStatus.completed job_completed (clock 3)
      ]
    ]

  -- `meanwhile` is what other sessions commit between the claim and the second transaction.
  unfoldable pub process_next_recovery_request :
      (ℕ → Bool) → (Db → Db) → Draws → Clock → Exec (Option JobOutcome)
  unfolding claim_recovery_request_job process_claim
  process_next_recovery_request locked meanwhile d clock = do
    allowed ← gets (dispatcher_allowed cfg)
    rollback
    if allowed
        then (do
          claim ← claim_recovery_request_job locked d.claim_id (clock 0)
          elim claim [
            | none ↦ pure none
            | some c ↦ do others_commit meanwhile; process_claim d (after 1 clock) c
          ])
        else pure none

  -- The wait that pads the response (`_normalize_recovery_duration`) changes no state.
  unfoldable pub request_recovery : Draws → Clock → (email : String) → Exec (Unit {0})
  unfolding queue_recovery_request
  request_recovery d clock email = do
    normalized ← or_fail (crypto.validate_email email) value_error
    subject ← attempt_subject cfg crypto normalized
    retry_after ← statement (
        attempt_retry_after cfg (clock 0) recovery_request subject
          cfg.recovery_request_max_attempts)
    elim retry_after [
      | some seconds ↦ commit_raise (rate_limited seconds)
      | none ↦ do
        modify (record_attempt cfg d.attempt_id (clock 1) recovery_request subject)
        modify (queue_recovery_request d (clock 2) normalized)
        commit
    ]
