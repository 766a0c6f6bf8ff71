-- ===== src/Identity/RequestLaws.antt =====
-- What a request for a recovery tells, and what its queue does.
use rulefolio_server.Prelude.{
  ℕ, suc, String, Bool, true, false, ◌≡◌, refl, ap, ◌∙◌, some, List, ◌∷◌, arith, ◌==◌, update,
  rowcount, All, All-update, All-pure, rowcount-zero, update-none,
}
use rulefolio_server.Settings.{Settings}
use rulefolio_server.Crypto.{Crypto, IsAuthenticated}
use rulefolio_server.Identity.Models.{
  Account, PasswordCredential, RecoveryRequestJob, JobStatus, job_pending,
}
use rulefolio_server.Identity.Attempts.{attempt_subject, attempt_retry_after, record_attempt}
use rulefolio_server.Identity.Credentials.{Draws, Clock}
use rulefolio_server.Identity.RecoveryRequests.{
  RecoveryRequestClaim, is_held, finish_recovery_request_job, request_recovery,
  queue_recovery_request, job_email, finished,
}
use rulefolio_server.Database.{Db, Session, Result, ok, begin, commit_taken, pure}

module _ (cfg : Settings) (crypto : Crypto) where
  -- A request for a recovery tells nothing of the accounts: whatever accounts and passwords there
  -- are, the answer is the same, and so are the jobs and the attempts that it commits.
  pub request_uniform :
      (d : Draws) (clock : Clock) (email : String) (db : Db) (accounts : List Account)
      (passwords : List PasswordCredential) (accepts : ℕ → Bool)
      → let run = request_recovery cfg crypto d clock email (begin db accepts) in
        let other =
          request_recovery cfg crypto d clock email
            (begin (record db { accounts = accounts; passwords = passwords }) accepts) in
        (run.0 ≡ other.0)
        × (run.1.durable.jobs ≡ other.1.durable.jobs)
        × (run.1.durable.attempts ≡ other.1.durable.attempts)
  unfolding request_recovery attempt_subject attempt_retry_after record_attempt
      queue_recovery_request
  request_uniform d clock email db accounts passwords accepts = ground arith

  -- A queued request carries its address: the job that a request adds decrypts to it.
  pub job_email-queue :
      (d : Draws) (now : ℕ) (email : String) (db : Db)
      → IsAuthenticated crypto
      → (j : RecoveryRequestJob) × ((queue_recovery_request cfg crypto d now email db).jobs
          ≡ j ∷ db.jobs)
        × (job_email cfg crypto j ≡ some email)
        × (job_pending j.status ≡ true)
  unfolding queue_recovery_request job_email
  job_email-queue d now email db auth = (_, refl, auth.decrypt-encrypt _ _ _, refl)

-- what a finish writes when its commit is taken
finish_writes :
    (c : RecoveryRequestClaim) (status : JobStatus) (now : ℕ) (s : Session)
    → s.accepts s.commits ≡ true
    → let db = record s.current {
      jobs = update (is_held c) (finished status now) s.current.jobs;
    } in
      finish_recovery_request_job c status now s ≡ (
        ok (rowcount (is_held c) s.current.jobs == 1),
        record s { durable = db; current = db; commits = suc s.commits },
      )
unfolding finish_recovery_request_job
finish_writes c status now s taken =
    commit_taken (pure (rowcount (is_held c) s.current.jobs == 1))
      (record s {
        current = record s.current {
          jobs = update (is_held c) (finished status now) s.current.jobs;
        };
      })
      taken

none_held :
    (c : RecoveryRequestClaim) (status : JobStatus) (now : ℕ) (jobs : List RecoveryRequestJob)
    → All (λ j. is_held c j ≡ false) (update (is_held c) (finished status now) jobs)
none_held c status now jobs =
    All-update (λ j. Unit {0}) _ _ _ jobs (λ j u hit. unfold is_held in ground arith)
      (λ j u miss. miss) (All-pure (λ j. Unit {0}) jobs (λ j. tt))

-- A claimed job is finished once, if every commit is taken: after a worker has finished its claim,
-- a second attempt with the same claim is told that the claim is lost, and changes no job.
pub finish_once :
    (c : RecoveryRequestClaim) (status status' : JobStatus) (now now' : ℕ) (s : Session)
    → ((n : ℕ) → s.accepts n ≡ true)
    → let first = finish_recovery_request_job c status now s in
      let second = finish_recovery_request_job c status' now' first.1 in
      (second.0 ≡ ok false) × (second.1.durable.jobs ≡ first.1.durable.jobs)
finish_once c status status' now now' s taken =
    let db = record s.current { jobs = update (is_held c) (finished status now) s.current.jobs } in
    let after = record s { durable = db; current = db; commits = suc s.commits } in
    let first = finish_writes c status now s (taken s.commits) in
    let second = finish_writes c status' now' after (taken (suc s.commits)) in
    let lost = none_held c status now s.current.jobs in
    (
      rw first (
          ap (λ (x : Result Bool × Session). x.0) second
          ∙ rw (rowcount-zero (is_held c) _ lost) refl),
      rw first (
          ap (λ (x : Result Bool × Session). x.1.durable.jobs) second
          ∙ update-none (is_held c) (finished status' now') _ lost),
    )
