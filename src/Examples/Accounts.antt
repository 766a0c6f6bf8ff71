-- ===== src/Examples/Accounts.antt =====
-- Accounts, sessions and credentials at concrete inputs.
use rulefolio_server.Prelude.{
  ℕ, String, true, false, none, some, [], ◌≡◌, ◌≤◌, ◌<◌, ◌*◌, ◌↔◌, refl, All, scalar, rowcount,
  update, str_eq, arith, ◌==◌,
}
use Prim.Native.String.{count}
use rulefolio_server.Identity.Models.{Account, is_active, login, password_recovery, JobStatus}
use rulefolio_server.Identity.Passwords.{set_password, verify_current_password, is_acceptable}
use rulefolio_server.Identity.Attempts.{
  attempt_of, attempt_retry_after, record_attempt, seconds_left, attempt_subject,
}
use rulefolio_server.Identity.AttemptLaws.{wait_bounds, wait-record_attempt}
use rulefolio_server.Identity.Sessions.{
  create_session, session_row, account_by_id, authenticate, log_out,
}
use rulefolio_server.Identity.SessionLaws.{authenticate_sound, authenticate-log_out}
use rulefolio_server.Identity.Login.{log_in, account_by_email}
use rulefolio_server.Identity.LoginLaws.{authenticate-log_in}
use rulefolio_server.Identity.Credentials.{
  is_withdrawable, credential_row, create_one_time_credential,
}
use rulefolio_server.Identity.CredentialLaws.{one_active, password_bounds, verify-set_password}
use rulefolio_server.Identity.Exchange.{exchangeable, recover_password}
use rulefolio_server.Identity.ExchangeLaws.{OnlyLive, recovery_closes, recovery_once}
use rulefolio_server.Identity.RecoveryRequests.{
  RecoveryRequestClaim, finish_recovery_request_job, request_recovery,
}
use rulefolio_server.Identity.RequestLaws.{request_uniform, finish_once}
use rulefolio_server.Database.{begin, ok, err, session_unavailable, value_error, Session}
use rulefolio_server.Examples.Fixtures.{
  cfg, crypto, crypto-IsPasswordHash, draws, clock, taken_always, account, attempt, session_record,
  db,
}

abbrev full : ℕ
full = 5

wait_bounds_example : (1 ≤ 900) × (900 ≤ 15 * 60)
unfolding attempt_retry_after record_attempt scalar update
wait_bounds_example =
    wait_bounds cfg login 11 900 full (record_attempt cfg 8 900 login 11 db) (omega arith)
      (omega arith, tt) refl

wait-record_attempt_example :
    (attempt_retry_after cfg 1000 login 11 5 (record_attempt cfg 8 900 login 11 db)).0
    ≡ some (seconds_left cfg 1000 attempt)
unfolding attempt_of scalar
wait-record_attempt_example = wait-record_attempt cfg login 11 8 900 1000 5 db refl refl refl

abbrev start : Session
start = begin db taken_always

authenticate_sound_example :
    (scalar (λ r. r.token_hash == 3) db.sessions ≡ some session_record)
    × (account_by_id 1 db ≡ some account)
    × (session_record.revoked_at ≡ none)
    × (100 < 5000)
    × (is_active account.status ≡ true)
    × (str_eq "abc" "" ≡ false)
unfolding authenticate scalar account_by_id
authenticate_sound_example = authenticate_sound crypto 100 "abc" db taken_always refl

authenticate-log_out_example :
    (authenticate crypto 200 "abc"
      (begin (log_out crypto 100 101 "abc" start).1.durable taken_always)).0
    ≡ err session_unavailable
unfolding log_out authenticate scalar
authenticate-log_out_example =
    authenticate-log_out crypto 100 101 200 "abc" db taken_always taken_always refl

one_active_example :
    let db' = create_one_time_credential cfg crypto draws clock 1 password_recovery db in
    (rowcount (is_withdrawable 1 password_recovery) db'.credentials ≡ 1)
    × (scalar (is_withdrawable 1 password_recovery) db'.credentials
        ≡ some (credential_row cfg crypto 29 1000 1 password_recovery "new credential token"))
one_active_example = one_active cfg crypto draws clock 1 password_recovery db

password_bounds_example :
    (((set_password cfg crypto 59 100 1 "short" start).0 ≡ ok tt)
      ↔ ((8 ≤ count "short") × (count "short" ≤ 128)))
    × ((is_acceptable cfg "short" ≡ false)
        → set_password cfg crypto 59 100 1 "short" start ≡ (err value_error, start))
password_bounds_example = password_bounds cfg crypto 59 100 1 "short" start

verify-set_password_example :
    verify_current_password crypto 1 "a new password"
      (set_password cfg crypto 59 100 1 "a new password" start).1.current
    ≡ true
unfolding set_password is_acceptable
verify-set_password_example =
    verify-set_password cfg crypto 59 100 1 "a new password" start crypto-IsPasswordHash refl

request_uniform_example :
    let run = request_recovery cfg crypto draws clock "a@example.test" start in
    let other =
      request_recovery cfg crypto draws clock "a@example.test"
        (begin (record db { accounts = []; passwords = [] }) taken_always) in
    (run.0 ≡ other.0)
    × (run.1.durable.jobs ≡ other.1.durable.jobs)
    × (run.1.durable.attempts ≡ other.1.durable.attempts)
request_uniform_example =
    request_uniform cfg crypto draws clock "a@example.test" db [] [] taken_always

abbrev job_claim : RecoveryRequestClaim
job_claim = record { job_id = 12; claim_id = 13 }

finish_once_example :
    let first = finish_recovery_request_job job_claim JobStatus.completed 200 start in
    let second = finish_recovery_request_job job_claim JobStatus.failed 300 first.1 in
    (second.0 ≡ ok false) × (second.1.durable.jobs ≡ first.1.durable.jobs)
finish_once_example =
    finish_once job_claim JobStatus.completed JobStatus.failed 200 300 start (λ n. refl)

abbrev recovered : Session
recovered = (recover_password cfg crypto draws clock "reset" "a new password" start).1

recovery_closes_example :
    OnlyLive cfg crypto 1
      (session_row cfg crypto 19 1000 1 "new session token")
      recovered.durable.sessions
    × All (λ c. is_withdrawable 1 password_recovery c ≡ false) recovered.durable.credentials
    × ((a : Account) × (account_by_id 1 db ≡ some a) × (is_active a.status ≡ true))
unfolding recover_password scalar update rowcount attempt_subject attempt_retry_after create_session
recovery_closes_example =
    recovery_closes cfg crypto draws clock "reset" "a new password" db taken_always refl

recovery_once_example : exchangeable crypto 2000 password_recovery "reset" recovered.durable ≡ none
unfolding recover_password scalar update rowcount attempt_subject attempt_retry_after create_session
recovery_once_example =
    recovery_once cfg crypto draws clock 2000 "reset" "a new password" db taken_always refl

one_account :
    (a : Account) (email : String)
    → account_by_email email db ≡ some a
    → account_by_id a.id db ≡ some a
unfolding account_by_email account_by_id scalar
one_account a email found = ground (arith, found)

abbrev logged_in : Session
logged_in = (log_in cfg crypto draws clock "a@example.test" "old password" start).1

authenticate-log_in_example :
    (a : Account) × (a.id ≡ 1)
    × ((authenticate crypto 2000 "new session token" (begin logged_in.durable taken_always)).0
        ≡ ok (record {
          session = session_row cfg crypto 19 1000 a.id "new session token";
          account = a;
        }))
unfolding log_in scalar update account_by_id account_by_email attempt_subject attempt_retry_after
    create_session
authenticate-log_in_example =
    authenticate-log_in cfg crypto draws clock 2000 "a@example.test" "old password" db taken_always
      taken_always one_account refl refl (omega arith)
