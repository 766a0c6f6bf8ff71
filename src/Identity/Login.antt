-- ===== src/Identity/Login.antt =====
-- `login` of src/app/identity/service.py.
use rulefolio_server.Prelude.{
  ℕ, String, Option, none, some, ◌==◌, if◌then◌else◌, scalar, update, str_eq,
}
use rulefolio_server.Settings.{Settings}
use rulefolio_server.Crypto.{Crypto}
use rulefolio_server.Identity.Models.{Account, is_active, PasswordCredential, login}
use rulefolio_server.Identity.Passwords.{is_match, password_of}
use rulefolio_server.Identity.Attempts.{
  attempt_subject, attempt_retry_after, record_attempt, clear_attempt,
}
use rulefolio_server.Identity.Sessions.{SessionResult, create_session}
use rulefolio_server.Identity.Credentials.{Draws, Clock}
use rulefolio_server.Database.{
  Db, SecurityAudit, Exec, commit_raise, or_fail, gets, pure, modify, statement, commit, add_audit,
  ◌>>=◌, ◌>>◌, authentication_failed, rate_limited, value_error,
}

unfoldable pub account_by_email : String → Db → Option Account
account_by_email email db = scalar (λ a. str_eq a.email email) db.accounts

-- an action of an account on itself
abbrev pub own_action : String → ℕ → SecurityAudit
own_action action account_id = record {
  action = action;
  actor_account_id = some account_id;
  target_account_id = some account_id;
  operator = none;
  reason = none;
  scope = none;
}

-- `eligible`: an active account with a password
unfoldable pub eligible_login : String → Db → Option (Account × PasswordCredential)
unfolding account_by_email password_of
eligible_login email db = elim (account_by_email email db) [
  | none ↦ none
  | some a ↦ elim (password_of a.id db) [
    | none ↦ none
    | some c ↦ if is_active a.status then some (a, c) else none
  ]
]

module _ (cfg : Settings) (crypto : Crypto) where
  -- The password is verified in any case, against the dummy hash where no account is eligible.
  unfoldable pub check_login : String → String → Db → Option (Account × PasswordCredential)
  unfolding eligible_login
  check_login email password db = elim (eligible_login email db) [
    | none ↦ none
    | some (a, c) ↦ if is_match (crypto.verify c.password_hash password) then some (a, c) else none
  ]

  unfoldable pub rehash : (salt account_id : ℕ) → (old password : String) → Db → Db
  rehash salt account_id old password db =
      if crypto.check_needs_rehash old
      then record db {
        passwords =
            update (λ c. c.account_id == account_id)
              (λ c. record c { password_hash = crypto.hash salt password }) db.passwords;
      }
      else db

  unfoldable pub login_refused : Draws → Clock → ℕ → Exec SessionResult
  login_refused d clock subject = do
    modify (record_attempt cfg d.attempt_id (clock 1) login subject)
    commit_raise authentication_failed

  unfoldable pub login_accepted :
      Draws → Clock → ℕ → String → Account × PasswordCredential → Exec SessionResult
  unfolding rehash
  login_accepted d clock subject password (a, c) = do
    modify (rehash d.salt a.id c.password_hash password)
    modify (clear_attempt login subject)
    result ←
        statement (create_session cfg crypto d.session_id (clock 1) a.id a.status d.session_token)
    modify (add_audit (own_action "session_created" a.id))
    commit
    pure result

  -- the part of `login` that follows the limiter
  unfoldable pub login_unlimited :
      Draws → Clock → ℕ → (email password : String) → Exec SessionResult
  unfolding check_login login_refused login_accepted
  login_unlimited d clock subject email password = do
    checked ← gets (check_login email password)
    elim checked [
      | none ↦ login_refused d clock subject
      | some found ↦ login_accepted d clock subject password found
    ]

  unfoldable pub log_in : Draws → Clock → (email password : String) → Exec SessionResult
  unfolding login_unlimited
  log_in d clock email password = do
    normalized ← or_fail (crypto.validate_email email) value_error
    subject ← attempt_subject cfg crypto normalized
    retry_after ← statement (attempt_retry_after cfg (clock 0) login subject cfg.login_max_attempts)
    elim retry_after [
      | some seconds ↦ commit_raise (rate_limited seconds)
      | none ↦ login_unlimited d clock subject normalized password
    ]
