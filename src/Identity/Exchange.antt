-- ===== src/Identity/Exchange.antt =====
-- The exchange of a one-time credential in src/app/identity/service.py: `activate` and
-- `recover_password`.
use rulefolio_server.Prelude.{
  ℕ, String, Bool, true, false, ◌&&◌, not, Option, none, some, [], ◌∷◌, ◌==◌, leb, if◌then◌else◌,
  scalar, update,
}
use rulefolio_server.Settings.{Settings}
use rulefolio_server.Crypto.{Crypto}
use rulefolio_server.Identity.Models.{
  Account, AccountStatus, active, is_active, is_pending_activation, Purpose, account_activation,
  password_recovery, exchange, OneTimeCredential, token_active, password_recovered,
}
use rulefolio_server.Identity.Passwords.{validate_password, set_password}
use rulefolio_server.Identity.Attempts.{
  attempt_subject, attempt_retry_after, record_attempt, clear_attempt,
}
use rulefolio_server.Identity.Sessions.{
  SessionResult, account_by_id, revoke_sessions, create_session,
}
use rulefolio_server.Identity.Credentials.{Draws, Clock, bears, consume, revoke_and_clear}
use rulefolio_server.Identity.Login.{own_action}
use rulefolio_server.Notifications.Models.{cancelled}
use rulefolio_server.Notifications.Outbox.{clear_outbox_envelopes}
use rulefolio_server.Database.{
  Db, Exec, commit_raise, gets, pure, modify, statement, commit, add_audit, ◌>>=◌, ◌>>◌,
  link_unavailable, rate_limited,
}

abbrev pub is_activation : Purpose → Bool
is_activation account_activation = true
is_activation _ = false

abbrev pub is_password_recovery : Purpose → Bool
is_password_recovery password_recovery = true
is_password_recovery _ = false

-- `account.status == required_status`
abbrev pub may_exchange : Purpose → AccountStatus → Bool
may_exchange purpose status =
    if is_activation purpose then is_pending_activation status else is_active status

abbrev pub set_status : ℕ → AccountStatus → Db → Db
set_status account_id status db = record db {
  accounts = update (λ a. a.id == account_id) (λ a. record a { status = status }) db.accounts;
}

module _ (crypto : Crypto) where
  -- the credential that a token may be exchanged for now
  unfoldable pub exchangeable : (now : ℕ) → Purpose → String → Db → Option OneTimeCredential
  unfolding bears
  exchangeable now purpose token db = elim (scalar (bears crypto purpose token) db.credentials) [
    | none ↦ none
    | some c ↦
        if c.token_hash == crypto.sha256 token
          && token_active c.status
          && not (leb c.expires_at now)
        then some c
        else none
  ]

-- the account that a credential may be exchanged by
unfoldable pub exchanging_account : Purpose → OneTimeCredential → Db → Option Account
unfolding account_by_id
exchanging_account purpose c db = elim (account_by_id c.account_id db) [
  | none ↦ none
  | some a ↦ if may_exchange purpose a.status then some a else none
]

module _ (cfg : Settings) (crypto : Crypto) where
  unfoldable pub refused : Draws → (now : ℕ) → Purpose → (subject : ℕ) → Exec SessionResult
  refused d now purpose subject = do
    modify (record_attempt cfg d.attempt_id now (exchange purpose) subject)
    commit_raise link_unavailable

  -- What a recovery withdraws beside the credential: the sessions and the other credentials.
  unfoldable pub recover_account : (now later account_id : ℕ) → Db → Db
  unfolding revoke_sessions revoke_and_clear
  recover_account now later account_id db =
      revoke_and_clear later account_id password_recovery
        (revoke_sessions now account_id password_recovered db)

  -- The part that follows the consumption; `now` is the second reading of the clock.
  unfoldable pub exchanged :
      Draws
      → Clock
      → Purpose
      → (subject : ℕ) → OneTimeCredential
      → Account
      → String
      → Exec SessionResult
  unfolding set_password recover_account
  exchanged d clock purpose subject c a password = do
    set_password cfg crypto d.salt (clock 2) a.id password
    modify (λ db. if is_activation purpose then set_status a.id active db else db)
    modify (clear_outbox_envelopes (c.id ∷ []) cancelled)
    modify (λ db.
        if is_password_recovery purpose then recover_account (clock 1) (clock 3) a.id db else db)
    result ← statement (
        create_session cfg crypto d.session_id (clock 4) a.id
          (if is_activation purpose then active else a.status) d.session_token)
    modify (clear_attempt (exchange purpose) subject)
    modify (
        add_audit (
          own_action
            (if is_password_recovery purpose then "password_recovered" else "account_activated")
            a.id))
    commit
    pure result

  -- The part that follows the limiter.
  unfoldable pub exchange_unlimited :
      Draws → Clock → Purpose → (subject : ℕ) → (token password : String) → Exec SessionResult
  unfolding refused exchangeable exchanging_account consume exchanged
  exchange_unlimited d clock purpose subject token password = do
    credential ← gets (exchangeable crypto (clock 1) purpose token)
    elim credential [
      | none ↦ refused d (clock 2) purpose subject
      | some c ↦ do
        account ← gets (exchanging_account purpose c)
        elim account [
          | none ↦ refused d (clock 2) purpose subject
          | some a ↦ do
            consumed ← statement (consume c.id (clock 1))
            if consumed == 1
                then exchanged d clock purpose subject c a password
                else refused d (clock 2) purpose subject
        ]
    ]

  -- `_exchange_one_time_credential`
  unfoldable pub exchange_one_time_credential :
      Draws → Clock → Purpose → (token password : String) → Exec SessionResult
  unfolding validate_password exchange_unlimited
  exchange_one_time_credential d clock purpose token password = do
    validate_password cfg password
    subject ← attempt_subject cfg crypto token
    retry_after ← statement (
        attempt_retry_after cfg (clock 0) (exchange purpose) subject
          cfg.recovery_exchange_max_attempts)
    elim retry_after [
      | some seconds ↦ commit_raise (rate_limited seconds)
      | none ↦ exchange_unlimited d clock purpose subject token password
    ]

  unfoldable pub activate : Draws → Clock → (token password : String) → Exec SessionResult
  unfolding exchange_one_time_credential
  activate d clock token password =
      exchange_one_time_credential d clock account_activation token password

  unfoldable pub recover_password : Draws → Clock → (token password : String) → Exec SessionResult
  unfolding exchange_one_time_credential
  recover_password d clock token password =
      exchange_one_time_credential d clock password_recovery token password
