-- ===== src/Identity/Accounts.antt =====
-- Accounts in src/app/identity/service.py: invitation, baseline, provisioning, diagnosis.
use rulefolio_server.Prelude.{
  ℕ, String, ◌&&◌, not, Option, none, some, ◌∷◌, ◌==◌, str_eq, is_none, if◌then◌else◌, scalar,
}
use rulefolio_server.Settings.{Settings}
use rulefolio_server.Crypto.{Crypto}
use rulefolio_server.Identity.Models.{
  Account, AccountStatus, active, pending_activation, is_active, is_pending_activation,
  account_activation, password_recovery, Purpose, reprovisioned,
}
use rulefolio_server.Identity.Passwords.{set_password}
use rulefolio_server.Identity.Sessions.{SessionResult, revoke_sessions, create_session}
use rulefolio_server.Identity.Credentials.{
  Draws, Clock, after, revoke_and_clear, create_one_time_credential,
}
use rulefolio_server.Identity.Login.{account_by_email}
use rulefolio_server.Identity.Exchange.{set_status}
use rulefolio_server.Notifications.Models.{MailStatus}
use rulefolio_server.Database.{
  Db, Exec, or_fail, or_raise, fail_if, gets, pure, modify, statement, commit, add_audit, ◌>>=◌,
  ◌>>◌, value_error, link_unavailable, runtime_error,
}

abbrev pub new_account : ℕ → String → AccountStatus → Account
new_account id email status = record { id = id; email = email; status = status }

abbrev pub add_account : Account → Db → Db
add_account a db = record db { accounts = a ∷ db.accounts }

module _ (crypto : Crypto) where
  -- `rival` is the account of this address that another transaction inserts between the first
  -- select and the flush, if one does; the unique address then refuses the new row.
  unfoldable pub get_or_create_invitation_account :
      Draws → Option Account → (email : String) → Exec Account
  get_or_create_invitation_account d rival email = do
    normalized ← or_fail (crypto.validate_email email) value_error
    found ← gets (account_by_email normalized)
    elim found [
      | some account ↦ pure account
      | none ↦ elim rival [
        | none ↦ do
          let account = new_account d.account_id normalized pending_activation
          modify (add_account account)
          pure account
        | some other ↦ do
          modify (add_account (record other { email = normalized }))
          or_fail (← gets (account_by_email normalized)) runtime_error
      ]
    ]

  unfoldable pub find_active_account_by_email : (email : String) → Exec (Option Account)
  find_active_account_by_email email = do
    normalized ← or_fail (crypto.validate_email email) value_error
    gets (λ db. scalar (λ a. str_eq a.email normalized && is_active a.status) db.accounts)

module _ (cfg : Settings) (crypto : Crypto) where
  unfoldable pub create_active_baseline_account :
      Draws → (now : ℕ) → (email password : String) → Exec Account
  unfolding set_password
  create_active_baseline_account d now email password = do
    normalized ← or_fail (crypto.validate_email email) value_error
    found ← gets (account_by_email normalized)
    fail_if (not (is_none found)) value_error
    let account = new_account d.account_id normalized active
    modify (add_account account)
    set_password cfg crypto d.salt now account.id password
    pure account

  unfoldable pub activate_invited_account : Draws → Clock → Account → String → Exec SessionResult
  unfolding set_password revoke_and_clear
  activate_invited_account d clock account password = do
    fail_if (not (is_pending_activation account.status)) link_unavailable
    set_password cfg crypto d.salt (clock 0) account.id password
    modify (set_status account.id active)
    modify (revoke_and_clear (clock 1) account.id account_activation)
    statement (create_session cfg crypto d.session_id (clock 2) account.id active d.session_token)

  -- what a repeated provisioning withdraws
  unfoldable pub reprovision : Clock → ℕ → Db → Db
  unfolding revoke_sessions revoke_and_clear
  reprovision clock account_id db = revoke_and_clear (clock 1) account_id password_recovery (
      revoke_sessions (clock 0) account_id reprovisioned
        (set_status account_id pending_activation db))

  -- The account that is provisioned, with its row ready: `none` where it is active.
  unfoldable pub provisioned : Draws → Clock → (email : String) → Db → Option (ℕ × Db)
  unfolding reprovision
  provisioned d clock email db = elim (account_by_email email db) [
    | none ↦ some (d.account_id, add_account (new_account d.account_id email pending_activation) db)
    | some a ↦ if is_active a.status then none else some (a.id, reprovision clock a.id db)
  ]

  unfoldable pub provision_account : Draws → Clock → (email operator reason : String) → Exec ℕ
  unfolding provisioned
  provision_account d clock email operator reason = do
    normalized ← or_fail (crypto.validate_email email) value_error
    ready ← gets (provisioned d clock normalized)
    (account_id, db) ← or_raise ready value_error
    modify (λ _.
        create_one_time_credential cfg crypto d (after 2 clock) account_id account_activation db)
    modify (
        add_audit (record {
          action = "account_provisioned";
          actor_account_id = none;
          target_account_id = some account_id;
          operator = some operator;
          reason = some reason;
          scope = some "identity_provisioning";
        }))
    commit
    pure account_id

pub record OutboxDiagnosis : Type 0 where
  pub id : ℕ
  pub purpose : Purpose
  pub status : MailStatus
  pub attempt_count : ℕ

-- `label` writes the scope `outbox:<id>` of the audit
unfoldable pub diagnose_outbox :
    (ℕ → String) → (outbox_id : ℕ) → (operator reason : String) → Exec OutboxDiagnosis
diagnose_outbox label outbox_id operator reason = do
  o ← or_raise (← gets (λ db. scalar (λ o. o.id == outbox_id) db.outbox)) value_error
  modify (
      add_audit (record {
        action = "outbox_diagnosed";
        actor_account_id = none;
        target_account_id = some o.recipient_account_id;
        operator = some operator;
        reason = some reason;
        scope = some (label o.id);
      }))
  commit
  pure (record {
    id = o.id;
    purpose = o.purpose;
    status = o.status;
    attempt_count = o.attempt_count;
  })
