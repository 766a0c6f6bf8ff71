-- ===== src/Identity/CredentialLaws.antt =====
-- What a new one-time credential and a new password replace.
use rulefolio_server.Prelude.{
  ℕ, ◌+◌, ◌≤◌, String, true, false, ◌≡◌, ◌↔◌, refl, ap, ◌∙◌, some, List, [], ◌∷◌, arith, ◌==◌,
  scalar, scalar-hit, update, rowcount, All, Option-cases, Bool-cases, inl, inr, eq_iff, All-update,
  All-pure, scalar-update, rowcount-zero,
}
use Prim.Native.String.{count}
use rulefolio_server.Settings.{Settings}
use rulefolio_server.Crypto.{Crypto, IsPasswordHash}
use rulefolio_server.Identity.Models.{
  Purpose, account_activation, password_recovery, workspace_invitation, business, same_purpose,
  OneTimeCredential, PasswordCredential,
}
use rulefolio_server.Identity.Passwords.{
  set_password, validate_password, is_acceptable, store_password, rehashed, password_of,
  verify_current_password,
}
use rulefolio_server.Identity.Sessions.{withdrawn}
use rulefolio_server.Identity.Credentials.{
  Draws, Clock, is_withdrawable, create_one_time_credential, credential_row, revoke_and_clear,
  revoke_credentials,
}
use rulefolio_server.Notifications.Models.{MailStatus}
use rulefolio_server.Notifications.Outbox.{clear_outbox_envelopes, enqueue_token_mail}
use rulefolio_server.Database.{Db, Session, ok, err, value_error}

same_purpose_refl : (p : Purpose) → same_purpose p p ≡ true
same_purpose_refl account_activation = refl
same_purpose_refl password_recovery = refl
same_purpose_refl workspace_invitation = refl
same_purpose_refl (business a) = ground (arith, eq_iff a a)

pub clear_credentials :
    (ids : List ℕ) (status : MailStatus) (db : Db)
    → (clear_outbox_envelopes ids status db).credentials ≡ db.credentials
unfolding clear_outbox_envelopes
clear_credentials [] status db = refl
clear_credentials (i ∷ ids) status db = refl

-- the credentials that were withdrawn are active no more
pub none_withdrawable :
    (account_id : ℕ) (purpose : Purpose) (now : ℕ) (rows : List OneTimeCredential)
    → All
        (λ c. is_withdrawable account_id purpose c ≡ false)
        (update (is_withdrawable account_id purpose) (withdrawn now) rows)
none_withdrawable account_id purpose now rows =
    All-update (λ c. Unit {0}) _ _ _ rows (λ c u hit. unfold is_withdrawable in ground arith)
      (λ c u miss. miss) (All-pure (λ c. Unit {0}) rows (λ c. tt))

row_withdrawable :
    (cfg : Settings) (crypto : Crypto) (id now account_id : ℕ) (purpose : Purpose) (token : String)
    → is_withdrawable account_id purpose (credential_row cfg crypto id now account_id purpose token)
      ≡ true
unfolding is_withdrawable credential_row
row_withdrawable cfg crypto id now account_id purpose token =
    ground (arith, same_purpose_refl purpose)

password_of-store_password :
    (now account_id : ℕ) (hashed : String) (db : Db)
    → (c : PasswordCredential) × (password_of account_id (store_password now account_id hashed db)
        ≡ some c)
      × (c.password_hash ≡ hashed)
unfolding store_password password_of scalar
password_of-store_password now account_id hashed db =
    elim (Option-cases (password_of account_id db)) [
      | inl missing ↦ (
        record { account_id = account_id; password_hash = hashed; updated_at = now },
        ground (arith, missing),
        refl,
      )
      | inr (c, found) ↦ (
        rehashed hashed now c,
        rw (found, store_password)
            (scalar-update (λ (x : PasswordCredential). x.account_id == account_id)
                (λ x. x.account_id == account_id) (rehashed hashed now) db.passwords (λ x. refl)
              ∙ rw
                  (
                    found,
                    scalar-hit (λ (x : PasswordCredential). x.account_id == account_id) db.passwords
                        found,
                  )
                  refl),
        refl,
      )
    ]

module _ (cfg : Settings) (crypto : Crypto) where
  -- After a credential is issued, exactly one credential of its account and purpose is active, and
  -- it is the new one.
  pub one_active :
      (d : Draws) (clock : Clock) (account_id : ℕ) (purpose : Purpose) (db : Db)
      → let db' = create_one_time_credential cfg crypto d clock account_id purpose db in
        (rowcount (is_withdrawable account_id purpose) db'.credentials ≡ 1)
        × (scalar (is_withdrawable account_id purpose) db'.credentials
            ≡ some (
                credential_row cfg crypto d.credential_id
                  (clock 1)
                  account_id
                  purpose
                  d.credential_token))
  unfolding create_one_time_credential revoke_and_clear revoke_credentials rowcount
      enqueue_token_mail scalar
  one_active d clock account_id purpose db =
      let old =
        clear_credentials (revoke_credentials (clock 0) account_id purpose db).0
          MailStatus.cancelled (revoke_credentials (clock 0) account_id purpose db).1 in
      let mine =
        row_withdrawable cfg crypto d.credential_id (clock 1) account_id purpose
          d.credential_token in
      (
        rw (mine, old)
            (ap (λ (n : ℕ). 1 + n)
              (rowcount-zero (is_withdrawable account_id purpose) _
                (none_withdrawable account_id purpose (clock 0) db.credentials))),
        rw mine refl,
      )

  -- A password is set exactly when its number of characters is within the configured bounds, and
  -- otherwise a ValueError is raised and nothing is written.
  pub password_bounds :
      (salt now account_id : ℕ) (password : String) (s : Session)
      → (((set_password cfg crypto salt now account_id password s).0 ≡ ok tt) ↔ (
          (cfg.password_min_length ≤ count password) × (count password ≤ cfg.password_max_length)))
        × ((is_acceptable cfg password ≡ false)
            → set_password cfg crypto salt now account_id password s ≡ (err value_error, s))
  unfolding set_password validate_password is_acceptable
  password_bounds salt now account_id password s = ground arith

  verified :
      (account_id salt : ℕ) (password : String) {c : PasswordCredential} (db : Db)
      → password_of account_id db ≡ some c
      → c.password_hash ≡ crypto.hash salt password
      → IsPasswordHash crypto
      → verify_current_password crypto account_id password db ≡ true
  unfolding verify_current_password
  verified account_id salt password {c} db found same hashes =
      rw (found, verify_current_password) (rw (same, hashes.verify-hash salt password) refl)

  -- If the hasher verifies what it hashed, then after a password is set, the account verifies it.
  pub verify-set_password :
      (salt now account_id : ℕ) (password : String) (s : Session)
      → IsPasswordHash crypto
      → (set_password cfg crypto salt now account_id password s).0 ≡ ok tt
      → verify_current_password crypto account_id password
          (set_password cfg crypto salt now account_id password s).1.current
        ≡ true
  unfolding set_password validate_password
  verify-set_password salt now account_id password s hashes e =
      let (c, found, same) =
        password_of-store_password now account_id (crypto.hash salt password) s.current in
      elim (Bool-cases (is_acceptable cfg password)) [
        | inr short ↦ ground (arith, short, e)
        | inl fine ↦ rw fine (
            verified account_id salt password
              (store_password now account_id (crypto.hash salt password) s.current) found same
              hashes)
      ]
