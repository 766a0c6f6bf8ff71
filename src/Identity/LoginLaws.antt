-- ===== src/Identity/LoginLaws.antt =====
-- What a log-in opens, and what a refused one tells.
use rulefolio_server.Prelude.{
  ℕ, ◌<◌, ◌+◌, String, Bool, true, false, ◌≡◌, refl, ap, ◌∙◌, sym, subst, some, List, ◌∷◌, arith,
  scalar, Option-cases, Bool-cases, inl, inr, str_eq,
}
use rulefolio_server.Settings.{Settings, hours}
use rulefolio_server.Crypto.{Crypto}
use rulefolio_server.Identity.Models.{Account, PasswordCredential, SessionRecord, login, is_active}
use rulefolio_server.Identity.Passwords.{password_of, is_match}
use rulefolio_server.Identity.Attempts.{clear_attempt}
use rulefolio_server.Identity.AttemptLaws.{limited, limited_ok}
use rulefolio_server.Identity.Sessions.{
  SessionResult, session_row, create_session, authenticate, account_by_id,
}
use rulefolio_server.Identity.Credentials.{Draws, Clock}
use rulefolio_server.Identity.Login.{
  account_by_email, eligible_login, check_login, log_in, login_unlimited, login_accepted,
  login_refused,
}
use rulefolio_server.Database.{Db, Session, Result, ok, begin}

module _ (cfg : Settings) (crypto : Crypto) where
  check_login_sound :
      (email password : String) (db : Db) {a : Account} {c : PasswordCredential}
      → check_login cfg crypto email password db ≡ some (a, c)
      → (account_by_email email db ≡ some a)
        × (password_of a.id db ≡ some c)
        × (is_active a.status ≡ true)
        × (is_match (crypto.verify c.password_hash password) ≡ true)
  unfolding check_login eligible_login
  check_login_sound email password db {a} {c} e = elim (Option-cases (account_by_email email db)) [
    | inl missing ↦ ground arith
    | inr (b, found) ↦ elim (Option-cases (password_of b.id db)) [
      | inl missing ↦ ground arith
      | inr (k, stored) ↦ ground arith
    ]
  ]

  -- what an accepted log-in has found and written
  login_unlimited_opens :
      (d : Draws) (clock : Clock) (subject : ℕ) (email password : String) (s : Session)
      {r : SessionResult}
      → let run = login_unlimited cfg crypto d clock subject email password s in
        run.0 ≡ ok r
        → (a : Account) × (c : PasswordCredential) × (check_login cfg crypto email password
              s.current
            ≡ some (a, c))
          × (r.account_id ≡ a.id)
          × (r.token ≡ d.session_token)
          × (r.expires_at ≡ clock 1 + hours cfg.session_ttl_hours)
          × (run.1.durable.accounts ≡ s.current.accounts)
          × (run.1.durable.sessions
              ≡ session_row cfg crypto d.session_id (clock 1) a.id d.session_token
                ∷ s.current.sessions)
  unfolding login_unlimited create_session login_refused login_accepted clear_attempt
  login_unlimited_opens d clock subject email password s {r} e =
      elim (Option-cases (check_login cfg crypto email password s.current)) [
        | inl missing ↦ ground arith
        | inr ((a, c), found) ↦ elim (Bool-cases (crypto.check_needs_rehash c.password_hash)) [
          | inl old ↦
              (a, c, found, ground arith, ground arith, ground arith, ground arith, ground arith)
          | inr fresh ↦
              (a, c, found, ground arith, ground arith, ground arith, ground arith, ground arith)
        ]
      ]

  log_in-limited :
      (d : Draws) (clock : Clock) (email password : String) (s : Session) {normalized : String}
      → crypto.validate_email email ≡ some normalized
      → log_in cfg crypto d clock email password s
        ≡ limited cfg crypto
            (clock 0)
            login
            cfg.login_max_attempts
            normalized
            (λ subject. login_unlimited cfg crypto d clock subject normalized password)
            s
  unfolding log_in
  log_in-limited d clock email password s valid = rw valid refl

  pub log_in_opens :
      (d : Draws) (clock : Clock) (email password : String) (db : Db) (accepts : ℕ → Bool)
      {r : SessionResult}
      → let run = log_in cfg crypto d clock email password (begin db accepts) in
        run.0 ≡ ok r
        → (a : Account) × (c : PasswordCredential) × (normalized : String) × (crypto.validate_email
              email
            ≡ some normalized)
          × (account_by_email normalized db ≡ some a)
          × (password_of a.id db ≡ some c)
          × (is_active a.status ≡ true)
          × (is_match (crypto.verify c.password_hash password) ≡ true)
          × (r.account_id ≡ a.id)
          × (r.token ≡ d.session_token)
          × (r.expires_at ≡ clock 1 + hours cfg.session_ttl_hours)
          × (run.1.durable.accounts ≡ db.accounts)
          × (run.1.durable.sessions
              ≡ session_row cfg crypto d.session_id (clock 1) a.id d.session_token ∷ db.sessions)
  unfolding account_by_email password_of
  log_in_opens d clock email password db accepts {r} e =
      elim (Option-cases (crypto.validate_email email)) [
        | inl invalid ↦ unfold log_in in ground (arith, invalid, e)
        | inr (normalized, valid) ↦
            let (subject, rows, same) =
              limited_ok cfg crypto (clock 0) login cfg.login_max_attempts normalized
                (λ subject. login_unlimited cfg crypto d clock subject normalized password)
                (begin db accepts)
                (sym
                    (ap (λ x. x.0) (log_in-limited d clock email password (begin db accepts) valid))
                  ∙ e) in
            let whole = log_in-limited d clock email password (begin db accepts) valid ∙ same in
            let (a, c, checked, mine, token, until, kept, opened) =
              login_unlimited_opens d clock subject normalized password
                (record (begin db accepts) { current = record db { attempts = rows } })
                (sym (ap (λ x. x.0) whole) ∙ e) in
            let (found, stored, active, matched) =
              check_login_sound normalized password (record db { attempts = rows }) checked in
            (
              a,
              c,
              normalized,
              valid,
              found,
              stored,
              active,
              matched,
              mine,
              token,
              until,
              ap (λ (x : Result SessionResult × Session). x.1.durable.accounts) whole ∙ kept,
              ap (λ (x : Result SessionResult × Session). x.1.durable.sessions) whole ∙ opened,
            )
      ]

  -- a session row that stands first lets its token in
  authenticate_first :
      (id then_ now account_id : ℕ) (token : String) (rest : List SessionRecord) (db : Db)
      (accepts : ℕ → Bool) {a : Account}
      → db.sessions ≡ session_row cfg crypto id then_ account_id token ∷ rest
      → account_by_id account_id db ≡ some a
      → is_active a.status ≡ true
      → str_eq token "" ≡ false
      → now < then_ + hours cfg.session_ttl_hours
      → (authenticate crypto now token (begin db accepts)).0
        ≡ ok (record { session = session_row cfg crypto id then_ account_id token; account = a })
  unfolding authenticate session_row scalar
  authenticate_first id then_ now account_id token rest db accepts {a} first owner active some_token
        later =
      ground arith

  -- After a log-in succeeds, the token that it returned authenticates until the session expires,
  -- as the account that it named and with the session that it made; this holds if every account
  -- that an address finds is also found by its id, and the drawn token is not empty.
  pub authenticate-log_in :
      (d : Draws) (clock : Clock) (now : ℕ) (email password : String) (db : Db)
      (accepts accepts' : ℕ → Bool) {r : SessionResult}
      → let run = log_in cfg crypto d clock email password (begin db accepts) in
        ((a : Account) (normalized : String)
          → account_by_email normalized db ≡ some a
          → account_by_id a.id db ≡ some a)
        → str_eq d.session_token "" ≡ false
        → run.0 ≡ ok r
        → now < r.expires_at
        → (a : Account) × (a.id ≡ r.account_id)
          × ((authenticate crypto now r.token (begin run.1.durable accepts')).0
              ≡ ok (record {
                session = session_row cfg crypto d.session_id (clock 1) a.id r.token;
                account = a;
              }))
  unfolding account_by_id
  authenticate-log_in d clock now email password db accepts accepts' {r} keyed some_token e later =
      let (a, c, n, valid, found, stored, active, matched, mine, token, until, kept, opened) =
        log_in_opens d clock email password db accepts e in
      (
        a,
        sym mine,
        rw token (
            authenticate_first d.session_id (clock 1) now a.id d.session_token db.sessions _
              accepts' opened (rw kept (keyed a n found)) active some_token
              (subst (λ t. now < t) until later)),
      )
