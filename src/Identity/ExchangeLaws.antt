-- ===== src/Identity/ExchangeLaws.antt =====
-- What the exchange of a one-time credential leaves.
use rulefolio_server.Prelude.{
  ℕ, String, Bool, true, false, ◌≡◌, refl, ap, ◌∙◌, sym, subst, none, some, List, [], ◌∷◌, not,
  is_none, arith, ◌==◌, ◌&&◌, scalar, update, All, Option-cases, Bool-cases, inl, inr,
  scalar-update, scalar-hit, All-map,
}
use rulefolio_server.Settings.{Settings}
use rulefolio_server.Crypto.{Crypto}
use rulefolio_server.Identity.Models.{
  Account, Purpose, password_recovery, exchange, SessionRecord, OneTimeCredential, token_active,
  is_active, password_recovered,
}
use rulefolio_server.Identity.Passwords.{
  validate_password, set_password, store_password, password_of, is_acceptable,
}
use rulefolio_server.Identity.Attempts.{clear_attempt}
use rulefolio_server.Identity.AttemptLaws.{limited, limited_ok}
use rulefolio_server.Identity.CredentialLaws.{none_withdrawable}
use rulefolio_server.Identity.SessionLaws.{revoke_sessions_none}
use rulefolio_server.Identity.Sessions.{
  SessionResult, session_row, create_session, revoke_sessions, account_by_id, ended, withdrawn,
}
use rulefolio_server.Identity.Credentials.{
  Draws, Clock, bears, consume, is_consumable, used, revoke_credentials, revoke_and_clear,
  is_withdrawable,
}
use rulefolio_server.Identity.Exchange.{
  exchangeable, exchanging_account, exchanged, refused, exchange_unlimited,
  exchange_one_time_credential, recover_password, recover_account,
}
use rulefolio_server.Notifications.Models.{MailStatus, cancelled}
use rulefolio_server.Notifications.Outbox.{clear_outbox_envelopes}
use rulefolio_server.Database.{
  Db, Session, Result, ok, begin, Error, ◌>>=◌, ◌>>◌, fail_if, modify, statement, commit, pure,
  add_audit, value_error, guard_ok,
}
use rulefolio_server.Identity.Login.{own_action}

-- a chain of writes that is committed
chain_ok :
    {B : Type 0} (b : Bool) (x : Error) (f g h k : Db → Db) (open_ : Db → B × Db) (u v : Db → Db)
    (s : Session) {r : B}
    → let whole =
        (fail_if b x >> modify f)
        >> (modify g
            >> (modify h
                >> (modify k
                    >> (statement open_ >>= λ r. modify u >> (modify v >> (commit >> pure r)))))) in
      let last = open_ (k (h (g (f s.current)))) in
      (whole s).0 ≡ ok r → (r ≡ last.0) × ((whole s).1.durable ≡ v (u last.1))
chain_ok b x f g h k open_ u v s {r} e = elim (Bool-cases b) [
  | inl t ↦ ground (arith, t, e)
  | inr free ↦ elim (Bool-cases (s.accepts s.commits)) [
    | inl taken ↦ (ground (arith, free, taken, e), ground (arith, free, taken))
    | inr lost ↦ ground (arith, free, lost, e)
  ]
]

clear_keeps :
    (ids : List ℕ) (status : MailStatus) (db : Db)
    → ((clear_outbox_envelopes ids status db).sessions ≡ db.sessions)
      × ((clear_outbox_envelopes ids status db).credentials ≡ db.credentials)
      × ((clear_outbox_envelopes ids status db).accounts ≡ db.accounts)
unfolding clear_outbox_envelopes
clear_keeps [] status db = (refl, refl, refl)
clear_keeps (i ∷ ids) status db = (refl, refl, refl)

-- what a recovery makes of the sessions and of the credentials
recover_account_writes :
    (cfg : Settings) (crypto : Crypto) (now later account_id : ℕ) (db : Db)
    → ((recover_account cfg crypto now later account_id db).sessions
        ≡ (revoke_sessions now account_id password_recovered db).sessions)
      × ((recover_account cfg crypto now later account_id db).credentials
          ≡ update (is_withdrawable account_id password_recovery) (withdrawn later) db.credentials)
unfolding recover_account revoke_and_clear revoke_credentials
recover_account_writes cfg crypto now later account_id db =
    let mid = revoke_sessions now account_id password_recovered db in
    let (s, c, a) =
      clear_keeps _ cancelled (revoke_credentials later account_id password_recovery mid).1 in
    (s, c ∙ refl)

store_password_keeps :
    (now account_id : ℕ) (hashed : String) (db : Db)
    → ((store_password now account_id hashed db).sessions ≡ db.sessions)
      × ((store_password now account_id hashed db).credentials ≡ db.credentials)
unfolding store_password
store_password_keeps now account_id hashed db = elim (Option-cases (password_of account_id db)) [
  | inl missing ↦ (rw (missing, store_password) refl, rw (missing, store_password) refl)
  | inr (c, found) ↦ (rw (found, store_password) refl, rw (found, store_password) refl)
]

-- a token is spent when the credential that it finds is not active
spent :
    (crypto : Crypto) (later : ℕ) (purpose : Purpose) (token : String) (db : Db)
    {c : OneTimeCredential}
    → scalar (bears crypto purpose token) db.credentials ≡ some c
    → token_active c.status ≡ false
    → exchangeable crypto later purpose token db ≡ none
unfolding exchangeable
spent crypto later purpose token db {c} found gone = ground (arith, found, gone)

exchangeable_found :
    (crypto : Crypto) (now : ℕ) (purpose : Purpose) (token : String) (db : Db)
    {c : OneTimeCredential}
    → exchangeable crypto now purpose token db ≡ some c
    → (scalar (bears crypto purpose token) db.credentials ≡ some c)
      × (is_consumable c.id now c ≡ true)
unfolding exchangeable is_consumable
exchangeable_found crypto now purpose token db {c} e =
    elim (Option-cases (scalar (bears crypto purpose token) db.credentials)) [
      | inl missing ↦ ground (arith, missing, e)
      | inr (x, found) ↦ ground (arith, found, e)
    ]

-- the credential that a token finds after it is consumed, and its like withdrawn
consumed_found :
    (crypto : Crypto) (now later account_id : ℕ) (purpose : Purpose) (token : String) (db : Db)
    {c : OneTimeCredential}
    → scalar (bears crypto purpose token) db.credentials ≡ some c
    → is_consumable c.id now c ≡ true
    → (x : OneTimeCredential) × (scalar (bears crypto purpose token) (
          update
            (is_withdrawable account_id purpose)
            (withdrawn later)
            (consume c.id now db).1.credentials)
        ≡ some x)
      × (token_active x.status ≡ false)
unfolding consume
consumed_found crypto now later account_id purpose token db {c} found live =
    let first =
      scalar-update (bears crypto purpose token) (is_consumable c.id now) (used now) db.credentials
        (λ x. unfold bears in refl) in
    let second =
      scalar-update (bears crypto purpose token) (is_withdrawable account_id purpose)
        (withdrawn later) (update (is_consumable c.id now) (used now) db.credentials)
        (λ x. unfold bears in refl) in
    (used now c, second ∙ rw (first, found, live) (unfold is_withdrawable in ground arith), refl)

module _ (cfg : Settings) (crypto : Crypto) where
  -- the tables after the password is stored and the mail of the credential is cleared
  abbrev stored : Draws → Clock → OneTimeCredential → Account → String → Db → Db
  stored d clock c a password db =
      clear_outbox_envelopes (c.id ∷ []) cancelled
        (store_password (clock 2) a.id (crypto.hash d.salt password) db)

  stored_keeps :
      (d : Draws) (clock : Clock) (c : OneTimeCredential) (a : Account) (password : String)
      (db : Db)
      → ((stored d clock c a password db).sessions ≡ db.sessions)
        × ((stored d clock c a password db).credentials ≡ db.credentials)
  stored_keeps d clock c a password db =
      let (x, y, z) =
        clear_keeps (c.id ∷ []) cancelled
          (store_password (clock 2) a.id (crypto.hash d.salt password) db) in
      let (u, v) = store_password_keeps (clock 2) a.id (crypto.hash d.salt password) db in
      (x ∙ u, y ∙ v)

  exchanged_writes :
      (d : Draws) (clock : Clock) (subject : ℕ) (c : OneTimeCredential) (a : Account)
      (password : String) (s : Session) {r : SessionResult}
      → let run = exchanged cfg crypto d clock password_recovery subject c a password s in
        let db =
          recover_account cfg crypto
            (clock 1)
            (clock 3)
            a.id
            (stored d clock c a password s.current) in
        run.0 ≡ ok r
        → (run.1.durable.credentials ≡ db.credentials)
          × (run.1.durable.sessions
              ≡ session_row cfg crypto d.session_id (clock 4) a.id d.session_token ∷ db.sessions)
          × (r.account_id ≡ a.id)
  unfolding exchanged set_password validate_password create_session clear_attempt
  exchanged_writes d clock subject c a password s {r} e =
      let (opened, written) =
        chain_ok (not (is_acceptable cfg password)) value_error
          (store_password (clock 2) a.id (crypto.hash d.salt password)) (λ db. db)
          (clear_outbox_envelopes (c.id ∷ []) cancelled)
          (recover_account cfg crypto (clock 1) (clock 3) a.id)
          (create_session cfg crypto d.session_id (clock 4) a.id a.status d.session_token)
          (clear_attempt (exchange password_recovery) subject)
          (add_audit (own_action "password_recovered" a.id)) s e in
      (
        ap (λ (x : Db). x.credentials) written,
        ap (λ (x : Db). x.sessions) written,
        ap (λ (x : SessionResult). x.account_id) opened,
      )

  -- an exchange that succeeds has found its credential and its account, and has consumed it
  exchange_unlimited_ok :
      (d : Draws) (clock : Clock) (purpose : Purpose) (subject : ℕ) (token password : String)
      (s : Session) {r : SessionResult}
      → (exchange_unlimited cfg crypto d clock purpose subject token password s).0 ≡ ok r
      → (c : OneTimeCredential) × (a : Account) × (exchangeable crypto
            (clock 1)
            purpose
            token
            s.current
          ≡ some c)
        × (exchanging_account purpose c s.current ≡ some a)
        × (exchange_unlimited cfg crypto d clock purpose subject token password s
            ≡ exchanged cfg crypto d clock purpose subject c a password
                (record s { current = (consume c.id (clock 1) s.current).1 }))
  unfolding exchange_unlimited refused
  exchange_unlimited_ok d clock purpose subject token password s {r} e =
      elim (Option-cases (exchangeable crypto (clock 1) purpose token s.current)) [
        | inl missing ↦ ground (arith, missing, e)
        | inr (c, found) ↦ elim (Option-cases (exchanging_account purpose c s.current)) [
          | inl missing ↦ ground (arith, found, missing, e)
          | inr (a, owner) ↦ elim (Bool-cases ((consume c.id (clock 1) s.current).0 == 1)) [
            | inl one ↦ (c, a, found, owner, ground (arith, found, owner, one))
            | inr other ↦ ground (arith, found, owner, other, e)
          ]
        ]
      ]

  -- what a recovery that succeeds has used, and what it has written
  recovery_exchanged :
      (d : Draws) (clock : Clock) (token password : String) (db : Db) (accepts : ℕ → Bool)
      {r : SessionResult}
      → let run = recover_password cfg crypto d clock token password (begin db accepts) in
        run.0 ≡ ok r
        → (c : OneTimeCredential) × (a : Account) × (exchangeable crypto
              (clock 1)
              password_recovery
              token
              db
            ≡ some c)
          × (exchanging_account password_recovery c db ≡ some a)
          × (r.account_id ≡ a.id)
          × (run.1.durable.credentials
              ≡ update
                  (is_withdrawable a.id password_recovery)
                  (withdrawn (clock 3))
                  (consume c.id (clock 1) db).1.credentials)
          × (run.1.durable.sessions
              ≡ session_row cfg crypto d.session_id (clock 4) a.id d.session_token
                ∷ (revoke_sessions (clock 1) a.id password_recovered db).sessions)
  unfolding recover_password exchange_one_time_credential exchangeable exchanging_account
      account_by_id revoke_sessions consume
  recovery_exchanged d clock token password db accepts {r} e =
      let k = λ (subject : ℕ).
        exchange_unlimited cfg crypto d clock password_recovery subject token password in
      let (fine, first) =
        guard_ok (not (is_acceptable cfg password)) value_error
          (limited cfg crypto (clock 0) (exchange password_recovery)
            cfg.recovery_exchange_max_attempts token k)
          (begin db accepts) e in
      let (subject, rows, second) =
        limited_ok cfg crypto (clock 0) (exchange password_recovery)
          cfg.recovery_exchange_max_attempts token k (begin db accepts)
          (sym (ap (λ x. x.0) first) ∙ e) in
      let limited_e = sym (ap (λ (x : Result SessionResult × Session). x.0) (first ∙ second)) ∙ e in
      let db' = record db { attempts = rows } in
      let (c, a, found, owner, third) =
        exchange_unlimited_ok d clock password_recovery subject token password
          (record (begin db accepts) { current = db' }) limited_e in
      let start = record (begin db accepts) { current = (consume c.id (clock 1) db').1 } in
      let (creds, sess, mine) =
        exchanged_writes d clock subject c a password start
          (sym (ap (λ x. x.0) third) ∙ limited_e) in
      let (ws, wc) =
        recover_account_writes cfg crypto (clock 1) (clock 3) a.id
          (stored d clock c a password start.current) in
      let (ks, kc) = stored_keeps d clock c a password start.current in
      let whole = first ∙ second ∙ third in
      (
        c,
        a,
        found,
        owner,
        mine,
        ap (λ (x : Result SessionResult × Session). x.1.durable.credentials) whole
            ∙ creds
            ∙ wc
            ∙ ap (update (is_withdrawable a.id password_recovery) (withdrawn (clock 3))) kc,
        ap (λ (x : Result SessionResult × Session). x.1.durable.sessions) whole
            ∙ sess
            ∙ ap
                (λ (x : List SessionRecord).
                  session_row cfg crypto d.session_id (clock 4) a.id d.session_token ∷ x)
                (ws
                  ∙ ap
                      (update (λ (x : SessionRecord). x.account_id == a.id && is_none x.revoked_at)
                        (ended password_recovered (clock 1)))
                      ks),
      )

  -- the account that a credential is exchanged by is its own, in the right state
  exchanging_account_sound :
      (c : OneTimeCredential) (db : Db) {a : Account}
      → exchanging_account password_recovery c db ≡ some a
      → (account_by_id c.account_id db ≡ some a)
        × (is_active a.status ≡ true)
        × (a.id ≡ c.account_id)
  unfolding exchanging_account account_by_id
  exchanging_account_sound c db {a} e = elim (Option-cases (account_by_id c.account_id db)) [
    | inl missing ↦ ground (arith, missing, e)
    | inr (b, found) ↦
        ground
          (arith, found, e, scalar-hit (λ (x : Account). x.id == c.account_id) db.accounts found)
  ]

  abbrev pub OnlyLive : (account_id : ℕ) → SessionRecord → List SessionRecord → Type 0
  OnlyLive account_id row rows =
      All (λ x. x.account_id ≡ account_id → is_none x.revoked_at ≡ true → x ≡ row) rows

  -- When a password recovery succeeds, every session of the account that is not revoked is the new
  -- one, no recovery credential of the account is active, and the account was active before.
  pub recovery_closes :
      (d : Draws) (clock : Clock) (token password : String) (db : Db) (accepts : ℕ → Bool)
      {r : SessionResult}
      → let run = recover_password cfg crypto d clock token password (begin db accepts) in
        run.0 ≡ ok r
        → OnlyLive r.account_id
            (session_row cfg crypto d.session_id (clock 4) r.account_id d.session_token)
            run.1.durable.sessions
          × All
              (λ c. is_withdrawable r.account_id password_recovery c ≡ false)
              run.1.durable.credentials
          × ((a : Account) × (account_by_id r.account_id db ≡ some a) × (is_active a.status ≡ true))
  recovery_closes d clock token password db accepts {r} e =
      let (c, a, found, owner, mine, creds, sess) =
        recovery_exchanged d clock token password db accepts e in
      let row = λ (id : ℕ). session_row cfg crypto d.session_id (clock 4) id d.session_token in
      let (known, active, own) = exchanging_account_sound c db owner in
      (
        subst
            (λ (id : ℕ).
              OnlyLive id (row id)
                (recover_password cfg crypto d clock token password
                  (begin db accepts)).1.durable.sessions)
            (sym mine)
            (subst (OnlyLive a.id (row a.id)) (sym sess) (
              λ same live. refl,
              All-map _ _ _ (λ x closed same live. cc (closed same, live))
                  (revoke_sessions_none (clock 1) a.id password_recovered db),
            )),
        subst
            (λ (id : ℕ).
              All (λ x. is_withdrawable id password_recovery x ≡ false)
                (recover_password cfg crypto d clock token password
                  (begin db accepts)).1.durable.credentials)
            (sym mine)
            (subst (All (λ x. is_withdrawable a.id password_recovery x ≡ false)) (sym creds)
              (none_withdrawable a.id password_recovery (clock 3) _)),
        (a, ap (λ (id : ℕ). account_by_id id db) (mine ∙ own) ∙ known, active),
      )

  -- After a password recovery succeeds, its token can not be exchanged for a recovery again, at
  -- any time.
  pub recovery_once :
      (d : Draws) (clock : Clock) (later : ℕ) (token password : String) (db : Db)
      (accepts : ℕ → Bool) {r : SessionResult}
      → let run = recover_password cfg crypto d clock token password (begin db accepts) in
        run.0 ≡ ok r → exchangeable crypto later password_recovery token run.1.durable ≡ none
  recovery_once d clock later token password db accepts {r} e =
      let (c, a, found, owner, mine, creds, sess) =
        recovery_exchanged d clock token password db accepts e in
      let (before, live) = exchangeable_found crypto (clock 1) password_recovery token db found in
      let (x, after, gone) =
        consumed_found crypto (clock 1) (clock 3) a.id password_recovery token db before live in
      spent crypto later password_recovery token _
        (ap (scalar (bears crypto password_recovery token)) creds ∙ after) gone
