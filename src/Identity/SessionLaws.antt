-- ===== src/Identity/SessionLaws.antt =====
-- What authentication accepts, and what the end of a session leaves.
use rulefolio_server.Prelude.{
  ℕ, ◌<◌, String, Bool, true, false, ◌≡◌, refl, ◌∙◌, none, some, is_none, arith, ◌==◌, scalar,
  update, All, Option-cases, inl, inr, scalar-update, str_eq, All-update, All-pure,
}
use rulefolio_server.Crypto.{Crypto}
use rulefolio_server.Identity.Models.{Account, SessionRecord, RevokeReason, logout, is_active}
use rulefolio_server.Identity.Sessions.{
  AuthenticatedSession, account_by_id, session_of, is_live, authenticate, log_out, revoke_sessions,
  ended,
}
use rulefolio_server.Database.{Db, Session, ok, err, begin, session_unavailable}

module _ (crypto : Crypto) where
  -- A token authenticates only with a session of its digest that is not revoked and expires later,
  -- whose account is found by its id and is active, and only if the token is not empty.
  pub authenticate_sound :
      (now : ℕ) (token : String) (db : Db) (accepts : ℕ → Bool) {a : AuthenticatedSession}
      → (authenticate crypto now token (begin db accepts)).0 ≡ ok a
      → (scalar (λ r. r.token_hash == crypto.sha256 token) db.sessions ≡ some a.session)
        × (account_by_id a.session.account_id db ≡ some a.account)
        × (a.session.revoked_at ≡ none)
        × (now < a.session.expires_at)
        × (is_active a.account.status ≡ true)
        × (str_eq token "" ≡ false)
  unfolding authenticate session_of is_live
  authenticate_sound now token db accepts {a} e =
      elim (Option-cases
        (scalar (λ (r : SessionRecord). r.token_hash == crypto.sha256 token) db.sessions)) [
          | inl missing ↦ ground arith
          | inr (r, found) ↦ elim (Option-cases (account_by_id r.account_id db)) [
            | inl missing ↦ ground arith
            | inr (b, owner) ↦ ground arith
          ]
        ]

  pub authenticate_keeps :
      (now : ℕ) (token : String) (s : Session)
      → ((authenticate crypto now token s).1.durable ≡ s.durable)
        × ((authenticate crypto now token s).1.commits ≡ s.commits)
  unfolding authenticate session_of is_live
  authenticate_keeps now token s = ground arith

  -- what a log-out that succeeds has done
  log_out-ended :
      (now later : ℕ) (token : String) (db : Db) (accepts : ℕ → Bool)
      → (log_out crypto now later token (begin db accepts)).0 ≡ ok tt
      → (r : SessionRecord) × (scalar (λ r. r.token_hash == crypto.sha256 token) db.sessions
          ≡ some r)
        × ((log_out crypto now later token (begin db accepts)).1.durable.sessions
            ≡ update (λ x. x.id == r.id) (ended logout later) db.sessions)
  unfolding log_out authenticate session_of is_live
  log_out-ended now later token db accepts e =
      elim (Option-cases
        (scalar (λ (r : SessionRecord). r.token_hash == crypto.sha256 token) db.sessions)) [
          | inl missing ↦ ground arith
          | inr (r, found) ↦ elim (Option-cases (account_by_id r.account_id db)) [
            | inl missing ↦ ground arith
            | inr (b, owner) ↦ (r, found, ground arith)
          ]
        ]

  revoked-dead :
      (now digest : ℕ) (r : SessionRecord) (b : Account)
      → is_none r.revoked_at ≡ false
      → is_live crypto now digest (record { session = r; account = b }) ≡ false
  unfolding is_live
  revoked-dead now digest r b gone = ground (arith, gone)

  -- a token whose session is there, but not live, is refused
  authenticate_dead :
      (now : ℕ) (token : String) (s : Session) (a : AuthenticatedSession)
      → session_of crypto (crypto.sha256 token) s.current ≡ some a
      → is_live crypto now (crypto.sha256 token) a ≡ false
      → (authenticate crypto now token s).0 ≡ err session_unavailable
  unfolding authenticate
  authenticate_dead now token s a found dead = ground (arith, found, dead)

  authenticate_missing :
      (now : ℕ) (token : String) (s : Session)
      → session_of crypto (crypto.sha256 token) s.current ≡ none
      → (authenticate crypto now token s).0 ≡ err session_unavailable
  unfolding authenticate
  authenticate_missing now token s missing = ground (arith, missing)

  -- a token whose session is revoked is refused
  authenticate_revoked :
      (now : ℕ) (token : String) (db : Db) (accepts : ℕ → Bool) {r : SessionRecord}
      → scalar (λ r. r.token_hash == crypto.sha256 token) db.sessions ≡ some r
      → is_none r.revoked_at ≡ false
      → (authenticate crypto now token (begin db accepts)).0 ≡ err session_unavailable
  unfolding session_of
  authenticate_revoked now token db accepts {r} found gone =
      elim (Option-cases (account_by_id r.account_id db)) [
        | inl missing ↦
            authenticate_missing now token (begin db accepts) (ground (arith, found, missing))
        | inr (b, owner) ↦
            authenticate_dead now token (begin db accepts) (record { session = r; account = b })
              (ground (arith, found, owner)) (revoked-dead now (crypto.sha256 token) r b gone)
      ]

  -- After a log-out with a token succeeds, the token does not authenticate any more, at any time.
  pub authenticate-log_out :
      (now later moment : ℕ) (token : String) (db : Db) (accepts accepts' : ℕ → Bool)
      → let done = log_out crypto now later token (begin db accepts) in
        done.0 ≡ ok tt
        → (authenticate crypto moment token (begin done.1.durable accepts')).0
          ≡ err session_unavailable
  authenticate-log_out now later moment token db accepts accepts' e =
      let (r, found, written) = log_out-ended now later token db accepts e in
      authenticate_revoked moment token _ accepts' {r = ended logout later r}
        (rw written (
          scalar-update (λ (x : SessionRecord). x.token_hash == crypto.sha256 token)
            (λ x. x.id == r.id) (ended logout later) db.sessions (λ x. refl)
          ∙ rw found (ground arith)))
        refl

-- Revoking the sessions of an account leaves none of them live, and the others as they were.
pub revoke_sessions_none :
    (now account_id : ℕ) (reason : RevokeReason) (db : Db)
    → All
        (λ x. x.account_id ≡ account_id → is_none x.revoked_at ≡ false)
        (revoke_sessions now account_id reason db).sessions
unfolding revoke_sessions
revoke_sessions_none now account_id reason db =
    All-update (λ x. Unit {0}) _ _ _ db.sessions (λ x u hit same. refl)
      (λ x u miss same. ground arith) (All-pure (λ x. Unit {0}) db.sessions (λ x. tt))
