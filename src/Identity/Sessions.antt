-- ===== src/Identity/Sessions.antt =====
-- Sessions in src/app/identity/service.py: creation, authentication, revocation.
use rulefolio_server.Prelude.{
  ℕ, ◌+◌, String, Bool, false, ◌&&◌, ◌||◌, not, Option, none, some, List, [], ◌∷◌, ◌==◌, leb,
  str_eq, is_none, scalar, update, rowcount, select, map,
}
use rulefolio_server.Settings.{Settings, hours}
use rulefolio_server.Crypto.{Crypto}
use rulefolio_server.Identity.Models.{
  Account, AccountStatus, is_active, SessionRecord, RevokeReason, logout, recovery_restricted,
  OneTimeCredential, revoked, token_active,
}
use rulefolio_server.Database.{
  Db, Exec, or_raise, refuse_if, gets, pure, modify, commit, fail_if, ◌>>=◌, ◌>>◌, add_audit,
  session_unavailable,
}

pub record SessionResult : Type 0 where
  pub token : String
  pub account_id : ℕ
  pub account_status : AccountStatus
  pub expires_at : ℕ

pub record AuthenticatedSession : Type 0 where
  pub session : SessionRecord
  pub account : Account

unfoldable pub account_by_id : ℕ → Db → Option Account
account_by_id account_id db = scalar (λ a. a.id == account_id) db.accounts

abbrev pub ended : RevokeReason → (now : ℕ) → SessionRecord → SessionRecord
ended reason now r = record r { revoked_at = some now; revoke_reason = some reason }

-- the statement that revokes the live sessions of one account
unfoldable pub revoke_sessions : (now account_id : ℕ) → RevokeReason → Db → Db
revoke_sessions now account_id reason db = record db {
  sessions =
      update (λ r. r.account_id == account_id && is_none r.revoked_at) (ended reason now)
        db.sessions;
}

abbrev pub among : List ℕ → ℕ → Bool
among [] n = false
among (i ∷ ids) n = i == n || among ids n

unfoldable pub revoke_sessions_for_accounts : (now : ℕ) → List ℕ → RevokeReason → Db → Db
revoke_sessions_for_accounts now [] reason db = db
revoke_sessions_for_accounts now (i ∷ ids) reason db = record db {
  sessions =
      update (λ r. among (i ∷ ids) r.account_id && is_none r.revoked_at) (ended reason now)
        db.sessions;
}

abbrev pub withdrawn : (now : ℕ) → OneTimeCredential → OneTimeCredential
withdrawn now c = record c { status = revoked; revoked_at = some now }

-- the counts of the revoked sessions and the ids of the revoked credentials
unfoldable pub revoke_for_restricted_recovery : (now : ℕ) → Db → (ℕ × List ℕ) × Db
revoke_for_restricted_recovery now db = (
  (
    rowcount (λ r. is_none r.revoked_at) db.sessions,
    map (λ c. c.id) (select (λ c. token_active c.status) db.credentials),
  ),
  record db {
    sessions = update (λ r. is_none r.revoked_at) (ended recovery_restricted now) db.sessions;
    credentials = update (λ c. token_active c.status) (withdrawn now) db.credentials;
  },
)

module _ (cfg : Settings) (crypto : Crypto) where
  -- the row that `_create_session` adds, and what it returns
  unfoldable pub session_row : (id now account_id : ℕ) → String → SessionRecord
  session_row id now account_id token = record {
    id = id;
    account_id = account_id;
    token_hash = crypto.sha256 token;
    expires_at = now + hours cfg.session_ttl_hours;
    revoked_at = none;
    revoke_reason = none;
  }

  unfoldable pub create_session :
      (id now account_id : ℕ) → AccountStatus → String → Db → SessionResult × Db
  unfolding session_row
  create_session id now account_id status token db = (
    record {
      token = token;
      account_id = account_id;
      account_status = status;
      expires_at = now + hours cfg.session_ttl_hours;
    },
    record db { sessions = session_row id now account_id token ∷ db.sessions },
  )

module _ (crypto : Crypto) where
  -- the join of a session with its account
  unfoldable pub session_of : ℕ → Db → Option AuthenticatedSession
  unfolding account_by_id
  session_of digest db = elim (scalar (λ r. r.token_hash == digest) db.sessions) [
    | none ↦ none
    | some r ↦ elim (account_by_id r.account_id db) [
      | none ↦ none
      | some a ↦ some (record { session = r; account = a })
    ]
  ]

  unfoldable pub is_live : (now digest : ℕ) → AuthenticatedSession → Bool
  is_live now digest a =
      a.session.token_hash == digest
      && is_none a.session.revoked_at
      && not (leb a.session.expires_at now)
      && is_active a.account.status

  unfoldable pub authenticate : (now : ℕ) → String → Exec AuthenticatedSession
  unfolding session_of is_live
  authenticate now token = do
    fail_if (str_eq token "") session_unavailable
    let digest = crypto.sha256 token
    found ← or_raise (← gets (session_of digest)) session_unavailable
    refuse_if (not (is_live now digest found)) session_unavailable
    pure found

  unfoldable pub log_out : (now later : ℕ) → String → Exec (Unit {0})
  unfolding authenticate
  log_out now later token = do
    found ← authenticate now token
    modify (λ db. record db {
      sessions = update (λ r. r.id == found.session.id) (ended logout later) db.sessions;
    })
    modify (
        add_audit (record {
          action = "session_revoked";
          actor_account_id = some found.account.id;
          target_account_id = some found.account.id;
          operator = none;
          reason = none;
          scope = some "current_session";
        }))
    commit
