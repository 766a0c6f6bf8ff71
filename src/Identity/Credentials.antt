-- ===== src/Identity/Credentials.antt =====
-- One-time credentials in src/app/identity/service.py.
use rulefolio_server.Prelude.{
  ℕ, ◌+◌, String, Bool, ◌&&◌, not, Option, none, some, List, ◌∷◌, ◌==◌, leb, if◌then◌else◌, scalar,
  update, rowcount, select, map,
}
use rulefolio_server.Settings.{Settings, minutes}
use rulefolio_server.Crypto.{Crypto}
use rulefolio_server.Identity.Models.{
  Account, Purpose, workspace_invitation, same_purpose, OneTimeCredential, TokenStatus, consumed,
  token_active,
}
use rulefolio_server.Identity.Sessions.{withdrawn}
use rulefolio_server.Notifications.Models.{cancelled}
use rulefolio_server.Notifications.Outbox.{clear_outbox_envelopes, enqueue_token_mail}
use rulefolio_server.Database.{Db}

-- What `uuid4`, `secrets` and `os.urandom` give in one call of a service.
pub record Draws : Type 0 where
  pub account_id : ℕ
  pub session_id : ℕ
  pub session_token : String
  pub credential_id : ℕ
  pub credential_token : String
  pub outbox_id : ℕ
  pub nonce : ℕ
  pub salt : ℕ
  pub attempt_id : ℕ
  pub job_id : ℕ
  pub claim_id : ℕ

-- The readings of the clock in one call, in the order in which the call makes them.
abbrev pub Clock : Type 0
Clock = ℕ → ℕ

-- `clock` from its n-th reading on, for a function that is called after n readings
abbrev pub after : ℕ → Clock → Clock
after n clock k = clock (n + k)

unfoldable pub is_withdrawable : ℕ → Purpose → OneTimeCredential → Bool
is_withdrawable account_id purpose c =
    c.account_id == account_id && same_purpose c.purpose purpose && token_active c.status

-- `_revoke_credentials`
unfoldable pub revoke_credentials : (now account_id : ℕ) → Purpose → Db → List ℕ × Db
unfolding is_withdrawable
revoke_credentials now account_id purpose db = (
  map (λ c. c.id) (select (is_withdrawable account_id purpose) db.credentials),
  record db {
    credentials = update (is_withdrawable account_id purpose) (withdrawn now) db.credentials;
  },
)

-- `clear_outbox_envelopes(session, _revoke_credentials(…))`
unfoldable pub revoke_and_clear : (now account_id : ℕ) → Purpose → Db → Db
unfolding revoke_credentials clear_outbox_envelopes
revoke_and_clear now account_id purpose db =
    let (ids, db') = revoke_credentials now account_id purpose db in
    clear_outbox_envelopes ids cancelled db'

module _ (cfg : Settings) (crypto : Crypto) where
  unfoldable pub credential_row : (id now account_id : ℕ) → Purpose → String → OneTimeCredential
  credential_row id now account_id purpose token = record {
    id = id;
    account_id = account_id;
    purpose = purpose;
    token_hash = crypto.sha256 token;
    status = TokenStatus.active;
    expires_at = now + minutes cfg.one_time_token_ttl_minutes;
    consumed_at = none;
    revoked_at = none;
  }

  abbrev pub add_credential : OneTimeCredential → Db → Db
  add_credential c db = record db { credentials = c ∷ db.credentials }

  -- `_create_one_time_credential`
  unfoldable pub create_one_time_credential : Draws → Clock → ℕ → Purpose → Db → Db
  unfolding revoke_and_clear credential_row enqueue_token_mail
  create_one_time_credential d clock account_id purpose db =
      let row = credential_row d.credential_id (clock 1) account_id purpose d.credential_token in
      let db' = add_credential row (revoke_and_clear (clock 0) account_id purpose db) in
      enqueue_token_mail cfg crypto d.outbox_id d.nonce (clock 2) d.credential_id account_id purpose
        d.credential_token none none db'

  unfoldable pub issue_workspace_invitation_credential :
      Draws → (now : ℕ) → Account → Db → (OneTimeCredential × String) × Db
  unfolding credential_row
  issue_workspace_invitation_credential d now account db =
      let row =
        credential_row d.credential_id now account.id workspace_invitation d.credential_token in
      ((row, d.credential_token), add_credential row db)

module _ (crypto : Crypto) where
  -- the test on purpose and digest by which a token finds its credential
  unfoldable pub bears : Purpose → String → OneTimeCredential → Bool
  bears purpose token c = same_purpose c.purpose purpose && c.token_hash == crypto.sha256 token

  unfoldable pub find_workspace_invitation_credential_id : String → Db → Option ℕ
  unfolding bears
  find_workspace_invitation_credential_id token db =
      elim (scalar (bears workspace_invitation token) db.credentials) [
        | none ↦ none
        | some c ↦ some c.id
      ]

  unfoldable pub lock_workspace_invitation_credential : String → Db → Option OneTimeCredential
  unfolding bears
  lock_workspace_invitation_credential token db =
      elim (scalar (bears workspace_invitation token) db.credentials) [
        | none ↦ none
        | some c ↦ if c.token_hash == crypto.sha256 token then some c else none
      ]

abbrev pub used : (now : ℕ) → OneTimeCredential → OneTimeCredential
used now c = record c { status = consumed; consumed_at = some now }

-- the condition under which a credential may still be consumed
unfoldable pub is_consumable : (id now : ℕ) → OneTimeCredential → Bool
is_consumable id now c = c.id == id && token_active c.status && not (leb c.expires_at now)

-- the conditional update of an exchange, with its rowcount
unfoldable pub consume : (id now : ℕ) → Db → ℕ × Db
unfolding is_consumable
consume id now db = (
  rowcount (is_consumable id now) db.credentials,
  record db { credentials = update (is_consumable id now) (used now) db.credentials },
)

unfoldable pub is_invitation : ℕ → OneTimeCredential → Bool
is_invitation id c =
    c.id == id && same_purpose c.purpose workspace_invitation && token_active c.status

unfoldable pub consume_workspace_invitation_credential :
    OneTimeCredential → (now : ℕ) → Db → Bool × Db
unfolding is_invitation
consume_workspace_invitation_credential credential now db =
    let live =
      λ (c : OneTimeCredential). is_invitation credential.id c && not (leb c.expires_at now) in
    (
      rowcount live db.credentials == 1,
      record db { credentials = update live (used now) db.credentials },
    )

unfoldable pub revoke_workspace_invitation_credential :
    OneTimeCredential → (now : ℕ) → Db → Bool × Db
unfolding is_invitation
revoke_workspace_invitation_credential credential now db = (
  rowcount (is_invitation credential.id) db.credentials == 1,
  record db { credentials = update (is_invitation credential.id) (withdrawn now) db.credentials },
)
