-- ===== src/Identity/Passwords.antt =====
-- Passwords in src/app/identity/service.py.
use rulefolio_server.Prelude.{
  ℕ, String, Bool, true, false, not, ◌&&◌, Option, none, some, ◌∷◌, ◌==◌, leb, scalar, update,
}
use Prim.Native.String.{count}
use rulefolio_server.Settings.{Settings}
use rulefolio_server.Crypto.{Crypto, Verified, matches}
use rulefolio_server.Identity.Models.{PasswordCredential}
use rulefolio_server.Database.{Db, Exec, fail_if, modify, ◌>>◌, value_error}

abbrev pub is_match : Verified → Bool
is_match matches = true
is_match _ = false

-- `session.get(PasswordCredential, account_id)`
unfoldable pub password_of : ℕ → Db → Option PasswordCredential
password_of account_id db = scalar (λ c. c.account_id == account_id) db.passwords

abbrev pub rehashed : String → ℕ → PasswordCredential → PasswordCredential
rehashed hashed now c = record c { password_hash = hashed; updated_at = now }

-- the row that `_set_password` inserts, or the columns that it writes
unfoldable pub store_password : (now account_id : ℕ) → String → Db → Db
unfolding password_of
store_password now account_id hashed db = elim (password_of account_id db) [
  | none ↦ record db {
    passwords =
        record { account_id = account_id; password_hash = hashed; updated_at = now } ∷ db.passwords;
  }
  | some c ↦ record db {
    passwords = update (λ c. c.account_id == account_id) (rehashed hashed now) db.passwords;
  }
]

module _ (cfg : Settings) where
  -- `not min <= len(password) <= max`, on the number of characters
  unfoldable pub is_acceptable : String → Bool
  is_acceptable password =
      let length = count password in
      leb cfg.password_min_length length && leb length cfg.password_max_length

  unfoldable pub validate_password : String → Exec (Unit {0})
  unfolding is_acceptable
  validate_password password = fail_if (not (is_acceptable password)) value_error

  module _ (crypto : Crypto) where
    -- `_set_password`
    unfoldable pub set_password : (salt now account_id : ℕ) → String → Exec (Unit {0})
    unfolding validate_password store_password
    set_password salt now account_id password = do
      validate_password password
      modify (store_password now account_id (crypto.hash salt password))

module _ (crypto : Crypto) where
  unfoldable pub verify_current_password : ℕ → String → Db → Bool
  unfolding password_of
  verify_current_password account_id password db = elim (password_of account_id db) [
    | none ↦ is_match (crypto.verify crypto.dummy_password_hash password)
    | some c ↦ is_match (crypto.verify c.password_hash password)
  ]
