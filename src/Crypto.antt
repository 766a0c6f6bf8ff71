-- ===== src/Crypto.antt =====
-- The third-party cryptography that the services call, as a parameter of the model: SHA-256 and
-- HMAC digests, AES-GCM (cryptography), Argon2 (argon2-cffi) and the e-mail normaliser
-- (email-validator).
use rulefolio_server.Prelude.{ℕ, String, Bool, Option, some, ◌≡◌}
use rulefolio_server.Identity.Models.{Purpose}

-- The associated data of an envelope, by the parts that its text is formatted from.
pub data AssociatedData : Type 0 where
  token_mail : Option ℕ → Purpose → ℕ → AssociatedData
  recovery_request : ℕ → ℕ → AssociatedData

-- `hasher.verify`: it returns True or raises
pub data Verified : Type 0 where
  matches verify_mismatch invalid_hash : Verified

pub record Crypto : Type 0 where
  pub encrypt : ℕ → String → AssociatedData → String
  -- `none` is a raised exception
  pub decrypt : ℕ → String → AssociatedData → Option String
  pub sha256 : String → ℕ
  pub hmac : String → String → ℕ
  pub hash : ℕ → String → String  -- the first argument is the salt
  pub verify : String → String → Verified
  pub check_needs_rehash : String → Bool
  pub dummy_password_hash : String
  -- `none` is an EmailNotValidError
  pub validate_email : String → Option String

-- AES-GCM decrypts what it encrypted, under the same nonce and associated data.
pub record IsAuthenticated (c : Crypto) : Type 0 where
  pub decrypt-encrypt :
      (nonce : ℕ) (text : String) (a : AssociatedData)
      → c.decrypt nonce (c.encrypt nonce text a) a ≡ some text

-- Argon2 verifies the password that it hashed.
pub record IsPasswordHash (c : Crypto) : Type 0 where
  pub verify-hash :
      (salt : ℕ) (password : String) → c.verify (c.hash salt password) password ≡ matches
