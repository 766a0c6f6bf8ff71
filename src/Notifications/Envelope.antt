-- ===== src/Notifications/Envelope.antt =====
-- The encrypted token of a mail.
use rulefolio_server.Prelude.{ℕ, String, ◌≡◌, refl, some, none, Option}
use rulefolio_server.Settings.{Settings}
use rulefolio_server.Crypto.{Crypto, IsAuthenticated}
use rulefolio_server.Identity.Models.{Purpose}
use rulefolio_server.Notifications.Models.{MailStatus}
use rulefolio_server.Notifications.Outbox.{token_mail_row, decrypt_token, cleared}

-- If the cipher decrypts what it encrypted, a token that is queued in a mail is the token that the
-- dispatcher decrypts from it, and once the envelope is cleared, by whichever status, nothing can
-- be decrypted any more.
pub decrypt-enqueue :
    (cfg : Settings) (crypto : Crypto)
    → IsAuthenticated crypto
    → (id nonce now credential_id account_id : ℕ) (purpose : Purpose) (token : String)
      (name : Option String) (todo_id : Option ℕ) (status : MailStatus)
    → let o =
        token_mail_row cfg crypto id nonce now credential_id account_id purpose token name
          todo_id in
      (decrypt_token cfg crypto o ≡ some token)
      × (decrypt_token cfg crypto (cleared status o) ≡ none)
unfolding token_mail_row decrypt_token
decrypt-enqueue cfg crypto lawful id nonce now c a purpose token name todo_id status =
    (lawful.decrypt-encrypt nonce token _, refl)
