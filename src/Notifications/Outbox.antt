-- ===== src/Notifications/Outbox.antt =====
-- The mail outbox functions of src/app/notifications/service.py. Each is one statement, or one
-- inserted row, on the working copy.
use rulefolio_server.Prelude.{
  ℕ, String, Bool, false, ◌&&◌, ◌||◌, Option, none, some, List, [], ◌∷◌, ◌==◌, leb, ltb, holds,
  is_none, if◌then◌else◌, update, rowcount, pick,
}
use rulefolio_server.Settings.{Settings}
use rulefolio_server.Crypto.{Crypto, token_mail}
use rulefolio_server.Identity.Models.{Purpose}
use rulefolio_server.Notifications.Models.{
  MailStatus, MailOutbox, pending, cancelled, suppressed, is_pending, is_sending, is_unknown,
  is_cancelled,
}
use rulefolio_server.Database.{Db}

-- `column.in_(ids)`
abbrev pub in_ids : Option ℕ → List ℕ → Bool
in_ids c [] = false
in_ids c (i ∷ ids) = holds c i || in_ids c ids

-- What a pending or claimed mail has before its SMTP conversation begins.
unfoldable pub unstarted : MailOutbox → Bool
unstarted o = is_pending o.status || (is_sending o.status && is_none o.smtp_started_at)

-- `_mail_status`
shown : MailStatus → MailStatus
shown suppressed = cancelled
shown s = s

unfoldable pub mail_status : Option MailOutbox → Option MailStatus
unfolding shown
mail_status none = none
mail_status (some o) =
    if is_pending o.status || is_sending o.status then some pending else some (shown o.status)

-- `created_at DESC, id DESC`
abbrev pub newer : MailOutbox → MailOutbox → Bool
newer a b = ltb b.created_at a.created_at || (a.created_at == b.created_at && leb b.id a.id)

-- `_latest_mail`
unfoldable pub latest_mail : ℕ → Db → Option MailOutbox
latest_mail todo_id db = pick newer (λ o. holds o.todo_id todo_id) db.outbox

-- The columns that an inserted mail leaves to their defaults.
abbrev blank_mail : ℕ → ℕ → Purpose → ℕ → MailOutbox
blank_mail id account_id purpose now = record {
  id = id;
  credential_id = none;
  todo_id = none;
  retry_operation_key = none;
  recipient_account_id = account_id;
  purpose = purpose;
  workspace_name = none;
  business_scope = none;
  frozen_subject = none;
  frozen_body = none;
  status = pending;
  claim_id = none;
  token_ciphertext = none;
  token_nonce = none;
  key_version = none;
  attempt_count = 0;
  next_attempt_at = now;
  dispatch_started_at = none;
  smtp_started_at = none;
  accepted_at = none;
  last_error_code = none;
  created_at = now;
}

abbrev pub add_mail : MailOutbox → Db → Db
add_mail o db = record db { outbox = o ∷ db.outbox }

module _ (cfg : Settings) (crypto : Crypto) where
  -- the row of `enqueue_token_mail`; `id` and `nonce` are drawn, `now` is the server's clock
  unfoldable pub token_mail_row :
      (id nonce now credential_id account_id : ℕ)
      → Purpose
      → String
      → Option String
      → Option ℕ
      → MailOutbox
  token_mail_row id nonce now credential_id account_id purpose token workspace_name todo_id =
      let version = cfg.token_encryption_key_version in
      let ciphertext =
        crypto.encrypt nonce token (token_mail (some credential_id) purpose version) in
      let blank = blank_mail id account_id purpose now in
      record blank {
        credential_id = some credential_id;
        todo_id = todo_id;
        workspace_name = workspace_name;
        token_ciphertext = some ciphertext;
        token_nonce = some nonce;
        key_version = some version;
      }

  unfoldable pub enqueue_token_mail :
      (id nonce now credential_id account_id : ℕ)
      → Purpose
      → String
      → Option String
      → Option ℕ
      → Db
      → Db
  enqueue_token_mail id nonce now credential_id account_id purpose token workspace_name todo_id db =
      add_mail
        (token_mail_row id nonce now credential_id account_id purpose token workspace_name todo_id)
        db

  -- `none` is a raised exception
  unfoldable pub decrypt_token : MailOutbox → Option String
  decrypt_token o = elim o.token_ciphertext [
    | none ↦ none
    | some ciphertext ↦ elim o.token_nonce [
      | none ↦ none
      | some nonce ↦
          crypto.decrypt nonce ciphertext
            (token_mail o.credential_id o.purpose cfg.token_encryption_key_version)
    ]
  ]

-- the row of `enqueue_business_mail`
unfoldable pub business_mail_row :
    (id now account_id : ℕ)
    → Purpose
    → (subject body business_scope : String) → Option ℕ
    → Option String
    → MailOutbox
business_mail_row id now account_id purpose subject body scope todo_id key =
    let blank = blank_mail id account_id purpose now in
    record blank {
      todo_id = todo_id;
      retry_operation_key = key;
      business_scope = some scope;
      frozen_subject = some subject;
      frozen_body = some body;
    }

unfoldable pub enqueue_business_mail :
    (id now account_id : ℕ)
    → Purpose
    → (subject body business_scope : String) → Option ℕ
    → Option String
    → Db
    → Db
enqueue_business_mail id now account_id purpose subject body scope todo_id key db =
    add_mail (business_mail_row id now account_id purpose subject body scope todo_id key) db

-- `_stop_todo_mail`
abbrev pub halted : MailStatus → MailOutbox → MailOutbox
halted status o = record o { status = status; claim_id = none }

unfoldable pub stop_todo_mail : ℕ → MailStatus → Db → Db
unfolding unstarted
stop_todo_mail todo_id status db = record db {
  outbox = update (λ o. holds o.todo_id todo_id && unstarted o) (halted status) db.outbox;
}

-- a mail whose envelope is dropped
abbrev pub cleared : MailStatus → MailOutbox → MailOutbox
cleared status o = record o {
  status = status;
  claim_id = none;
  token_ciphertext = none;
  token_nonce = none;
  key_version = none;
}

unfoldable pub is_suppressible : MailOutbox → Bool
is_suppressible o =
    is_pending o.status || is_unknown o.status || (is_sending o.status && is_none o.smtp_started_at)

unfoldable pub suppress_for_restricted_recovery : Db → ℕ × Db
unfolding is_suppressible
suppress_for_restricted_recovery db = (
  rowcount is_suppressible db.outbox,
  record db { outbox = update is_suppressible (cleared suppressed) db.outbox },
)

-- `same` compares the column business_scope with the scope of the cancelled session
unfoldable pub suppress_business_mails : (Option String → Bool) → Db → Db
unfolding unstarted
suppress_business_mails same db = record db {
  outbox =
      update (λ o. same o.business_scope && is_none o.credential_id && unstarted o)
        (halted suppressed) db.outbox;
}

unfoldable pub is_clearable : List ℕ → MailOutbox → Bool
is_clearable ids o =
    in_ids o.credential_id ids
    && (is_pending o.status || is_sending o.status || is_cancelled o.status)
    && is_none o.smtp_started_at

unfoldable pub clear_outbox_envelopes : List ℕ → MailStatus → Db → Db
unfolding is_clearable
clear_outbox_envelopes [] status db = db
clear_outbox_envelopes (i ∷ ids) status db = record db {
  outbox = update (is_clearable (i ∷ ids)) (cleared status) db.outbox;
}
