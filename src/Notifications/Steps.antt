-- ===== src/Notifications/Steps.antt =====
-- Every statement of notifications/service.py and notifications/dispatcher.py that writes the
-- outbox, as one step of the database, taken in any order and between any other writes.
use rulefolio_server.Prelude.{ℕ, String, Bool, ◌≡◌, none, Option, List, ◌==◌, scalar}
use rulefolio_server.Settings.{Settings}
use rulefolio_server.Crypto.{Crypto}
use rulefolio_server.Identity.Models.{Purpose}
use rulefolio_server.Notifications.Models.{MailOutbox, cancelled}
use rulefolio_server.Notifications.Outbox.{
  add_mail, token_mail_row, business_mail_row, stop_todo_mail, suppress_for_restricted_recovery,
  suppress_business_mails, clear_outbox_envelopes,
}
use rulefolio_server.Notifications.Todos.{unlink_todo}
use rulefolio_server.Notifications.Dispatcher.{
  DispatchClaim, claim_row, recover_stale_rows, start_rows, write_claim, ineligible,
  business_ineligible, delivered, after_failure, doubtful,
}
use rulefolio_server.Database.{Db}

-- the mail with this id
unfoldable pub mail : ℕ → Db → Option MailOutbox
mail id db = scalar (λ o. o.id == id) db.outbox

pub data Step (cfg : Settings) (crypto : Crypto) : Db → Db → Type 0 where
  claim :
      (locked : ℕ → Bool) (k now later : ℕ) (db : Db)
      → Step cfg crypto db (claim_row locked k now later db).1
  recover :
      (locked : ℕ → Bool) (cutoff : ℕ) (db : Db)
      → Step cfg crypto db (recover_stale_rows locked cutoff db)
  start :
      (c : DispatchClaim) (now later : ℕ) (db : Db) → Step cfg crypto db (start_rows c now later db)
  accept :
      (c : DispatchClaim) (now : ℕ) (db : Db)
      → Step cfg crypto db (write_claim c (delivered now) db)
  fail :
      (c : DispatchClaim) (now : ℕ) (db : Db)
      → Step cfg crypto db (write_claim c (after_failure cfg c now) db)
  doubt : (c : DispatchClaim) (db : Db) → Step cfg crypto db (write_claim c doubtful db)
  reject : (c : DispatchClaim) (db : Db) → Step cfg crypto db (write_claim c ineligible db)
  reject_business :
      (c : DispatchClaim) (db : Db) → Step cfg crypto db (write_claim c business_ineligible db)
  stop : (todo_id : ℕ) (db : Db) → Step cfg crypto db (stop_todo_mail todo_id cancelled db)
  unlink : (todo_id : ℕ) (db : Db) → Step cfg crypto db (unlink_todo todo_id db)
  suppress : (db : Db) → Step cfg crypto db (suppress_for_restricted_recovery db).1
  suppress_scope :
      (same : Option String → Bool) (db : Db) → Step cfg crypto db (suppress_business_mails same db)
  clear : (ids : List ℕ) (db : Db) → Step cfg crypto db (clear_outbox_envelopes ids cancelled db)
  add_token :
      (id nonce now credential_id account_id : ℕ) (purpose : Purpose) (token : String)
      (name : Option String) (todo_id : Option ℕ) (db : Db)
      → mail id db ≡ none
      → Step cfg crypto db (
          add_mail
            (token_mail_row cfg crypto id nonce now credential_id account_id purpose token name
              todo_id)
            db)
  add_business :
      (id now account_id : ℕ) (purpose : Purpose) (subject body scope : String) (todo_id : Option ℕ)
      (key : Option String) (db : Db)
      → mail id db ≡ none
      → Step cfg crypto db
          (add_mail (business_mail_row id now account_id purpose subject body scope todo_id key) db)
  elsewhere : (db db' : Db) → db'.outbox ≡ db.outbox → Step cfg crypto db db'

pub data Reach (cfg : Settings) (crypto : Crypto) (db : Db) : Db → Type 0 where
  here : Reach cfg crypto db db
  next :
      {db' db'' : Db}
      → Reach cfg crypto db db'
      → Step cfg crypto db' db''
      → Reach cfg crypto db db''
