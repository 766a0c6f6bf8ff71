-- ===== src/Notifications/Consistency.antt =====
-- What every row of the outbox satisfies, whatever statements have run.
use rulefolio_server.Prelude.{
  ℕ, Bool, ◌≡◌, ◌≢◌, true, none, false, arith, All, All-update, is_none, List, [], ◌∷◌, not, ◌&&◌,
  Option-cases, inl, inr, update, earliest,
}
use rulefolio_server.Settings.{Settings}
use rulefolio_server.Crypto.{Crypto}
use rulefolio_server.Notifications.Models.{MailOutbox, pending, sending, accepted, failed, unknown}
use rulefolio_server.Notifications.Outbox.{
  stop_todo_mail, suppress_for_restricted_recovery, suppress_business_mails, clear_outbox_envelopes,
  token_mail_row, business_mail_row,
}
use rulefolio_server.Notifications.Todos.{unlink_todo}
use rulefolio_server.Notifications.Dispatcher.{
  claim_row, is_due, is_stale, recovered, recover_stale_rows, start_rows, may_start, write_claim,
  holds_claim, after_failure,
}
use rulefolio_server.Notifications.Steps.{
  Step, claim, recover, start, accept, fail, doubt, reject, reject_business, stop, unlink, suppress,
  suppress_scope, clear, add_token, add_business, elsewhere, Reach, here, next,
}
use rulefolio_server.Database.{Db}

-- A mail is claimed just while it is being sent; a pending mail has no SMTP conversation behind it;
-- and a mail whose conversation has ended keeps no token.
pub record IsConsistent (o : MailOutbox) : Type 0 where
  pub claimed : is_none o.claim_id ≡ true → o.status ≢ sending
  pub released : is_none o.claim_id ≡ false → o.status ≡ sending
  pub dated : o.status ≡ sending → is_none o.dispatch_started_at ≡ false
  pub fresh : o.status ≡ pending → o.smtp_started_at ≡ none
  pub accepted_wiped : o.status ≡ accepted → o.token_ciphertext ≡ none
  pub failed_wiped : o.status ≡ failed → o.token_ciphertext ≡ none
  pub unknown_wiped : o.status ≡ unknown → o.token_ciphertext ≡ none

abbrev pub AllConsistent : Db → Type 0
AllConsistent db = All IsConsistent db.outbox

-- A statement keeps the rows consistent if its writes do.
kept :
    (p : MailOutbox → Bool) (f : MailOutbox → MailOutbox) (rows : List MailOutbox)
    → ((o : MailOutbox) → IsConsistent o → p o ≡ true → IsConsistent (f o))
    → All IsConsistent rows
    → All IsConsistent (update p f rows)
kept p f rows write = All-update IsConsistent IsConsistent p f rows write (λ o k miss. k)

claim_row-AllConsistent :
    (locked : ℕ → Bool) (k now later : ℕ) (db : Db)
    → AllConsistent db
    → AllConsistent (claim_row locked k now later db).1
unfolding claim_row
claim_row-AllConsistent locked k now later db h =
    elim (Option-cases
      (earliest (λ o. o.created_at) (λ o. is_due now o && not (locked o.id)) db.outbox)) [
        | inl idle ↦ rw (idle, claim_row) h
        | inr (o, found) ↦ rw (found, claim_row) (kept _ _ db.outbox (λ p k hit. ground arith) h)
      ]

module _ {cfg : Settings} {crypto : Crypto} where
  pub Step-AllConsistent :
      {db db' : Db} → Step cfg crypto db db' → AllConsistent db → AllConsistent db'
  unfolding recover_stale_rows start_rows write_claim after_failure stop_todo_mail
      suppress_for_restricted_recovery suppress_business_mails unlink_todo token_mail_row
      business_mail_row clear_outbox_envelopes holds_claim may_start
  Step-AllConsistent (claim locked k now later db) h =
      claim_row-AllConsistent locked k now later db h
  Step-AllConsistent (recover locked cutoff db) h =
      kept _ _ db.outbox (λ o k hit. unfold is_stale recovered in ground arith) h
  Step-AllConsistent (start c now later db) h = kept _ _ db.outbox (λ o k hit. ground arith) h
  Step-AllConsistent (accept c now db) h = kept _ _ db.outbox (λ o k hit. ground arith) h
  Step-AllConsistent (fail c now db) h = kept _ _ db.outbox (λ o k hit. ground arith) h
  Step-AllConsistent (doubt c db) h = kept _ _ db.outbox (λ o k hit. ground arith) h
  Step-AllConsistent (reject c db) h = kept _ _ db.outbox (λ o k hit. ground arith) h
  Step-AllConsistent (reject_business c db) h = kept _ _ db.outbox (λ o k hit. ground arith) h
  Step-AllConsistent (stop todo_id db) h = kept _ _ db.outbox (λ o k hit. ground arith) h
  Step-AllConsistent (unlink todo_id db) h = kept _ _ db.outbox (λ o k hit. ground arith) h
  Step-AllConsistent (suppress db) h = kept _ _ db.outbox (λ o k hit. ground arith) h
  Step-AllConsistent (suppress_scope same db) h = kept _ _ db.outbox (λ o k hit. ground arith) h
  Step-AllConsistent (clear [] db) h = h
  Step-AllConsistent (clear (i ∷ ids) db) h = kept _ _ db.outbox (λ o k hit. ground arith) h
  Step-AllConsistent (add_token id nonce now c a p t n d db e) h = (ground arith, h)
  Step-AllConsistent (add_business id now a p s b sc d key db e) h = (ground arith, h)
  Step-AllConsistent (elsewhere db db' e) h = rw e h

  -- Whatever statements of the mail services run, in whatever order, from an outbox of consistent
  -- rows every row stays consistent: a mail has a claim exactly while it is being sent and then
  -- has a dispatch time, a pending mail has no SMTP start, and an accepted, failed or unknown mail
  -- has no encrypted token.
  pub Reach-AllConsistent :
      {db db' : Db} → Reach cfg crypto db db' → AllConsistent db → AllConsistent db'
  Reach-AllConsistent here h = h
  Reach-AllConsistent (next r step) h = Step-AllConsistent step (Reach-AllConsistent r h)
