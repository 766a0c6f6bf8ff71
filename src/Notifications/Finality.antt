-- ===== src/Notifications/Finality.antt =====
-- A mail that was accepted, or that has failed for good, stays as it is.
use rulefolio_server.Prelude.{
  ℕ, Bool, ◌≡◌, refl, ◌∙◌, true, false, some, arith, List, [], ◌∷◌, not, ◌&&◌, Option-cases,
  Bool-cases, inl, inr, update, earliest, ap, scalar-hit, ◌==◌, pick-hit, All-pick,
}
use rulefolio_server.Settings.{Settings}
use rulefolio_server.Crypto.{Crypto}
use rulefolio_server.Notifications.Models.{MailOutbox, MailStatus, accepted, failed}
use rulefolio_server.Notifications.Outbox.{
  stop_todo_mail, suppress_for_restricted_recovery, suppress_business_mails, clear_outbox_envelopes,
  token_mail_row, business_mail_row,
}
use rulefolio_server.Notifications.Todos.{unlink_todo}
use rulefolio_server.Notifications.Dispatcher.{
  claim_row, is_due, is_stale, recovered, recover_stale_rows, start_rows, may_start, write_claim,
  holds_claim, after_failure,
}
use rulefolio_server.Notifications.Keys.{row, row-update, row-beside, IsKeyed, Reach-IsKeyed}
use rulefolio_server.Notifications.Steps.{
  mail, Step, claim, recover, start, accept, fail, doubt, reject, reject_business, stop, unlink,
  suppress, suppress_scope, clear, add_token, add_business, elsewhere, Reach, here, next,
}
use rulefolio_server.Database.{Db}

abbrev pub is_final : MailStatus → Bool
is_final accepted = true
is_final failed = true
is_final _ = false

-- the columns that tell what became of a mail
pub record SameEnd (o o' : MailOutbox) : Type 0 where
  pub status : o'.status ≡ o.status
  pub attempts : o'.attempt_count ≡ o.attempt_count
  pub smtp_started : o'.smtp_started_at ≡ o.smtp_started_at
  pub accepted : o'.accepted_at ≡ o.accepted_at

-- the mail is there, and ended as it did
abbrev pub EndsLike : ℕ → MailOutbox → Db → Type 0
EndsLike id o db = (o' : MailOutbox) × (mail id db ≡ some o') × SameEnd o o'

SameEnd-refl : (o : MailOutbox) → SameEnd o o
SameEnd-refl o = ground arith

SameEnd-trans : {o p q : MailOutbox} → SameEnd o p → SameEnd p q → SameEnd o q
SameEnd-trans a b = ground arith

-- A statement that keeps ids, and the end of the mail with this id, keeps that end.
spared :
    (id : ℕ) (p : MailOutbox → Bool) (f : MailOutbox → MailOutbox) (rows : List MailOutbox)
    {o : MailOutbox}
    → ((x : MailOutbox) → (f x).id ≡ x.id)
    → (p o ≡ true → SameEnd o (f o))
    → row id rows ≡ some o
    → (o' : MailOutbox) × (row id (update p f rows) ≡ some o') × SameEnd o o'
spared id p f rows {o} same_id write found = elim (Bool-cases (p o)) [
  | inl hit ↦ (f o, row-update id p f rows same_id found ∙ rw hit refl, write hit)
  | inr miss ↦ (o, row-update id p f rows same_id found ∙ rw miss refl, SameEnd-refl o)
]

claim_row-final :
    (id : ℕ) {o : MailOutbox} (locked : ℕ → Bool) (k now later : ℕ) (db : Db)
    → IsKeyed db.outbox
    → mail id db ≡ some o
    → is_final o.status ≡ true
    → EndsLike id o (claim_row locked k now later db).1
unfolding claim_row mail
claim_row-final id {o} locked k now later db keyed e f =
    elim (Option-cases
      (earliest (λ o. o.created_at) (λ o. is_due now o && not (locked o.id)) db.outbox)) [
        | inl idle ↦ rw (idle, claim_row) (o, e, SameEnd-refl o)
        | inr (x, found) ↦
            rw (found, claim_row)
              (spared id _ _ db.outbox (λ y. refl)
                (λ hit. ground (
                  arith,
                  pick-hit _ _ db.outbox found,
                  All-pick (λ y. row y.id db.outbox ≡ some y) _ _ db.outbox keyed found,
                  scalar-hit _ db.outbox e,
                  ap (λ (n : ℕ). row n db.outbox) (same_id x hit),
                ))
                e)
      ]
  where
    same_id : (x : MailOutbox) → (o.id == x.id) ≡ true → o.id ≡ x.id
    same_id x hit = ground arith

module _ {cfg : Settings} {crypto : Crypto} where
  Step-final :
      (id : ℕ) {o : MailOutbox} {db db' : Db}
      → Step cfg crypto db db'
      → IsKeyed db.outbox
      → mail id db ≡ some o
      → is_final o.status ≡ true
      → EndsLike id o db'
  unfolding mail recover_stale_rows start_rows write_claim after_failure stop_todo_mail
      suppress_for_restricted_recovery suppress_business_mails unlink_todo token_mail_row
      business_mail_row clear_outbox_envelopes holds_claim may_start
  Step-final id {o} (claim locked k now later db) keyed e f =
      claim_row-final id locked k now later db keyed e f
  Step-final id {o} (recover locked cutoff db) keyed e f =
      spared id _ _ db.outbox (λ x. unfold recovered in ground arith)
        (λ hit. unfold is_stale recovered in ground arith) e
  Step-final id {o} (start c now later db) keyed e f =
      spared id _ _ db.outbox (λ x. refl) (λ hit. ground arith) e
  Step-final id {o} (accept c now db) keyed e f =
      spared id _ _ db.outbox (λ x. refl) (λ hit. ground arith) e
  Step-final id {o} (fail c now db) keyed e f =
      spared id _ _ db.outbox (λ x. ground arith) (λ hit. ground arith) e
  Step-final id {o} (doubt c db) keyed e f =
      spared id _ _ db.outbox (λ x. refl) (λ hit. ground arith) e
  Step-final id {o} (reject c db) keyed e f =
      spared id _ _ db.outbox (λ x. refl) (λ hit. ground arith) e
  Step-final id {o} (reject_business c db) keyed e f =
      spared id _ _ db.outbox (λ x. refl) (λ hit. ground arith) e
  Step-final id {o} (stop todo_id db) keyed e f =
      spared id _ _ db.outbox (λ x. refl) (λ hit. ground arith) e
  Step-final id {o} (unlink todo_id db) keyed e f =
      spared id _ _ db.outbox (λ x. refl) (λ hit. ground arith) e
  Step-final id {o} (suppress db) keyed e f =
      spared id _ _ db.outbox (λ x. refl) (λ hit. ground arith) e
  Step-final id {o} (suppress_scope same db) keyed e f =
      spared id _ _ db.outbox (λ x. refl) (λ hit. ground arith) e
  Step-final id {o} (clear [] db) keyed e f = (o, e, SameEnd-refl o)
  Step-final id {o} (clear (i ∷ ids) db) keyed e f =
      spared id _ _ db.outbox (λ x. refl) (λ hit. ground arith) e
  Step-final id {o} (add_token new nonce now c a p t n d db free) keyed e f =
      (o, row-beside id _ db.outbox free e, SameEnd-refl o)
  Step-final id {o} (add_business new now a p s b sc d key db free) keyed e f =
      (o, row-beside id _ db.outbox free e, SameEnd-refl o)
  Step-final id {o} (elsewhere db db' same) keyed e f = (o, rw same e, SameEnd-refl o)

  -- A mail that is accepted or failed, in an outbox whose rows have different ids, stays so
  -- whatever statements of the mail services run in whatever order: it is still there, with its
  -- status, its number of attempts, its SMTP start and its time of acceptance.
  pub final_forever :
      (id : ℕ) {o : MailOutbox} {db db' : Db}
      → Reach cfg crypto db db'
      → IsKeyed db.outbox
      → mail id db ≡ some o
      → is_final o.status ≡ true
      → EndsLike id o db'
  final_forever id {o} here keyed e f = (o, e, SameEnd-refl o)
  final_forever id {o} (next r step) keyed e f =
      let (o', e', same) = final_forever id r keyed e f in
      let (o'', e'', same') = Step-final id step (Reach-IsKeyed r keyed) e' (rw same.status f) in
      (o'', e'', SameEnd-trans same same')
