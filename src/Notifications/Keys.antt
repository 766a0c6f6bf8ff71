-- ===== src/Notifications/Keys.antt =====
-- The id of a mail is a key of the outbox, and every statement keeps it one.
use rulefolio_server.Prelude.{
  ℕ, Bool, ◌≡◌, refl, ap, ◌∙◌, true, Option, some, none, arith, List, [], ◌∷◌, Option-cases,
  Bool-cases, inl, inr, update, earliest, scalar, scalar-update, ◌==◌, All, All-update, All-map,
  if◌then◌else◌, not, ◌&&◌,
}
use rulefolio_server.Settings.{Settings}
use rulefolio_server.Crypto.{Crypto}
use rulefolio_server.Notifications.Models.{MailOutbox}
use rulefolio_server.Notifications.Outbox.{
  stop_todo_mail, suppress_for_restricted_recovery, suppress_business_mails, clear_outbox_envelopes,
  token_mail_row, business_mail_row,
}
use rulefolio_server.Notifications.Todos.{unlink_todo}
use rulefolio_server.Notifications.Dispatcher.{
  claim_row, is_due, recovered, recover_stale_rows, start_rows, write_claim, after_failure,
}
use rulefolio_server.Notifications.Steps.{
  mail, Step, claim, recover, start, accept, fail, doubt, reject, reject_business, stop, unlink,
  suppress, suppress_scope, clear, add_token, add_business, elsewhere, Reach, here, next,
}
use rulefolio_server.Database.{Db}

-- the row with this id
abbrev pub row : ℕ → List MailOutbox → Option MailOutbox
row id rows = scalar (λ x. x.id == id) rows

-- Every row is the one that its id finds.
abbrev pub IsKeyed : List MailOutbox → Type 0
IsKeyed rows = All (λ x. row x.id rows ≡ some x) rows

pub row-update :
    (id : ℕ) (p : MailOutbox → Bool) (f : MailOutbox → MailOutbox) (rows : List MailOutbox)
    {o : MailOutbox}
    → ((x : MailOutbox) → (f x).id ≡ x.id)
    → row id rows ≡ some o
    → row id (update p f rows) ≡ some (if p o then f o else o)
row-update id p f rows same found =
    scalar-update (λ x. x.id == id) p f rows (λ x. rw (same x) refl) ∙ rw found refl

update-IsKeyed :
    (p : MailOutbox → Bool) (f : MailOutbox → MailOutbox) (rows : List MailOutbox)
    → ((x : MailOutbox) → (f x).id ≡ x.id)
    → IsKeyed rows
    → IsKeyed (update p f rows)
update-IsKeyed p f rows same =
    All-update (λ x. row x.id rows ≡ some x) (λ x. row x.id (update p f rows) ≡ some x) p f rows
      (λ x e hit.
        ap (λ (k : ℕ). row k (update p f rows)) (same x)
        ∙ row-update x.id p f rows same e
        ∙ rw hit refl)
      (λ x e miss. row-update x.id p f rows same e ∙ rw miss refl)

-- A row with a new id hides no other.
pub row-beside :
    (id : ℕ) (new : MailOutbox) (rows : List MailOutbox) {o : MailOutbox}
    → row new.id rows ≡ none
    → row id rows ≡ some o
    → row id (new ∷ rows) ≡ some o
unfolding scalar
row-beside id new rows free found = elim (Bool-cases (new.id == id)) [
  | inl hit ↦ ground (arith, ap (λ (k : ℕ). row k rows) (same hit))
  | inr miss ↦ rw miss found
]
  where
    same : (new.id == id) ≡ true → new.id ≡ id
    same hit = ground arith

add-IsKeyed :
    (new : MailOutbox) (rows : List MailOutbox)
    → row new.id rows ≡ none
    → IsKeyed rows
    → IsKeyed (new ∷ rows)
unfolding scalar
add-IsKeyed new rows free keyed = (
  ground arith,
  All-map (λ x. row x.id rows ≡ some x) (λ x. row x.id (new ∷ rows) ≡ some x) rows
      (λ x e. row-beside x.id new rows free e) keyed,
)

claim_row-IsKeyed :
    (locked : ℕ → Bool) (k now later : ℕ) (db : Db)
    → IsKeyed db.outbox
    → IsKeyed (claim_row locked k now later db).1.outbox
unfolding claim_row
claim_row-IsKeyed locked k now later db h =
    elim (Option-cases
      (earliest (λ o. o.created_at) (λ o. is_due now o && not (locked o.id)) db.outbox)) [
        | inl idle ↦ rw (idle, claim_row) h
        | inr (o, found) ↦ rw (found, claim_row) (update-IsKeyed _ _ db.outbox (λ x. refl) h)
      ]

pub Step-IsKeyed :
    {cfg : Settings} {crypto : Crypto} {db db' : Db}
    → Step cfg crypto db db'
    → IsKeyed db.outbox
    → IsKeyed db'.outbox
unfolding mail recover_stale_rows start_rows write_claim after_failure stop_todo_mail
    suppress_for_restricted_recovery suppress_business_mails unlink_todo token_mail_row
    business_mail_row clear_outbox_envelopes
Step-IsKeyed (claim locked k now later db) h = claim_row-IsKeyed locked k now later db h
Step-IsKeyed (recover locked cutoff db) h =
    update-IsKeyed _ _ db.outbox (λ x. unfold recovered in ground arith) h
Step-IsKeyed (start c now later db) h = update-IsKeyed _ _ db.outbox (λ x. refl) h
Step-IsKeyed (accept c now db) h = update-IsKeyed _ _ db.outbox (λ x. refl) h
Step-IsKeyed (fail c now db) h = update-IsKeyed _ _ db.outbox (λ x. ground arith) h
Step-IsKeyed (doubt c db) h = update-IsKeyed _ _ db.outbox (λ x. refl) h
Step-IsKeyed (reject c db) h = update-IsKeyed _ _ db.outbox (λ x. refl) h
Step-IsKeyed (reject_business c db) h = update-IsKeyed _ _ db.outbox (λ x. refl) h
Step-IsKeyed (stop todo_id db) h = update-IsKeyed _ _ db.outbox (λ x. refl) h
Step-IsKeyed (unlink todo_id db) h = update-IsKeyed _ _ db.outbox (λ x. refl) h
Step-IsKeyed (suppress db) h = update-IsKeyed _ _ db.outbox (λ x. refl) h
Step-IsKeyed (suppress_scope same db) h = update-IsKeyed _ _ db.outbox (λ x. refl) h
Step-IsKeyed (clear [] db) h = h
Step-IsKeyed (clear (i ∷ ids) db) h = update-IsKeyed _ _ db.outbox (λ x. refl) h
Step-IsKeyed (add_token new nonce now c a p t n d db free) h = add-IsKeyed _ db.outbox free h
Step-IsKeyed (add_business new now a p s b sc d key db free) h = add-IsKeyed _ db.outbox free h
Step-IsKeyed (elsewhere db db' same) h = rw same h

pub Reach-IsKeyed :
    {cfg : Settings} {crypto : Crypto} {db db' : Db}
    → Reach cfg crypto db db'
    → IsKeyed db.outbox
    → IsKeyed db'.outbox
Reach-IsKeyed here h = h
Reach-IsKeyed (next r step) h = Step-IsKeyed step (Reach-IsKeyed r h)
