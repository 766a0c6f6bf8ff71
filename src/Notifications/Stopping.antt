-- ===== src/Notifications/Stopping.antt =====
-- What the statements that stop mail leave behind.
use rulefolio_server.Prelude.{
  ℕ, Bool, ◌≡◌, true, false, none, arith, List, [], ◌∷◌, ◌==◌, holds, All, All-update, All-pure,
  All-map, update,
}
use rulefolio_server.Notifications.Models.{
  MailOutbox, TodoStatus, NotificationTodo, is_unknown, is_cancelled, cancelled,
}
use rulefolio_server.Notifications.Outbox.{
  in_ids, unstarted, stop_todo_mail, suppress_for_restricted_recovery, clear_outbox_envelopes,
}
use rulefolio_server.Notifications.Todos.{close_todo, close_each, resolved}
use rulefolio_server.Notifications.Dispatcher.{DispatchClaim, is_due, may_start, holds_claim}
use rulefolio_server.Database.{Db}

-- Nothing holds of the rows but what the update makes of them.
after_update :
    (Q : MailOutbox → Type 0) (p : MailOutbox → Bool) (f : MailOutbox → MailOutbox)
    (rows : List MailOutbox)
    → ((o : MailOutbox) → p o ≡ true → Q (f o))
    → ((o : MailOutbox) → p o ≡ false → Q o)
    → All Q (update p f rows)
after_update Q p f rows hit miss =
    All-update (λ o. Unit {0}) Q p f rows (λ o u. hit o) (λ o u. miss o)
      (All-pure (λ o. Unit {0}) rows (λ o. tt))

-- A to-do's mail is silent: none of it is waiting, or claimed with its SMTP start still to come.
abbrev pub IsSilent : ℕ → Db → Type 0
IsSilent todo_id db = All (λ o. holds o.todo_id todo_id ≡ true → unstarted o ≡ false) db.outbox

pub stop_todo_mail-IsSilent :
    (todo_id : ℕ) (db : Db) → IsSilent todo_id (stop_todo_mail todo_id cancelled db)
unfolding stop_todo_mail
stop_todo_mail-IsSilent todo_id db =
    after_update _ _ _ db.outbox (λ o hit linked. ground arith) (λ o miss linked. ground arith)

stop_todo_mail-keeps_IsSilent :
    (todo_id other : ℕ) (db : Db)
    → IsSilent todo_id db
    → IsSilent todo_id (stop_todo_mail other cancelled db)
unfolding stop_todo_mail
stop_todo_mail-keeps_IsSilent todo_id other db h =
    All-update (λ o. holds o.todo_id todo_id ≡ true → unstarted o ≡ false)
      (λ o. holds o.todo_id todo_id ≡ true → unstarted o ≡ false) _ _ db.outbox
      (λ o k hit linked. ground arith) (λ o k miss. k) h

-- Silent mail is neither claimed nor started, by any dispatcher.
pub silent_unclaimable :
    (todo_id now : ℕ) (c : DispatchClaim) (db : Db)
    → IsSilent todo_id db
    → All
        (λ o.
          holds o.todo_id todo_id ≡ true → (is_due now o ≡ false) × (may_start c now db o ≡ false))
        db.outbox
silent_unclaimable todo_id now c db =
    All-map _ _ db.outbox
      (λ o k linked. unfold is_due may_start unstarted holds_claim in ground (arith, k linked))

-- Ending a to-do silences its mail.
pub close_todo-IsSilent :
    (now : ℕ) (status : TodoStatus) (todo_id : ℕ) (db : Db)
    → IsSilent todo_id (close_todo now status todo_id db)
unfolding close_todo
close_todo-IsSilent now status todo_id db =
    stop_todo_mail-IsSilent todo_id
      (record db { todos = update (λ t. t.id == todo_id) (resolved status now) db.todos })

close_todo-keeps_IsSilent :
    (now : ℕ) (status : TodoStatus) (todo_id other : ℕ) (db : Db)
    → IsSilent todo_id db
    → IsSilent todo_id (close_todo now status other db)
unfolding close_todo
close_todo-keeps_IsSilent now status todo_id other db h =
    stop_todo_mail-keeps_IsSilent todo_id other
      (record db { todos = update (λ t. t.id == other) (resolved status now) db.todos }) h

close_each-keeps_IsSilent :
    (now : ℕ) (status : TodoStatus) (todo_id : ℕ) (ts : List NotificationTodo) (db : Db)
    → IsSilent todo_id db
    → IsSilent todo_id (close_each now status ts db)
unfolding close_each
close_each-keeps_IsSilent now status todo_id [] db h = h
close_each-keeps_IsSilent now status todo_id (t ∷ ts) db h =
    close_each-keeps_IsSilent now status todo_id ts (close_todo now status t.id db)
      (close_todo-keeps_IsSilent now status todo_id t.id db h)

-- The loop that ends several to-dos silences the mail of each.
pub close_each-IsSilent :
    (now : ℕ) (status : TodoStatus) (ts : List NotificationTodo) (db : Db)
    → All (λ t. IsSilent t.id (close_each now status ts db)) ts
unfolding close_each
close_each-IsSilent now status [] db = tt
close_each-IsSilent now status (t ∷ ts) db = (
  close_each-keeps_IsSilent now status t.id ts (close_todo now status t.id db)
      (close_todo-IsSilent now status t.id db),
  close_each-IsSilent now status ts (close_todo now status t.id db),
)

-- After the suppression of a restricted recovery no mail is waiting, unknown, or claimed without
-- an SMTP start, so that none is due for a claim or may be started under a claim.
pub suppression_silences :
    (now : ℕ) (c : DispatchClaim) (db : Db)
    → let db' = (suppress_for_restricted_recovery db).1 in
      All
        (λ o.
          (unstarted o ≡ false)
          × (is_unknown o.status ≡ false)
          × (is_due now o ≡ false)
          × (may_start c now db' o ≡ false))
        db'.outbox
unfolding suppress_for_restricted_recovery
suppression_silences now c db =
    after_update _ _ _ db.outbox
      (λ o hit. unfold is_due may_start holds_claim unstarted in ground arith)
      (λ o miss. unfold is_due may_start holds_claim unstarted in ground arith)

-- After the envelopes of some credentials are cleared, a mail of one of them that has no SMTP
-- start has no encrypted token if it is cancelled, and it is neither due for a claim nor may be
-- started under a claim.
pub clearing_wipes :
    (ids : List ℕ) (now : ℕ) (c : DispatchClaim) (db : Db)
    → let db' = clear_outbox_envelopes ids cancelled db in
      All
        (λ o.
          in_ids o.credential_id ids ≡ true
          → o.smtp_started_at ≡ none
          → (is_cancelled o.status ≡ true → o.token_ciphertext ≡ none)
            × (is_due now o ≡ false)
            × (may_start c now db' o ≡ false))
        db'.outbox
unfolding clear_outbox_envelopes
clearing_wipes [] now c db = All-pure _ db.outbox (λ o mine unstarted. cc)
clearing_wipes (i ∷ ids) now c db =
    after_update _ _ _ db.outbox
      (λ o hit mine free. unfold is_due may_start holds_claim in ground arith)
      (λ o miss mine free. unfold is_due may_start holds_claim in ground arith)
