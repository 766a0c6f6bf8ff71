-- ===== src/Notifications/Dispatcher.antt =====
-- src/app/notifications/dispatcher.py: the claim protocol of the mail outbox.
use rulefolio_server.Prelude.{
  ℕ, suc, ◌+◌, ◌-◌, Bool, true, false, ◌&&◌, ◌||◌, not, Option, none, some, ◌==◌, leb, ltb, holds,
  before, is_none, if◌then◌else◌, scalar, update, rowcount, earliest,
}
use rulefolio_server.Settings.{Settings, minutes}
use rulefolio_server.Identity.Models.{Purpose, workspace_invitation, same_purpose, token_active}
use rulefolio_server.Workspaces.Models.{invitation_active}
use rulefolio_server.Recovery.Gate.{dispatcher_allowed}
use rulefolio_server.Recovery.Models.{is_open_stage}
use rulefolio_server.Notifications.Models.{
  MailOutbox, pending, sending, accepted, failed, unknown, cancelled, is_pending, is_sending,
  is_open, credential_unavailable, business_unavailable, smtp_explicit_failure, smtp_result_unknown,
}
use rulefolio_server.Database.{
  Db, Exec, gets, pure, modify, statement, commit, rollback, ◌>>=◌, ◌>>◌,
}

pub record DispatchClaim : Type 0 where
  pub outbox_id : ℕ
  pub claim_id : ℕ
  pub attempt_count : ℕ

-- a `sending` mail whose dispatch began before the cutoff
unfoldable pub is_stale : (cutoff : ℕ) → MailOutbox → Bool
is_stale cutoff o = is_sending o.status && before o.dispatch_started_at cutoff

-- the loop body of `recover_stale_dispatches`
unfoldable pub recovered : MailOutbox → MailOutbox
recovered o =
    if is_none o.smtp_started_at
    then record o { claim_id = none; status = pending; dispatch_started_at = none }
    else record o {
      claim_id = none;
      status = unknown;
      last_error_code = some smtp_result_unknown;
      token_ciphertext = none;
      token_nonce = none;
      key_version = none;
    }

unfoldable pub recover_stale_rows : (ℕ → Bool) → (cutoff : ℕ) → Db → Db
unfolding is_stale recovered
recover_stale_rows locked cutoff db = record db {
  outbox = update (λ o. is_stale cutoff o && not (locked o.id)) recovered db.outbox;
}

module _ (cfg : Settings) where
  unfoldable pub recover_stale_dispatches : (ℕ → Bool) → (now : ℕ) → Exec ℕ
  unfolding recover_stale_rows
  recover_stale_dispatches locked now = do
    allowed ← gets (dispatcher_allowed cfg)
    rollback
    let cutoff = now - minutes cfg.mail_dispatch_stale_minutes
    if allowed
        then (do
          count ← gets (λ db. rowcount (λ o. is_stale cutoff o && not (locked o.id)) db.outbox)
          modify (recover_stale_rows locked cutoff)
          commit
          pure count)
        else pure 0

-- a mail that may be claimed at `now`
unfoldable pub is_due : (now : ℕ) → MailOutbox → Bool
is_due now o = is_pending o.status && leb o.next_attempt_at now

abbrev pub taken : (claim_id now : ℕ) → MailOutbox → MailOutbox
taken claim_id now o = record o {
  status = sending;
  claim_id = some claim_id;
  dispatch_started_at = some now;
  attempt_count = suc o.attempt_count;
}

unfoldable pub claim_row : (ℕ → Bool) → (claim_id now later : ℕ) → Db → Option DispatchClaim × Db
unfolding is_due
claim_row locked claim_id now later db =
    elim (earliest (λ o. o.created_at) (λ o. is_due now o && not (locked o.id)) db.outbox) [
      | none ↦ (none, db)
      | some o ↦ (
        some
            (record { outbox_id = o.id; claim_id = claim_id; attempt_count = suc o.attempt_count }),
        record db { outbox = update (λ p. p.id == o.id) (taken claim_id later) db.outbox },
      )
    ]

-- `_claim_next`: the clock is read for the selection and for the claim
unfoldable pub claim_next : (ℕ → Bool) → (claim_id now later : ℕ) → Exec (Option DispatchClaim)
unfolding claim_row
claim_next locked claim_id now later = do
  claim ← statement (claim_row locked claim_id now later)
  if is_none claim then rollback else commit
  pure claim

-- the row that a claim still holds
unfoldable pub holds_claim : DispatchClaim → MailOutbox → Bool
holds_claim c o = o.id == c.outbox_id && is_sending o.status && holds o.claim_id c.claim_id

unfoldable pub load_claim : DispatchClaim → Db → Option MailOutbox
unfolding holds_claim
load_claim c db = scalar (holds_claim c) db.outbox

-- `is_(None)` on a foreign key, or a row behind it
abbrev pub absent_or : Option ℕ → (ℕ → Bool) → Bool
absent_or none p = true
absent_or (some i) p = p i

abbrev pub present_and : Option ℕ → (ℕ → Bool) → Bool
present_and none p = false
present_and (some i) p = p i

unfoldable pub todo_open : Db → ℕ → Bool
todo_open db todo_id = not (is_none (scalar (λ t. t.id == todo_id && is_open t.status) db.todos))

unfoldable pub credential_available : (now : ℕ) → Purpose → Db → ℕ → Bool
credential_available now purpose db credential_id = not (
    is_none (
      scalar
        (λ c.
          c.id == credential_id
          && same_purpose c.purpose purpose
          && token_active c.status
          && not (leb c.expires_at now))
        db.credentials))

unfoldable pub invitation_available : ℕ → Db → ℕ → Bool
invitation_available account_id db credential_id = not (
    is_none (
      scalar
        (λ i.
          i.credential_id == credential_id
          && i.account_id == account_id
          && invitation_active i.status)
        db.invitations))

unfoldable pub recovery_open : Db → Bool
recovery_open db = elim db.recovery [ none ↦ false | some r ↦ is_open_stage r.stage ]

-- the WHERE clause of `_start_smtp`
unfoldable pub may_start : DispatchClaim → (now : ℕ) → Db → MailOutbox → Bool
unfolding holds_claim todo_open credential_available invitation_available recovery_open
may_start c now db o =
    holds_claim c o
    && is_none o.smtp_started_at
    && recovery_open db
    && absent_or o.todo_id (todo_open db)
    && absent_or o.credential_id (credential_available now o.purpose db)
    && (not (same_purpose o.purpose workspace_invitation)
        || present_and o.credential_id (invitation_available o.recipient_account_id db))

abbrev pub smtp_begun : (now : ℕ) → MailOutbox → MailOutbox
smtp_begun now o = record o { smtp_started_at = some now }

-- `_start_smtp` and its update: the credential is checked at `now`, the column is set to `later`
unfoldable pub start_rows : DispatchClaim → (now later : ℕ) → Db → Db
unfolding may_start
start_rows c now later db = record db {
  outbox = update (may_start c now db) (smtp_begun later) db.outbox;
}

unfoldable pub start_smtp : DispatchClaim → (now later : ℕ) → Exec Bool
unfolding start_rows
start_smtp c now later = do
  count ← gets (λ db. rowcount (may_start c now db) db.outbox)
  modify (start_rows c now later)
  commit
  pure (count == 1)

-- `_update_claim` and its update, for the columns that `write` sets
unfoldable pub write_claim : DispatchClaim → (MailOutbox → MailOutbox) → Db → Db
unfolding holds_claim
write_claim c write db = record db { outbox = update (holds_claim c) write db.outbox }

unfoldable pub update_claim : DispatchClaim → (MailOutbox → MailOutbox) → Exec Bool
unfolding write_claim
update_claim c write = do
  count ← gets (λ db. rowcount (holds_claim c) db.outbox)
  modify (write_claim c write)
  commit
  pure (count == 1)

abbrev pub ineligible : MailOutbox → MailOutbox
ineligible o = record o {
  claim_id = none;
  status = cancelled;
  last_error_code = some credential_unavailable;
  token_ciphertext = none;
  token_nonce = none;
  key_version = none;
}

abbrev pub business_ineligible : MailOutbox → MailOutbox
business_ineligible o = record o {
  claim_id = none;
  status = cancelled;
  last_error_code = some business_unavailable;
}

abbrev pub delivered : (now : ℕ) → MailOutbox → MailOutbox
delivered now o = record o {
  claim_id = none;
  status = accepted;
  accepted_at = some now;
  last_error_code = none;
  token_ciphertext = none;
  token_nonce = none;
  key_version = none;
}

abbrev pub rescheduled : DispatchClaim → (now : ℕ) → MailOutbox → MailOutbox
rescheduled c now o = record o {
  claim_id = none;
  status = pending;
  next_attempt_at = now + minutes c.attempt_count;
  dispatch_started_at = none;
  smtp_started_at = none;
  last_error_code = some smtp_explicit_failure;
}

abbrev pub given_up : MailOutbox → MailOutbox
given_up o = record o {
  claim_id = none;
  status = failed;
  last_error_code = some smtp_explicit_failure;
  token_ciphertext = none;
  token_nonce = none;
  key_version = none;
}

abbrev pub doubtful : MailOutbox → MailOutbox
doubtful o = record o {
  claim_id = none;
  status = unknown;
  last_error_code = some smtp_result_unknown;
  token_ciphertext = none;
  token_nonce = none;
  key_version = none;
}

-- the columns that `_mark_failed` writes
unfoldable pub after_failure : Settings → DispatchClaim → (now : ℕ) → MailOutbox → MailOutbox
after_failure cfg c now o =
    if ltb c.attempt_count cfg.mail_max_attempts then rescheduled c now o else given_up o

unfoldable pub mark_ineligible : DispatchClaim → Exec Bool
unfolding update_claim
mark_ineligible c = update_claim c ineligible

unfoldable pub mark_business_ineligible : DispatchClaim → Exec Bool
unfolding update_claim
mark_business_ineligible c = update_claim c business_ineligible

unfoldable pub mark_accepted : DispatchClaim → (now : ℕ) → Exec Bool
unfolding update_claim
mark_accepted c now = update_claim c (delivered now)

unfoldable pub mark_failed : Settings → DispatchClaim → (now : ℕ) → Exec Bool
unfolding update_claim after_failure
mark_failed cfg c now = update_claim c (after_failure cfg c now)

unfoldable pub mark_unknown : DispatchClaim → Exec Bool
unfolding update_claim
mark_unknown c = update_claim c doubtful
