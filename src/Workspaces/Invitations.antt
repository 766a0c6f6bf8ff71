-- ===== src/Workspaces/Invitations.antt =====
-- Invitations in src/app/workspaces/service.py: their status, their expiry, the limiter of failed
-- exchanges and the lookup by a token. The to-do functions read the clock once more than their
-- callers; here they are given a reading of the caller.
use rulefolio_server.Prelude.{
  ℕ, suc, ◌+◌, ◌-◌, ◌/◌, max, String, Bool, true, false, not, ◌&&◌, ◌||◌, Option, none, some, List,
  [], ◌∷◌, ◌==◌, leb, if◌then◌else◌, scalar, update, delete, select,
}
use rulefolio_server.Settings.{Settings}
use rulefolio_server.Crypto.{Crypto}
use rulefolio_server.Identity.Models.{Account, OneTimeCredential, token_active}
use rulefolio_server.Identity.Attempts.{window}
use rulefolio_server.Identity.Credentials.{
  find_workspace_invitation_credential_id, lock_workspace_invitation_credential,
  revoke_workspace_invitation_credential,
}
use rulefolio_server.Notifications.Models.{MailStatus, cancelled, MailOutbox, TodoKind}
use rulefolio_server.Notifications.Outbox.{clear_outbox_envelopes}
use rulefolio_server.Notifications.Todos.{cancel_todo_by_source}
use rulefolio_server.Workspaces.Models.{
  InvitationStatus, expired, revoked, invitation_active, WorkspaceInvitation,
  WorkspaceInvitationAttempt,
}
use rulefolio_server.Database.{
  Db, Exec, modify, commit, raise, ◌>>◌, workspace_invitation_unavailable,
}

-- a credential that can not be used any more, or is not there
unfoldable pub is_spent : (now : ℕ) → Option OneTimeCredential → Bool
is_spent now none = true
is_spent now (some c) = not (token_active c.status) || leb c.expires_at now

-- `_invitation_status`
unfoldable pub invitation_status :
    WorkspaceInvitation → Option OneTimeCredential → (now : ℕ) → InvitationStatus
unfolding is_spent
invitation_status i credential now =
    if invitation_active i.status && is_spent now credential then expired else i.status

abbrev pub is_expired : InvitationStatus → Bool
is_expired expired = true
is_expired _ = false

-- `_mail_status` of this service
unfoldable pub invitation_mail_status : Option MailOutbox → MailStatus
invitation_mail_status none = cancelled
invitation_mail_status (some o) = elim o.status [
  | MailStatus.cancelled ↦ cancelled
  | MailStatus.suppressed ↦ cancelled
  | MailStatus.pending ↦ MailStatus.pending
  | MailStatus.sending ↦ MailStatus.pending
  | MailStatus.accepted ↦ MailStatus.accepted
  | MailStatus.failed ↦ MailStatus.failed
  | MailStatus.unknown ↦ MailStatus.unknown
]

pub record WorkspaceInvitationData : Type 0 where
  pub id : ℕ
  pub email : String
  pub status : InvitationStatus
  pub mail : MailStatus
  pub expires_at : ℕ

-- `_invitation_data`
unfoldable pub invitation_data :
    WorkspaceInvitation
    → Account
    → OneTimeCredential
    → Option MailOutbox
    → (now : ℕ) → WorkspaceInvitationData
unfolding invitation_status invitation_mail_status
invitation_data i account credential o now = record {
  id = i.id;
  email = account.email;
  status = invitation_status i (some credential) now;
  mail = invitation_mail_status o;
  expires_at = credential.expires_at;
}

abbrev pub has_invitation_id : ℕ → WorkspaceInvitation → Bool
has_invitation_id id i = i.id == id

abbrev pub write_invitation : ℕ → (WorkspaceInvitation → WorkspaceInvitation) → Db → Db
write_invitation id f db = record db {
  invitations = update (has_invitation_id id) f db.invitations;
}

abbrev pub as_expired : WorkspaceInvitation → WorkspaceInvitation
as_expired i = record i { status = expired }

abbrev pub as_revoked : (now : ℕ) → WorkspaceInvitation → WorkspaceInvitation
as_revoked now i = record i { status = revoked; revoked_at = some now }

-- the credential by its primary key
unfoldable pub credential_by_id : ℕ → Db → Option OneTimeCredential
credential_by_id id db = scalar (λ c. c.id == id) db.credentials

-- the writes on the to-do, the credential and the mail of an invitation that ends unaccepted;
-- `key` writes its id as the source key of its to-do
unfoldable pub withdraw :
    (ℕ → String) → WorkspaceInvitation → Option OneTimeCredential → (now : ℕ) → Db → Db
unfolding cancel_todo_by_source revoke_workspace_invitation_credential clear_outbox_envelopes
withdraw key i none now db =
    cancel_todo_by_source now i.account_id TodoKind.workspace_invitation (key i.id) db
withdraw key i (some c) now db =
    let db' = cancel_todo_by_source now i.account_id TodoKind.workspace_invitation (key i.id) db in
    clear_outbox_envelopes (c.id ∷ []) cancelled
      (revoke_workspace_invitation_credential c now db').1

-- `_expire_invitation`
unfoldable pub expire_invitation :
    (ℕ → String) → WorkspaceInvitation → Option OneTimeCredential → (now : ℕ) → Db → Bool × Db
unfolding invitation_status withdraw
expire_invitation key i credential now db =
    if is_expired (invitation_status i credential now)
    then (true, withdraw key i credential now (write_invitation i.id as_expired db))
    else (false, db)

unfoldable pub expire_inbox_invitation :
    (ℕ → String) → (account_id invitation_id now : ℕ) → Db → Bool × Db
unfolding expire_invitation credential_by_id
expire_inbox_invitation key account_id invitation_id now db =
    elim (scalar (λ i. i.id == invitation_id && i.account_id == account_id) db.invitations) [
      | none ↦ (false, db)
      | some i ↦ expire_invitation key i (credential_by_id i.credential_id db) now db
    ]

unfoldable pub is_open_invitation : (workspace_id account_id : ℕ) → WorkspaceInvitation → Bool
is_open_invitation workspace_id account_id i =
    i.workspace_id == workspace_id && i.account_id == account_id && invitation_active i.status

-- the loop over the candidates; the credentials are read before it, from `locked`
unfoldable pub expire_each :
    (ℕ → String) → (now : ℕ) → (locked : Db) → List WorkspaceInvitation → Db → Bool × Db
unfolding expire_invitation credential_by_id
expire_each key now locked [] db = (false, db)
expire_each key now locked (i ∷ is) db =
    let (gone, db') = expire_invitation key i (credential_by_id i.credential_id locked) now db in
    let (some_active, db'') = expire_each key now locked is db' in (not gone || some_active, db'')

-- `_expire_active_invitations`: whether an active one remains
unfoldable pub expire_active_invitations :
    (ℕ → String) → (workspace_id account_id now : ℕ) → Db → Bool × Db
unfolding expire_each is_open_invitation
expire_active_invitations key workspace_id account_id now db =
    expire_each key now db (select (is_open_invitation workspace_id account_id) db.invitations) db

module _ (crypto : Crypto) where
  -- `_lock_invitation_for_exchange`; `none` where either row is missing
  unfoldable pub lock_invitation_for_exchange :
      String → Db → Option (OneTimeCredential × WorkspaceInvitation)
  unfolding find_workspace_invitation_credential_id lock_workspace_invitation_credential
  lock_invitation_for_exchange token db =
      elim (find_workspace_invitation_credential_id crypto token db) [
        | none ↦ none
        | some credential_id ↦ elim (lock_workspace_invitation_credential crypto token db) [
          | none ↦ none
          | some c ↦ elim (scalar (λ i. i.credential_id == c.id) db.invitations) [
            | none ↦ none
            | some i ↦ some (c, i)
          ]
        ]
      ]

-- `_is_exchange_available`, where both rows are there
unfoldable pub is_exchange_available : OneTimeCredential → WorkspaceInvitation → (now : ℕ) → Bool
is_exchange_available c i now =
    token_active c.status && not (leb c.expires_at now) && invitation_active i.status

abbrev pub is_attempt : ℕ → WorkspaceInvitationAttempt → Bool
is_attempt subject_hash a = a.subject_hash == subject_hash

abbrev pub write_invitation_attempt :
    ℕ → (WorkspaceInvitationAttempt → WorkspaceInvitationAttempt) → Db → Db
write_invitation_attempt subject_hash f db = record db {
  invitation_attempts = update (is_attempt subject_hash) f db.invitation_attempts;
}

module _ (cfg : Settings) where
  abbrev pub window_over : (now : ℕ) → WorkspaceInvitationAttempt → Bool
  window_over now a = leb (a.window_started_at + window cfg) now

  -- `_attempt_retry_after`
  unfoldable pub invitation_retry_after : (now subject_hash : ℕ) → Db → Option ℕ × Db
  invitation_retry_after now subject_hash db =
      elim (scalar (is_attempt subject_hash) db.invitation_attempts) [
        | none ↦ (none, db)
        | some a ↦
            if window_over now a
            then (
              none,
              write_invitation_attempt subject_hash
                  (λ a. record a { window_started_at = now; count = 0 }) db,
            )
            else if leb cfg.recovery_exchange_max_attempts a.count
            then (some (max 1 ((a.window_started_at + window cfg - now) / 1000000)), db)
            else (none, db)
      ]

  -- `_record_attempt`
  unfoldable pub record_invitation_attempt : (now subject_hash : ℕ) → Db → Db
  record_invitation_attempt now subject_hash db =
      elim (scalar (is_attempt subject_hash) db.invitation_attempts) [
        | none ↦ record db {
          invitation_attempts =
              record { subject_hash = subject_hash; window_started_at = now; count = 1 }
              ∷ db.invitation_attempts;
        }
        | some a ↦
            write_invitation_attempt subject_hash
              (if window_over now a
                then (λ a. record a { window_started_at = now; count = 1 })
                else (λ a. record a { count = suc a.count }))
              db
      ]

  -- `_record_unavailable`
  unfoldable pub record_unavailable : {A : Type 0} → (now subject_hash : ℕ) → Exec A
  unfolding record_invitation_attempt
  record_unavailable now subject_hash = do
    modify (record_invitation_attempt now subject_hash)
    commit
    raise workspace_invitation_unavailable

-- `_clear_attempt`
unfoldable pub clear_invitation_attempt : (subject_hash : ℕ) → Db → Db
clear_invitation_attempt subject_hash db = record db {
  invitation_attempts = delete (is_attempt subject_hash) db.invitation_attempts;
}
