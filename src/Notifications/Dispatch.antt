-- ===== src/Notifications/Dispatch.antt =====
-- `dispatch_one` of src/app/notifications/dispatcher.py: which message is sent, and what becomes of
-- its mail.
use rulefolio_server.Prelude.{
  ℕ, String, Bool, true, false, ◌&&◌, ◌||◌, not, Option, none, some, ◌==◌, leb, ltb, str_eq,
  is_none, if◌then◌else◌, scalar,
}
use rulefolio_server.Settings.{Settings}
use rulefolio_server.Crypto.{Crypto}
use rulefolio_server.Identity.Models.{
  Account, AccountStatus, is_active, is_pending_activation, OneTimeCredential, Purpose,
  account_activation, password_recovery, workspace_invitation, same_purpose, token_active,
}
use rulefolio_server.Identity.Sessions.{account_by_id}
use rulefolio_server.Workspaces.Models.{WorkspaceInvitation, invitation_active}
use rulefolio_server.Recovery.Gate.{dispatcher_allowed}
use rulefolio_server.Notifications.Models.{MailOutbox, is_open}
use rulefolio_server.Notifications.Outbox.{decrypt_token}
use rulefolio_server.Notifications.Todos.{Owners, business_todo_eligible}
use rulefolio_server.Notifications.Dispatcher.{
  DispatchClaim, claim_next, load_claim, start_smtp, mark_ineligible, mark_business_ineligible,
  mark_accepted, mark_failed, mark_unknown,
}
use rulefolio_server.Identity.Credentials.{Clock}
use Prim.Native.Char.{code}
use Prim.Native.String.{◌++◌}
use rulefolio_server.Database.{
  Db, Exec, Session, Result, ok, err, gets, pure, rollback, others_commit, ◌>>=◌, ◌>>◌,
}

pub data DispatchOutcome : Type 0 where
  superseded cancelled unknown pending failed accepted retryable : DispatchOutcome

pub record Message : Type 0 where
  pub to_address : String
  pub subject : String
  pub body : String

-- What one call returns, with the message that it handed to the mail server.
pub record Dispatched : Type 0 where
  pub outcome : Option DispatchOutcome
  pub handed : Option Message

-- What `_send` does: it returns, or raises SMTPServerDisconnected, another SMTPException, or a
-- TimeoutError or OSError.
pub data SmtpResult : Type 0 where
  sent disconnected smtp_error network_error : SmtpResult

-- a text that is there and not empty
abbrev pub truthy : Option String → Bool
truthy none = false
truthy (some s) = not (str_eq s "")

-- `_associated_todo_is_open`
unfoldable pub associated_todo_is_open : Db → MailOutbox → Bool
associated_todo_is_open db o = elim o.todo_id [
  | none ↦ true
  | some todo_id ↦ elim (scalar (λ t. t.id == todo_id) db.todos) [
    | none ↦ false
    | some t ↦ is_open t.status
  ]
]

-- `_business_todo_is_eligible`
unfoldable pub business_todo_is_eligible : Owners → Db → MailOutbox → Bool
business_todo_is_eligible owners db o = elim o.todo_id [
  | none ↦ true
  | some todo_id ↦ elim (scalar (λ t. t.id == todo_id) db.todos) [
    | none ↦ false
    | some t ↦ business_todo_eligible owners db t
  ]
]

-- the account states in which a credential's mail is sent
abbrev pub awaits : Purpose → AccountStatus → Bool
awaits account_activation status = is_pending_activation status
awaits password_recovery status = is_active status
awaits workspace_invitation status = is_active status || is_pending_activation status
awaits _ status = true

abbrev pub invited : Option WorkspaceInvitation → ℕ → Bool
invited none account_id = false
invited (some i) account_id = invitation_active i.status && i.account_id == account_id

unfoldable pub invitation_of : ℕ → Db → Option WorkspaceInvitation
invitation_of credential_id db = scalar (λ i. i.credential_id == credential_id) db.invitations

-- The negation of the long condition of `_dispatch_one`.
unfoldable pub is_deliverable : (now : ℕ) → Db → MailOutbox → OneTimeCredential → Account → Bool
unfolding invitation_of
is_deliverable now db o c a =
    same_purpose c.purpose o.purpose
    && token_active c.status
    && not (leb c.expires_at now)
    && awaits o.purpose a.status
    && (not (same_purpose o.purpose workspace_invitation)
        || (invited (invitation_of c.id db) a.id && truthy o.workspace_name))

pub data Decision : Type 0 where
  deliver : Message → Decision
  cancel_credential cancel_business : Decision

abbrev pub or_cancel : Option Message → Decision
or_cancel none = cancel_credential
or_cancel (some m) = deliver m

-- `str.rstrip("/")`
unfoldable pub rstrip_slash : String → String
rstrip_slash String.[] = ""
rstrip_slash (String.◌∷◌ c s) =
    let rest = rstrip_slash s in if str_eq rest "" && code c == b'/' then "" else String.◌∷◌ c rest

module _ (cfg : Settings) (crypto : Crypto) (owners : Owners) where
  -- the link and the text around it
  unfoldable pub compose : (prefix path action token : String) → String
  unfolding rstrip_slash
  compose prefix path action token =
      prefix
      ++ "请在有效期内打开以下链接"
      ++ action
      ++ "：\n"
      ++ rstrip_slash cfg.app_public_url
      ++ path
      ++ "#token="
      ++ token
      ++ "\n\n如果不是你本人发起的操作，请忽略此邮件。"

  -- `_message_content`: `none` is the raised ValueError
  unfoldable pub message_content : Purpose → String → Option String → Option (String × String)
  unfolding compose
  message_content account_activation token name =
      some ("设置好玩实验室账户密码", compose "" "/auth/activate" "设置密码并激活账户" token)
  message_content password_recovery token name =
      some ("恢复好玩实验室账户", compose "" "/auth/reset" "更新密码" token)
  message_content workspace_invitation token none = none
  message_content workspace_invitation token (some name) =
      if str_eq name ""
      then none
      else some (
        "加入好玩实验室工作空间",
        compose ("你受邀加入工作空间“" ++ name ++ "”。\n") "/auth/invitation" "继续加入工作空间" token,
      )
  message_content _ token name = none

  -- the message of a business mail
  unfoldable pub frozen_message : MailOutbox → Option Account → Option Message
  frozen_message o none = none
  frozen_message o (some a) = elim o.frozen_subject [
    | none ↦ none
    | some subject ↦ elim o.frozen_body [
      | none ↦ none
      | some body ↦
          if is_active a.status && not (str_eq subject "") && not (str_eq body "")
          then some (record { to_address = a.email; subject = subject; body = body })
          else none
    ]
  ]

  -- the decrypted token in its message
  unfoldable pub open_envelope : MailOutbox → Account → Option Message
  unfolding message_content
  open_envelope o a = elim (decrypt_token cfg crypto o) [
    | none ↦ none
    | some token ↦ elim (message_content o.purpose token o.workspace_name) [
      | none ↦ none
      | some (subject, body) ↦
          some (record { to_address = a.email; subject = subject; body = body })
    ]
  ]

  -- the message of a credential's mail: only a deliverable mail is decrypted
  unfoldable pub token_message : (now : ℕ) → Db → MailOutbox → ℕ → Option Account → Option Message
  unfolding open_envelope is_deliverable
  token_message now db o credential_id none = none
  token_message now db o credential_id (some a) =
      elim (scalar (λ c. c.id == credential_id) db.credentials) [
        | none ↦ none
        | some c ↦ if is_deliverable now db o c a then open_envelope o a else none
      ]

  -- What `_dispatch_one` decides before `_start_smtp`: to send, or how to cancel.
  unfoldable pub decide : (now : ℕ) → Db → MailOutbox → Decision
  unfolding associated_todo_is_open business_todo_is_eligible frozen_message token_message
  decide now db o =
      if not (associated_todo_is_open db o)
      then (if is_none o.credential_id then cancel_business else cancel_credential)
      else elim o.credential_id [
        | none ↦
            if business_todo_is_eligible owners db o
            then or_cancel (frozen_message o (account_by_id o.recipient_account_id db))
            else cancel_business
        | some credential_id ↦
            or_cancel
              (token_message now db o credential_id (account_by_id o.recipient_account_id db))
      ]

  -- what a mark answers for a message that was handed over: a failed commit is caught
  unfoldable pub settle : Message → DispatchOutcome → Exec Bool → Exec Dispatched
  settle m outcome mark s =
      let (r, s') = mark s in
      elim r [
        | ok held ↦ (
          ok (record { outcome = some (if held then outcome else superseded); handed = some m }),
          s',
        )
        | err _ ↦ (
          ok (record { outcome = some retryable; handed = some m }),
          record s' { current = s'.durable },
        )
      ]

  -- the four ends of `_send`
  unfoldable pub conclude : DispatchClaim → (now : ℕ) → Message → SmtpResult → Exec Dispatched
  unfolding settle
  conclude c now m sent = settle m accepted (mark_accepted c now)
  conclude c now m disconnected = settle m unknown (mark_unknown c)
  conclude c now m smtp_error =
      settle m (if ltb c.attempt_count cfg.mail_max_attempts then pending else failed)
        (mark_failed cfg c now)
  conclude c now m network_error = settle m unknown (mark_unknown c)

  unsent : DispatchOutcome → Dispatched
  unsent outcome = record { outcome = some outcome; handed = none }

  -- from `_start_smtp` on; `meanwhile` is what other sessions commit during the conversation
  unfoldable pub hand_over :
      (Message → SmtpResult) → (ℕ → Db → Db) → Clock → DispatchClaim → Message → Exec Dispatched
  unfolding conclude unsent
  hand_over send meanwhile clock c m = do
    others_commit (meanwhile 1)
    started ← start_smtp c (clock 3) (clock 4)
    if started
        then (do others_commit (meanwhile 2); conclude c (clock 5) m (send m))
        else pure (unsent superseded)

  unfoldable pub carry_out :
      (Message → SmtpResult) → (ℕ → Db → Db) → Clock → DispatchClaim → Decision → Exec Dispatched
  unfolding hand_over
  carry_out send meanwhile clock c cancel_business = do
    mark_business_ineligible c
    pure (unsent cancelled)
  carry_out send meanwhile clock c cancel_credential = do mark_ineligible c; pure (unsent cancelled)
  carry_out send meanwhile clock c (deliver m) = hand_over send meanwhile clock c m

  unfoldable pub dispatch_claim :
      (Message → SmtpResult) → (ℕ → Db → Db) → Clock → DispatchClaim → Exec Dispatched
  unfolding carry_out
  dispatch_claim send meanwhile clock c = do
    others_commit (meanwhile 0)
    loaded ← gets (load_claim c)
    elim loaded [
      | none ↦ do rollback; pure (unsent superseded)
      | some o ↦ do
        decision ← gets (λ db. decide (clock 2) db o)
        carry_out send meanwhile clock c decision
    ]

  abbrev nothing_done : Dispatched
  nothing_done = record { outcome = none; handed = none }

  -- `_dispatch_one`
  unfoldable pub dispatch_next :
      (ℕ → Bool) → (Message → SmtpResult) → (ℕ → Db → Db) → (claim_id : ℕ) → Clock → Exec Dispatched
  unfolding dispatch_claim
  dispatch_next locked send meanwhile claim_id clock = do
    claim ← claim_next locked claim_id (clock 0) (clock 1)
    elim claim [ none ↦ pure nothing_done | some c ↦ dispatch_claim send meanwhile clock c ]

  -- the handler of `SQLAlchemyError`
  abbrev retry_later : Result Dispatched × Session → Dispatched × Session
  retry_later (ok d, s) = (d, s)
  retry_later (err _, s) = (unsent retryable, record s { current = s.durable })

  unfoldable pub dispatch_one :
      (ℕ → Bool)
      → (Message → SmtpResult)
      → (ℕ → Db → Db)
      → (claim_id : ℕ) → Clock
      → Session
      → Dispatched × Session
  unfolding dispatch_next
  dispatch_one locked send meanwhile claim_id clock s =
      let s' = record s { current = s.durable } in
      if dispatcher_allowed cfg s.current
      then retry_later (dispatch_next locked send meanwhile claim_id clock s')
      else (nothing_done, s')
