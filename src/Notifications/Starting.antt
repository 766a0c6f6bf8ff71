-- ===== src/Notifications/Starting.antt =====
-- When `_start_smtp` of src/app/notifications/dispatcher.py may start the conversation about a mail.
use rulefolio_server.Prelude.{
  ℕ, Bool, true, false, not, ◌≡◌, ◌⊎◌, refl, inl, inr, none, some, ◌&&◌, ◌||◌, ◌==◌, ◌∙◌, ap, leb,
  scalar, Option, Option-cases, Bool-cases, arith,
}
use rulefolio_server.Identity.Models.{
  OneTimeCredential, Purpose, workspace_invitation, same_purpose, token_active,
}
use rulefolio_server.Recovery.Models.{RecoveryState, Stage, open_stage, is_open_stage}
use rulefolio_server.Workspaces.Models.{WorkspaceInvitation, invitation_active}
use rulefolio_server.Notifications.Models.{
  MailOutbox, MailStatus, sending, is_sending, NotificationTodo, is_open,
}
use rulefolio_server.Notifications.Dispatcher.{
  DispatchClaim, holds_claim, todo_open, credential_available, invitation_available, recovery_open,
  absent_or, present_and, may_start,
}
use rulefolio_server.Database.{Db}

-- the to-do of a mail is open
abbrev pub HasOpenTodo : Db → ℕ → Type 0
HasOpenTodo db id =
    (t : NotificationTodo) × (scalar (λ t. t.id == id && is_open t.status) db.todos ≡ some t)

-- the credential of a mail can still be used for its purpose
abbrev pub HasCredential : (now : ℕ) → Purpose → Db → ℕ → Type 0
HasCredential now purpose db id =
    (k : OneTimeCredential) × (scalar
        (λ k.
          k.id == id
          && same_purpose k.purpose purpose
          && token_active k.status
          && not (leb k.expires_at now))
        db.credentials
      ≡ some k)

-- the invitation of a credential is active
abbrev pub HasInvitation : (account_id : ℕ) → Db → ℕ → Type 0
HasInvitation account_id db id =
    (i : WorkspaceInvitation) × (scalar
        (λ i. i.credential_id == id && i.account_id == account_id && invitation_active i.status)
        db.invitations
      ≡ some i)

-- a foreign key that is NULL, or has what is asked of it
abbrev pub NullOr : Option ℕ → (ℕ → Type 0) → Type 0
NullOr key P = (key ≡ none) ⊎ ((id : ℕ) × (key ≡ some id) × P id)

-- The mail may be sent under the claim: the claim has it, its conversation has not begun, the
-- server is open, and whatever the mail is about still stands.
abbrev pub IsStartable : DispatchClaim → (now : ℕ) → Db → MailOutbox → Type 0
IsStartable c now db o =
    (o.status ≡ sending)
    × (o.claim_id ≡ some c.claim_id)
    × (o.smtp_started_at ≡ none)
    × ((r : RecoveryState) × (db.recovery ≡ some r) × (r.stage ≡ open_stage))
    × NullOr o.todo_id (HasOpenTodo db)
    × NullOr o.credential_id (HasCredential now o.purpose db)
    × ((same_purpose o.purpose workspace_invitation ≡ false)
        ⊎ ((id : ℕ) × (o.credential_id ≡ some id) × HasInvitation o.recipient_account_id db id))

sending_of : (s : MailStatus) → is_sending s ≡ true → s ≡ sending
sending_of s h = ground (arith, h)

open_of : (s : Stage) → is_open_stage s ≡ true → s ≡ open_stage
open_of s h = ground (arith, h)

null_or_sound :
    (key : Option ℕ) (p : ℕ → Bool) (P : ℕ → Type 0)
    → ((id : ℕ) → p id ≡ true → P id)
    → absent_or key p ≡ true
    → NullOr key P
null_or_sound none p P sound h = inl refl
null_or_sound (some id) p P sound h = inr (id, refl, sound id h)

null_or_complete :
    (key : Option ℕ) (p : ℕ → Bool) (P : ℕ → Type 0)
    → ((id : ℕ) → P id → p id ≡ true)
    → NullOr key P
    → absent_or key p ≡ true
null_or_complete key p P complete (inl e) = rw e refl
null_or_complete key p P complete (inr (id, e, h)) = rw e (complete id h)

todo_sound : (db : Db) (id : ℕ) → todo_open db id ≡ true → HasOpenTodo db id
unfolding todo_open
todo_sound db id h =
    elim (Option-cases
      (scalar (λ (t : NotificationTodo). t.id == id && is_open t.status) db.todos)) [
        | inl missing ↦ ground (arith, h, missing)
        | inr found ↦ found
      ]

credential_sound :
    (now : ℕ) (purpose : Purpose) (db : Db) (id : ℕ)
    → credential_available now purpose db id ≡ true
    → HasCredential now purpose db id
unfolding credential_available
credential_sound now purpose db id h =
    elim (Option-cases (
      scalar
        (λ (k : OneTimeCredential).
          k.id == id
          && same_purpose k.purpose purpose
          && token_active k.status
          && not (leb k.expires_at now))
        db.credentials)) [ inl missing ↦ ground (arith, h, missing) | inr found ↦ found ]

invitation_sound :
    (account_id : ℕ) (db : Db) (id : ℕ)
    → invitation_available account_id db id ≡ true
    → HasInvitation account_id db id
unfolding invitation_available
invitation_sound account_id db id h =
    elim (Option-cases (
      scalar
        (λ (i : WorkspaceInvitation).
          i.credential_id == id && i.account_id == account_id && invitation_active i.status)
        db.invitations)) [ inl missing ↦ ground (arith, h, missing) | inr found ↦ found ]

invited_sound :
    (key : Option ℕ) (account_id : ℕ) (purpose : Purpose) (db : Db)
    → not (same_purpose purpose workspace_invitation)
        || present_and key (invitation_available account_id db)
      ≡ true
    → (same_purpose purpose workspace_invitation ≡ false)
      ⊎ ((id : ℕ) × (key ≡ some id) × HasInvitation account_id db id)
invited_sound key account_id purpose db h =
    elim (Bool-cases (same_purpose purpose workspace_invitation)) [
      | inr other ↦ inl other
      | inl invites ↦ elim (Option-cases key) [
        | inl missing ↦ ground (arith, h, invites, missing)
        | inr (id, there) ↦
            inr (id, there, invitation_sound account_id db id (ground (arith, h, invites, there)))
      ]
    ]

recovery_sound :
    (db : Db)
    → recovery_open db ≡ true
    → (r : RecoveryState) × (db.recovery ≡ some r) × (r.stage ≡ open_stage)
unfolding recovery_open
recovery_sound db h = elim (Option-cases db.recovery) [
  | inl missing ↦ ground (arith, h, missing)
  | inr (r, found) ↦ (r, found, open_of r.stage (ground (arith, h, found)))
]

pub claim_sound :
    (c : DispatchClaim) (o : MailOutbox)
    → holds_claim c o ≡ true
    → (o.id ≡ c.outbox_id) × (o.status ≡ sending) × (o.claim_id ≡ some c.claim_id)
unfolding holds_claim
claim_sound c o h = elim (Option-cases o.claim_id) [
  | inl missing ↦ ground (arith, h, missing)
  | inr (n, held) ↦ (
    ground (arith, h),
    sending_of o.status (ground (arith, h)),
    held ∙ ap some (ground (arith, h, held)),
  )
]

-- the update of `_start_smtp` only meets a mail that may be sent
pub may_start_sound :
    (c : DispatchClaim) (now : ℕ) (db : Db) (o : MailOutbox)
    → may_start c now db o ≡ true
    → (o.id ≡ c.outbox_id) × IsStartable c now db o
unfolding may_start
may_start_sound c now db o h =
    let (same, sends, held) = claim_sound c o (ground (arith, h)) in
    (
      same,
      (
        sends,
        held,
        elim (Option-cases o.smtp_started_at) [
          | inl fresh ↦ fresh
          | inr (t, begun) ↦ ground (arith, h, begun)
        ],
        recovery_sound db (ground (arith, h)),
        null_or_sound o.todo_id (todo_open db) (HasOpenTodo db) (todo_sound db) (ground (arith, h)),
        null_or_sound o.credential_id (credential_available now o.purpose db)
            (HasCredential now o.purpose db) (credential_sound now o.purpose db)
            (ground (arith, h)),
        invited_sound o.credential_id o.recipient_account_id o.purpose db (ground (arith, h)),
      ),
    )

-- and it does meet each such mail
pub may_start_complete :
    (c : DispatchClaim) (now : ℕ) (db : Db) (o : MailOutbox)
    → o.id ≡ c.outbox_id
    → IsStartable c now db o
    → may_start c now db o ≡ true
unfolding may_start
may_start_complete c now db o same
      (sends, held, fresh, (r, there, opened), todo, credential, invited) =
    let claimed : holds_claim c o ≡ true =
      unfold holds_claim in ground (arith, same, sends, held) in
    let recovered : recovery_open db ≡ true =
      unfold recovery_open in ground (arith, there, opened) in
    let todo_there =
      null_or_complete o.todo_id (todo_open db) (HasOpenTodo db)
        (λ id h. unfold todo_open in ground (arith, h.1)) todo in
    let credential_there =
      null_or_complete o.credential_id (credential_available now o.purpose db)
        (HasCredential now o.purpose db)
        (λ id h. unfold credential_available in ground (arith, h.1)) credential in
    let invitation_there : (not (same_purpose o.purpose workspace_invitation)
          || present_and o.credential_id (invitation_available o.recipient_account_id db))
        ≡ true =
      elim invited [
        | inl other ↦ rw other refl
        | inr (id, named, (i, found)) ↦ unfold invitation_available in ground (arith, named, found)
      ] in
    rw (claimed, fresh, recovered, todo_there, credential_there, invitation_there) refl
