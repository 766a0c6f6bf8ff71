-- ===== src/Notifications/Answering.antt =====
-- What a dispatch reports and commits after an answer of the mail server.
use rulefolio_server.Prelude.{
  ℕ, ◌+◌, suc, Bool, true, false, not, ◌≡◌, ◌≤◌, ◌⊎◌, refl, sym, ◌∙◌, ap, some, none, inl, inr,
  List, ◌==◌, ◌&&◌, ◌||◌, ltb, arith, scalar-hit, scalar-none, update, update-none, rowcount,
  rowcount-zero, rowcount_unmet, rowcount_same, both, unique_row_misses, rowcount-one,
  rowcount-found, unique-update, if◌then◌else◌, All, All-map, Option-cases, Bool-cases,
}
use mathlib.Core.Option.{some-injective}
use rulefolio_server.Settings.{Settings, minutes}
use rulefolio_server.Crypto.{Crypto}
use rulefolio_server.Notifications.Models.{
  MailOutbox, MailStatus, sending, is_pending, is_failed, is_unknown,
}
use rulefolio_server.Notifications.Keys.{row}
use rulefolio_server.Notifications.Starting.{claim_sound}
use rulefolio_server.Notifications.Todos.{Owners}
use rulefolio_server.Notifications.Dispatcher.{
  DispatchClaim, holds_claim, write_claim, update_claim, delivered, after_failure, doubtful,
  mark_accepted, mark_failed, mark_unknown,
}
use rulefolio_server.Notifications.Dispatch.{
  DispatchOutcome, superseded, unknown, pending, failed, accepted, Dispatched, Message, SmtpResult,
  sent, disconnected, smtp_error, network_error, conclude, settle,
}
use rulefolio_server.Database.{Db, Session, Exec, ok, pure, commit_taken}

-- no two mails have the id
abbrev pub IsUnique : ℕ → Db → Type 0
IsUnique id db = rowcount (λ x. x.id == id) db.outbox ≤ 1

-- the mail server took the message, or refused it
abbrev pub is_sent : SmtpResult → Bool
is_sent sent = true
is_sent _ = false

abbrev pub is_refused : SmtpResult → Bool
is_refused smtp_error = true
is_refused _ = false

abbrev pub is_accepted : MailStatus → Bool
is_accepted MailStatus.accepted = true
is_accepted _ = false

-- the outcome that names a status
abbrev pub outcome_of : MailStatus → DispatchOutcome
outcome_of MailStatus.pending = DispatchOutcome.pending
outcome_of MailStatus.accepted = DispatchOutcome.accepted
outcome_of MailStatus.failed = DispatchOutcome.failed
outcome_of _ = DispatchOutcome.unknown

-- The claim has the mail.
abbrev pub IsHeld : DispatchClaim → MailOutbox → Db → Type 0
IsHeld c x db =
    (row c.outbox_id db.outbox ≡ some x) × (x.status ≡ sending) × (x.claim_id ≡ some c.claim_id)

-- What a row that was `x` under the claim is after an answer of the mail server: nobody has it; it
-- is accepted just if the message was, waits just if the message was refused and attempts are left,
-- has failed just if it was refused and none are left, and is unknown otherwise. Only a mail that
-- waits can start again, and only it keeps its token.
abbrev pub IsAnswered :
    Settings → DispatchClaim → (now : ℕ) → SmtpResult → MailOutbox → MailOutbox → Type 0
IsAnswered cfg c now r x y =
    (y.id ≡ x.id)
    × (y.claim_id ≡ none)
    × (is_accepted y.status ≡ is_sent r)
    × (is_pending y.status ≡ is_refused r && ltb c.attempt_count cfg.mail_max_attempts)
    × (is_failed y.status ≡ is_refused r && not (ltb c.attempt_count cfg.mail_max_attempts))
    × (is_unknown y.status ≡ not (is_sent r || is_refused r))
    × (y.accepted_at ≡ (if is_sent r then some now else x.accepted_at))
    × (y.next_attempt_at
        ≡ (if is_pending y.status then now + minutes c.attempt_count else x.next_attempt_at))
    × (y.smtp_started_at ≡ (if is_pending y.status then none else x.smtp_started_at))
    × (y.token_ciphertext ≡ (if is_pending y.status then x.token_ciphertext else none))

-- What a dispatch reports and commits after the conversation. A claim that has lost its mail
-- changes nothing; otherwise the outcome is the status of the mail, and no other row is changed.
abbrev pub IsConcluded :
    Settings
    → DispatchClaim
    → (now : ℕ) → SmtpResult
    → DispatchOutcome
    → (after committed : Db) → Type 0
IsConcluded cfg c now r outcome after committed =
    ((outcome ≡ superseded) × (committed ≡ after) × (¬ ((x : MailOutbox) × IsHeld c x after)))
    ⊎ ((x y : MailOutbox) × IsHeld c x after
        × IsAnswered cfg c now r x y
        × (outcome ≡ outcome_of y.status)
        × (committed
            ≡ record after { outbox = update (λ z. z.id == c.outbox_id) (λ z. y) after.outbox }))

-- the outcome that a dispatch reports for an answer of the mail server
abbrev pub reported : Settings → DispatchClaim → SmtpResult → DispatchOutcome
reported cfg c sent = accepted
reported cfg c disconnected = unknown
reported cfg c smtp_error = if ltb c.attempt_count cfg.mail_max_attempts then pending else failed
reported cfg c network_error = unknown

-- what it writes in the row of its claim
abbrev settled : Settings → DispatchClaim → (now : ℕ) → SmtpResult → MailOutbox → MailOutbox
settled cfg c now sent = delivered now
settled cfg c now disconnected = doubtful
settled cfg c now smtp_error = after_failure cfg c now
settled cfg c now network_error = doubtful

-- a session after a commit that is taken
abbrev pub committed : Db → Session → Session
committed db s = record s { durable = db; current = db; commits = suc s.commits }

update_claim-writes :
    (c : DispatchClaim) (write : MailOutbox → MailOutbox) (s : Session)
    → s.accepts s.commits ≡ true
    → update_claim c write s ≡ (
      ok (rowcount (holds_claim c) s.current.outbox == 1),
      committed (write_claim c write s.current) s,
    )
unfolding update_claim
update_claim-writes c write s taken =
    commit_taken (pure (rowcount (holds_claim c) s.current.outbox == 1))
      (record s { current = write_claim c write s.current }) taken

settled-IsAnswered :
    (cfg : Settings) (c : DispatchClaim) (now : ℕ) (r : SmtpResult) (x : MailOutbox)
    → IsAnswered cfg c now r x (settled cfg c now r x)
settled-IsAnswered cfg c now sent x = (refl, refl, refl, refl, refl, refl, refl, refl, refl, refl)
settled-IsAnswered cfg c now disconnected x =
    (refl, refl, refl, refl, refl, refl, refl, refl, refl, refl)
settled-IsAnswered cfg c now network_error x =
    (refl, refl, refl, refl, refl, refl, refl, refl, refl, refl)
settled-IsAnswered cfg c now smtp_error x =
    unfold after_failure in
    elim (Bool-cases (ltb c.attempt_count cfg.mail_max_attempts)) [
      | inl left ↦ rw left (refl, refl, refl, refl, refl, refl, refl, refl, refl, refl)
      | inr over ↦ rw over (refl, refl, refl, refl, refl, refl, refl, refl, refl, refl)
    ]

settled-reported :
    (cfg : Settings) (c : DispatchClaim) (now : ℕ) (r : SmtpResult) (x : MailOutbox)
    → reported cfg c r ≡ outcome_of (settled cfg c now r x).status
settled-reported cfg c now sent x = refl
settled-reported cfg c now disconnected x = refl
settled-reported cfg c now network_error x = refl
settled-reported cfg c now smtp_error x =
    unfold after_failure in
    elim (Bool-cases (ltb c.attempt_count cfg.mail_max_attempts)) [
      | inl left ↦ rw left refl
      | inr over ↦ rw over refl
    ]

-- a statement that only looks at the mail with an id finds it once, or not at all
pub looked_up :
    (p : MailOutbox → Bool) (id : ℕ) (rows : List MailOutbox)
    → ((x : MailOutbox) → p x ≡ true → x.id ≡ id)
    → rowcount (λ x. x.id == id) rows ≤ 1
    → ((x : MailOutbox) × (row id rows ≡ some x) × (p x ≡ true) × (rowcount p rows ≡ 1))
      ⊎ (All (λ x. p x ≡ false) rows × ((x : MailOutbox) → row id rows ≡ some x → p x ≡ false))
looked_up p id rows only one = elim (Option-cases (row id rows)) [
  | inl missing ↦ inr (
    All-map (λ x. x.id == id ≡ false) (λ x. p x ≡ false) rows (λ x out. ground (arith, only x, out))
        (scalar-none (λ x. x.id == id) rows missing),
    λ x there. cc (missing, there),
  )
  | inr (x, found) ↦ elim (Bool-cases (p x)) [
    | inl hit ↦ inl (
      x,
      found,
      hit,
      rowcount-one p (λ x. x.id == id) rows (λ y h. ground (arith, only y h))
          (omega (
            arith,
            one,
            rowcount-found (λ x. x.id == id) (λ x. x.id == id) rows found
                (scalar-hit (λ x. x.id == id) rows found),
          ))
          found hit,
    )
    | inr miss ↦ inr (
      rowcount_unmet p rows (
          rowcount_same p (both (λ x. x.id == id) p) rows (λ y. ground (arith, only y))
          ∙ unique_row_misses (λ x. x.id == id) p rows one found miss),
      λ y there. ap p (some-injective y x (sym there ∙ found)) ∙ miss,
    )
  ]
]

held_holds : (c : DispatchClaim) (db : Db) (x : MailOutbox) → IsHeld c x db → holds_claim c x ≡ true
unfolding holds_claim
held_holds c db x (there, sends, held) =
    let same = scalar-hit (λ (z : MailOutbox). z.id == c.outbox_id) db.outbox there in
    ground (arith, same, sends, held)

-- what the update of a claim writes, where the claim has the mail
write_claim-held :
    (c : DispatchClaim) (write : MailOutbox → MailOutbox) (db : Db) {x : MailOutbox}
    → IsUnique c.outbox_id db
    → row c.outbox_id db.outbox ≡ some x
    → holds_claim c x ≡ true
    → write_claim c write db
      ≡ record db { outbox = update (λ z. z.id == c.outbox_id) (λ z. write x) db.outbox }
unfolding write_claim
write_claim-held c write db {x} one found held =
    ap (λ rows. record db { outbox = rows })
      (unique-update (holds_claim c) (λ z. z.id == c.outbox_id) write (λ z. write x) db.outbox
        (λ y h. ground (arith, (claim_sound c y h).0)) one found held refl)

module _ (cfg : Settings) (crypto : Crypto) (owners : Owners) where
  settle-reports :
      (m : Message) (outcome : DispatchOutcome) (mark : Exec Bool) (s s' : Session) {held : Bool}
      → mark s ≡ (ok held, s')
      → settle cfg crypto owners m outcome mark s ≡ (
        ok (record { outcome = some (if held then outcome else superseded); handed = some m }),
        s',
      )
  unfolding settle
  settle-reports m outcome mark s s' e = rw (e, settle) (rw e refl)

  -- the dispatch of a claim after the answer `r`
  abbrev pub answered : DispatchClaim → Message → SmtpResult → Session → Dispatched
  answered c m r s = record {
    outcome =
        some
          (if rowcount (holds_claim c) s.current.outbox == 1 then reported cfg c r else superseded);
    handed = some m;
  }

  pub conclude-writes :
      (c : DispatchClaim) (now : ℕ) (m : Message) (r : SmtpResult) (s : Session)
      → s.accepts s.commits ≡ true
      → conclude cfg crypto owners c now m r s
        ≡ (ok (answered c m r s), committed (write_claim c (settled cfg c now r) s.current) s)
  unfolding conclude mark_accepted mark_failed mark_unknown
  conclude-writes c now m sent s taken =
      settle-reports m accepted (mark_accepted c now) s _
        (update_claim-writes c (delivered now) s taken)
  conclude-writes c now m disconnected s taken =
      settle-reports m unknown (mark_unknown c) s _ (update_claim-writes c doubtful s taken)
  conclude-writes c now m smtp_error s taken =
      settle-reports m (reported cfg c smtp_error) (mark_failed cfg c now) s _
        (update_claim-writes c (after_failure cfg c now) s taken)
  conclude-writes c now m network_error s taken =
      settle-reports m unknown (mark_unknown c) s _ (update_claim-writes c doubtful s taken)

  pub conclude-IsConcluded :
      (c : DispatchClaim) (now : ℕ) (r : SmtpResult) (db : Db)
      → IsUnique c.outbox_id db
      → IsConcluded cfg c now r
          (if rowcount (holds_claim c) db.outbox == 1 then reported cfg c r else superseded)
          db
          (write_claim c (settled cfg c now r) db)
  unfolding write_claim
  conclude-IsConcluded c now r db one =
      elim (looked_up (holds_claim c) c.outbox_id db.outbox (λ x h. (claim_sound c x h).0) one) [
        | inl (x, found, held, counted) ↦
            let (same, sends, named) = claim_sound c x held in
            rw counted (
              inr (
                x,
                settled cfg c now r x,
                (found, sends, named),
                settled-IsAnswered cfg c now r x,
                settled-reported cfg c now r x,
                write_claim-held c (settled cfg c now r) db one found held,
              ))
        | inr (none_held, lost) ↦ rw (rowcount-zero (holds_claim c) db.outbox none_held) (
            inl (
              refl,
              ap (λ rows. record db { outbox = rows })
                  (update-none (holds_claim c) (settled cfg c now r) db.outbox none_held),
              λ (x, h). cc (lost x h.0, held_holds c db x h),
            ))
      ]
