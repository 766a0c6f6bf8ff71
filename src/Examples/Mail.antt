-- ===== src/Examples/Mail.antt =====
-- The mail outbox at concrete inputs.
use rulefolio_server.Prelude.{
  ℕ, true, false, none, some, List, [], ◌∷◌, ◌≡◌, ◌≢◌, refl, All, suc, scalar, pick, update,
  rowcount, ◌==◌, ◌≤◌, ◌⊎◌, arith,
}
use rulefolio_server.Identity.Models.{workspace_invitation}
use rulefolio_server.Notifications.Models.{
  MailOutbox, accepted, sending, cancelled, is_unknown, is_cancelled,
}
use rulefolio_server.Notifications.Outbox.{
  unstarted, suppress_for_restricted_recovery, in_ids, clear_outbox_envelopes, token_mail_row,
  decrypt_token, cleared,
}
use rulefolio_server.Notifications.Dispatcher.{
  DispatchClaim, load_claim, is_stale, recover_stale_rows, is_due, may_start, start_rows, claim_row,
}
use rulefolio_server.Notifications.Steps.{here, next, suppress, claim, mail}
use rulefolio_server.Notifications.Finality.{EndsLike, final_forever}
use rulefolio_server.Notifications.Keys.{row}
use rulefolio_server.Notifications.Consistency.{IsConsistent, AllConsistent, Reach-AllConsistent}
use rulefolio_server.Notifications.Claims.{
  IsInert, is_claimable, starts_once, claims_differ, recovery_revokes_claim, claim_oldest,
}
use rulefolio_server.Notifications.Stopping.{suppression_silences, clearing_wipes}
use rulefolio_server.Notifications.Envelope.{decrypt-enqueue}
use rulefolio_server.Notifications.Dispatch.{
  DispatchOutcome, superseded, Message, SmtpResult, sent, hand_over,
}
use rulefolio_server.Notifications.Todos.{Owners}
use rulefolio_server.Notifications.Starting.{IsStartable}
use rulefolio_server.Notifications.Answering.{IsUnique, IsConcluded}
use rulefolio_server.Notifications.Delivery.{hands_over}
use rulefolio_server.Database.{Db, begin, ok}
use rulefolio_server.Examples.Fixtures.{
  cfg, clock, taken_always, crypto, crypto-IsAuthenticated, unlocked, mail_row, db,
}

abbrev accepted_mail : MailOutbox
accepted_mail = record mail_row {
  status = accepted;
  attempt_count = 1;
  smtp_started_at = some 20;
  accepted_at = some 21;
}

abbrev sending_mail : MailOutbox
sending_mail = record mail_row {
  status = sending;
  claim_id = some 30;
  attempt_count = 1;
  dispatch_started_at = some 20;
}

abbrev other_mail : MailOutbox
other_mail = record mail_row { id = 31; todo_id = none }

abbrev with_mail : List MailOutbox → Db
with_mail rows = record db { outbox = rows }

abbrev held_claim : DispatchClaim
held_claim = record { outbox_id = 3; claim_id = 30; attempt_count = 1 }

abbrev silenced : Db
silenced = (suppress_for_restricted_recovery (with_mail (accepted_mail ∷ []))).1

final_forever_example : EndsLike 3 accepted_mail silenced
unfolding scalar mail
final_forever_example =
    final_forever {cfg = cfg} {crypto = crypto} 3
      (next here (suppress (with_mail (accepted_mail ∷ [])))) (refl, tt) refl refl

Reach-AllConsistent_example : AllConsistent (claim_row unlocked 30 100 200 db).1
Reach-AllConsistent_example =
    Reach-AllConsistent {cfg = cfg} {crypto = crypto} (next here (claim unlocked 30 100 200 db))
      (fresh_row, tt)
  where
    fresh_row : IsConsistent mail_row
    fresh_row = record {
      claimed = λ none_held sent. cc;
      released = λ some_held. cc;
      dated = λ sent. cc;
      fresh = λ waiting. refl;
      accepted_wiped = λ ended. refl;
      failed_wiped = λ ended. refl;
      unknown_wiped = λ ended. refl;
    }

starts_once_example :
    All
      (λ x.
        x.id ≡ 3
        → may_start held_claim 300 (start_rows held_claim 100 200 (with_mail (sending_mail ∷ []))) x
          ≡ false)
      (start_rows held_claim 100 200 (with_mail (sending_mail ∷ []))).outbox
unfolding scalar may_start
starts_once_example =
    starts_once 3 held_claim held_claim 100 200 300 (with_mail (sending_mail ∷ [])) (refl, tt) refl
      refl refl

claims_differ_example : ◌≢◌ {A = ℕ} 31 3
unfolding claim_row pick update is_due
claims_differ_example =
    claims_differ unlocked unlocked 30 40 100 200 100 200 (with_mail (mail_row ∷ other_mail ∷ []))
      refl refl

recovery_revokes_claim_example :
    let after = recover_stale_rows unlocked 100 (with_mail (sending_mail ∷ [])) in
    (load_claim held_claim after ≡ none) × IsInert held_claim after
unfolding scalar load_claim is_stale
recovery_revokes_claim_example =
    recovery_revokes_claim unlocked 100 held_claim (with_mail (sending_mail ∷ [])) (refl, tt) refl
      refl refl

claim_oldest_example :
    (o : MailOutbox) × (row 3 db.outbox ≡ some o)
    × (is_claimable unlocked 100 o ≡ true)
    × (1 ≡ suc o.attempt_count)
    × All (λ p. is_claimable unlocked 100 p ≡ true → o.created_at ≤ p.created_at) db.outbox
unfolding scalar claim_row pick
claim_oldest_example = claim_oldest unlocked 30 100 200 db (refl, tt) refl

suppression_silences_example :
    let after = (suppress_for_restricted_recovery (with_mail (sending_mail ∷ mail_row ∷ []))).1 in
    All
      (λ o.
        (unstarted o ≡ false)
        × (is_unknown o.status ≡ false)
        × (is_due 100 o ≡ false)
        × (may_start held_claim 100 after o ≡ false))
      after.outbox
suppression_silences_example =
    suppression_silences 100 held_claim (with_mail (sending_mail ∷ mail_row ∷ []))

abbrev token_mail : MailOutbox
token_mail = record mail_row {
  credential_id = some 7;
  purpose = workspace_invitation;
  token_ciphertext = some "token";
  token_nonce = some 1;
  key_version = some 1;
}

clearing_wipes_example :
    let after = clear_outbox_envelopes (7 ∷ []) cancelled (with_mail (token_mail ∷ [])) in
    All
      (λ o.
        in_ids o.credential_id (7 ∷ []) ≡ true
        → o.smtp_started_at ≡ none
        → (is_cancelled o.status ≡ true → o.token_ciphertext ≡ none)
          × (is_due 100 o ≡ false)
          × (may_start held_claim 100 after o ≡ false))
      after.outbox
clearing_wipes_example = clearing_wipes (7 ∷ []) 100 held_claim (with_mail (token_mail ∷ []))

decrypt-enqueue_example :
    let o = token_mail_row cfg crypto 3 1 10 7 1 workspace_invitation "token" (some "name") none in
    (decrypt_token cfg crypto o ≡ some "token")
    × (decrypt_token cfg crypto (cleared cancelled o) ≡ none)
decrypt-enqueue_example =
    decrypt-enqueue cfg crypto crypto-IsAuthenticated 3 1 10 7 1 workspace_invitation "token"
      (some "name") none cancelled

abbrev message : Message
message = record { to_address = "a@example.test"; subject = "subject"; body = "body" }

abbrev answered : Message → SmtpResult
answered m = sent

abbrev alone : ℕ → Db → Db
alone n db = db

abbrev owners : Owners
owners = record { playtests_eligible = λ db todo. true; issues_eligible = λ db todo. true }

only_mail : IsUnique 3 (with_mail (sending_mail ∷ []))
unfolding rowcount
only_mail = omega arith

hands_over_example :
    let before = with_mail (sending_mail ∷ []) in
    let run =
      hand_over cfg crypto owners answered alone clock held_claim message
        (begin before taken_always) in
    ((run.0 ≡ ok (record { outcome = some superseded; handed = none }))
      × (run.1.durable ≡ before)
      × (¬ (
          (o : MailOutbox) × (row 3 before.outbox ≡ some o)
          × IsStartable held_claim 1000 before o)))
    ⊎ ((o : MailOutbox) × (row 3 before.outbox ≡ some o)
        × IsStartable held_claim 1000 before o
        × ((outcome : DispatchOutcome) × (run.0
              ≡ ok (record { outcome = some outcome; handed = some message }))
            × IsConcluded cfg held_claim 1000 sent outcome
                (record before {
                  outbox =
                      update
                        (λ x. x.id == 3)
                        (λ x. record x { smtp_started_at = some 1000 })
                        before.outbox;
                })
                run.1.durable))
hands_over_example =
    hands_over cfg crypto owners answered alone clock held_claim message
      (begin (with_mail (sending_mail ∷ [])) taken_always) (λ n. refl) only_mail (λ n db one. one)
