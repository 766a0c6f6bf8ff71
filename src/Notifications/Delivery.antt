-- ===== src/Notifications/Delivery.antt =====
-- When a dispatch hands its message to the mail server.
use rulefolio_server.Prelude.{
  ℕ, Bool, true, false, ◌≡◌, ◌≤◌, ◌⊎◌, refl, sym, subst, ◌∙◌, ap, some, none, inl, inr, ◌==◌, arith,
  scalar-hit, update, update-none, rowcount, rowcount-zero, rowcount-update, unique-update,
  if◌then◌else◌,
}
use rulefolio_server.Settings.{Settings}
use rulefolio_server.Crypto.{Crypto}
use rulefolio_server.Identity.Credentials.{Clock}
use rulefolio_server.Notifications.Models.{MailOutbox}
use rulefolio_server.Notifications.Keys.{row}
use rulefolio_server.Notifications.Answering.{
  IsUnique, IsConcluded, looked_up, reported, committed, conclude-writes, conclude-IsConcluded,
}
use rulefolio_server.Notifications.Starting.{IsStartable, may_start_sound, may_start_complete}
use rulefolio_server.Notifications.Todos.{Owners}
use rulefolio_server.Notifications.Dispatcher.{
  DispatchClaim, holds_claim, may_start, start_rows, start_smtp, smtp_begun,
}
use rulefolio_server.Notifications.Dispatch.{
  DispatchOutcome, superseded, Dispatched, Message, SmtpResult, conclude, hand_over,
}
use rulefolio_server.Database.{
  Db, Session, Exec, Result, ok, pure, commit_taken, bind_found, others_commit, ◌>>◌,
}

start_smtp-writes :
    (c : DispatchClaim) (now later : ℕ) (s : Session)
    → s.accepts s.commits ≡ true
    → start_smtp c now later s ≡ (
      ok (rowcount (may_start c now s.current) s.current.outbox == 1),
      committed (start_rows c now later s.current) s,
    )
unfolding start_smtp
start_smtp-writes c now later s taken =
    commit_taken (pure (rowcount (may_start c now s.current) s.current.outbox == 1))
      (record s { current = start_rows c now later s.current }) taken

start_rows-IsUnique :
    (c : DispatchClaim) (now later : ℕ) (db : Db)
    → IsUnique c.outbox_id db
    → IsUnique c.outbox_id (start_rows c now later db)
unfolding start_rows
start_rows-IsUnique c now later db one =
    subst (λ n. n ≤ 1)
      (sym (
        rowcount-update (λ x. x.id == c.outbox_id) (may_start c now db) (smtp_begun later) db.outbox
          (λ x. refl)))
      one

-- what `_start_smtp` writes, where it may start
start_rows-begun :
    (c : DispatchClaim) (now later : ℕ) (db : Db) {o : MailOutbox}
    → IsUnique c.outbox_id db
    → row c.outbox_id db.outbox ≡ some o
    → may_start c now db o ≡ true
    → start_rows c now later db
      ≡ record db { outbox = update (λ x. x.id == c.outbox_id) (smtp_begun later) db.outbox }
unfolding start_rows
start_rows-begun c now later db {o} one found free =
    ap (λ rows. record db { outbox = rows })
      (unique-update (may_start c now db) (λ x. x.id == c.outbox_id) (smtp_begun later)
        (smtp_begun later) db.outbox (λ x h. ground (arith, (may_start_sound c now db x h).0)) one
        found free refl)

module _ (cfg : Settings) (crypto : Crypto) (owners : Owners) where
  -- the session after what others have committed
  abbrev joined_by : (Db → Db) → Session → Session
  joined_by f s = record s { durable = f s.durable; current = f s.durable }

  -- what `hand_over` does after `_start_smtp`
  abbrev after_start :
      (Message → SmtpResult)
      → (ℕ → Db → Db)
      → Clock
      → DispatchClaim
      → Message
      → Bool
      → Exec Dispatched
  after_start send meanwhile clock c m started =
      if started
      then (do others_commit (meanwhile 2); conclude cfg crypto owners c (clock 5) m (send m))
      else pure (record { outcome = some superseded; handed = none })

  abbrev Outcome : Type 0
  Outcome = Result Dispatched × Session

  -- If the commits are taken, and the id of the mail is unique before and stays so under what
  -- others commit, then the dispatch of a claim either hands nothing over, answers "superseded"
  -- and changes nothing, and no mail with this id may be sent under the claim; or it hands its
  -- message over, the mail may be sent under the claim, its start is committed before the
  -- conversation, and afterwards one of two things holds: the claim has lost the mail, the answer
  -- is "superseded" and nothing more is changed, or only this mail is changed, its new status
  -- follows from the answer of the mail server and the attempts, and the outcome that is reported
  -- is this status. A mail may be sent if the claim has it, its conversation has not begun, the
  -- server is open, and its to-do is open, its credential usable and its invitation active, where
  -- it has them.
  pub hands_over :
      (send : Message → SmtpResult) (meanwhile : ℕ → Db → Db) (clock : Clock) (c : DispatchClaim)
      (m : Message) (s : Session)
      → ((n : ℕ) → s.accepts n ≡ true)
      → IsUnique c.outbox_id s.durable
      → ((n : ℕ) (db : Db) → IsUnique c.outbox_id db → IsUnique c.outbox_id (meanwhile n db))
      → let before = meanwhile 1 s.durable in
        let run = hand_over cfg crypto owners send meanwhile clock c m s in
        ((run.0 ≡ ok (record { outcome = some superseded; handed = none }))
          × (run.1.durable ≡ before)
          × (¬ (
              (o : MailOutbox) × (row c.outbox_id before.outbox ≡ some o)
              × IsStartable c (clock 3) before o)))
        ⊎ ((o : MailOutbox) × (row c.outbox_id before.outbox ≡ some o)
            × IsStartable c (clock 3) before o
            × ((outcome : DispatchOutcome) × (run.0
                  ≡ ok (record { outcome = some outcome; handed = some m }))
                × IsConcluded cfg c
                    (clock 5)
                    (send m)
                    outcome
                    (meanwhile 2 (record before {
                      outbox =
                          update
                            (λ x. x.id == c.outbox_id)
                            (λ x. record x { smtp_started_at = some (clock 4) })
                            before.outbox;
                    }))
                    run.1.durable))
  unfolding hand_over start_rows
  hands_over send meanwhile clock c m s taken one keeps =
      let s1 = joined_by (meanwhile 1) s in
      let before = s1.current in
      let started = start_smtp-writes c (clock 3) (clock 4) s1 (taken s.commits) in
      let begun = start_rows c (clock 3) (clock 4) before in
      let s2 = committed begun s1 in
      let s3 = joined_by (meanwhile 2) s2 in
      let rest = after_start send meanwhile clock c m in
      let start = start_smtp c (clock 3) (clock 4) in
      let may = may_start c (clock 3) before in
      let unique = keeps 1 s.durable one in
      elim (looked_up may c.outbox_id before.outbox
        (λ x h. (may_start_sound c (clock 3) before x h).0) unique) [
          | inr (none_may, shut) ↦
              let run = bind_found start rest s1 s2 {a = false} (
                started ∙ ap (λ n. (ok (n == 1), s2)) (rowcount-zero may before.outbox none_may)) in
              inl (
                ap (λ (p : Outcome). p.0) run,
                ap (λ (p : Outcome). p.1.durable) run
                    ∙ ap (λ rows. record before { outbox = rows })
                        (update-none may _ before.outbox none_may),
                λ (o, there, startable). cc (
                  shut o there,
                  may_start_complete c (clock 3) before o
                      (ground (
                        arith,
                        scalar-hit (λ (x : MailOutbox). x.id == c.outbox_id) before.outbox there,
                      ))
                      startable,
                ),
              )
          | inl (o, found, free, counted) ↦
              let run =
                bind_found start rest s1 s2 {a = true}
                  (started ∙ ap (λ n. (ok (n == 1), s2)) counted)
                ∙ conclude-writes cfg crypto owners c (clock 5) m (send m) s3 (taken s3.commits) in
              let outcome =
                if rowcount (holds_claim c) s3.current.outbox == 1
                then reported cfg c (send m)
                else superseded in
              let concluded =
                conclude-IsConcluded cfg crypto owners c (clock 5) (send m) s3.current
                  (keeps 2 begun (start_rows-IsUnique c (clock 3) (clock 4) before unique)) in
              let ends = ap (λ (p : Outcome). p.1.durable) run in
              inr (
                o,
                found,
                (may_start_sound c (clock 3) before o free).1,
                (
                  outcome,
                  ap (λ (p : Outcome). p.0) run,
                  subst
                      (λ b.
                        IsConcluded cfg c (clock 5) (send m) outcome (meanwhile 2 b)
                          (hand_over cfg crypto owners send meanwhile clock c m s).1.durable)
                      (start_rows-begun c (clock 3) (clock 4) before unique found free)
                      (subst (λ r. IsConcluded cfg c (clock 5) (send m) outcome s3.current r)
                        (sym ends) concluded),
                ),
              )
        ]
