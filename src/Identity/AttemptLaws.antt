-- ===== src/Identity/AttemptLaws.antt =====
-- What the limiter of src/app/identity/service.py answers.
use rulefolio_server.Prelude.{
  ℕ, suc, ◌*◌, ◌≤◌, String, false, ◌≡◌, refl, ap, ◌∙◌, str_eq, Option, none, some, List, arith, leb,
  if◌then◌else◌, scalar, update, All, All-scalar, Option-cases, Bool-cases, inl, inr, scalar-update,
  scalar-delete, scalar-hit,
}
use rulefolio_server.Settings.{Settings}
use rulefolio_server.Identity.Models.{AttemptPurpose, AttemptRecord}
use rulefolio_server.Identity.Attempts.{
  is_subject, attempt_of, attempt_retry_after, record_attempt, clear_attempt, is_over, seconds_left,
  restarted, counted, attempt_subject,
}
use rulefolio_server.Crypto.{Crypto}
use rulefolio_server.Database.{Db, Exec, Session, statement, commit_raise, ok, rate_limited, ◌>>=◌}

module _ (cfg : Settings) (purpose : AttemptPurpose) (subject : ℕ) where
  -- the wait that the limiter asks for
  abbrev wait : (now maximum : ℕ) → Db → Option ℕ
  wait now maximum db = (attempt_retry_after cfg now purpose subject maximum db).0

  -- The wait that the limiter asks for is at least one second and at most the window in seconds,
  -- if the window has at least a minute and no recorded window begins in the future.
  pub wait_bounds :
      (now maximum : ℕ) (db : Db) {n : ℕ}
      → 1 ≤ cfg.auth_attempt_window_minutes
      → All (λ r. r.window_started_at ≤ now) db.attempts
      → wait now maximum db ≡ some n
      → (1 ≤ n) × (n ≤ cfg.auth_attempt_window_minutes * 60)
  unfolding attempt_retry_after attempt_of
  wait_bounds now maximum db {n} some_window past e =
      elim (Option-cases (scalar (is_subject purpose subject) db.attempts)) [
        | inl missing ↦ ground arith
        | inr (r, found) ↦ ground (
          arith,
          All-scalar (λ r. r.window_started_at ≤ now) (is_subject purpose subject) db.attempts past
              found,
        )
      ]

  attempt_of-record_attempt :
      (id now : ℕ) (db : Db) {r : AttemptRecord}
      → attempt_of purpose subject db ≡ some r
      → is_over cfg now r ≡ false
      → attempt_of purpose subject (record_attempt cfg id now purpose subject db) ≡ some (counted r)
  unfolding record_attempt attempt_of
  attempt_of-record_attempt id now db {r} found live =
      rw (found, record_attempt)
        (rw live (
          scalar-update (is_subject purpose subject) (is_subject purpose subject) counted
            db.attempts (λ x. unfold is_subject in refl)
          ∙ rw (found, scalar-hit (is_subject purpose subject) db.attempts found) refl))

  -- After an attempt is recorded for a subject whose window runs, and while it runs, the limiter
  -- asks for a wait exactly if the attempts, this one included, have reached the maximum.
  pub wait-record_attempt :
      (id now later maximum : ℕ) (db : Db) {r : AttemptRecord}
      → attempt_of purpose subject db ≡ some r
      → is_over cfg now r ≡ false
      → is_over cfg later r ≡ false
      → wait later maximum (record_attempt cfg id now purpose subject db)
        ≡ (if leb maximum (suc r.count) then some (seconds_left cfg later r) else none)
  unfolding attempt_retry_after
  wait-record_attempt id now later maximum db {r} found live live' =
      rw (attempt_of-record_attempt id now db found live, attempt_retry_after, wait)
        (rw live' (ground arith))

  pub wait-clear_attempt :
      (now maximum : ℕ) (db : Db)
      → attempt_retry_after cfg now purpose subject maximum (clear_attempt purpose subject db)
        ≡ (none, clear_attempt purpose subject db)
  unfolding attempt_retry_after clear_attempt attempt_of
  wait-clear_attempt now maximum db =
      rw (scalar-delete (is_subject purpose subject) db.attempts, attempt_retry_after) refl

-- A statement of the limiter writes the attempts alone.
attempt_retry_after_writes :
    (cfg : Settings) (now : ℕ) (purpose : AttemptPurpose) (subject maximum : ℕ) (db : Db)
    → (rows : List AttemptRecord) × ((attempt_retry_after cfg now purpose subject maximum db).1
        ≡ record db { attempts = rows })
unfolding attempt_retry_after
attempt_retry_after_writes cfg now purpose subject maximum db =
    elim (Option-cases (attempt_of purpose subject db)) [
      | inl missing ↦ (db.attempts, rw (missing, attempt_retry_after) refl)
      | inr (r, found) ↦ elim (Bool-cases (is_over cfg now r)) [
        | inl over ↦ (
          update (is_subject purpose subject) (restarted now 0) db.attempts,
          rw (found, attempt_retry_after) (rw over refl),
        )
        | inr live ↦ elim (Bool-cases (leb maximum r.count)) [
          | inl full ↦ (db.attempts, rw (found, attempt_retry_after) (rw (live, full) refl))
          | inr free ↦ (db.attempts, rw (found, attempt_retry_after) (rw (live, free) refl))
        ]
      ]
    ]

module _ {A : Type 0} (cfg : Settings) (crypto : Crypto) (now : ℕ) (purpose : AttemptPurpose)
    (maximum : ℕ) (value : String) where
  -- a limited call, whose own work is `k`
  abbrev pub limited : (ℕ → Exec A) → Exec A
  limited k = do
    subject ← attempt_subject cfg crypto value
    retry_after ← statement (attempt_retry_after cfg now purpose subject maximum)
    elim retry_after [ some seconds ↦ commit_raise (rate_limited seconds) | none ↦ k subject ]

  limited_free :
      (k : ℕ → Exec A) (s : Session)
      → let subject = crypto.hmac cfg.auth_attempt_pepper value in
        str_eq cfg.auth_attempt_pepper "" ≡ false
        → (attempt_retry_after cfg now purpose subject maximum s.current).0 ≡ none
        → limited k s
          ≡ k subject (record s {
            current = (attempt_retry_after cfg now purpose subject maximum s.current).1;
          })
  unfolding attempt_subject
  limited_free k s there free = ground (arith, there, free)

  -- a limited call that succeeds is its own work, on a database with other attempts
  pub limited_ok :
      (k : ℕ → Exec A) (s : Session) {r : A}
      → (limited k s).0 ≡ ok r
      → (subject : ℕ) × (rows : List AttemptRecord) × (limited k s
          ≡ k subject (record s { current = record s.current { attempts = rows } }))
  unfolding attempt_subject
  limited_ok k s {r} e = elim (Bool-cases (str_eq cfg.auth_attempt_pepper "")) [
    | inl absent ↦ ground (arith, absent, e)
    | inr there ↦
        let subject = crypto.hmac cfg.auth_attempt_pepper value in
        let (rows, written) =
          attempt_retry_after_writes cfg now purpose subject maximum s.current in
        elim (Option-cases (attempt_retry_after cfg now purpose subject maximum s.current).0) [
          | inr (delay, blocked) ↦ ground (arith, there, blocked, e)
          | inl free ↦ (
            subject,
            rows,
            limited_free k s there free
                ∙ ap (λ (db : Db). k subject (record s { current = db })) written,
          )
        ]
  ]
