-- ===== src/Identity/Attempts.antt =====
-- The limiter of failed attempts in src/app/identity/service.py.
use rulefolio_server.Prelude.{
  ℕ, suc, ◌+◌, ◌-◌, ◌/◌, max, String, Bool, ◌&&◌, Option, none, some, ◌∷◌, ◌==◌, leb, str_eq,
  if◌then◌else◌, scalar, update, delete,
}
use rulefolio_server.Settings.{Settings, minutes}
use rulefolio_server.Crypto.{Crypto}
use rulefolio_server.Identity.Models.{AttemptPurpose, AttemptRecord, same_attempt}
use rulefolio_server.Database.{Db, Exec, raise, pure, runtime_error}

-- the key of an attempt record
unfoldable pub is_subject : AttemptPurpose → ℕ → AttemptRecord → Bool
is_subject purpose subject_hash r = same_attempt r.purpose purpose && r.subject_hash == subject_hash

unfoldable pub attempt_of : AttemptPurpose → ℕ → Db → Option AttemptRecord
unfolding is_subject
attempt_of purpose subject_hash db = scalar (is_subject purpose subject_hash) db.attempts

abbrev pub restarted : (now count : ℕ) → AttemptRecord → AttemptRecord
restarted now count r = record r { window_started_at = now; count = count }

abbrev pub counted : AttemptRecord → AttemptRecord
counted r = record r { count = suc r.count }

abbrev pub write_attempt : AttemptPurpose → ℕ → (AttemptRecord → AttemptRecord) → Db → Db
write_attempt purpose subject_hash f db = record db {
  attempts = update (is_subject purpose subject_hash) f db.attempts;
}

module _ (cfg : Settings) where
  -- `_attempt_subject`: the HMAC of the subject under the configured pepper
  unfoldable pub attempt_subject : Crypto → String → Exec ℕ
  attempt_subject crypto value =
      if str_eq cfg.auth_attempt_pepper ""
      then raise runtime_error
      else pure (crypto.hmac cfg.auth_attempt_pepper value)

  abbrev pub window : ℕ
  window = minutes cfg.auth_attempt_window_minutes

  -- `now - window_started_at >= window`, which may be compared before the window begins
  abbrev pub is_over : (now : ℕ) → AttemptRecord → Bool
  is_over now r = leb (r.window_started_at + window) now

  -- `max(1, int((window - (now - window_started_at)).total_seconds()))`
  abbrev pub seconds_left : (now : ℕ) → AttemptRecord → ℕ
  seconds_left now r = max 1 ((r.window_started_at + window - now) / 1000000)

  -- `_attempt_retry_after`
  unfoldable pub attempt_retry_after :
      (now : ℕ) → AttemptPurpose → (subject_hash maximum : ℕ) → Db → Option ℕ × Db
  unfolding attempt_of
  attempt_retry_after now purpose subject_hash maximum db =
      elim (attempt_of purpose subject_hash db) [
        | none ↦ (none, db)
        | some r ↦
            if is_over now r
            then (none, write_attempt purpose subject_hash (restarted now 0) db)
            else if leb maximum r.count
            then (some (seconds_left now r), db)
            else (none, db)
      ]

  -- `_record_attempt`
  unfoldable pub record_attempt : (id now : ℕ) → AttemptPurpose → (subject_hash : ℕ) → Db → Db
  unfolding attempt_of
  record_attempt id now purpose subject_hash db = elim (attempt_of purpose subject_hash db) [
    | none ↦ record db {
      attempts =
          record {
            id = id;
            purpose = purpose;
            subject_hash = subject_hash;
            window_started_at = now;
            count = 1;
          }
          ∷ db.attempts;
    }
    | some r ↦
        if is_over now r
        then write_attempt purpose subject_hash (restarted now 1) db
        else write_attempt purpose subject_hash counted db
  ]

-- `_clear_attempt`
unfoldable pub clear_attempt : AttemptPurpose → ℕ → Db → Db
unfolding is_subject
clear_attempt purpose subject_hash db = record db {
  attempts = delete (is_subject purpose subject_hash) db.attempts;
}
