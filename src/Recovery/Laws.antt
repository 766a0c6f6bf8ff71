-- ===== src/Recovery/Laws.antt =====
-- What the recovery commands of src/app/recovery/service.py leave behind.
use rulefolio_server.Prelude.{
  ℕ, String, Bool, true, false, ◌≡◌, refl, ap, ◌∙◌, sym, some, List, not, is_none, arith, ◌&&◌, All,
  Option-cases, inl, inr, All-update, All-pure, eq_iff,
}
use rulefolio_server.Settings.{Settings}
use rulefolio_server.Identity.Models.{token_active}
use rulefolio_server.Identity.Sessions.{revoke_for_restricted_recovery}
use rulefolio_server.Notifications.Outbox.{
  unstarted, is_suppressible, suppress_for_restricted_recovery,
}
use rulefolio_server.Recovery.Models.{RecoveryState, Stage, recovering, api_open, open_stage}
use rulefolio_server.Recovery.Gate.{api_requests_allowed, dispatcher_allowed}
use rulefolio_server.Recovery.Objects.{RecoveryManifest}
use rulefolio_server.Recovery.Request.{
  require_recovery_id, require_operator_and_reason, strip, fits, matches_recovery_id,
}
use rulefolio_server.Recovery.Service.{
  RecoveryResult, recover, begin_from, begin_recovery, restrict, locked_state, is_for, commit_phase,
  command_ok,
}
use rulefolio_server.Database.{Db, Session, Result, ok, err, begin, Error, bind_ok, ◌>>=◌}

-- nobody is let in: no live session, no active credential, no mail to send
abbrev pub IsRestricted : Db → Type 0
IsRestricted db =
    All (λ r. is_none r.revoked_at ≡ false) db.sessions
    × All (λ c. token_active c.status ≡ false) db.credentials
    × All (λ o. unstarted o ≡ false) db.outbox

converged-IsRestricted :
    (now : ℕ) (db : Db)
    → IsRestricted (suppress_for_restricted_recovery (revoke_for_restricted_recovery now db).1).1
unfolding suppress_for_restricted_recovery revoke_for_restricted_recovery
converged-IsRestricted now db = (
  All-update (λ r. Unit {0}) _ _ _ db.sessions (λ r k hit. refl) (λ r k miss. miss)
      (All-pure (λ r. Unit {0}) db.sessions (λ r. tt)),
  All-update (λ r. Unit {0}) _ _ _ db.credentials (λ r k hit. refl) (λ r k miss. miss)
      (All-pure (λ r. Unit {0}) db.credentials (λ r. tt)),
  All-update (λ r. Unit {0}) _ _ _ db.outbox (λ o k hit. unfold unstarted in ground arith)
      (λ o k miss. unfold is_suppressible unstarted in ground arith)
      (All-pure (λ r. Unit {0}) db.outbox (λ r. tt)),
)

begin_from_started :
    (stage : Stage) (m : RecoveryManifest) (operator reason : String) (old : RecoveryState)
    (s : Session) {r : RecoveryState}
    → s.current.recovery ≡ some old
    → old.stage ≡ stage
    → (begin_from stage m operator reason old s).0 ≡ ok r
    → ((begin_from stage m operator reason old s).1.current.recovery ≡ some r)
      × (r.stage ≡ recovering)
      × (is_for m r ≡ true)
unfolding begin_from is_for
begin_from_started api_open m operator reason old s found at e = ground arith
begin_from_started recovering m operator reason old s found at e = ground arith
begin_from_started open_stage m operator reason old s found at e =
    ground (arith, eq_iff m.recovery_id m.recovery_id)

begin_recovery_from :
    (m : RecoveryManifest) (operator reason : String) (s : Session) {old : RecoveryState}
    → s.current.recovery ≡ some old
    → begin_recovery m operator reason s ≡ begin_from old.stage m operator reason old s
unfolding begin_recovery locked_state
begin_recovery_from m operator reason s {old} found = ground (arith, found)

-- what the beginning of a recovery leaves in the working copy
begin_recovery_started :
    (m : RecoveryManifest) (operator reason : String) (s : Session) {r : RecoveryState}
    → (begin_recovery m operator reason s).0 ≡ ok r
    → ((begin_recovery m operator reason s).1.current.recovery ≡ some r)
      × (r.stage ≡ recovering)
      × (is_for m r ≡ true)
begin_recovery_started m operator reason s {r} e = elim (Option-cases s.current.recovery) [
  | inl missing ↦ unfold begin_recovery locked_state in ground arith
  | inr (old, found) ↦ rw (begin_recovery_from m operator reason s found) (
      begin_from_started old.stage m operator reason old s found refl
        (rw (begin_recovery_from m operator reason s found) at e))
]

-- a convergence that is committed writes what the two statements make of the tables
restrict_writes :
    (now : ℕ) (r : RecoveryState) (operator reason : String) (s : Session)
    {counts : List (String × ℕ)}
    → (restrict now r operator reason s).0 ≡ ok counts
    → let db' = (restrict now r operator reason s).1.durable in
      let db =
        (suppress_for_restricted_recovery (revoke_for_restricted_recovery now s.current).1).1 in
      (db'.sessions ≡ db.sessions)
      × (db'.credentials ≡ db.credentials)
      × (db'.outbox ≡ db.outbox)
      × (db'.recovery ≡ s.current.recovery)
unfolding restrict locked_state commit_phase suppress_for_restricted_recovery
    revoke_for_restricted_recovery
restrict_writes now r operator reason s e = ground arith

restrict_done :
    (now : ℕ) (r : RecoveryState) (operator reason : String) (s : Session)
    {counts : List (String × ℕ)}
    → (restrict now r operator reason s).0 ≡ ok counts
    → let db' = (restrict now r operator reason s).1.durable in
      IsRestricted db' × (db'.recovery ≡ s.current.recovery)
restrict_done now r operator reason s e =
    let (a, b, c, d) = restrict_writes now r operator reason s e in
    let (x, y, z) = converged-IsRestricted now s.current in ((rw a x, rw b y, rw c z), d)

-- the two steps of a recovery, in one transaction
both_done :
    (now : ℕ) (m : RecoveryManifest) (operator reason : String) (s : Session)
    {counts : List (String × ℕ)}
    → let both = begin_recovery m operator reason >>= λ r. restrict now r operator reason in
      (both s).0 ≡ ok counts
      → IsRestricted (both s).1.durable
        × ((r : RecoveryState) × ((both s).1.durable.recovery ≡ some r)
            × (r.stage ≡ recovering)
            × (is_for m r ≡ true))
both_done now m operator reason s e =
    let (r, begun, rest) =
      bind_ok (begin_recovery m operator reason) (λ r. restrict now r operator reason) s e in
    let (done, kept) = restrict_done now r operator reason _ (sym (ap (λ x. x.0) rest) ∙ e) in
    let (written, at, mine) = begin_recovery_started m operator reason s begun in
    rw rest (done, (r, kept ∙ written, at, mine))

module _ (cfg : Settings) (now : ℕ) (m : RecoveryManifest) (operator reason : String) where
  abbrev ran : Db → (ℕ → Bool) → Result RecoveryResult × Session
  ran db accepts = recover cfg now m operator reason (begin db accepts)

  -- When the command `recover` fails, for whatever reason, nothing of the database is changed.
  pub recover_fails :
      (db : Db) (accepts : ℕ → Bool) {problem : Error}
      → (ran db accepts).0 ≡ err problem
      → (ran db accepts).1.durable ≡ db
  unfolding recover begin_recovery restrict locked_state commit_phase
  recover_fails db accepts {problem} e = ground arith

  not-false : (b : Bool) → not b ≡ false → b ≡ true
  not-false b h = ground arith

  -- the transaction of a recovery that succeeds
  recover_runs :
      (db : Db) (accepts : ℕ → Bool) {result : RecoveryResult}
      → (ran db accepts).0 ≡ ok result
      → let both =
          (begin_recovery m (strip operator) (strip reason) >>= λ r.
          restrict now r (strip operator) (strip reason))
            (begin db accepts) in
        (both.0 ≡ ok result.counts)
        × ((ran db accepts).1 ≡ both.1)
        × (cfg.recovery_deployment_frozen ≡ true)
  unfolding recover require_recovery_id require_operator_and_reason
  recover_runs db accepts e =
      let (frozen, (a, counted, value), same) =
        command_ok (not cfg.recovery_deployment_frozen) (not (matches_recovery_id m.recovery_id))
          (not (fits 128 (strip operator) && fits 256 (strip reason))) _ _ _
          (strip operator, strip reason)
          (λ q. begin_recovery m q.0 q.1 >>= λ r. restrict now r q.0 q.1)
          (λ counts. record {
            status = "restricted_access_confirmation_required";
            phase = "recovering";
            counts = counts;
          })
          (begin db accepts) e in
      (
        counted ∙ ap (λ (x : RecoveryResult). ok x.counts) (sym value),
        same,
        not-false cfg.recovery_deployment_frozen frozen,
      )

  -- When the command `recover` succeeds, what it has committed has no live session, no active one-
  -- time credential and no mail that is waiting or claimed without an SMTP start; its state is in
  -- the stage "recovering", for this manifest and in restricted mode; the deployment was frozen;
  -- and under any settings the API and the dispatcher are shut.
  pub recover_restricts :
      (db : Db) (accepts : ℕ → Bool) {result : RecoveryResult}
      → (ran db accepts).0 ≡ ok result
      → let db' = (ran db accepts).1.durable in
        IsRestricted db'
        × ((r : RecoveryState) × (db'.recovery ≡ some r)
            × (r.stage ≡ recovering)
            × (is_for m r ≡ true))
        × (cfg.recovery_deployment_frozen ≡ true)
        × ((other : Settings)
            → (api_requests_allowed other db' ≡ false) × (dispatcher_allowed other db' ≡ false))
  unfolding api_requests_allowed dispatcher_allowed
  recover_restricts db accepts e =
      let (counted, same, frozen) = recover_runs db accepts e in
      let (closed, (r, written, at, mine)) =
        both_done now m (strip operator) (strip reason) (begin db accepts) counted in
      rw same (closed, (r, written, at, mine), frozen, λ other. ground (arith, written, at))
