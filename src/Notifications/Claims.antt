-- ===== src/Notifications/Claims.antt =====
-- What the claims of the dispatcher guarantee between several dispatchers.
use rulefolio_server.Prelude.{
  ℕ, suc, Bool, ◌≡◌, ◌≢◌, ◌≤◌, refl, sym, ap, ◌∙◌, true, false, some, none, arith, List,
  Option-cases, Bool-cases, inl, inr, update, earliest, earliest-least, scalar-hit, scalar-none,
  scalar_unmet, ◌==◌, All, All-update, All-map, All-pure, All-scalar, All-pick, not, ◌&&◌,
  update-none, pick-hit,
}
use mathlib.Core.Option.{some-injective, none-ne-some}
use rulefolio_server.Notifications.Models.{MailOutbox}
use rulefolio_server.Notifications.Dispatcher.{
  DispatchClaim, claim_row, is_due, is_stale, recovered, recover_stale_rows, start_rows, may_start,
  write_claim, holds_claim, load_claim, taken,
}
use rulefolio_server.Notifications.Keys.{row, IsKeyed}
use rulefolio_server.Database.{Db}

-- a claim that no row holds any more writes nothing
abbrev pub IsInert : DispatchClaim → Db → Type 0
IsInert c db =
    ((write : MailOutbox → MailOutbox) → write_claim c write db ≡ db)
    × ((now later : ℕ) → start_rows c now later db ≡ db)

pub lost_claim-IsInert : (c : DispatchClaim) (db : Db) → load_claim c db ≡ none → IsInert c db
unfolding load_claim write_claim start_rows
lost_claim-IsInert c db lost = (
  λ write. rw (update-none (holds_claim c) write db.outbox none_held),
  λ now later. rw (update-none (may_start c now db) _ db.outbox (none_may now)),
)
  where
    none_held : All (λ o. holds_claim c o ≡ false) db.outbox
    none_held = scalar-none (holds_claim c) db.outbox lost

    none_may : (now : ℕ) → All (λ o. may_start c now db o ≡ false) db.outbox
    none_may now =
        All-map (λ o. holds_claim c o ≡ false) (λ o. may_start c now db o ≡ false) db.outbox
          (λ o e. unfold may_start in rw e refl) none_held

same_row :
    (rows : List MailOutbox) (n : ℕ) {x o : MailOutbox}
    → row x.id rows ≡ some x
    → row o.id rows ≡ some o
    → x.id ≡ n
    → o.id ≡ n
    → x ≡ o
same_row rows n {x} {o} ex eo xn on =
    some-injective x o (sym ex ∙ ap (λ (k : ℕ). row k rows) (xn ∙ sym on) ∙ eo)

holds_claim-id : (c : DispatchClaim) (o : MailOutbox) → holds_claim c o ≡ true → o.id ≡ c.outbox_id
unfolding holds_claim
holds_claim-id c o h = ground arith

recovered-unheld : (c : DispatchClaim) (o : MailOutbox) → holds_claim c (recovered o) ≡ false
unfolding holds_claim recovered
recovered-unheld c o = ground arith

-- In a keyed outbox a row that the update passes over is not the stale row of the claim.
passed_over-unheld :
    (p : MailOutbox → Bool) (c : DispatchClaim) (rows : List MailOutbox) {o : MailOutbox}
    (x : MailOutbox)
    → row o.id rows ≡ some o
    → holds_claim c o ≡ true
    → p o ≡ true
    → row x.id rows ≡ some x
    → p x ≡ false
    → holds_claim c x ≡ false
passed_over-unheld p c rows {o} x eo held reached ex missed = elim (Bool-cases (holds_claim c x)) [
  | inr e ↦ e
  | inl e ↦ cc (
    reached,
    missed,
    ap p (same_row rows c.outbox_id ex eo (holds_claim-id c x e) (holds_claim-id c o held)),
  )
]

-- Once a stale dispatch that no other transaction has locked is recovered, in an outbox whose rows
-- have different ids, the dispatcher that had claimed the mail has lost it: its claim is not
-- found, and neither its SMTP start nor any write under its claim changes the outbox.
pub recovery_revokes_claim :
    (locked : ℕ → Bool) (cutoff : ℕ) (c : DispatchClaim) (db : Db) {o : MailOutbox}
    → IsKeyed db.outbox
    → load_claim c db ≡ some o
    → is_stale cutoff o ≡ true
    → locked o.id ≡ false
    → (load_claim c (recover_stale_rows locked cutoff db) ≡ none)
      × IsInert c (recover_stale_rows locked cutoff db)
unfolding load_claim recover_stale_rows
recovery_revokes_claim locked cutoff c db {o} keyed held stale free =
    (lost, lost_claim-IsInert c (recover_stale_rows locked cutoff db) lost)
  where
    reached : (is_stale cutoff o && not (locked o.id)) ≡ true
    reached = rw (stale, free) refl

    lost : load_claim c (recover_stale_rows locked cutoff db) ≡ none
    lost = scalar_unmet (holds_claim c) _ (
        All-update (λ x. row x.id db.outbox ≡ some x) (λ x. holds_claim c x ≡ false)
          (λ x. is_stale cutoff x && not (locked x.id)) recovered db.outbox
          (λ x e hit. recovered-unheld c x)
          (λ x e miss.
            passed_over-unheld (λ y. is_stale cutoff y && not (locked y.id)) c db.outbox x
              (All-scalar (λ y. row y.id db.outbox ≡ some y) (holds_claim c) db.outbox keyed held)
              (scalar-hit (holds_claim c) db.outbox held) reached e miss)
          keyed)

abbrev pub created : MailOutbox → ℕ
created o = o.created_at

abbrev pub is_claimable : (ℕ → Bool) → (now : ℕ) → MailOutbox → Bool
is_claimable locked now o = is_due now o && not (locked o.id)

-- what a claim was made of
claim-from :
    (locked : ℕ → Bool) (k now later : ℕ) (db : Db) {c : DispatchClaim}
    → (claim_row locked k now later db).0 ≡ some c
    → (o : MailOutbox) × (earliest created (is_claimable locked now) db.outbox ≡ some o)
      × (c.outbox_id ≡ o.id)
      × (c.attempt_count ≡ suc o.attempt_count)
      × ((claim_row locked k now later db).1.outbox
          ≡ update (λ p. p.id == o.id) (taken k later) db.outbox)
unfolding claim_row
claim-from locked k now later db {c} e =
    elim (Option-cases (earliest created (is_claimable locked now) db.outbox)) [
      | inl idle ↦ absurd (none-ne-some c (rw (idle, claim_row) at e))
      | inr (o, found) ↦ (
        o,
        found,
        ap (λ (d : DispatchClaim). d.outbox_id)
            (sym (some-injective _ c (rw (found, claim_row) at e))),
        ap (λ (d : DispatchClaim). d.attempt_count)
            (sym (some-injective _ c (rw (found, claim_row) at e))),
        rw (found, claim_row) refl,
      )
    ]

-- A dispatcher claims, in an outbox whose rows have different ids, a pending mail that is due and
-- not locked by another transaction; no such mail was created earlier, and the claim counts one
-- attempt more than the mail had.
pub claim_oldest :
    (locked : ℕ → Bool) (k now later : ℕ) (db : Db) {c : DispatchClaim}
    → IsKeyed db.outbox
    → (claim_row locked k now later db).0 ≡ some c
    → (o : MailOutbox) × (row c.outbox_id db.outbox ≡ some o)
      × (is_claimable locked now o ≡ true)
      × (c.attempt_count ≡ suc o.attempt_count)
      × All (λ p. is_claimable locked now p ≡ true → o.created_at ≤ p.created_at) db.outbox
claim_oldest locked k now later db {c} keyed e =
    let (o, found, same, count, _) = claim-from locked k now later db e in
    (
      o,
      rw same (
          All-pick (λ x. row x.id db.outbox ≡ some x) _ (is_claimable locked now) db.outbox keyed
            found),
      pick-hit _ (is_claimable locked now) db.outbox found,
      count,
      earliest-least created (is_claimable locked now) db.outbox found,
    )

-- after a claim of one mail, a mail that is claimable is another
taken-apart :
    (locked : ℕ → Bool) (k later now n : ℕ) (rows : List MailOutbox)
    → All
        (λ x. is_claimable locked now x ≡ true → x.id ≢ n)
        (update (λ p. p.id == n) (taken k later) rows)
unfolding is_due
taken-apart locked k later now n rows =
    All-update (λ x. Unit {0}) (λ x. is_claimable locked now x ≡ true → x.id ≢ n) _ _ rows
      (λ x u hit due. ground arith) (λ x u miss due same. ground arith)
      (All-pure (λ x. Unit {0}) rows (λ x. tt))

-- When a second dispatcher claims a mail directly after a first one has, the two claims are of
-- mails with different ids, whatever rows are locked and whatever the clock shows.
pub claims_differ :
    (locked locked' : ℕ → Bool) (k k' now now' later later' : ℕ) (db : Db) {c c' : DispatchClaim}
    → (claim_row locked k now later db).0 ≡ some c
    → (claim_row locked' k' now' later' (claim_row locked k now later db).1).0 ≡ some c'
    → c'.outbox_id ≢ c.outbox_id
claims_differ locked locked' k k' now now' later later' db {c} {c'} e e' =
    let (o, found, same, _, written) = claim-from locked k now later db e in
    let (o', found', same', _, _) =
      claim-from locked' k' now' later' (claim_row locked k now later db).1 e' in
    let apart = rw (← written) at (taken-apart locked' k later now' o.id db.outbox) in
    λ clash.
      All-pick (λ x. is_claimable locked' now' x ≡ true → x.id ≢ o.id) _ (is_claimable locked' now')
        _ apart found' (pick-hit _ (is_claimable locked' now') _ found') (sym same' ∙ clash ∙ same)

-- Once the update of `_start_smtp` has reached a mail, in an outbox whose rows have different ids,
-- no dispatcher, with the same claim or any other and at any time, meets the conditions of that
-- update for this mail in the outbox that it leaves.
pub starts_once :
    (id : ℕ) (c c' : DispatchClaim) (now later now' : ℕ) (db : Db) {o : MailOutbox}
    → IsKeyed db.outbox
    → row id db.outbox ≡ some o
    → o.id ≡ id
    → may_start c now db o ≡ true
    → All
        (λ x. x.id ≡ id → may_start c' now' (start_rows c now later db) x ≡ false)
        (start_rows c now later db).outbox
unfolding start_rows
starts_once id c c' now later now' db {o} keyed found same started =
    All-update (λ x. row x.id db.outbox ≡ some x)
      (λ x. x.id ≡ id → may_start c' now' (start_rows c now later db) x ≡ false) _ _ db.outbox
      (λ x e hit same'. unfold may_start in ground arith)
      (λ x e miss same'. cc (
        started,
        miss,
        ap (may_start c now db)
            (same_row db.outbox id e (ap (λ (k : ℕ). row k db.outbox) same ∙ found) same' same),
      ))
      keyed
