-- ===== src/Works/Conflicts.antt =====
-- Two writes of a work at one revision: the second is refused.
use rulefolio_server.Prelude.{
  ℕ, Bool, false, ◌≡◌, refl, ◌∙◌, ap, List, some, none, arith, scalar, scalar_unmet, update, All,
  All-update, All-pure, Option-cases, inl, inr,
}
use rulefolio_server.Workspaces.Models.{WorkAccess}
use rulefolio_server.Works.Models.{Work}
use rulefolio_server.Works.Guards.{WorkValues, WorkData}
use rulefolio_server.Works.Service.{at_revision, revised, work_row, write_work}
use rulefolio_server.Database.{Db, Session, ok, err, work_revision_conflict, begin}

written :
    (v : WorkValues) (revision : ℕ) (work : Work) (accesses : List WorkAccess) (s : Session)
    {r : WorkData}
    → (write_work v revision (work, accesses) s).0 ≡ ok r
    → (w : Work) × (scalar (at_revision work.id revision) s.current.works ≡ some w)
      × ((write_work v revision (work, accesses) s).1.durable.works
          ≡ update (at_revision work.id revision) (revised v) s.current.works)
unfolding write_work
written v revision work accesses s e =
    elim (Option-cases (scalar (at_revision work.id revision) s.current.works)) [
      | inl stale ↦ ground (arith, e)
      | inr (w, found) ↦ (w, found, ground (arith, e))
    ]

none_left :
    (v : WorkValues) (id revision : ℕ) (works : List Work)
    → All
        (λ w. at_revision id revision w ≡ false)
        (update (at_revision id revision) (revised v) works)
unfolding revised work_row
none_left v id revision works =
    All-update (λ w. Unit {0}) _ (at_revision id revision) (revised v) works
      (λ w u hit. ground (arith, hit)) (λ w u miss. miss) (All-pure (λ w. Unit {0}) works (λ w. tt))

-- After the write of a work at a revision succeeds, it has changed exactly the rows with this id
-- and this revision, and a second write of the work at the same revision is refused as a conflict
-- and changes nothing.
pub stale_write_refused :
    (v v' : WorkValues) (revision : ℕ) (work : Work) (accesses accesses' : List WorkAccess)
    (s : Session) (accepts : ℕ → Bool) {r : WorkData}
    → let after = (write_work v revision (work, accesses) s).1.durable in
      let second = write_work v' revision (work, accesses') (begin after accepts) in
      (write_work v revision (work, accesses) s).0 ≡ ok r
      → (second.0 ≡ err work_revision_conflict)
        × (second.1.durable ≡ after)
        × ((w : Work) × (scalar (at_revision work.id revision) s.current.works ≡ some w)
            × (after.works ≡ update (at_revision work.id revision) (revised v) s.current.works))
unfolding write_work
stale_write_refused v v' revision work accesses accesses' s accepts {r} e =
    let (w, found, wrote) = written v revision work accesses s e in
    let gone =
      ap (λ (rows : List Work). scalar (at_revision work.id revision) rows) wrote
      ∙ scalar_unmet (at_revision work.id revision) _
          (none_left v work.id revision s.current.works) in
    (
      refused v' revision work accesses' _ accepts gone,
      held v' revision work accesses' _ accepts gone,
      (w, found, wrote),
    )
  where
    refused :
        (v : WorkValues) (revision : ℕ) (work : Work) (accesses : List WorkAccess) (db : Db)
        (accepts : ℕ → Bool)
        → scalar (at_revision work.id revision) db.works ≡ none
        → (write_work v revision (work, accesses) (begin db accepts)).0 ≡ err work_revision_conflict
    refused v revision work accesses db accepts gone = rw gone refl

    held :
        (v : WorkValues) (revision : ℕ) (work : Work) (accesses : List WorkAccess) (db : Db)
        (accepts : ℕ → Bool)
        → scalar (at_revision work.id revision) db.works ≡ none
        → (write_work v revision (work, accesses) (begin db accepts)).1.durable ≡ db
    held v revision work accesses db accepts gone = rw gone refl
