-- ===== src/Examples/Works.antt =====
-- The works of a workspace at concrete inputs.
use rulefolio_server.Prelude.{ℕ, none, some, [], ◌≡◌, refl, arith, scalar, select, update, rowcount}
use rulefolio_server.Workspaces.Models.{Role, maintainer, organizer}
use rulefolio_server.Works.Writes.{Managed}
use rulefolio_server.Works.Guards.{work_data}
use rulefolio_server.Works.Models.{Work}
use rulefolio_server.Works.Service.{
  work_role, write_work, set_work_access, revoke_work_access, at_revision, revised,
}
use rulefolio_server.Works.Steps.{stay, then_step, revokes, Reach-Managed}
use rulefolio_server.Works.Conflicts.{stale_write_refused}
use rulefolio_server.Works.Roles.{roles, assign}
use rulefolio_server.Works.Refinement.{set_refines, revoke_refines}
use rulefolio_server.Workspaces.Members.{is_access, maintains}
use rulefolio_server.Database.{Db, begin, err, work_revision_conflict}
use rulefolio_server.Examples.Fixtures.{taken_always}
use rulefolio_server.Examples.Teams.{everything, label, str, work, values, team_db}

abbrev after_revocation : Db
after_revocation =
    (revoke_work_access everything everything label 1 5 6 2 (begin team_db taken_always)).1.durable

team_db-Managed : Managed team_db
unfolding rowcount maintains is_access
team_db-Managed = ((ground arith, tt), λ w a. ground arith, (ground arith, (ground arith, tt)))

Reach-Managed_example : Managed after_revocation
Reach-Managed_example =
    Reach-Managed label str team_db after_revocation
      (then_step team_db team_db after_revocation (stay team_db)
        (revokes everything everything taken_always 1 5 6 2 team_db))
      team_db-Managed

set_refines_example :
    (role : Role) × (work_role "organizer" ≡ some role)
    × ((w a : ℕ)
        → roles
            (set_work_access everything everything label 1 5 6 2 "organizer"
              (begin team_db taken_always)).1.durable
            w
            a
          ≡ assign 6 2 (some role) (roles team_db) w a)
unfolding set_work_access scalar select
set_refines_example =
    set_refines everything everything label 1 5 6 2 "organizer" team_db taken_always
      {r = (2, organizer)} refl

revoke_refines_example : roles after_revocation 6 2 ≡ assign 6 2 none (roles team_db) 6 2
unfolding revoke_work_access scalar select
revoke_refines_example =
    revoke_refines everything everything label 1 5 6 2 team_db taken_always {r = tt} refl 6 2

abbrev first_write : Db
first_write = (write_work values 1 (work, []) (begin team_db taken_always)).1.durable

stale_write_refused_example :
    ((write_work values 1 (work, []) (begin first_write taken_always)).0
      ≡ err work_revision_conflict)
    × ((write_work values 1 (work, []) (begin first_write taken_always)).1.durable ≡ first_write)
    × ((w : Work) × (scalar (at_revision 6 1) team_db.works ≡ some w)
        × (first_write.works ≡ update (at_revision 6 1) (revised values) team_db.works))
unfolding write_work scalar
stale_write_refused_example =
    stale_write_refused values values 1 work [] [] (begin team_db taken_always) taken_always
      {r = work_data (revised values work) maintainer} refl
