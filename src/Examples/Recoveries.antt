-- ===== src/Examples/Recoveries.antt =====
-- The recovery commands at concrete inputs.
use rulefolio_server.Prelude.{
  ℕ, String, true, false, none, some, List, [], ◌∷◌, ◌≡◌, ◌⊎◌, refl, is_none, select,
}
use rulefolio_server.Settings.{Settings}
use rulefolio_server.Recovery.Models.{RecoveryState, recovering, api_open, restricted}
use rulefolio_server.Recovery.Gate.{api_requests_allowed, dispatcher_allowed}
use rulefolio_server.Recovery.Objects.{RecoveryManifest, Storage, missing, object_checks}
use rulefolio_server.Recovery.Service.{recover, is_for, is_text}
use rulefolio_server.Recovery.Laws.{IsRestricted, recover_restricts, recover_fails}
use rulefolio_server.Recovery.Reopen.{verify_and_open, any_positive, opened_api, open_dispatcher}
use rulefolio_server.Recovery.ReopenLaws.{opened_verified, failure_holds, open_dispatcher_opens}
use rulefolio_server.Database.{Db, begin}
use rulefolio_server.Examples.Fixtures.{cfg, frozen, taken_always, db}

abbrev manifest : RecoveryManifest
manifest = record {
  recovery_id = "r1";
  target_at = 500;
  archive_sha256 = 1;
  raw_sha256 = 2;
  objects = [];
}

abbrev after_recover : Db
after_recover = (recover frozen 600 manifest "ops" "restore" (begin db taken_always)).1.durable

recover_restricts_example :
    IsRestricted after_recover
    × ((r : RecoveryState) × (after_recover.recovery ≡ some r)
        × (r.stage ≡ recovering)
        × (is_for manifest r ≡ true))
    × (frozen.recovery_deployment_frozen ≡ true)
    × ((other : Settings)
        → (api_requests_allowed other after_recover ≡ false)
          × (dispatcher_allowed other after_recover ≡ false))
unfolding recover
recover_restricts_example =
    recover_restricts frozen 600 manifest "ops" "restore" db taken_always refl

recover_fails_example :
    (recover cfg 600 manifest "ops" "restore" (begin db taken_always)).1.durable ≡ db
unfolding recover
recover_fails_example = recover_fails cfg 600 manifest "ops" "restore" db taken_always refl

abbrev no_checks : Db → List (String × ℕ)
no_checks _ = ("orphans", 0) ∷ []

abbrev one_failure : Db → List (String × ℕ)
one_failure _ = ("orphans", 1) ∷ []

abbrev storage : Storage
storage = record { list_object_keys = some []; open_object = λ key. missing }

abbrev confirmed_state : RecoveryState
confirmed_state = record {
  stage = recovering;
  recovery_id = some "r1";
  manifest_sha256 = some 2;
  recovery_target_at = some 500;
  authorization_mode = some restricted;
  restricted_access_confirmed_at = some 650;
  verified_at = none;
  operator = some "ops";
}

abbrev confirmed_db : Db
confirmed_db = record db { recovery = some confirmed_state }

opened_verified_example :
    (r : RecoveryState) × (confirmed_db.recovery ≡ some r)
    × (r.stage ≡ recovering)
    × (is_for manifest r ≡ true)
    × (is_none r.restricted_access_confirmed_at ≡ false)
    × (any_positive (no_checks confirmed_db) ≡ false)
    × ((object_checks storage confirmed_db.files manifest).passed ≡ true)
    × ((verify_and_open no_checks storage 700 manifest "ops" "restore"
          (begin confirmed_db taken_always)).1.durable.recovery
        ≡ some (opened_api 700 r))
unfolding verify_and_open object_checks select
opened_verified_example =
    opened_verified no_checks storage 700 manifest "ops" "restore" (begin confirmed_db taken_always)
      refl

abbrev after_failure : Db
after_failure =
    (verify_and_open one_failure storage 700 manifest "ops" "restore"
      (begin confirmed_db taken_always)).1.durable

failure_holds_example :
    (after_failure ≡ confirmed_db)
    ⊎ ((r : RecoveryState) × (after_failure.recovery ≡ some r) × (r.stage ≡ recovering))
unfolding verify_and_open object_checks
failure_holds_example =
    failure_holds one_failure storage 700 manifest "ops" "restore" confirmed_db taken_always refl

abbrev verified_db : Db
verified_db = record db { recovery = some (record confirmed_state { stage = api_open }) }

abbrev after_open : Db
after_open = (open_dispatcher cfg "r1" "ops" "resume" (begin verified_db taken_always)).1.durable

open_dispatcher_opens_example :
    (dispatcher_allowed cfg after_open ≡ true)
    × (api_requests_allowed cfg after_open ≡ true)
    × ((r : RecoveryState) × (verified_db.recovery ≡ some r)
        × (r.stage ≡ api_open)
        × (is_text r.recovery_id "r1" ≡ true))
unfolding open_dispatcher
open_dispatcher_opens_example =
    open_dispatcher_opens cfg "r1" "ops" "resume" verified_db taken_always refl
