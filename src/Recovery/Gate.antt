-- ===== src/Recovery/Gate.antt =====
-- src/app/recovery/gate.py: what the API and the background processes may do.
use rulefolio_server.Prelude.{Bool, false, ◌||◌, none, some, if◌then◌else◌}
use rulefolio_server.Settings.{Settings}
use rulefolio_server.Recovery.Models.{Stage, is_open_stage, is_api_open}
use rulefolio_server.Database.{Db}

-- `_allowed`, for a set of stages as its test; a read of the state does not fail here
unfoldable pub allowed : Settings → (Stage → Bool) → Db → Bool
allowed cfg stages db =
    if cfg.recovery_deployment_frozen
    then false
    else elim db.recovery [ none ↦ false | some state ↦ stages state.stage ]

unfoldable pub api_requests_allowed : Settings → Db → Bool
unfolding allowed
api_requests_allowed cfg = allowed cfg (λ s. is_api_open s || is_open_stage s)

unfoldable pub dispatcher_allowed : Settings → Db → Bool
unfolding allowed
dispatcher_allowed cfg = allowed cfg is_open_stage
