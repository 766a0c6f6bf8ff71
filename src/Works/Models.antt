-- ===== src/Works/Models.antt =====
-- The table of works in src/app/works/models.py, without the rule materials and the times.
use rulefolio_server.Prelude.{ℕ, String}

pub record Work : Type 0 where
  pub id : ℕ
  pub workspace_id : ℕ
  pub name : String
  pub description : String
  pub creative_stage : String
  pub target_experience : String
  pub min_players : ℕ
  pub max_players : ℕ
  pub estimated_duration_minutes : ℕ
  pub revision : ℕ
