-- ===== src/Files/Models.antt =====
-- The columns of src/app/files/models.py that the recovery check reads.
use rulefolio_server.Prelude.{ℕ, String, Bool, true, false}

pub data FileStatus : Type 0 where
  pending ready failed : FileStatus

abbrev pub is_ready : FileStatus → Bool
is_ready ready = true
is_ready _ = false

pub record StoredFile : Type 0 where
  pub id : ℕ
  pub work_id : ℕ
  pub object_key : String
  pub status : FileStatus
  pub size_bytes : ℕ
  pub sha256 : ℕ
