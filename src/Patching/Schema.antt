-- ===== src/Patching/Schema.antt =====
-- The tables of patches and the objects that the repository passes
-- (backend/python-daemon/orchestrator/db_bootstrap.py and patching/models.py).
use agent_backend.Prelude.{ℕ, String, Bool, Option, List}
use agent_backend.Store.Schema.{Time}

-- The lists stand for their JSON texts.
pub record PatchArtifact : Type 0 where
  pub patch_id : String
  pub run_id : Option String
  pub project_id : Option String
  pub project_scope_hash : Option String
  pub selected_skill_id : Option String
  pub target_repo : String
  pub status : String
  pub patch_path : String
  pub diff_sha256 : String
  pub affected_paths : List String
  pub created_at : Time
  pub validation_status : String
  pub validation_error : Option String

pub record ApprovalRecord : Type 0 where
  pub approval_id : String
  pub patch_id : String
  pub run_id : Option String
  pub project_id : Option String
  pub project_scope_hash : Option String
  pub target_repo : String
  pub is_approved : Bool
  pub approved_by : Option String
  pub approved_at : Option Time
  pub approval_scope : Option String
  pub approved_diff_sha256 : String
  pub declared_tests : List (List String)
  pub created_at : Time
  pub notes : Option String

pub data ApplyStatus : Type 0 where
  snapshotting snapshotted snapshot_failed applied : ApplyStatus
  apply_failed_rolled_back apply_failed_rollback_failed tests_blocked : ApplyStatus
  applied_tests_passed applied_tests_failed rolled_back : ApplyStatus

pub data TestsStatus : Type 0 where
  not_run passed tests_failed blocked : TestsStatus

pub record PatchApplyRun : Type 0 where
  pub apply_run_id : String
  pub patch_id : String
  pub approval_id : String
  pub run_id : Option String
  pub project_id : Option String
  pub project_scope_hash : Option String
  pub target_repo : String
  pub status : ApplyStatus
  pub applied_at : Option Time
  pub completed_at : Option Time
  pub rollback_available : Bool
  pub tests_status : Option TestsStatus
  pub bounded_error : Option String

pub record FileSnapshot : Type 0 where
  pub snapshot_file_id : String
  pub apply_run_id : String
  pub patch_id : String
  pub target_path : String
  pub pre_apply_sha256 : Option String
  pub pre_apply_size : Option ℕ
  pub backup_path : Option String
  pub created_at : Time
  pub created_target : Bool

-- The tables of queue.db that the patch services keep.
pub record PatchDb : Type 0 where
  pub patch_artifacts : List PatchArtifact
  pub approval_records : List ApprovalRecord
  pub patch_apply_runs : List PatchApplyRun
  pub file_snapshots : List FileSnapshot
