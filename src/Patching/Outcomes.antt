-- ===== src/Patching/Outcomes.antt =====
-- What `PatchApplyService` returns of a call, and what the call draws
-- (backend/python-daemon/orchestrator/patching/apply.py).
use agent_backend.Prelude.{
  ℕ, String, Bool, true, false, ◌&&◌, List, [], ◌∷◌, if◌then◌else◌, take_text,
}
use agent_backend.Store.Schema.{Time}
use agent_backend.Memory.Commit.{Commit}
use agent_backend.Patching.Schema.{
  ApplyStatus, applied, applied_tests_passed, applied_tests_failed, TestsStatus, not_run, passed,
  tests_failed,
}
use agent_backend.Patching.Snapshots.{Draws}
use agent_backend.Patching.Rollback.{Restoration}
use agent_backend.Patching.TestRunner.{TestResult, is_zero}
use agent_backend.Patching.Authorize.{Failure}

-- bounded(value): str(value)[:500]
abbrev pub bounded : String → String
bounded s = take_text 500 s

-- What `_commit_patch_memory` returns.
pub data MemoryCommit : Type 0 where
  skipped_no_partition : MemoryCommit
  memory_result : Commit → MemoryCommit

-- What the method returns.
pub data Outcome : Type 0 where
  failure : Failure → Outcome
  snapshot_failure : (apply_run_id text : String) → Outcome
  apply_failure : (apply_run_id : String) → Restoration → Outcome
  tests_blocked_by : (apply_run_id text : String) → Outcome
  finished :
      (apply_run_id : String) (tests : TestsStatus) → List TestResult → MemoryCommit → Outcome

abbrev pub is_good : TestsStatus → Bool
is_good not_run = true
is_good passed = true
is_good _ = false

-- The entry "ok" of the result.
abbrev pub outcome_ok : Outcome → Bool
outcome_ok (finished apply_run_id tests results memory) = is_good tests
outcome_ok _ = false

abbrev pub final_status : TestsStatus → ApplyStatus
final_status passed = applied_tests_passed
final_status tests_failed = applied_tests_failed
final_status _ = applied

-- What a call draws: the id of the run, the ids of its snapshots and of the memory, and the dates.
pub record CallDraws : Type 0 where
  pub apply_run_id : String
  pub snapshots : Draws
  pub memory_id : String
  pub now : ℕ → Time

-- all(item["returncode"] == 0 for item in test_results)
abbrev pub all_zero : List TestResult → Bool
all_zero [] = true
all_zero (t ∷ ts) = is_zero t.returncode && all_zero ts

abbrev pub tests_of : List TestResult → TestsStatus
tests_of results = if all_zero results then passed else tests_failed
