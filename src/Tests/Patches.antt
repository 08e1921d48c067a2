-- ===== src/Tests/Patches.antt =====
-- A disk of texts, and a patch that is snapshotted, applied and rolled back on it.
use Prim.Native.String.{◌++◌ as ◌++ˢ◌}
use agent_backend.Prelude.{
  if◌then◌else◌, raised, ℕ, ◌+◌, String, ◌≡◌, refl, true, false, none, some, List, [], ◌∷◌, zero,
  suc, done,
}
use agent_backend.Json.{null, end}
use agent_backend.Memory.Commit.{Vectors}
use agent_backend.Patching.Schema.{
  PatchArtifact, ApprovalRecord, PatchDb, FileSnapshot, PatchApplyRun, snapshotting, not_run,
}
use agent_backend.Patching.Snapshots.{Place, Draws}
use agent_backend.Patching.Rollback.{restore_apply_run}
use agent_backend.Patching.TestRunner.{Runner, validate_argv, has_metacharacter}
use agent_backend.Patching.TestRunner
use agent_backend.Patching.Io.{Io}
use agent_backend.Patching.Os.{CompletedText}
use agent_backend.Patching.Apply.{World, ApplyService, apply_approved_patch}
use agent_backend.Patching.Outcomes.{CallDraws, finished, failure, skipped_no_partition}
use agent_backend.Policy.GitCommands.{meets}
use agent_backend.Patching.Authorize.{approval_not_found}
use agent_backend.Patching.Safety.{IsUntouchedOrAuthorized, apply-IsUntouchedOrAuthorized}
use agent_backend.Patching.Recorded.{Recorded, apply-Recorded}
use agent_backend.Patching.Declared.{IsDeclared, run-only_declared}
use agent_backend.Tests.Disk.{Files, put, os}

abbrev diff : String
diff = "--- a/a.txt\n+++ b/a.txt\n"

abbrev files : Files
files = put "/work/a.txt" (some "old") (put "/patches/p1" (some diff) (λ q. none))

abbrev artifact : PatchArtifact
artifact = record {
  patch_id = "p1";
  run_id = none;
  project_id = none;
  project_scope_hash = none;
  selected_skill_id = none;
  target_repo = "/work";
  status = "DRAFT";
  patch_path = "/patches/p1";
  diff_sha256 = diff;
  affected_paths = "a.txt" ∷ [];
  created_at = 1;
  validation_status = "OK";
  validation_error = none;
}

abbrev approval : ApprovalRecord
approval = record {
  approval_id = "a1";
  patch_id = "p1";
  run_id = none;
  project_id = none;
  project_scope_hash = none;
  target_repo = "/work";
  is_approved = true;
  approved_by = some "me";
  approved_at = some 2;
  approval_scope = none;
  approved_diff_sha256 = diff;
  declared_tests = [];
  created_at = 2;
  notes = none;
}

abbrev run : PatchApplyRun
run = record {
  apply_run_id = "run1";
  patch_id = "p1";
  approval_id = "a1";
  run_id = none;
  project_id = none;
  project_scope_hash = none;
  target_repo = "/work";
  status = snapshotting;
  applied_at = none;
  completed_at = none;
  rollback_available = false;
  tests_status = none;
  bounded_error = none;
}

abbrev db : PatchDb
db = record {
  patch_artifacts = artifact ∷ [];
  approval_records = approval ∷ [];
  patch_apply_runs = run ∷ [];
  file_snapshots = [];
}

abbrev snapshot_ids : ℕ → String
snapshot_ids zero = "s0"
snapshot_ids (suc n) = "s1"

abbrev draws : Draws
draws = record { snapshot_id = snapshot_ids; snapshot_time = λ n. n }

abbrev before : Place os
before = record { disk = files; db = db }

abbrev targets : List String
targets = "a.txt" ∷ "new.txt" ∷ []

abbrev kept : FileSnapshot
kept = record {
  snapshot_file_id = "s0";
  apply_run_id = "run1";
  patch_id = "p1";
  target_path = "/work/a.txt";
  pre_apply_sha256 = some "old";
  pre_apply_size = some 1;
  backup_path = some "/rollback/run1/s0.bin";
  created_at = 0;
  created_target = false;
}

abbrev lacking : FileSnapshot
lacking = record {
  snapshot_file_id = "s1";
  apply_run_id = "run1";
  patch_id = "p1";
  target_path = "/work/new.txt";
  pre_apply_sha256 = none;
  pre_apply_size = none;
  backup_path = none;
  created_at = 1;
  created_target = true;
}

abbrev taken : Place os
taken = record {
  disk = put "/rollback/run1/s0.bin" (some "old") files;
  db = record db { file_snapshots = kept ∷ lacking ∷ [] };
}

abbrev patched : Place os
patched = record taken {
  disk = put "/work/a.txt" (some "new") (put "/work/new.txt" (some "x") taken.disk);
}

abbrev returned : Place os
unfolding restore_apply_run
returned = (restore_apply_run os "/rollback" "run1" patched).1

abbrev vectors : Vectors
vectors = record {
  Index = ℕ;
  upsert_chunks = λ project scope doc n. (done null, n + 1);
  search = λ project query k scope n. (done [], n);
}

abbrev runner : Runner
runner = record {
  tail_chars = 4000;
  allow_pytest = false;
  allow_node = false;
  lower = λ s. s;
  reason_text = λ r. "not allowed";
}

abbrev service : ApplyService os vectors
service = record {
  allowed_roots = "/work" ∷ [];
  rollback_root = "/rollback";
  runner = runner;
  sha1_hex = λ s. s;
  client_id = "local-lmstudio";
  confidence_one = 1;
  metadata_of = λ artifact run repo affected tests. end;
  tests_text = λ tests. "not_run";
}

abbrev call : CallDraws
call = record { apply_run_id = "run2"; snapshots = draws; memory_id = "m1"; now = λ n. n }

abbrev world : World os vectors
world = record {
  place = before;
  memory = record {
    memory_projects = [];
    active_partitions = [];
    conversation_events = [];
    memory_records = [];
  };
  index = 0;
}

-- The patch is applied, without tests and without a partition for its memory.
applied_example :
    (apply_approved_patch os vectors service call "p1" "a1" "/work" world).0
    ≡ done (finished "run2" not_run [] skipped_no_partition)
unfolding apply_approved_patch
applied_example = refl

-- An approval that is missing stops it.
refused_example :
    (apply_approved_patch os vectors service call "p1" "a2" "/work" world).0
    ≡ done (failure approval_not_found)
unfolding apply_approved_patch
refused_example = refl

apply-IsUntouchedOrAuthorized_example :
    IsUntouchedOrAuthorized os vectors
      ("/work" ∷ [])
      "/work"
      "p1"
      "a1"
      world
      (apply_approved_patch os vectors service call "p1" "a1" "/work" world)
apply-IsUntouchedOrAuthorized_example =
    apply-IsUntouchedOrAuthorized os vectors service call "p1" "a1" "/work" world

apply-Recorded_example :
    Recorded os vectors (apply_approved_patch os vectors service call "p1" "a1" "/work" world).1
apply-Recorded_example = apply-Recorded os vectors service call "p1" "a1" "/work" world (tt, tt)

abbrev unittest : List String
unittest = "python" ∷ "-m" ∷ "unittest" ∷ "tests.test_queue" ∷ []

unittest-allowed : validate_argv runner unittest ≡ done unittest
unfolding validate_argv meets
unittest-allowed = refl

-- Programs that do nothing, and programs that delete a file when the command is no declared test.
abbrev other_programs : List String → String → Io Files CompletedText
other_programs argv cwd d =
    if has_metacharacter argv
    then (raised "refused", put "/work/a.txt" none d)
    else os.run_text argv cwd d

other_programs-agree :
    (argv : List String) (d : Files)
    → IsDeclared runner argv
    → other_programs argv "/work" d ≡ os.run_text argv "/work" d
other_programs-agree argv d h = rw h.plain refl

run-only_declared_example :
    TestRunner.run
      (record os { run_text = other_programs })
      runner
      "/work"
      (unittest ∷ ("sh" ∷ "-c" ∷ "a; b" ∷ []) ∷ [])
      files
    ≡ TestRunner.run os runner "/work" (unittest ∷ ("sh" ∷ "-c" ∷ "a; b" ∷ []) ∷ []) files
run-only_declared_example =
    run-only_declared os runner "/work" other_programs other_programs-agree
      (unittest ∷ ("sh" ∷ "-c" ∷ "a; b" ∷ []) ∷ []) files
