-- ===== src/Patching/Apply.antt =====
-- `PatchApplyService` (backend/python-daemon/orchestrator/patching/apply.py), as it is built with
-- a memory service and without an ingestor of conversation summaries.
use Prim.Native.String.{◌++◌ as ◌++ˢ◌}
use agent_backend.Prelude.{
  ℕ, String, Bool, true, false, Option, none, some, List, [], ◌∷◌, ◌==◌, if◌then◌else◌, Attempt,
  done, raised, last_text, join,
}
use agent_backend.Json.{Fields}
use agent_backend.Memory.Schema.{MemoryDb}
use agent_backend.Memory.Partitions.{get_active_partition}
use agent_backend.Memory.Commit.{
  Vectors, Commit, CommitRequest, commit_memory, commit_no_partition, usable,
}
use agent_backend.Patching.Io.{Io, return, ◌>>=◌, ◌>>◌}
use agent_backend.Patching.Os.{Os, Completed}
use agent_backend.Patching.Schema.{
  PatchArtifact, PatchApplyRun, ApplyStatus, snapshotting, snapshotted, snapshot_failed, applied,
  apply_failed_rolled_back, apply_failed_rollback_failed, tests_blocked, TestsStatus, not_run,
  blocked,
}
use agent_backend.Patching.Repo.{insert_apply_run, update_apply_run, RunUpdate, new_status}
use agent_backend.Patching.Snapshots.{Place, on_disk, on_db, snapshot_targets}
use agent_backend.Patching.Rollback.{Restoration, restore_ok, restore_apply_run}
use agent_backend.Patching.TestRunner.{Runner, TestResult, run, is_zero}
use agent_backend.Patching.Authorize.{
  apply_check_failed, Ready, Checked, stopped, crashed, ready, check_patch,
}
use agent_backend.Patching.Outcomes.{
  MemoryCommit, Outcome, CallDraws, bounded, final_status, tests_of, skipped_no_partition,
  memory_result, failure, snapshot_failure, apply_failure, tests_blocked_by, finished,
}

abbrev skill_text : Option String → String
skill_text none = "unknown"
skill_text (some s) = if s == "" then "unknown" else s

abbrev memory_outcome : Commit → MemoryCommit
memory_outcome commit_no_partition = skipped_no_partition
memory_outcome c = memory_result c

abbrev first_text : String → String → String
first_text a b = if a == "" then b else a

module _ (os : Os) (vectors : Vectors) where
  pub record World : Type 0 where
    pub place : Place os
    pub memory : MemoryDb
    pub index : vectors.Index

  -- The service: its roots, its runner of tests, and its memory service, by the SHA-1, the client,
  -- and the metadata of a patch.
  pub record ApplyService : Type 0 where
    pub allowed_roots : List String
    pub rollback_root : String
    pub runner : Runner
    pub sha1_hex : String → String
    pub client_id : String
    pub confidence_one : ℕ
    pub metadata_of : PatchArtifact → String → String → List String → TestsStatus → Fields
    pub tests_text : TestsStatus → String

  -- The dict of _git_apply: whether the exit status is 0, and stderr_tail or stdout_tail.
  abbrev pub git_result : Attempt (Completed os.Bytes) → Attempt (Bool × String)
  git_result (raised text) = raised text
  git_result (done c) = done (
    is_zero c.returncode,
    first_text (last_text 500 (os.decode_replacing c.stderr))
        (last_text 500 (os.decode_replacing c.stdout)),
  )

  abbrev pub git_argv : Bool → List String
  git_argv true = "git" ∷ "apply" ∷ "--check" ∷ "--" ∷ "-" ∷ []
  git_argv false = "git" ∷ "apply" ∷ "--" ∷ "-" ∷ []

  unfoldable pub git_apply : String → os.Bytes → Bool → Io (Place os) (Bool × String)
  unfolding on_disk last_text
  git_apply repo diff_bytes check p =
      let (r, p') = on_disk os (os.run (git_argv check) diff_bytes repo) p in (git_result r, p')

  unfoldable pub on_place : {A : Type 0} → Io (Place os) A → Io World A
  on_place m w = let (r, p) = m w.place in (r, record w { place = p })

  -- try: what is raised becomes the result.
  unfoldable pub attempt : {A : Type 0} → Io World A → Io World (Attempt A)
  attempt m w = let (r, w') = m w in (done r, w')

  unfoldable pub update_run : String → RunUpdate → Io World (Unit {0})
  unfolding update_apply_run on_place on_db
  update_run apply_run_id u =
      on_place (on_db os (λ d. (done tt, update_apply_run apply_run_id u d)))

  -- The content of the memory of an applied patch.
  unfoldable pub patch_content :
      ApplyService → PatchArtifact → String → String → List String → TestsStatus → String
  unfolding join
  patch_content service artifact apply_run_id repo affected tests =
      "Approved patch applied.\npatch_id: "
      ++ˢ (artifact.patch_id
          ++ˢ ("\napply_run_id: "
              ++ˢ (apply_run_id
                  ++ˢ ("\ntarget_repo: "
                      ++ˢ (repo
                          ++ˢ ("\naffected_paths: "
                              ++ˢ (join ", " affected
                                  ++ˢ ("\nselected_skill_id: "
                                      ++ˢ (skill_text artifact.selected_skill_id
                                          ++ˢ ("\ntests_status: "
                                              ++ˢ (service.tests_text tests
                                                  ++ˢ "\nrollback_available: true")))))))))))

  abbrev pub commit_patch :
      ApplyService → CommitRequest → Option (String × String) → Io World MemoryCommit
  commit_patch service c none w = (done skipped_no_partition, w)
  commit_patch service c (some active) w =
      let (r, m, v) = commit_memory vectors service.sha1_hex service.client_id c w.memory w.index in
      (done (memory_outcome r), record w { memory = m; index = v })

  abbrev pub patch_request :
      ApplyService → CallDraws → PatchArtifact → String → List String → TestsStatus → CommitRequest
  patch_request service draws artifact repo affected tests = record {
    category = "artifact";
    content = patch_content service artifact draws.apply_run_id repo affected tests;
    confidence_score = service.confidence_one;
    metadata = service.metadata_of artifact draws.apply_run_id repo affected tests;
    memory_id = draws.memory_id;
    created_at = draws.now 4;
    indexed_at = draws.now 5;
  }

  unfoldable pub commit_patch_memory :
      ApplyService
      → CallDraws
      → PatchArtifact
      → String
      → List String
      → TestsStatus
      → Io World MemoryCommit
  unfolding commit_memory get_active_partition patch_content
  commit_patch_memory service draws artifact repo affected tests w =
      commit_patch service (patch_request service draws artifact repo affected tests)
        (usable (get_active_partition service.client_id w.memory)) w

  module _ (service : ApplyService) (draws : CallDraws) (repo : String) (r : Ready os) where
    abbrev id : String
    id = draws.apply_run_id

    abbrev pub rolled_back_status : Restoration → ApplyStatus
    rolled_back_status b =
        if restore_ok b then apply_failed_rolled_back else apply_failed_rollback_failed

    -- The updates of the run.
    abbrev pub final_update : TestsStatus → RunUpdate
    final_update tests = record (new_status (final_status tests)) {
      tests_status = some tests;
      completed_at = some (draws.now 3);
      rollback_available = some true;
    }

    abbrev pub blocked_update : String → RunUpdate
    blocked_update text = record (new_status tests_blocked) {
      tests_status = some blocked;
      bounded_error = some (bounded text);
      completed_at = some (draws.now 3);
    }

    abbrev pub rollback_update : Restoration → String → RunUpdate
    rollback_update rollback text = record (new_status (rolled_back_status rollback)) {
      completed_at = some (draws.now 2);
      rollback_available = some (restore_ok rollback);
      bounded_error = some (bounded text);
    }

    abbrev pub applied_update : RunUpdate
    applied_update = record (new_status applied) {
      applied_at = some (draws.now 2);
      rollback_available = some true;
    }

    abbrev pub failed_update : String → RunUpdate
    failed_update text = record (new_status snapshot_failed) {
      completed_at = some (draws.now 1);
      bounded_error = some (bounded text);
    }

    abbrev pub snapshotted_update : RunUpdate
    snapshotted_update = record (new_status snapshotted) { rollback_available = some true }

    -- The last update of the run, and the memory.
    unfoldable pub finish : TestsStatus → List TestResult → Io World Outcome
    unfolding update_run commit_patch_memory
    finish tests results = do
      update_run id (final_update tests)
      memory ← commit_patch_memory service draws r.artifact repo r.affected tests
      return (finished id tests results memory)

    abbrev pub after_tests : Attempt (List TestResult) → Io World Outcome
    after_tests (done results) = finish (tests_of results) results
    after_tests (raised text) = do
      update_run id (blocked_update text)
      return (tests_blocked_by id (bounded text))

    abbrev pub run_tests : List (List String) → Io World Outcome
    run_tests [] = finish not_run []
    run_tests (c ∷ cs) = do
      results ← attempt (on_place (on_disk os (run os service.runner repo (c ∷ cs))))
      after_tests results

    abbrev pub after_apply : Bool → String → Io World Outcome
    after_apply false text = do
      rollback ← on_place (restore_apply_run os service.rollback_root id)
      update_run id (rollback_update rollback text)
      return (apply_failure id rollback)
    after_apply true text = do update_run id (applied_update); run_tests r.approval.declared_tests

    abbrev pub after_snapshot : Attempt (Unit {0}) → Io World Outcome
    after_snapshot (raised text) = do
      update_run id (failed_update text)
      return (snapshot_failure id (bounded text))
    after_snapshot (done u) = do
      (fine, text) ← on_place (git_apply repo r.diff_bytes false)
      after_apply fine text

    -- The body of the `try` around the snapshots.
    unfoldable pub take_snapshots : Io World (Unit {0})
    unfolding snapshot_targets on_place update_run
    take_snapshots = do
      rows ← on_place (
          snapshot_targets os draws.snapshots service.rollback_root id r.artifact.patch_id repo
            r.affected)
      update_run id (snapshotted_update)

    abbrev pub new_run : String → PatchApplyRun
    new_run approval_id = record {
      apply_run_id = id;
      patch_id = r.artifact.patch_id;
      approval_id = approval_id;
      run_id = r.artifact.run_id;
      project_id = r.artifact.project_id;
      project_scope_hash = r.artifact.project_scope_hash;
      target_repo = repo;
      status = snapshotting;
      applied_at = none;
      completed_at = none;
      rollback_available = false;
      tests_status = none;
      bounded_error = none;
    }

    abbrev pub after_check : String → Bool → String → Io World Outcome
    after_check approval_id false text = return (failure (apply_check_failed text))
    after_check approval_id true text = do
      on_place (on_db os (insert_apply_run (new_run approval_id)))
      taken ← attempt take_snapshots
      after_snapshot taken

    unfoldable pub apply_ready : String → Io World Outcome
    unfolding take_snapshots attempt on_place git_apply insert_apply_run finish restore_apply_run
        run
    apply_ready approval_id = do
      (fine, text) ← on_place (git_apply repo r.diff_bytes true)
      after_check approval_id fine text

  abbrev pub apply_checked :
      ApplyService → CallDraws → String → String → Checked os → Io World Outcome
  apply_checked service draws repo approval_id (stopped f) w = (done (failure f), w)
  apply_checked service draws repo approval_id (crashed text) w = (raised text, w)
  apply_checked service draws repo approval_id (ready r) w =
      apply_ready service draws repo r approval_id w

  unfoldable pub apply_approved_patch :
      ApplyService → CallDraws → String → String → String → Io World Outcome
  unfolding check_patch apply_ready
  apply_approved_patch service draws patch_id approval_id target_repo w =
      let repo = os.resolve target_repo in
      apply_checked service draws repo approval_id
        (check_patch os service.allowed_roots repo w.place.disk patch_id approval_id w.place.db) w
