-- ===== src/Patching/Recorded.antt =====
-- The errors that applying a patch records
-- (backend/python-daemon/orchestrator/patching/apply.py).
use agent_backend.Prelude.{
  String, Bool, true, false, Option, none, some, List, [], ◌∷◌, Attempt, done, raised,
}
use agent_backend.Memory.Commit.{Vectors, CommitRequest, usable}
use agent_backend.Memory.Partitions.{get_active_partition}
use agent_backend.Memory.Kept.{AtMost}
use agent_backend.Patching.Io.{Io, return, ◌>>=◌, ◌>>◌}
use agent_backend.Patching.Os.{Os}
use agent_backend.Patching.Schema.{TestsStatus, not_run, PatchApplyRun}
use agent_backend.Patching.Repo.{RunUpdate, insert_apply_run, update_apply_run}
use agent_backend.Patching.Snapshots.{Place, on_disk, on_db, snapshot_targets}
use agent_backend.Patching.Rollback.{restore_apply_run}
use agent_backend.Patching.TestRunner.{TestResult, run}
use agent_backend.Patching.Authorize.{Ready, Checked, stopped, crashed, ready, check_patch}
use agent_backend.Patching.Apply.{
  World, ApplyService, on_place, attempt, update_run, git_apply, commit_patch, commit_patch_memory,
  finish, after_tests, run_tests, after_apply, after_snapshot, take_snapshots, new_run, after_check,
  apply_ready, apply_checked, apply_approved_patch, final_update, blocked_update, rollback_update,
  applied_update, failed_update, snapshotted_update, patch_request,
}
use agent_backend.Patching.Outcomes.{
  CallDraws, tests_of, finished, tests_blocked_by, bounded, apply_failure, snapshot_failure,
}
use agent_backend.Patching.Bounds.{
  IsBounded, update-IsBounded, insert-IsBounded, Keeps, Keeps-then, Keeps-return,
}
use agent_backend.Patching.Keeping.{Inv, on_disk-Keeps, snapshot_targets-Keeps}
use agent_backend.Patching.KeepingBack.{restore_apply_run-Keeps}

module _ (os : Os) (vectors : Vectors) where
  -- No error of a run that is recorded has more than 500 characters.
  abbrev pub Recorded : World os vectors → Type 0
  Recorded w = IsBounded w.place.db.patch_apply_runs

  on_place-Keeps :
      {A : Type 0} (m : Io (Place os) A) → Keeps (Inv os) m → Keeps Recorded (on_place os vectors m)
  unfolding on_place
  on_place-Keeps m h = record { keeps = λ w i. h.keeps w.place i }

  attempt-Keeps :
      {A : Type 0} (m : Io (World os vectors) A)
      → Keeps Recorded m
      → Keeps Recorded (attempt os vectors m)
  unfolding attempt
  attempt-Keeps m h = record { keeps = λ w i. h.keeps w i }

  update_run-Keeps : (id : String) (u : RunUpdate) → Keeps Recorded (update_run os vectors id u)
  unfolding update_run on_place on_db update_apply_run
  update_run-Keeps id u = record {
    keeps = λ w i. update-IsBounded id u w.place.db.patch_apply_runs i;
  }

  git_apply-Keeps :
      (repo : String) (bytes : os.Bytes) (check : Bool)
      → Keeps (Inv os) (git_apply os vectors repo bytes check)
  unfolding git_apply on_disk
  git_apply-Keeps repo bytes check = record { keeps = λ p i. i }

  insert-Keeps :
      (new : PatchApplyRun)
      → AtMost 500 new.bounded_error
      → Keeps (Inv os) (on_db os (insert_apply_run new))
  unfolding on_db
  insert-Keeps new h = record { keeps = λ p i. insert-IsBounded new p.db h i }

  commit_patch-keeps :
      (service : ApplyService os vectors) (c : CommitRequest) (o : Option (String × String))
      (w : World os vectors)
      → Recorded w
      → Recorded (commit_patch os vectors service c o w).1
  commit_patch-keeps service c none w i = i
  commit_patch-keeps service c (some active) w i = i

  module _ (service : ApplyService os vectors) (draws : CallDraws) (repo : String)
      (r : Ready os) where
    abbrev id : String
    id = draws.apply_run_id

    finish-Keeps :
        (tests : TestsStatus) (results : List TestResult)
        → Keeps Recorded (finish os vectors service draws repo r tests results)
    unfolding finish commit_patch_memory
    finish-Keeps tests results =
        let u = final_update os vectors service draws repo r tests in
        let c = patch_request os vectors service draws r.artifact repo r.affected tests in
        Keeps-then (update_run os vectors id u) _ (update_run-Keeps id u) λ _.
          Keeps-then (commit_patch_memory os vectors service draws r.artifact repo r.affected tests)
            (λ memory. return (finished id tests results memory))
            (record {
              keeps = λ w i.
                  commit_patch-keeps service c
                    (usable (get_active_partition service.client_id w.memory)) w i;
            })
            λ memory. Keeps-return (finished id tests results memory)

    after_tests-Keeps :
        (a : Attempt (List TestResult))
        → Keeps Recorded (after_tests os vectors service draws repo r a)
    after_tests-Keeps (done results) = finish-Keeps (tests_of results) results
    after_tests-Keeps (raised text) =
        let u = blocked_update os vectors service draws repo r text in
        Keeps-then (update_run os vectors id u) (λ _. return (tests_blocked_by id (bounded text)))
          (update_run-Keeps id u) λ _. Keeps-return (tests_blocked_by id (bounded text))

    run_tests-Keeps :
        (cs : List (List String)) → Keeps Recorded (run_tests os vectors service draws repo r cs)
    run_tests-Keeps [] = finish-Keeps not_run []
    run_tests-Keeps (c ∷ cs) =
        let tests = run os service.runner repo (c ∷ cs) in
        Keeps-then (attempt os vectors (on_place os vectors (on_disk os tests)))
          (after_tests os vectors service draws repo r)
          (attempt-Keeps (on_place os vectors (on_disk os tests))
            (on_place-Keeps (on_disk os tests) (on_disk-Keeps os tests)))
          after_tests-Keeps

    after_apply-Keeps :
        (fine : Bool) (text : String)
        → Keeps Recorded (after_apply os vectors service draws repo r fine text)
    after_apply-Keeps false text =
        let restore = restore_apply_run os service.rollback_root id in
        Keeps-then (on_place os vectors restore)
          (λ b.
            update_run os vectors id (rollback_update os vectors service draws repo r b text)
            >> return (apply_failure id b))
          (on_place-Keeps restore (restore_apply_run-Keeps os service.rollback_root id))
          λ b.
            let u = rollback_update os vectors service draws repo r b text in
            Keeps-then (update_run os vectors id u) (λ _. return (apply_failure id b))
              (update_run-Keeps id u) λ _. Keeps-return (apply_failure id b)
    after_apply-Keeps true text =
        let u = applied_update os vectors service draws repo r in
        Keeps-then (update_run os vectors id u)
          (λ _. run_tests os vectors service draws repo r r.approval.declared_tests)
          (update_run-Keeps id u) λ _. run_tests-Keeps r.approval.declared_tests

    after_snapshot-Keeps :
        (a : Attempt (Unit {0})) → Keeps Recorded (after_snapshot os vectors service draws repo r a)
    after_snapshot-Keeps (raised text) =
        let u = failed_update os vectors service draws repo r text in
        Keeps-then (update_run os vectors id u) (λ _. return (snapshot_failure id (bounded text)))
          (update_run-Keeps id u) λ _. Keeps-return (snapshot_failure id (bounded text))
    after_snapshot-Keeps (done u) =
        let git = git_apply os vectors repo r.diff_bytes false in
        Keeps-then (on_place os vectors git)
          (λ (fine, text). after_apply os vectors service draws repo r fine text)
          (on_place-Keeps git (git_apply-Keeps repo r.diff_bytes false))
          λ (fine, text). after_apply-Keeps fine text

    take_snapshots-Keeps : Keeps Recorded (take_snapshots os vectors service draws repo r)
    unfolding take_snapshots
    take_snapshots-Keeps =
        let u = snapshotted_update os vectors service draws repo r in
        let taken =
          snapshot_targets os draws.snapshots service.rollback_root id r.artifact.patch_id repo
            r.affected in
        Keeps-then (on_place os vectors taken) (λ _. update_run os vectors id u)
          (on_place-Keeps taken (
            snapshot_targets-Keeps os draws.snapshots service.rollback_root id r.artifact.patch_id
              repo r.affected))
          λ _. update_run-Keeps id u

    after_check-Keeps :
        (approval_id : String) (fine : Bool) (text : String)
        → Keeps Recorded (after_check os vectors service draws repo r approval_id fine text)
    after_check-Keeps approval_id false text = record { keeps = λ w i. i }
    after_check-Keeps approval_id true text =
        let new = new_run os vectors service draws repo r approval_id in
        let taking = take_snapshots os vectors service draws repo r in
        Keeps-then (on_place os vectors (on_db os (insert_apply_run new)))
          (λ _. attempt os vectors taking >>= after_snapshot os vectors service draws repo r)
          (on_place-Keeps (on_db os (insert_apply_run new)) (insert-Keeps new tt))
          λ _.
            Keeps-then (attempt os vectors taking) (after_snapshot os vectors service draws repo r)
              (attempt-Keeps taking take_snapshots-Keeps) after_snapshot-Keeps

    apply_ready-Keeps :
        (approval_id : String)
        → Keeps Recorded (apply_ready os vectors service draws repo r approval_id)
    unfolding apply_ready
    apply_ready-Keeps approval_id =
        let git = git_apply os vectors repo r.diff_bytes true in
        Keeps-then (on_place os vectors git)
          (λ (fine, text). after_check os vectors service draws repo r approval_id fine text)
          (on_place-Keeps git (git_apply-Keeps repo r.diff_bytes true))
          λ (fine, text). after_check-Keeps approval_id fine text

  apply_checked-keeps :
      (service : ApplyService os vectors) (draws : CallDraws) (repo approval_id : String)
      (c : Checked os) (w : World os vectors)
      → Recorded w
      → Recorded (apply_checked os vectors service draws repo approval_id c w).1
  apply_checked-keeps service draws repo approval_id (stopped f) w i = i
  apply_checked-keeps service draws repo approval_id (crashed text) w i = i
  apply_checked-keeps service draws repo approval_id (ready r) w i =
      (apply_ready-Keeps service draws repo r approval_id).keeps w i

  -- If no recorded run of a patch has an error of more than 500 characters, none has after a call
  -- of apply_approved_patch, however it ends: also when it raises, fails or rolls back.
  pub apply-Recorded :
      (service : ApplyService os vectors) (draws : CallDraws) (patch_id approval_id : String)
      (target_repo : String) (w : World os vectors)
      → Recorded w
      → Recorded
          (apply_approved_patch os vectors service draws patch_id approval_id target_repo w).1
  unfolding apply_approved_patch
  apply-Recorded service draws patch_id approval_id target_repo w i =
      let repo = os.resolve target_repo in
      apply_checked-keeps service draws repo approval_id
        (check_patch os service.allowed_roots repo w.place.disk patch_id approval_id w.place.db) w i
