-- ===== src/Patching/KeepingBack.antt =====
-- The steps of a rollback keep the bound of the errors
-- (backend/python-daemon/orchestrator/patching/rollback.py).
use agent_backend.Prelude.{
  String, Bool, true, false, ◌&&◌, Option, none, some, List, [], ◌∷◌, ◌++◌, ◌==◌,
}
use agent_backend.Patching.Io.{Io, return}
use agent_backend.Patching.Os.{Os, is_within}
use agent_backend.Patching.Schema.{FileSnapshot, PatchApplyRun, rolled_back}
use agent_backend.Patching.Repo.{
  RunUpdate, update_apply_run, get_apply_run, list_file_snapshots, new_status,
}
use agent_backend.Patching.Snapshots.{Place, on_disk, seen, sha256_file}
use agent_backend.Patching.Rollback.{
  Restoration, restoration, not_restored, Round, go_on, stop, write_read, settled, write_back,
  check_backup, in_root, with_metadata, filled, remove_created, by_kind, unless_link, in_repo,
  restore_one, when_on, restore_all, close_run, restore_run, restore_apply_run,
}
use agent_backend.Patching.Bounds.{update-IsBounded, Keeps, Keeps-then, Keeps-return}
use agent_backend.Patching.Keeping.{Inv, on_disk-Keeps, seen-Keeps, sha256_file-Keeps}

module _ (os : Os) where
  module _ (root : String) where
    write_back-Keeps :
        (target backup hash : String) (back deleted : List String)
        → Keeps (Inv os) (write_back os root target backup hash back deleted)
    unfolding write_back
    write_back-Keeps target backup hash back deleted =
        Keeps-then (on_disk os (os.mkdir_parent target)) _
          (on_disk-Keeps os (os.mkdir_parent target))
          λ _.
            Keeps-then (seen os (λ d. os.read d backup)) _ (seen-Keeps os (λ d. os.read d backup))
              λ bytes.
                Keeps-then (on_disk os (write_read os root target bytes)) _
                  (on_disk-Keeps os (write_read os root target bytes))
                  λ _.
                    Keeps-then (sha256_file os target)
                      (λ written. return (settled os root target hash back deleted written))
                      (sha256_file-Keeps os target)
                      λ written. Keeps-return (settled os root target hash back deleted written)

    check_backup-Keeps :
        (same : Bool) (target backup hash : String) (back deleted : List String)
        → Keeps (Inv os) (check_backup os root same target backup hash back deleted)
    check_backup-Keeps true target backup hash back deleted =
        write_back-Keeps target backup hash back deleted
    check_backup-Keeps false target backup hash back deleted = record { keeps = λ p h. h }

    in_root-Keeps :
        (inside : Bool) (target backup hash : String) (back deleted : List String)
        → Keeps (Inv os) (in_root os root inside target backup hash back deleted)
    in_root-Keeps false target backup hash back deleted = record { keeps = λ p h. h }
    in_root-Keeps true target backup hash back deleted =
        Keeps-then (sha256_file os backup)
          (λ kept. check_backup os root (kept == hash) target backup hash back deleted)
          (sha256_file-Keeps os backup)
          λ kept. check_backup-Keeps (kept == hash) target backup hash back deleted

    with_metadata-Keeps :
        (b h : Option String) (target : String) (back deleted : List String)
        → Keeps (Inv os) (with_metadata os root b h target back deleted)
    with_metadata-Keeps none h target back deleted = record { keeps = λ p i. i }
    with_metadata-Keeps (some backup) none target back deleted = record { keeps = λ p i. i }
    with_metadata-Keeps (some backup) (some hash) target back deleted =
        Keeps-then (seen os (λ d. os.resolved d backup))
          (λ path. in_root os root (is_within path root) target path hash back deleted)
          (seen-Keeps os (λ d. os.resolved d backup))
          λ path. in_root-Keeps (is_within path root) target path hash back deleted

    remove_created-Keeps :
        (present : Bool) (target : String) (back deleted : List String)
        → Keeps (Inv os) (remove_created os root present target back deleted)
    remove_created-Keeps false target back deleted = record { keeps = λ p h. h }
    remove_created-Keeps true target back deleted =
        Keeps-then (on_disk os (os.unlink target))
          (λ _. return (go_on back (deleted ++ target ∷ []))) (on_disk-Keeps os (os.unlink target))
          λ _. Keeps-return (go_on back (deleted ++ target ∷ []))

    by_kind-Keeps :
        (created : Bool) (s : FileSnapshot) (target : String) (back deleted : List String)
        → Keeps (Inv os) (by_kind os root created s target back deleted)
    by_kind-Keeps true s target back deleted =
        Keeps-then (seen os (λ d. os.exists d target))
          (λ present. remove_created os root present target back deleted)
          (seen-Keeps os (λ d. os.exists d target))
          λ present. remove_created-Keeps present target back deleted
    by_kind-Keeps false s target back deleted =
        with_metadata-Keeps (filled s.backup_path) (filled s.pre_apply_sha256) target back deleted

    unless_link-Keeps :
        (link : Bool) (s : FileSnapshot) (target : String) (back deleted : List String)
        → Keeps (Inv os) (unless_link os root link s target back deleted)
    unless_link-Keeps true s target back deleted = record { keeps = λ p h. h }
    unless_link-Keeps false s target back deleted =
        by_kind-Keeps s.created_target s target back deleted

    in_repo-Keeps :
        (inside : Bool) (s : FileSnapshot) (target : String) (back deleted : List String)
        → Keeps (Inv os) (in_repo os root inside s target back deleted)
    in_repo-Keeps false s target back deleted = record { keeps = λ p h. h }
    in_repo-Keeps true s target back deleted =
        Keeps-then (seen os (λ d. os.exists d target && os.is_symlink d target))
          (λ link. unless_link os root link s target back deleted)
          (seen-Keeps os (λ d. os.exists d target && os.is_symlink d target))
          λ link. unless_link-Keeps link s target back deleted

    restore_one-Keeps :
        (repo : String) (s : FileSnapshot) (back deleted : List String)
        → Keeps (Inv os) (restore_one os root repo s back deleted)
    unfolding restore_one
    restore_one-Keeps repo s back deleted =
        Keeps-then (seen os (λ d. os.resolved d s.target_path))
          (λ target. in_repo os root (is_within target repo) s target back deleted)
          (seen-Keeps os (λ d. os.resolved d s.target_path))
          λ target. in_repo-Keeps (is_within target repo) s target back deleted

    when_on-Keeps :
        (rest : List String → List String → Io (Place os) Restoration) (r : Round)
        → ((back deleted : List String) → Keeps (Inv os) (rest back deleted))
        → Keeps (Inv os) (when_on os root rest r)
    when_on-Keeps rest (go_on back deleted) h = h back deleted
    when_on-Keeps rest (stop r) h = record { keeps = λ p i. i }

    restore_all-Keeps :
        (repo : String) (ss : List FileSnapshot) (back deleted : List String)
        → Keeps (Inv os) (restore_all os root repo ss back deleted)
    unfolding restore_all
    restore_all-Keeps repo [] back deleted = record { keeps = λ p h. h }
    restore_all-Keeps repo (s ∷ ss) back deleted =
        let rest : List String → List String → Io (Place os) Restoration =
          λ back' deleted'. restore_all os root repo ss back' deleted' in
        Keeps-then (restore_one os root repo s back deleted) (when_on os root rest)
          (restore_one-Keeps repo s back deleted)
          λ r. when_on-Keeps rest r (λ back' deleted'. restore_all-Keeps repo ss back' deleted')

    close_run-Keeps : (run : String) (r : Restoration) → Keeps (Inv os) (close_run os root run r)
    unfolding update_apply_run
    close_run-Keeps run (not_restored r) = record { keeps = λ p h. h }
    close_run-Keeps run (restoration files gone) = record {
      keeps = λ p h.
          let u : RunUpdate = record (new_status rolled_back) { rollback_available = some false } in
          update-IsBounded run u p.db.patch_apply_runs h;
    }

    restore_run-keeps :
        (run : String) (o : Option PatchApplyRun) (p : Place os)
        → Inv os p
        → Inv os (restore_run os root run o p).1
    unfolding seen
    restore_run-keeps run none p h = h
    restore_run-keeps run (some r) p h =
        (Keeps-then
            (restore_all os root (os.resolved p.disk r.target_repo) (list_file_snapshots run p.db)
              [] [])
            (close_run os root run)
            (restore_all-Keeps (os.resolved p.disk r.target_repo) (list_file_snapshots run p.db) []
              [])
            (λ outcome. close_run-Keeps run outcome)).keeps
          p h

    pub restore_apply_run-Keeps : (run : String) → Keeps (Inv os) (restore_apply_run os root run)
    unfolding restore_apply_run
    restore_apply_run-Keeps run = record {
      keeps = λ p h. restore_run-keeps run (get_apply_run run p.db) p h;
    }
