-- ===== src/Patching/Rollback.antt =====
-- `RollbackRestoreService` (backend/python-daemon/orchestrator/patching/rollback.py).
use agent_backend.Prelude.{
  String, Bool, true, false, ◌&&◌, Option, none, some, List, [], ◌∷◌, ◌++◌, ◌==◌, if◌then◌else◌,
  Attempt, done, raised,
}
use agent_backend.Patching.Io.{Io, return, raise, ◌>>=◌, ◌>>◌}
use agent_backend.Patching.Os.{Os, is_within}
use agent_backend.Patching.Schema.{FileSnapshot, PatchApplyRun, rolled_back}
use agent_backend.Patching.Repo.{get_apply_run, list_file_snapshots, update_apply_run, new_status}
use agent_backend.Patching.Snapshots.{Place, on_disk, seen, sha256_file}

-- The errors that restore_apply_run returns.
pub data Refusal : Type 0 where
  apply_run_not_found : Refusal
  target_escapes target_is_symlink missing_metadata backup_escapes : Refusal
  backup_mismatch restored_mismatch : Refusal

-- The dict that it returns.
pub data Restoration : Type 0 where
  not_restored : Refusal → Restoration
  restoration : (restored_files deleted_created_files : List String) → Restoration

abbrev pub restore_ok : Restoration → Bool
restore_ok (restoration files deleted) = true
restore_ok (not_restored r) = false

-- `x or y` tests: a text that is there and not empty.
abbrev pub filled : Option String → Option String
filled none = none
filled (some s) = if s == "" then none else some s

-- What a round does: it goes on with the lists, or it ends the loop.
pub data Round : Type 0 where
  go_on : (restored deleted : List String) → Round
  stop : Refusal → Round

module _ (os : Os) (rollback_root : String) where
  -- target.write_bytes(…) of what was read, or the exception of reading.
  abbrev pub write_read : String → Attempt os.Bytes → Io os.Disk (Unit {0})
  write_read target (done b) = os.write target b
  write_read target (raised text) = raise text

  abbrev pub settled : String → String → List String → List String → String → Round
  settled target hash back deleted written =
      if written == hash then go_on (back ++ target ∷ []) deleted else stop restored_mismatch

  -- The backup is written over the target.
  unfoldable pub write_back :
      String → String → String → List String → List String → Io (Place os) Round
  unfolding sha256_file on_disk seen
  write_back target backup hash back deleted = do
    on_disk os (os.mkdir_parent target)
    bytes ← seen os (λ d. os.read d backup)
    on_disk os (write_read target bytes)
    written ← sha256_file os target
    return (settled target hash back deleted written)

  abbrev pub check_backup :
      Bool → String → String → String → List String → List String → Io (Place os) Round
  check_backup true target backup hash back deleted = write_back target backup hash back deleted
  check_backup false target backup hash back deleted = return (stop backup_mismatch)

  abbrev pub in_root :
      Bool → String → String → String → List String → List String → Io (Place os) Round
  in_root true target backup hash back deleted = do
    kept ← sha256_file os backup
    check_backup (kept == hash) target backup hash back deleted
  in_root false target backup hash back deleted = return (stop backup_escapes)

  abbrev pub with_metadata :
      Option String → Option String → String → List String → List String → Io (Place os) Round
  with_metadata (some backup) (some hash) target back deleted = do
    path ← seen os (λ d. os.resolved d backup)
    in_root (is_within path rollback_root) target path hash back deleted
  with_metadata _ _ target back deleted = return (stop missing_metadata)

  -- A file that the patch created.
  abbrev pub remove_created : Bool → String → List String → List String → Io (Place os) Round
  remove_created true target back deleted = do
    on_disk os (os.unlink target)
    return (go_on back (deleted ++ target ∷ []))
  remove_created false target back deleted = return (go_on back deleted)

  abbrev pub by_kind :
      Bool → FileSnapshot → String → List String → List String → Io (Place os) Round
  by_kind true s target back deleted = do
    present ← seen os (λ d. os.exists d target)
    remove_created present target back deleted
  by_kind false s target back deleted =
      with_metadata (filled s.backup_path) (filled s.pre_apply_sha256) target back deleted

  abbrev pub unless_link :
      Bool → FileSnapshot → String → List String → List String → Io (Place os) Round
  unless_link true s target back deleted = return (stop target_is_symlink)
  unless_link false s target back deleted = by_kind s.created_target s target back deleted

  abbrev pub in_repo :
      Bool → FileSnapshot → String → List String → List String → Io (Place os) Round
  in_repo true s target back deleted = do
    link ← seen os (λ d. os.exists d target && os.is_symlink d target)
    unless_link link s target back deleted
  in_repo false s target back deleted = return (stop target_escapes)

  unfoldable pub restore_one :
      String → FileSnapshot → List String → List String → Io (Place os) Round
  unfolding write_back is_within sha256_file on_disk seen
  restore_one target_repo s back deleted = do
    target ← seen os (λ d. os.resolved d s.target_path)
    in_repo (is_within target target_repo) s target back deleted

  -- The rest of the loop, unless a round has ended it.
  abbrev pub when_on :
      (List String → List String → Io (Place os) Restoration) → Round → Io (Place os) Restoration
  when_on rest (go_on back deleted) = rest back deleted
  when_on rest (stop r) = return (not_restored r)

  unfoldable pub restore_all :
      String → List FileSnapshot → List String → List String → Io (Place os) Restoration
  unfolding restore_one
  restore_all target_repo [] back deleted = return (restoration back deleted)
  restore_all target_repo (s ∷ ss) back deleted = do
    round ← restore_one target_repo s back deleted
    when_on (λ back' deleted'. restore_all target_repo ss back' deleted') round

  abbrev pub close_run : String → Restoration → Io (Place os) Restoration
  close_run apply_run_id (restoration files deleted) s = (
    done (restoration files deleted),
    record s {
      db =
          update_apply_run apply_run_id
            (record (new_status rolled_back) { rollback_available = some false }) s.db;
    },
  )
  close_run apply_run_id (not_restored r) s = (done (not_restored r), s)

  abbrev pub restore_run : String → Option PatchApplyRun → Io (Place os) Restoration
  restore_run apply_run_id none = return (not_restored apply_run_not_found)
  restore_run apply_run_id (some run) = do
    target_repo ← seen os (λ d. os.resolved d run.target_repo)
    snapshots ← (λ s. (done (list_file_snapshots apply_run_id s.db), s))
    outcome ← restore_all target_repo snapshots [] []
    close_run apply_run_id outcome

  unfoldable pub restore_apply_run : String → Io (Place os) Restoration
  unfolding restore_all get_apply_run list_file_snapshots update_apply_run
  restore_apply_run apply_run_id s = restore_run apply_run_id (get_apply_run apply_run_id s.db) s
