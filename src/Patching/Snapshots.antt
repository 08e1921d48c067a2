-- ===== src/Patching/Snapshots.antt =====
-- `RollbackSnapshotService` (backend/python-daemon/orchestrator/patching/snapshots.py).
use Prim.Native.String.{◌++◌ as ◌++ˢ◌}
use agent_backend.Prelude.{
  ℕ, suc, String, Bool, true, false, not, ◌&&◌, none, some, List, [], ◌∷◌, ◌==◌, Attempt, done,
  raised,
}
use agent_backend.Store.Schema.{Time}
use agent_backend.Patching.Io.{Io, return, ◌>>=◌, ◌>>◌, ensure}
use agent_backend.Patching.Os.{Os, is_within}
use agent_backend.Patching.Schema.{FileSnapshot, PatchDb}
use agent_backend.Patching.Repo.{insert_file_snapshot}

-- The disk, and the tables.
pub record Place (os : Os) : Type 0 where
  pub disk : os.Disk
  pub db : PatchDb

-- What a run draws: the random ids and the dates of its snapshots, by their position.
pub record Draws : Type 0 where
  pub snapshot_id : ℕ → String
  pub snapshot_time : ℕ → Time

module _ (os : Os) where
  -- A call on the disk, a transaction on the tables, and what is seen of the disk.
  unfoldable pub on_disk : {A : Type 0} → Io os.Disk A → Io (Place os) A
  on_disk m s = let (r, d) = m s.disk in (r, record s { disk = d })

  unfoldable pub on_db : {A : Type 0} → Io PatchDb A → Io (Place os) A
  on_db m s = let (r, d) = m s.db in (r, record s { db = d })

  unfoldable pub seen : {A : Type 0} → (os.Disk → A) → Io (Place os) A
  seen f s = (done (f s.disk), s)

  abbrev pub hash_of : Attempt os.Bytes → Attempt String
  hash_of (done bytes) = done (os.sha256_hex bytes)
  hash_of (raised text) = raised text

  unfoldable pub sha256_file : String → Io (Place os) String
  sha256_file path s = (hash_of (os.read s.disk path), s)

  unfoldable pub backup_of : String → String → String
  backup_of base snapshot_id = base ++ˢ ("/" ++ˢ (snapshot_id ++ˢ ".bin"))

  abbrev pub backed_up :
      String → String → String → String → String → ℕ → String → Time → FileSnapshot
  backed_up snapshot_id apply_run_id patch_id target hash size backup at = record {
    snapshot_file_id = snapshot_id;
    apply_run_id = apply_run_id;
    patch_id = patch_id;
    target_path = target;
    pre_apply_sha256 = some hash;
    pre_apply_size = some size;
    backup_path = some backup;
    created_at = at;
    created_target = false;
  }

  abbrev pub missing : String → String → String → String → Time → FileSnapshot
  missing snapshot_id apply_run_id patch_id target at = record {
    snapshot_file_id = snapshot_id;
    apply_run_id = apply_run_id;
    patch_id = patch_id;
    target_path = target;
    pre_apply_sha256 = none;
    pre_apply_size = none;
    backup_path = none;
    created_at = at;
    created_target = true;
  }

  -- The copy of a file that exists.
  unfoldable pub back_up :
      String → String → String → String → String → Time → Io (Place os) FileSnapshot
  unfolding sha256_file backup_of on_disk seen ensure
  back_up base snapshot_id apply_run_id patch_id target at = do
    hash ← sha256_file target
    size ← seen (λ d. os.size d target)
    on_disk (os.copy2 target (backup_of base snapshot_id))
    copied ← sha256_file (backup_of base snapshot_id)
    ensure (copied == hash) "snapshot sha256 verification failed"
    return (
        backed_up snapshot_id apply_run_id patch_id target hash size (backup_of base snapshot_id)
          at)

  abbrev pub note_missing : String → String → String → String → Time → Io (Place os) FileSnapshot
  note_missing snapshot_id apply_run_id patch_id target at =
      return (missing snapshot_id apply_run_id patch_id target at)

  abbrev pub snapshot_file :
      Bool → String → String → String → String → String → Time → Io (Place os) FileSnapshot
  snapshot_file true base snapshot_id apply_run_id patch_id target at =
      back_up base snapshot_id apply_run_id patch_id target at
  snapshot_file false base snapshot_id apply_run_id patch_id target at =
      note_missing snapshot_id apply_run_id patch_id target at

  -- One round of the loop, on the resolved target.
  unfoldable pub snapshot_one :
      String → String → String → String → String → String → Time → Io (Place os) FileSnapshot
  unfolding back_up is_within insert_file_snapshot on_db seen ensure
  snapshot_one repo base snapshot_id apply_run_id patch_id target at = do
    ensure (is_within target repo) "snapshot target escapes target_repo"
    link ← seen (λ d. os.exists d target && os.is_symlink d target)
    ensure (not link) "symlink target mutation is not allowed"
    present ← seen (λ d. os.exists d target)
    snapshot ← snapshot_file present base snapshot_id apply_run_id patch_id target at
    on_db (insert_file_snapshot snapshot)
    return snapshot

  unfoldable pub snapshot_all :
      Draws
      → String
      → String
      → String
      → String
      → ℕ
      → List String
      → Io (Place os) (List FileSnapshot)
  unfolding snapshot_one
  snapshot_all draws repo base apply_run_id patch_id n [] = return []
  snapshot_all draws repo base apply_run_id patch_id n (rel ∷ rels) = do
    snapshot ←
        snapshot_one repo base (draws.snapshot_id n) apply_run_id patch_id (os.resolve_in repo rel)
          (draws.snapshot_time n)
    rest ← snapshot_all draws repo base apply_run_id patch_id (suc n) rels
    return (snapshot ∷ rest)

  abbrev pub base_of : String → String → String
  base_of rollback_root apply_run_id = rollback_root ++ˢ ("/" ++ˢ apply_run_id)

  unfoldable pub snapshot_targets :
      Draws → String → String → String → String → List String → Io (Place os) (List FileSnapshot)
  unfolding snapshot_all on_disk
  snapshot_targets draws rollback_root apply_run_id patch_id target_repo rel_paths = do
    on_disk (os.mkdir (base_of rollback_root apply_run_id))
    snapshot_all draws (os.resolve target_repo) (base_of rollback_root apply_run_id) apply_run_id
        patch_id 0 rel_paths
