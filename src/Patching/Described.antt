-- ===== src/Patching/Described.antt =====
-- What the rows of a snapshot say of the disk
-- (backend/python-daemon/orchestrator/patching/snapshots.py).
use agent_backend.Prelude.{
  String, ◌≡◌, refl, Bool, true, false, not, ◌&&◌, some, List, [], ◌∷◌, ◌++◌, arith, ◌==◌, is_none,
  ◌∙◌, ap, Attempt, done, raised,
}
use agent_backend.Store.Schema.{Time}
use agent_backend.Patching.Io.{Io, return, ensure, Post, After, Post-then, Post-ensure}
use agent_backend.Patching.Os.{Os, IsLawful, digest, digest_of, is_within}
use agent_backend.Patching.Schema.{FileSnapshot, PatchDb}
use agent_backend.Patching.Repo.{insert_file_snapshot, insert_row}
use agent_backend.Patching.Snapshots.{
  Place, on_disk, on_db, seen, sha256_file, hash_of, backup_of, back_up, snapshot_file,
  snapshot_one, backed_up,
}

module _ (os : Os) where
  -- A row gives the digest that its target has on the disk: none for a file that is not there.
  abbrev pub Describes : os.Disk → FileSnapshot → Type 0
  Describes d s =
      (digest os d s.target_path ≡ s.pre_apply_sha256)
      × (s.created_target ≡ is_none s.pre_apply_sha256)

  hash_of-After :
      (r : Attempt os.Bytes) (path : String) (p : Place os)
      → os.read p.disk path ≡ r
      → After (λ h p'. (digest os p.disk path ≡ some h) × (p' ≡ p)) (hash_of os r, p)
  hash_of-After (done bytes) path p e = (ap (digest_of os) e, refl)
  hash_of-After (raised text) path p e = tt

  pub sha256_file-Post :
      (path : String) (p : Place os)
      → Post (λ h p'. (digest os p.disk path ≡ some h) × (p' ≡ p)) (sha256_file os path p)
  unfolding sha256_file
  sha256_file-Post path p = record { holds = hash_of-After (os.read p.disk path) path p refl }

  on_disk-from :
      {A : Type 0} (m : Io os.Disk A) (p : Place os) (r : Attempt A) (d : os.Disk)
      → m p.disk ≡ (r, d)
      → After (λ a p'. (m p.disk ≡ (done a, p'.disk)) × (p'.db ≡ p.db)) (r, record p { disk = d })
  on_disk-from m p (done a) d e = (e, refl)
  on_disk-from m p (raised text) d e = tt

  pub on_disk-Post :
      {A : Type 0} (m : Io os.Disk A) (p : Place os)
      → Post (λ a p'. (m p.disk ≡ (done a, p'.disk)) × (p'.db ≡ p.db)) (on_disk os m p)
  unfolding on_disk
  on_disk-Post m p = record { holds = on_disk-from m p (m p.disk).0 (m p.disk).1 refl }

  on_db-from :
      {A : Type 0} (m : Io PatchDb A) (p : Place os) (r : Attempt A) (d : PatchDb)
      → m p.db ≡ (r, d)
      → After (λ a p'. (m p.db ≡ (done a, p'.db)) × (p'.disk ≡ p.disk)) (r, record p { db = d })
  on_db-from m p (done a) d e = (e, refl)
  on_db-from m p (raised text) d e = tt

  pub on_db-Post :
      {A : Type 0} (m : Io PatchDb A) (p : Place os)
      → Post (λ a p'. (m p.db ≡ (done a, p'.db)) × (p'.disk ≡ p.disk)) (on_db os m p)
  unfolding on_db
  on_db-Post m p = record { holds = on_db-from m p (m p.db).0 (m p.db).1 refl }

  pub seen-Post :
      {A : Type 0} (f : os.Disk → A) (p : Place os)
      → Post (λ a p'. (f p.disk ≡ a) × (p' ≡ p)) (seen os f p)
  unfolding seen
  seen-Post f p = record { holds = (refl, refl) }

  -- What a round of the loop says: its row, and the files other than its backup.
  abbrev pub Noted : String → String → String → Place os → FileSnapshot → Place os → Type 0
  Noted backup run target p s p' =
      Describes p.disk s
      × (s.target_path ≡ target)
      × (s.apply_run_id ≡ run)
      × ((q : String) → (backup == q) ≡ false → digest os p'.disk q ≡ digest os p.disk q)

  module _ (laws : IsLawful os) where
    back_up-Post :
        (base snapshot_id run patch target : String) (at : Time) (p : Place os)
        → Post
            (λ s p'. Noted (backup_of os base snapshot_id) run target p s p' × (p'.db ≡ p.db))
            (back_up os base snapshot_id run patch target at p)
    unfolding back_up
    back_up-Post base snapshot_id run patch target at p =
        let backup = backup_of os base snapshot_id in
        let mismatch : String = "snapshot sha256 verification failed" in
        Post-then (sha256_file os target p) _ (sha256_file-Post target p) λ hash p1 (known, same1).
          Post-then (seen os (λ d. os.size d target) p1) _ (seen-Post (λ d. os.size d target) p1)
            λ size p2 (_, same2).
              Post-then (on_disk os (os.copy2 target backup) p2) _
                (on_disk-Post (os.copy2 target backup) p2)
                λ _ p3 (copied, db).
                  Post-then (sha256_file os backup p3) _ (sha256_file-Post backup p3)
                    λ hash' p4 (_, same4).
                      Post-then (ensure (hash' == hash) mismatch p4)
                        (λ _.
                          return (backed_up os snapshot_id run patch target hash size backup at))
                        (Post-ensure (hash' == hash) mismatch p4)
                        λ _ p5 (_, same5).
                          let kept : (q : String)
                              → (backup == q) ≡ false
                              → digest os p5.disk q ≡ digest os p.disk q =
                            (λ q other.
                              rw
                                (
                                  same5,
                                  same4,
                                  laws.read-copy2 target backup p2.disk p3.disk copied q,
                                  other,
                                  same2,
                                  same1,
                                )
                                refl) in
                          record {
                            holds = (
                              ((known, refl), refl, refl, kept),
                              rw (same5, same4, db, same2, same1) refl,
                            );
                          }

    snapshot_file-Post :
        (present : Bool) (base snapshot_id run patch target : String) (at : Time) (p : Place os)
        → os.exists p.disk target ≡ present
        → Post
            (λ s p'. Noted (backup_of os base snapshot_id) run target p s p' × (p'.db ≡ p.db))
            (snapshot_file os present base snapshot_id run patch target at p)
    snapshot_file-Post true base snapshot_id run patch target at p e =
        back_up-Post base snapshot_id run patch target at p
    snapshot_file-Post false base snapshot_id run patch target at p e = record {
      holds = (((laws.read-absent p.disk target e, refl), refl, refl, (λ q other. refl)), refl);
    }

    insert_row-done :
        {A : Type 0} (key : A → String) (r : A) (rs : List A) {rows : List A}
        → insert_row key r rs ≡ done rows
        → rows ≡ rs ++ r ∷ []
    unfolding insert_row
    insert_row-done key r rs e = ground arith

    insert_file_snapshot-done :
        (s : FileSnapshot) (d : PatchDb) {u : Unit {0}} {d' : PatchDb}
        → insert_file_snapshot s d ≡ (done u, d')
        → d' ≡ record d { file_snapshots = d.file_snapshots ++ s ∷ [] }
    unfolding insert_file_snapshot insert_row
    insert_file_snapshot-done s d e = ground arith

    pub snapshot_one-Post :
        (repo base snapshot_id run patch target : String) (at : Time) (p : Place os)
        → Post
            (λ s p'.
              Noted (backup_of os base snapshot_id) run target p s p'
              × (p'.db ≡ record p.db { file_snapshots = p.db.file_snapshots ++ s ∷ [] }))
            (snapshot_one os repo base snapshot_id run patch target at p)
    unfolding snapshot_one
    snapshot_one-Post repo base snapshot_id run patch target at p =
        let escapes : String = "snapshot target escapes target_repo" in
        let symlink : String = "symlink target mutation is not allowed" in
        Post-then (ensure (is_within target repo) escapes p) _
          (Post-ensure (is_within target repo) escapes p)
          λ _ p1 (_, same1).
            Post-then (seen os (λ d. os.exists d target && os.is_symlink d target) p1) _
              (seen-Post (λ d. os.exists d target && os.is_symlink d target) p1)
              λ link p2 (_, same2).
                Post-then (ensure (not link) symlink p2) _ (Post-ensure (not link) symlink p2)
                  λ _ p3 (_, same3).
                    Post-then (seen os (λ d. os.exists d target) p3) _
                      (seen-Post (λ d. os.exists d target) p3)
                      λ present p4 (there, same4).
                        Post-then (snapshot_file os present base snapshot_id run patch target at p4)
                          _
                          (snapshot_file-Post present base snapshot_id run patch target at p4 (cc))
                          λ s p5 ((known, at_target, of_run, kept), db).
                            Post-then (on_db os (insert_file_snapshot s) p5) (λ _. return s)
                              (on_db-Post (insert_file_snapshot s) p5)
                              λ _ p6 (inserted, disk).
                                let start : p4 ≡ p = cc in
                                let rows = insert_file_snapshot-done s p5.db inserted in
                                record {
                                  holds = (
                                    (
                                      (rw (← start) known.0, known.1),
                                      at_target,
                                      of_run,
                                      λ q other. rw (disk, ← start) (kept q other),
                                    ),
                                    rows ∙ rw (db, start) refl,
                                  );
                                }
