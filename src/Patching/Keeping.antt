-- ===== src/Patching/Keeping.antt =====
-- The steps of a snapshot keep the bound of the errors
-- (backend/python-daemon/orchestrator/patching/snapshots.py).
use agent_backend.Prelude.{ℕ, suc, String, Bool, true, false, not, ◌&&◌, List, [], ◌∷◌, ◌==◌}
use agent_backend.Store.Schema.{Time}
use agent_backend.Patching.Io.{Io, ensure, return}
use agent_backend.Patching.Os.{Os, is_within}
use agent_backend.Patching.Schema.{FileSnapshot}
use agent_backend.Patching.Repo.{insert_file_snapshot}
use agent_backend.Patching.Snapshots.{
  Place, Draws, on_disk, on_db, seen, sha256_file, backup_of, back_up, snapshot_file, snapshot_one,
  snapshot_all, base_of, snapshot_targets, backed_up, missing,
}
use agent_backend.Patching.Bounds.{
  IsBounded, snapshot-runs, Keeps, Keeps-then, Keeps-return, Keeps-ensure,
}

module _ (os : Os) where
  abbrev pub Inv : Place os → Type 0
  Inv p = IsBounded p.db.patch_apply_runs

  pub on_disk-Keeps : {A : Type 0} (m : Io os.Disk A) → Keeps Inv (on_disk os m)
  unfolding on_disk
  on_disk-Keeps m = record { keeps = λ p h. h }

  pub seen-Keeps : {A : Type 0} (f : os.Disk → A) → Keeps Inv (seen os f)
  unfolding seen
  seen-Keeps f = record { keeps = λ p h. h }

  pub sha256_file-Keeps : (path : String) → Keeps Inv (sha256_file os path)
  unfolding sha256_file
  sha256_file-Keeps path = record { keeps = λ p h. h }

  snapshot-Keeps : (s : FileSnapshot) → Keeps Inv (on_db os (insert_file_snapshot s))
  unfolding on_db
  snapshot-Keeps s = record { keeps = λ p h. rw (snapshot-runs s p.db) h }

  back_up-Keeps :
      (base id run patch target : String) (at : Time)
      → Keeps Inv (back_up os base id run patch target at)
  unfolding back_up
  back_up-Keeps base id run patch target at =
      let backup = backup_of os base id in
      Keeps-then (sha256_file os target) _ (sha256_file-Keeps target) λ hash.
        Keeps-then (seen os (λ d. os.size d target)) _ (seen-Keeps (λ d. os.size d target)) λ size.
          Keeps-then (on_disk os (os.copy2 target backup)) _
            (on_disk-Keeps (os.copy2 target backup))
            λ _. Keeps-then (sha256_file os backup) _ (sha256_file-Keeps backup) λ copied.
              Keeps-then (ensure (copied == hash) "snapshot sha256 verification failed") _
                (Keeps-ensure (copied == hash) "snapshot sha256 verification failed")
                λ _. Keeps-return (backed_up os id run patch target hash size backup at)

  snapshot_file-Keeps :
      (present : Bool) (base id run patch target : String) (at : Time)
      → Keeps Inv (snapshot_file os present base id run patch target at)
  snapshot_file-Keeps true base id run patch target at = back_up-Keeps base id run patch target at
  snapshot_file-Keeps false base id run patch target at =
      Keeps-return (missing os id run patch target at)

  snapshot_one-Keeps :
      (repo base id run patch target : String) (at : Time)
      → Keeps Inv (snapshot_one os repo base id run patch target at)
  unfolding snapshot_one
  snapshot_one-Keeps repo base id run patch target at =
      let escapes : String = "snapshot target escapes target_repo" in
      let symlink : String = "symlink target mutation is not allowed" in
      Keeps-then (ensure (is_within target repo) escapes) _
        (Keeps-ensure (is_within target repo) escapes)
        λ _.
          Keeps-then (seen os (λ d. os.exists d target && os.is_symlink d target)) _
            (seen-Keeps (λ d. os.exists d target && os.is_symlink d target))
            λ link. Keeps-then (ensure (not link) symlink) _ (Keeps-ensure (not link) symlink) λ _.
              Keeps-then (seen os (λ d. os.exists d target)) _
                (seen-Keeps (λ d. os.exists d target))
                λ present.
                  Keeps-then (snapshot_file os present base id run patch target at) _
                    (snapshot_file-Keeps present base id run patch target at)
                    λ s.
                      Keeps-then (on_db os (insert_file_snapshot s)) (λ _. return s)
                        (snapshot-Keeps s) λ _. Keeps-return s

  snapshot_all-Keeps :
      (draws : Draws) (repo base run patch : String) (n : ℕ) (rels : List String)
      → Keeps Inv (snapshot_all os draws repo base run patch n rels)
  unfolding snapshot_all
  snapshot_all-Keeps draws repo base run patch n [] = Keeps-return []
  snapshot_all-Keeps draws repo base run patch n (rel ∷ rels) =
      let one =
        snapshot_one os repo base (draws.snapshot_id n) run patch (os.resolve_in repo rel)
          (draws.snapshot_time n) in
      Keeps-then one _
        (snapshot_one-Keeps repo base (draws.snapshot_id n) run patch (os.resolve_in repo rel)
          (draws.snapshot_time n))
        λ s.
          Keeps-then (snapshot_all os draws repo base run patch (suc n) rels)
            (λ ss. return (s ∷ ss)) (snapshot_all-Keeps draws repo base run patch (suc n) rels)
            λ ss. Keeps-return (s ∷ ss)

  pub snapshot_targets-Keeps :
      (draws : Draws) (root run patch repo : String) (rels : List String)
      → Keeps Inv (snapshot_targets os draws root run patch repo rels)
  unfolding snapshot_targets
  snapshot_targets-Keeps draws root run patch repo rels =
      let base = base_of os root run in
      Keeps-then (on_disk os (os.mkdir base)) _ (on_disk-Keeps (os.mkdir base))
        λ _. snapshot_all-Keeps draws (os.resolve repo) base run patch 0 rels
