-- ===== src/Patching/Targets.antt =====
-- What all the rows of a snapshot say of the disk
-- (backend/python-daemon/orchestrator/patching/snapshots.py).
use agent_backend.Prelude.{
  ℕ, suc, String, ◌≡◌, refl, false, List, [], ◌∷◌, ◌++◌, ◌==◌, is_none, ◌∙◌, sym, All,
}
use mathlib.Core.List.{append-nil, append_assoc}
use agent_backend.Patching.Io.{return, Post, Post-then, Post-map}
use agent_backend.Patching.Os.{Os, IsLawful, digest}
use agent_backend.Patching.Schema.{FileSnapshot}
use agent_backend.Patching.Snapshots.{
  Place, Draws, on_disk, backup_of, snapshot_one, snapshot_all, base_of, snapshot_targets,
}
use agent_backend.Patching.Described.{on_disk-Post, snapshot_one-Post}

module _ (os : Os) where
  module _ (laws : IsLawful os) where
    -- The rows of a snapshot, for the paths in their order.
    abbrev pub Rows : os.Disk → String → String → List String → List FileSnapshot → Type 0
    Rows d repo run [] [] = Unit
    Rows d repo run [] (s ∷ ss) = ⊥
    Rows d repo run (rel ∷ rels) [] = ⊥
    Rows d repo run (rel ∷ rels) (s ∷ ss) =
        ((digest os d (os.resolve_in repo rel) ≡ s.pre_apply_sha256)
          × (s.created_target ≡ is_none s.pre_apply_sha256)
          × (s.target_path ≡ os.resolve_in repo rel)
          × (s.apply_run_id ≡ run))
        × Rows d repo run rels ss

    Rows-change :
        (d d' : os.Disk) (repo run : String) (rels : List String) (ss : List FileSnapshot)
        → All
            (λ rel. digest os d' (os.resolve_in repo rel) ≡ digest os d (os.resolve_in repo rel))
            rels
        → Rows d' repo run rels ss
        → Rows d repo run rels ss
    Rows-change d d' repo run [] [] h r = tt
    Rows-change d d' repo run [] (s ∷ ss) h r = r
    Rows-change d d' repo run (rel ∷ rels) [] h r = r
    Rows-change d d' repo run (rel ∷ rels) (s ∷ ss) (same, h) ((known, created, at, of_run), r) =
        ((sym same ∙ known, created, at, of_run), Rows-change d d' repo run rels ss h r)

    -- No path of the list is that of a backup.
    abbrev pub IsApart : Draws → String → String → List String → Type 0
    IsApart draws repo base rels =
        All
          (λ rel.
            (n : ℕ) → (backup_of os base (draws.snapshot_id n) == os.resolve_in repo rel) ≡ false)
          rels

    kept-All :
        (d d' : os.Disk) (draws : Draws) (repo base : String) (n : ℕ) (rels : List String)
        → ((q : String)
            → (backup_of os base (draws.snapshot_id n) == q) ≡ false
            → digest os d' q ≡ digest os d q)
        → IsApart draws repo base rels
        → All
            (λ rel. digest os d' (os.resolve_in repo rel) ≡ digest os d (os.resolve_in repo rel))
            rels
    kept-All d d' draws repo base n [] kept h = tt
    kept-All d d' draws repo base n (rel ∷ rels) kept (apart, h) =
        (kept (os.resolve_in repo rel) (apart n), kept-All d d' draws repo base n rels kept h)

    snapshot_all-Post :
        (draws : Draws) (repo base run patch : String) (n : ℕ) (rels : List String) (p : Place os)
        → IsApart draws repo base rels
        → Post
            (λ ss p'.
              Rows p.disk repo run rels ss
              × (p'.db ≡ record p.db { file_snapshots = p.db.file_snapshots ++ ss }))
            (snapshot_all os draws repo base run patch n rels p)
    unfolding snapshot_all
    snapshot_all-Post draws repo base run patch n [] p apart = record {
      holds = (tt, rw (append-nil p.db.file_snapshots) refl);
    }
    snapshot_all-Post draws repo base run patch n (rel ∷ rels) p (apart, h) =
        let target = os.resolve_in repo rel in
        let id = draws.snapshot_id n in
        let at = draws.snapshot_time n in
        Post-then (snapshot_one os repo base id run patch target at p) _
          (snapshot_one-Post os laws repo base id run patch target at p)
          λ s p1 (((known, created), at_target, of_run, kept), db).
            Post-then (snapshot_all os draws repo base run patch (suc n) rels p1)
              (λ ss. return (s ∷ ss))
              (snapshot_all-Post draws repo base run patch (suc n) rels p1 h)
              λ ss p2 (rows, db2). record {
                holds = (
                  (
                    (rw (← at_target) known, created, at_target, of_run),
                    Rows-change p.disk p1.disk repo run rels ss
                        (kept-All p.disk p1.disk draws repo base n rels kept h) rows,
                  ),
                  db2 ∙ rw (db, append_assoc p.db.file_snapshots (s ∷ []) ss) refl,
                );
              }

    same-All :
        (d d' : os.Disk) (repo : String) (rels : List String)
        → ((q : String) → digest os d' q ≡ digest os d q)
        → All
            (λ rel. digest os d' (os.resolve_in repo rel) ≡ digest os d (os.resolve_in repo rel))
            rels
    same-All d d' repo [] h = tt
    same-All d d' repo (rel ∷ rels) h = (h (os.resolve_in repo rel), same-All d d' repo rels h)

    -- The rows of a snapshot describe the disk before it, and are added to the table.
    pub snapshot_targets-Post :
        (draws : Draws) (root run patch repo : String) (rels : List String) (p : Place os)
        → IsApart draws (os.resolve repo) (base_of os root run) rels
        → Post
            (λ ss p'.
              Rows p.disk (os.resolve repo) run rels ss
              × (p'.db ≡ record p.db { file_snapshots = p.db.file_snapshots ++ ss }))
            (snapshot_targets os draws root run patch repo rels p)
    unfolding snapshot_targets
    snapshot_targets-Post draws root run patch repo rels p apart =
        let base = base_of os root run in
        Post-then (on_disk os (os.mkdir base) p) _ (on_disk-Post os (os.mkdir base) p)
          λ _ p1 (made, db).
            Post-map (snapshot_all os draws (os.resolve repo) base run patch 0 rels p1)
              (snapshot_all-Post draws (os.resolve repo) base run patch 0 rels p1 apart)
              λ ss p2 (rows, db2). (
                Rows-change p.disk p1.disk (os.resolve repo) run rels ss
                    (same-All p.disk p1.disk (os.resolve repo) rels
                      (laws.read-mkdir base p.disk p1.disk made))
                    rows,
                db2 ∙ rw db refl,
              )
