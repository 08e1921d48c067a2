-- ===== src/Patching/Returning.antt =====
-- A rollback returns the targets to the digests that they had before the snapshot
-- (backend/python-daemon/orchestrator/patching/rollback.py and snapshots.py).
use agent_backend.Prelude.{
  String, ◌≡◌, refl, Option, none, some, List, [], ◌∷◌, is_none, ◌∙◌, subst, All,
}
use agent_backend.Patching.Io.{Io, Post, Post-then, Post-map}
use agent_backend.Patching.Os.{Os, IsLawful, digest, is_within}
use agent_backend.Patching.Schema.{FileSnapshot, PatchApplyRun}
use agent_backend.Patching.Repo.{get_apply_run, list_file_snapshots}
use agent_backend.Patching.Snapshots.{seen, Place}
use agent_backend.Patching.Rollback.{
  Round, go_on, stop, Restoration, restoration, restore_one, restore_all, restore_run, close_run,
  when_on, not_restored, restore_apply_run,
}
use agent_backend.Patching.Restoring.{Agree, SameLinks, Settles, in_repo-Post}

module _ (os : Os) (laws : IsLawful os) (root : String) (d0 : os.Disk) where
  -- A row that describes `d0`.
  abbrev IsRow : FileSnapshot → Type 0
  IsRow s =
      (digest os d0 s.target_path ≡ s.pre_apply_sha256)
      × (s.created_target ≡ is_none s.pre_apply_sha256)

  -- The target is no link, and none leads to it.
  abbrev InPlace : os.Disk → FileSnapshot → Type 0
  InPlace d s = os.resolved d s.target_path ≡ s.target_path

  InPlace-same :
      (d d' : os.Disk) (ss : List FileSnapshot)
      → SameLinks os laws root d0 d d'
      → All (InPlace d) ss
      → All (InPlace d') ss
  InPlace-same d d' [] same h = tt
  InPlace-same d d' (s ∷ ss) same (here, h) =
      (same s.target_path ∙ here, InPlace-same d d' ss same h)

  abbrev IsBack : os.Disk → FileSnapshot → Type 0
  IsBack d s = digest os d s.target_path ≡ digest os d0 s.target_path

  restore_one-Post :
      (repo : String) (s : FileSnapshot) (back deleted : List String) (p : Place os)
      → IsRow s
      → InPlace p.disk s
      → Post (Settles os laws root d0 s.target_path p) (restore_one os root repo s back deleted p)
  unfolding restore_one seen
  restore_one-Post repo s back deleted p (known, created) real = rw real (
      in_repo-Post os laws root d0 (is_within s.target_path repo) s s.target_path back deleted p
        known created)

  abbrev Finishes : List FileSnapshot → Place os → Restoration → Place os → Type 0
  Finishes ss p (restoration back deleted) p' =
      All (IsBack p'.disk) ss × Agree os laws root d0 p.disk p'.disk × (p'.db ≡ p.db)
  Finishes ss p (not_restored r) p' = Unit

  -- A finish after a round: the target of the round stays as the round left it.
  finish-later :
      (s : FileSnapshot) (ss : List FileSnapshot) (p p1 : Place os) (back deleted : List String)
      → Settles os laws root d0 s.target_path p (go_on back deleted) p1
      → (r : Restoration) (p2 : Place os) → Finishes ss p1 r p2
      → Finishes (s ∷ ss) p r p2
  finish-later s ss p p1 back deleted (at_target, agree, links, db) (restoration files gone) p2
        (all, agree', db') =
      ((agree' s.target_path at_target, all), (λ q h. agree' q (agree q h)), db' ∙ db)
  finish-later s ss p p1 back deleted h (not_restored r) p2 f = tt

  when_on-Post :
      (s : FileSnapshot) (ss : List FileSnapshot)
      (rest : List String → List String → Io (Place os) Restoration) (p p1 : Place os) (r : Round)
      → ((back deleted : List String)
          → SameLinks os laws root d0 p.disk p1.disk
          → Post (Finishes ss p1) (rest back deleted p1))
      → Settles os laws root d0 s.target_path p r p1
      → Post (Finishes (s ∷ ss) p) (when_on os root rest r p1)
  when_on-Post s ss rest p p1 (go_on back deleted) h settles =
      Post-map (rest back deleted p1) (h back deleted settles.2)
        (finish-later s ss p p1 back deleted settles)
  when_on-Post s ss rest p p1 (stop r) h settles = record { holds = tt }

  restore_all-Post :
      (repo : String) (ss : List FileSnapshot) (back deleted : List String) (p : Place os)
      → All IsRow ss
      → All (InPlace p.disk) ss
      → Post (Finishes ss p) (restore_all os root repo ss back deleted p)
  unfolding restore_all
  restore_all-Post repo [] back deleted p h real = record {
    holds = (tt, (λ q agrees. agrees), refl);
  }
  restore_all-Post repo (s ∷ ss) back deleted p (row, h) (here, real) =
      let rest : List String → List String → Io (Place os) Restoration =
        λ back' deleted'. restore_all os root repo ss back' deleted' in
      Post-then (restore_one os root repo s back deleted p) (when_on os root rest)
        (restore_one-Post repo s back deleted p row here)
        λ r p1 settles.
          when_on-Post s ss rest p p1 r
            (λ back' deleted' links.
              restore_all-Post repo ss back' deleted' p1 h
                (InPlace-same p.disk p1.disk ss links real))
            settles

  abbrev IsBackAfter : String → Place os → Restoration → Place os → Type 0
  IsBackAfter run p (restoration files gone) p' =
      All (IsBack p'.disk) (list_file_snapshots run p.db)
  IsBackAfter run p (not_restored r) p' = Unit

  close_run-Post :
      (run : String) (ss : List FileSnapshot) (p p1 : Place os) (r : Restoration)
      → Finishes ss p r p1
      → ss ≡ list_file_snapshots run p.db
      → Post (IsBackAfter run p) (close_run os root run r p1)
  close_run-Post run ss p p1 (restoration files gone) h e = record {
    holds = subst (All (IsBack p1.disk)) e h.0;
  }
  close_run-Post run ss p p1 (not_restored r) h e = record { holds = tt }

  restore_run-Post :
      (run : String) (o : Option PatchApplyRun) (p : Place os)
      → All IsRow (list_file_snapshots run p.db)
      → All (InPlace p.disk) (list_file_snapshots run p.db)
      → Post (IsBackAfter run p) (restore_run os root run o p)
  unfolding seen
  restore_run-Post run none p h real = record { holds = tt }
  restore_run-Post run (some r) p h real =
      let rows = list_file_snapshots run p.db in
      Post-then (restore_all os root (os.resolved p.disk r.target_repo) rows [] [] p)
        (close_run os root run)
        (restore_all-Post (os.resolved p.disk r.target_repo) rows [] [] p h real)
        λ outcome p1 f. close_run-Post run rows p p1 outcome f refl

  pub restore_apply_run-Post :
      (run : String) (p : Place os)
      → All IsRow (list_file_snapshots run p.db)
      → All (InPlace p.disk) (list_file_snapshots run p.db)
      → Post (IsBackAfter run p) (restore_apply_run os root run p)
  unfolding restore_apply_run
  restore_apply_run-Post run p h real = restore_run-Post run (get_apply_run run p.db) p h real
