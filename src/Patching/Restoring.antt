-- ===== src/Patching/Restoring.antt =====
-- What restoring a snapshot leaves (backend/python-daemon/orchestrator/patching/rollback.py).
use agent_backend.Prelude.{
  String, ◌≡◌, refl, inl, inr, Bool, true, false, ◌&&◌, Option, none, some, List, [], ◌∷◌, ◌++◌,
  arith, ◌==◌, eq_iff, if◌then◌else◌, is_none, Bool-cases, ==-self, ◌∙◌, ap, sym, Attempt, done,
  raised,
}
use agent_backend.Patching.Io.{return, ◌>>=◌, ◌>>◌, Post, Post-then, Post-map}
use agent_backend.Patching.Os.{Os, IsLawful, digest, is_within}
use agent_backend.Patching.Schema.{FileSnapshot}
use agent_backend.Patching.Snapshots.{Place, on_disk, seen, sha256_file}
use agent_backend.Patching.Rollback.{
  Round, go_on, stop, Refusal, write_back, check_backup, in_root, with_metadata, filled,
  remove_created, by_kind, unless_link, in_repo, settled, write_read,
}
use agent_backend.Patching.Described.{sha256_file-Post, on_disk-Post, seen-Post}

module _ (os : Os) (laws : IsLawful os) (root : String) (d0 : os.Disk) where
  -- The files that agreed with the disk `d0` still do.
  abbrev pub Agree : os.Disk → os.Disk → Type 0
  Agree d d' = (q : String) → digest os d q ≡ digest os d0 q → digest os d' q ≡ digest os d0 q

  -- Every path resolves as before.
  abbrev pub SameLinks : os.Disk → os.Disk → Type 0
  SameLinks d d' = (q : String) → os.resolved d' q ≡ os.resolved d q

  -- After a round that goes on, the target has the digest that it had on `d0`.
  abbrev pub Settles : String → Place os → Round → Place os → Type 0
  Settles target p (go_on back deleted) p' =
      (digest os p'.disk target ≡ digest os d0 target)
      × Agree p.disk p'.disk
      × SameLinks p.disk p'.disk
      × (p'.db ≡ p.db)
  Settles target p (stop r) p' = p'.db ≡ p.db

  written-Settles :
      (target hash : String) (back deleted : List String) (p p' : Place os) (written : String)
      (b : os.Bytes)
      → digest os d0 target ≡ some hash
      → digest os p'.disk target ≡ some written
      → ((q : String)
          → digest os p'.disk q
            ≡ (if target == q then some (os.sha256_hex b) else digest os p.disk q))
      → SameLinks p.disk p'.disk
      → p'.db ≡ p.db
      → Settles target p (settled os root target hash back deleted written) p'
  written-Settles target hash back deleted p p' written b known wrote others links db =
      elim (Bool-cases (written == hash)) [
        | inl e ↦ rw e (
          wrote ∙ ap some ((eq_iff written hash).0 e) ∙ sym known,
          (λ q agrees. elim (Bool-cases (target == q)) [
            | inl f ↦
                rw (← (eq_iff target q).0 f)
                  (wrote ∙ ap some ((eq_iff written hash).0 e) ∙ sym known)
            | inr f ↦ others q ∙ rw f agrees
          ]),
          links,
          db,
        )
        | inr e ↦ rw e db
      ]

  -- What writing back leaves of every file.
  abbrev Overwrites : String → Place os → Unit {0} → Place os → Type 0
  Overwrites target p u p' =
      (b : os.Bytes) × ((q : String)
        → digest os p'.disk q
          ≡ (if target == q then some (os.sha256_hex b) else digest os p.disk q))
      × SameLinks p.disk p'.disk
      × (p'.db ≡ p.db)

  write_read-Post :
      (target : String) (bytes : Attempt os.Bytes) (p : Place os)
      → Post (Overwrites target p) (on_disk os (write_read os root target bytes) p)
  unfolding on_disk
  write_read-Post target (raised text) p = record { holds = tt }
  write_read-Post target (done b) p =
      Post-map (on_disk os (os.write target b) p) (on_disk-Post os (os.write target b) p)
        λ u p' (wrote, db). (
          b,
          laws.read-write target b p.disk p'.disk wrote,
          laws.resolved-write target b p.disk p'.disk wrote,
          db,
        )

  write_back-Post :
      (target backup hash : String) (back deleted : List String) (p : Place os)
      → digest os d0 target ≡ some hash
      → Post (Settles target p) (write_back os root target backup hash back deleted p)
  unfolding write_back
  write_back-Post target backup hash back deleted p known =
      Post-then (on_disk os (os.mkdir_parent target) p) _
        (on_disk-Post os (os.mkdir_parent target) p)
        λ _ p1 (made, db1).
          Post-then (seen os (λ d. os.read d backup) p1)
            (λ bytes.
              on_disk os (write_read os root target bytes)
              >> (sha256_file os target >>= λ written.
                  return (settled os root target hash back deleted written)))
            (seen-Post os (λ d. os.read d backup) p1)
            λ bytes p2 (_, same2).
              Post-then (on_disk os (write_read os root target bytes) p2)
                (λ _. sha256_file os target >>= λ written.
                  return (settled os root target hash back deleted written))
                (write_read-Post target bytes p2)
                λ _ p3 (b, others, links, db3).
                  Post-then (sha256_file os target p3)
                    (λ written. return (settled os root target hash back deleted written))
                    (sha256_file-Post os target p3)
                    λ written p4 (wrote, same4). record {
                      holds =
                          written-Settles target hash back deleted p p4 written b known
                            (rw same4 wrote)
                            (λ q.
                              let before =
                                ap (λ (x : Place os). digest os x.disk q) same2
                                ∙ laws.read-mkdir_parent target p.disk p1.disk made q in
                              rw same4 (
                                others q
                                ∙ ap (λ o. if target == q then some (os.sha256_hex b) else o)
                                    before))
                            (λ q. rw same4 (
                              links q
                              ∙ ap (λ (x : Place os). os.resolved x.disk q) same2
                              ∙ laws.resolved-mkdir_parent target p.disk p1.disk made q))
                            (rw (same4, db3, same2, db1) refl);
                    }

  -- A stop changes nothing that a round must keep.
  stop-Post :
      (target : String) (r : Refusal) (p : Place os) → Post (Settles target p) (return (stop r) p)
  stop-Post target r p = record { holds = refl }

  check_backup-Post :
      (same : Bool) (target backup hash : String) (back deleted : List String) (p : Place os)
      → digest os d0 target ≡ some hash
      → Post (Settles target p) (check_backup os root same target backup hash back deleted p)
  check_backup-Post true target backup hash back deleted p known =
      write_back-Post target backup hash back deleted p known
  check_backup-Post false target backup hash back deleted p known = record { holds = refl }

  in_root-Post :
      (inside : Bool) (target backup hash : String) (back deleted : List String) (p : Place os)
      → digest os d0 target ≡ some hash
      → Post (Settles target p) (in_root os root inside target backup hash back deleted p)
  in_root-Post false target backup hash back deleted p known = record { holds = refl }
  in_root-Post true target backup hash back deleted p known =
      Post-then (sha256_file os backup p)
        (λ kept. check_backup os root (kept == hash) target backup hash back deleted)
        (sha256_file-Post os backup p)
        λ kept p1 (_, same).
          Post-map (check_backup os root (kept == hash) target backup hash back deleted p1)
            (check_backup-Post (kept == hash) target backup hash back deleted p1 known)
            λ round p2 h. rw (← same) h

  -- The digest of a row with a backup is the one that the row gives.
  with_metadata-Post :
      (b h : Option String) (target : String) (back deleted : List String) (p : Place os)
      → ((hash : String) → h ≡ some hash → digest os d0 target ≡ some hash)
      → Post (Settles target p) (with_metadata os root b h target back deleted p)
  unfolding seen
  with_metadata-Post none h target back deleted p known = record { holds = refl }
  with_metadata-Post (some backup) none target back deleted p known = record { holds = refl }
  with_metadata-Post (some backup) (some hash) target back deleted p known =
      in_root-Post (is_within (os.resolved p.disk backup) root) target (os.resolved p.disk backup)
        hash back deleted p (known hash refl)

  remove_created-Post :
      (present : Bool) (target : String) (back deleted : List String) (p : Place os)
      → os.exists p.disk target ≡ present
      → (present ≡ true → os.is_symlink p.disk target ≡ false)
      → digest os d0 target ≡ none
      → Post (Settles target p) (remove_created os root present target back deleted p)
  remove_created-Post false target back deleted p absent plain gone = record {
    holds =
        (laws.read-absent p.disk target absent ∙ sym gone, (λ q agrees. agrees), (λ q. refl), refl);
  }
  remove_created-Post true target back deleted p there plain gone =
      Post-then (on_disk os (os.unlink target) p)
        (λ _. return (go_on back (deleted ++ target ∷ []))) (on_disk-Post os (os.unlink target) p)
        λ _ p1 (unlinked, db). record {
          holds = (
            laws.read-unlink target p.disk p1.disk unlinked target ∙ rw (==-self target) (sym gone),
            (λ q agrees.
                laws.read-unlink target p.disk p1.disk unlinked q
                ∙ elim (Bool-cases (target == q)) [
                  | inl e ↦ rw (e, ← (eq_iff target q).0 e) (sym gone)
                  | inr e ↦ rw e agrees
                ]),
            laws.resolved-unlink target p.disk p1.disk (plain refl) unlinked,
            db,
          );
        }

  filled-some : (o : Option String) (t : String) → filled o ≡ some t → o ≡ some t
  filled-some none t h = h
  filled-some (some s) t h = ground arith

  no_link : (there link : Bool) → (there && link) ≡ false → there ≡ true → link ≡ false
  no_link there link h e = ground arith

  by_kind-Post :
      (created : Bool) (s : FileSnapshot) (target : String) (back deleted : List String)
      (p : Place os)
      → (os.exists p.disk target && os.is_symlink p.disk target) ≡ false
      → digest os d0 target ≡ s.pre_apply_sha256
      → created ≡ is_none s.pre_apply_sha256
      → Post (Settles target p) (by_kind os root created s target back deleted p)
  by_kind-Post true s target back deleted p plain known e =
      Post-then (seen os (λ d. os.exists d target) p)
        (λ present. remove_created os root present target back deleted)
        (seen-Post os (λ d. os.exists d target) p)
        λ present p1 (there, same).
          Post-map (remove_created os root present target back deleted p1)
            (remove_created-Post present target back deleted p1 (cc)
              (λ there1. rw same (
                no_link (os.exists p.disk target) (os.is_symlink p.disk target) plain
                  (there ∙ there1)))
              (ground arith))
            λ round p2 h. rw (← same) h
  by_kind-Post false s target back deleted p plain known e =
      with_metadata-Post (filled s.backup_path) (filled s.pre_apply_sha256) target back deleted p
        (λ hash h. known ∙ filled-some s.pre_apply_sha256 hash h)

  unless_link-Post :
      (link : Bool) (s : FileSnapshot) (target : String) (back deleted : List String) (p : Place os)
      → (os.exists p.disk target && os.is_symlink p.disk target) ≡ link
      → digest os d0 target ≡ s.pre_apply_sha256
      → s.created_target ≡ is_none s.pre_apply_sha256
      → Post (Settles target p) (unless_link os root link s target back deleted p)
  unless_link-Post true s target back deleted p plain known e = record { holds = refl }
  unless_link-Post false s target back deleted p plain known e =
      by_kind-Post s.created_target s target back deleted p plain known e

  pub in_repo-Post :
      (inside : Bool) (s : FileSnapshot) (target : String) (back deleted : List String)
      (p : Place os)
      → digest os d0 target ≡ s.pre_apply_sha256
      → s.created_target ≡ is_none s.pre_apply_sha256
      → Post (Settles target p) (in_repo os root inside s target back deleted p)
  in_repo-Post false s target back deleted p known e = record { holds = refl }
  in_repo-Post true s target back deleted p known e =
      Post-then (seen os (λ d. os.exists d target && os.is_symlink d target) p)
        (λ link. unless_link os root link s target back deleted)
        (seen-Post os (λ d. os.exists d target && os.is_symlink d target) p)
        λ link p1 (seen_link, same).
          Post-map (unless_link os root link s target back deleted p1)
            (unless_link-Post link s target back deleted p1 (rw same seen_link) known e)
            λ round p2 h. rw (← same) h
