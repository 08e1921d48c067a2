-- ===== src/Patching/Authorized.antt =====
-- What the checks before a patch is applied have established
-- (backend/python-daemon/orchestrator/patching/apply.py).
use agent_backend.Prelude.{
  String, ◌≡◌, refl, inl, inr, Bool, true, false, not, Option, none, some, List, ◌==◌, eq_iff,
  if◌then◌else◌, Attempt, done, raised, sorted, Bool-cases, ap, sym, subst, ◌∙◌,
}
use agent_backend.Patching.Os.{Os, is_within}
use agent_backend.Patching.Schema.{PatchArtifact, ApprovalRecord, PatchDb}
use agent_backend.Patching.Repo.{get, get_approval_record}
use agent_backend.Patching.Validation.{
  PatchValidationResult, is_valid, is_under_allowed, validate_unified_diff,
}
use agent_backend.Patching.Authorize.{
  Ready, Checked, stopped, ready, check_paths, check_text, check_bytes, check_file, Failure,
  check_approval, check_artifact, check_patch, same_texts, IsAuthorized,
}

module _ (os : Os) where
  -- A guard that a patch has passed.
  passed_if :
      (b : Bool) (f : Failure) (c : Checked os) {r : Ready os}
      → (if b then c else stopped f) ≡ ready r
      → (b ≡ true) × (c ≡ ready r)
  passed_if true f c h = (refl, h)
  passed_if false f c h = absurd (cc)

  passed_unless :
      (b : Bool) (f : Failure) (c : Checked os) {r : Ready os}
      → (if b then stopped f else c) ≡ ready r
      → (b ≡ false) × (c ≡ ready r)
  passed_unless false f c h = (refl, h)
  passed_unless true f c h = absurd (cc)

not-false : (b : Bool) → not b ≡ false → b ≡ true
not-false true h = refl
not-false false h = absurd (cc)

module _ (os : Os) (roots : List String) (repo : String) (d : os.Disk) where
  -- What is passed on, from an artifact, an approval and the bytes of the patch.
  abbrev Passes : PatchArtifact → ApprovalRecord → Ready os → Type 0
  Passes artifact approval r = (r.artifact ≡ artifact) × (r.approval ≡ approval)

  check_paths-ready :
      (artifact : PatchArtifact) (approval : ApprovalRecord) (bytes : os.Bytes)
      (v : PatchValidationResult) (r : Ready os)
      → check_paths os roots repo d artifact approval bytes v ≡ ready r
      → Passes artifact approval r
        × (r.diff_bytes ≡ bytes)
        × (is_valid v.status ≡ true)
        × (v.affected ≡ r.affected)
  check_paths-ready artifact approval bytes v r h = elim (Bool-cases (is_valid v.status)) [
    | inr e ↦ absurd (cc (rw e at h))
    | inl e ↦ elim (Bool-cases (same_texts (sorted v.affected) (sorted artifact.affected_paths))) [
      | inr f ↦ absurd (cc (rw (e, f) at h))
      | inl f ↦ let k = rw (e, f) at h in ((cc, cc), cc, e, cc)
    ]
  ]

  check_text-ready :
      (artifact : PatchArtifact) (approval : ApprovalRecord) (bytes : os.Bytes) (o : Option String)
      (r : Ready os)
      → check_text os roots repo d artifact approval bytes o ≡ ready r
      → Passes artifact approval r
        × (r.diff_bytes ≡ bytes)
        × ((text : String) × (o ≡ some text)
            × (is_valid (validate_unified_diff os roots d text repo).status ≡ true)
            × ((validate_unified_diff os roots d text repo).affected ≡ r.affected))
  check_text-ready artifact approval bytes none r h = absurd (cc)
  check_text-ready artifact approval bytes (some text) r h =
      let (passes, same, valid, paths) =
        check_paths-ready artifact approval bytes (validate_unified_diff os roots d text repo) r
          h in
      (passes, same, (text, refl, valid, paths))

  -- What is established of the bytes that were read.
  abbrev Holds : PatchArtifact → ApprovalRecord → Attempt os.Bytes → Ready os → Type 0
  Holds artifact approval read r =
      Passes artifact approval r
      × (read ≡ done r.diff_bytes)
      × (os.sha256_hex r.diff_bytes ≡ artifact.diff_sha256)
      × ((text : String) × (os.decode r.diff_bytes ≡ some text)
          × (is_valid (validate_unified_diff os roots d text repo).status ≡ true)
          × ((validate_unified_diff os roots d text repo).affected ≡ r.affected))

  check_bytes-ready :
      (artifact : PatchArtifact) (approval : ApprovalRecord) (read : Attempt os.Bytes)
      (r : Ready os)
      → check_bytes os roots repo d artifact approval read ≡ ready r
      → Holds artifact approval read r
  check_bytes-ready artifact approval (raised text) r h = absurd (cc)
  check_bytes-ready artifact approval (done bytes) r h =
      elim (Bool-cases (os.sha256_hex bytes == artifact.diff_sha256)) [
        | inr e ↦ absurd (cc (rw e at h))
        | inl e ↦
            let (passes, same, (text, decoded, valid, paths)) =
              check_text-ready artifact approval bytes (os.decode bytes) r (rw e at h) in
            (
              passes,
              ap done (sym same),
              rw same ((eq_iff (os.sha256_hex bytes) artifact.diff_sha256).0 e),
              (text, rw same decoded, valid, paths),
            )
      ]

  check_file-ready :
      (artifact : PatchArtifact) (approval : ApprovalRecord) (path : String) (r : Ready os)
      → check_file os roots repo d artifact approval path ≡ ready r
      → (is_within path repo ≡ false) × Holds artifact approval (os.read d path) r
  check_file-ready artifact approval path r h = elim (Bool-cases (is_within path repo)) [
    | inl e ↦ absurd (cc (rw e at h))
    | inr e ↦ elim (Bool-cases (os.exists d path)) [
      | inr f ↦ absurd (cc (rw (e, f) at h))
      | inl f ↦ (e, check_bytes-ready artifact approval (os.read d path) r (rw (e, f) at h))
    ]
  ]

  check_approval-ready :
      (patch_id : String) (artifact : PatchArtifact) (o : Option ApprovalRecord) (r : Ready os)
      → check_approval os roots repo d patch_id artifact o ≡ ready r
      → (o ≡ some r.approval)
        × (r.approval.patch_id ≡ patch_id)
        × (r.approval.is_approved ≡ true)
        × (r.approval.approved_diff_sha256 ≡ artifact.diff_sha256)
        × (is_within (os.resolve artifact.patch_path) repo ≡ false)
        × (r.artifact ≡ artifact)
        × ((approval : ApprovalRecord) × Holds artifact approval
              (os.read d (os.resolve artifact.patch_path))
              r)
  check_approval-ready patch_id artifact none r h = absurd (cc)
  check_approval-ready patch_id artifact (some approval) r h =
      let (e, h1) = passed_unless os (not (approval.patch_id == patch_id)) _ _ h in
      let (f, h2) = passed_unless os (not approval.is_approved) _ _ h1 in
      let (g, h3) = passed_if os (approval.approved_diff_sha256 == artifact.diff_sha256) _ _ h2 in
      let (outside, holds) =
        check_file-ready artifact approval (os.resolve artifact.patch_path) r h3 in
      let same = holds.0.1 in
      let named =
        (eq_iff approval.patch_id patch_id).0 (not-false (approval.patch_id == patch_id) e) in
      let agreed = (eq_iff approval.approved_diff_sha256 artifact.diff_sha256).0 g in
      (
        ap some (sym same),
        ap (λ (a : ApprovalRecord). a.patch_id) same ∙ named,
        ap (λ (a : ApprovalRecord). a.is_approved) same ∙ not-false approval.is_approved f,
        ap (λ (a : ApprovalRecord). a.approved_diff_sha256) same ∙ agreed,
        outside,
        holds.0.0,
        (approval, holds),
      )

  check_artifact-ready :
      (patch_id : String) (a : Option PatchArtifact) (o : Option ApprovalRecord) (r : Ready os)
      → check_artifact os roots repo d patch_id a o ≡ ready r
      → (a ≡ some r.artifact) × (check_approval os roots repo d patch_id r.artifact o ≡ ready r)
  check_artifact-ready patch_id none o r h = absurd (cc)
  check_artifact-ready patch_id (some artifact) o r h =
      let same = (check_approval-ready patch_id artifact o r h).5 in
      (
        ap some (sym same),
        subst (λ a. check_approval os roots repo d patch_id a o ≡ ready r) (sym same) h,
      )

  -- The checks let a patch through only by an approval of the digest of its stored bytes.
  pub check_patch-IsAuthorized :
      (patch_id approval_id : String) (db : PatchDb) (r : Ready os)
      → check_patch os roots repo d patch_id approval_id db ≡ ready r
      → IsAuthorized os roots repo d patch_id approval_id db r
  unfolding check_patch
  check_patch-IsAuthorized patch_id approval_id db r h =
      elim (Bool-cases (is_under_allowed roots repo)) [
        | inr e ↦ absurd (cc (rw e at h))
        | inl e ↦
            let (recorded, h1) =
              check_artifact-ready patch_id (get patch_id db) (get_approval_record approval_id db) r
                (rw e at h) in
            let (
              decided,
              of_patch,
              approved,
              hash,
              outside,
              _,
              (_, (_, stored, digest, (text, decoded, valid, paths))),
            ) =
              check_approval-ready patch_id r.artifact (get_approval_record approval_id db) r h1 in
            record {
              rooted = e;
              recorded = recorded;
              decided = decided;
              of_patch = of_patch;
              is_approved = approved;
              approved_hash = hash;
              outside = outside;
              stored = stored;
              hash = digest;
              text = text;
              decoded = decoded;
              checked = valid;
              paths = paths;
            }
      ]
