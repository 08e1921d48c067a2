-- ===== src/Patching/Authorize.antt =====
-- The checks of `PatchApplyService.apply_approved_patch` before it runs git
-- (backend/python-daemon/orchestrator/patching/apply.py).
use agent_backend.Prelude.{
  String, ◌≡◌, Bool, true, false, not, ◌&&◌, Option, none, some, List, [], ◌∷◌, ◌==◌, if◌then◌else◌,
  Attempt, done, raised, sorted,
}
use agent_backend.Patching.Os.{Os, is_within}
use agent_backend.Patching.Schema.{PatchArtifact, ApprovalRecord, PatchDb}
use agent_backend.Patching.Repo.{get, get_approval_record}
use agent_backend.Patching.Validation.{
  PatchValidationResult, is_valid, is_under_allowed, validate_unified_diff,
}

-- The failures that `_failure` reports, by their status and their validation code.
pub data Failure : Type 0 where
  outside_allowed_roots patch_not_found approval_not_found approval_patch_mismatch : Failure
  pending_approval approval_hash_mismatch patch_path_inside_repo patch_file_missing : Failure
  patch_hash_mismatch patch_not_utf8 : Failure
  invalid_patch : PatchValidationResult → Failure
  affected_path_mismatch : Failure
  apply_check_failed : String → Failure

abbrev pub same_texts : List String → List String → Bool
same_texts [] [] = true
same_texts [] (t ∷ ts) = false
same_texts (s ∷ ss) [] = false
same_texts (s ∷ ss) (t ∷ ts) = s == t && same_texts ss ts

-- What the checks let through.
pub record Ready (os : Os) : Type 0 where
  pub artifact : PatchArtifact
  pub approval : ApprovalRecord
  pub diff_bytes : os.Bytes
  pub affected : List String

pub data Checked (os : Os) : Type 0 where
  stopped : Failure → Checked os
  crashed : String → Checked os
  ready : Ready os → Checked os

module _ (os : Os) (roots : List String) (repo : String) (d : os.Disk) where
  abbrev pub check_paths :
      PatchArtifact → ApprovalRecord → os.Bytes → PatchValidationResult → Checked os
  check_paths artifact approval bytes validation =
      if not (is_valid validation.status)
      then stopped (invalid_patch validation)
      else if same_texts (sorted validation.affected) (sorted artifact.affected_paths)
      then ready (record {
        artifact = artifact;
        approval = approval;
        diff_bytes = bytes;
        affected = validation.affected;
      })
      else stopped affected_path_mismatch

  abbrev pub check_text : PatchArtifact → ApprovalRecord → os.Bytes → Option String → Checked os
  check_text artifact approval bytes none = stopped patch_not_utf8
  check_text artifact approval bytes (some text) =
      check_paths artifact approval bytes (validate_unified_diff os roots d text repo)

  abbrev pub check_bytes : PatchArtifact → ApprovalRecord → Attempt os.Bytes → Checked os
  check_bytes artifact approval (raised text) = crashed text
  check_bytes artifact approval (done bytes) =
      let decoded = check_text artifact approval bytes (os.decode bytes) in
      if os.sha256_hex bytes == artifact.diff_sha256 then decoded else stopped patch_hash_mismatch

  abbrev pub check_file : PatchArtifact → ApprovalRecord → String → Checked os
  check_file artifact approval patch_path =
      let read = check_bytes artifact approval (os.read d patch_path) in
      if is_within patch_path repo
      then stopped patch_path_inside_repo
      else if os.exists d patch_path
      then read
      else stopped patch_file_missing

  abbrev pub check_approval : String → PatchArtifact → Option ApprovalRecord → Checked os
  check_approval patch_id artifact none = stopped approval_not_found
  check_approval patch_id artifact (some approval) =
      let filed = check_file artifact approval (os.resolve artifact.patch_path) in
      if not (approval.patch_id == patch_id)
      then stopped approval_patch_mismatch
      else if not approval.is_approved
      then stopped pending_approval
      else if approval.approved_diff_sha256 == artifact.diff_sha256
      then filed
      else stopped approval_hash_mismatch

  abbrev pub check_artifact : String → Option PatchArtifact → Option ApprovalRecord → Checked os
  check_artifact patch_id none approval = stopped patch_not_found
  check_artifact patch_id (some artifact) approval = check_approval patch_id artifact approval

  unfoldable pub check_patch : String → String → PatchDb → Checked os
  unfolding get get_approval_record is_under_allowed validate_unified_diff is_within sorted
  check_patch patch_id approval_id db =
      let found = check_artifact patch_id (get patch_id db) (get_approval_record approval_id db) in
      if not (is_under_allowed roots repo) then stopped outside_allowed_roots else found

  -- The patch is under way by an approval of its very bytes.
  pub record IsAuthorized (patch_id approval_id : String) (db : PatchDb) (r : Ready os)
      : Type 0 where
    pub rooted : is_under_allowed roots repo ≡ true
    pub recorded : get patch_id db ≡ some r.artifact
    pub decided : get_approval_record approval_id db ≡ some r.approval
    pub of_patch : r.approval.patch_id ≡ patch_id
    pub is_approved : r.approval.is_approved ≡ true
    pub approved_hash : r.approval.approved_diff_sha256 ≡ r.artifact.diff_sha256
    pub outside : is_within (os.resolve r.artifact.patch_path) repo ≡ false
    pub stored : os.read d (os.resolve r.artifact.patch_path) ≡ done r.diff_bytes
    pub hash : os.sha256_hex r.diff_bytes ≡ r.artifact.diff_sha256
    pub text : String
    pub decoded : os.decode r.diff_bytes ≡ some text
    pub checked : is_valid (validate_unified_diff os roots d text repo).status ≡ true
    pub paths : (validate_unified_diff os roots d text repo).affected ≡ r.affected
