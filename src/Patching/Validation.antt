-- ===== src/Patching/Validation.antt =====
-- `PatchValidationService` (backend/python-daemon/orchestrator/patching/validation.py).
use Prim.Native.String.{◌++◌ as ◌++ˢ◌}
use text.Mathlib.Text.{starts_with}
use agent_backend.Prelude.{
  String, Bool, true, false, not, ◌||◌, Option, none, some, List, [], ◌∷◌, elem, any, if◌then◌else◌,
  join, ◌++◌,
}
use agent_backend.Patching.Os.{Os, is_within}
use agent_backend.Patching.Diffs.{
  affected_paths, slashes, parts_of, has_drive, glob, contains, blocked_patterns,
}

pub data ValidationStatus : Type 0 where
  valid policy_block warn : ValidationStatus

pub record PatchValidationResult : Type 0 where
  pub status : ValidationStatus
  pub affected : List String
  pub error : Option String

abbrev pub is_valid : ValidationStatus → Bool
is_valid valid = true
is_valid _ = false

abbrev pub init : List String → List String
init [] = []
init (p ∷ []) = []
init (p ∷ q ∷ ps) = p ∷ init (q ∷ ps)

-- path == root or root in path.parents, for one of the allowed roots.
unfoldable pub is_under_allowed : List String → String → Bool
unfolding any is_within
is_under_allowed roots path = any (λ root. is_within path root) roots

module _ (os : Os) where
  -- The folders between the repository and the file, from the inside.
  abbrev link_above : os.Disk → String → List String → List String → Bool
  link_above d repo done_parts [] = false
  link_above d repo done_parts (part ∷ []) = false
  link_above d repo done_parts (part ∷ next ∷ rest) =
      os.is_symlink d (repo ++ˢ ("/" ++ˢ join "/" (done_parts ++ part ∷ [])))
      || link_above d repo (done_parts ++ part ∷ []) (next ∷ rest)

  unfoldable pub blocked_path_reason : os.Disk → String → String → Option String
  unfolding slashes parts_of has_drive glob elem any join is_within
  blocked_path_reason d rel_path repo =
      let path = slashes rel_path in
      if elem ".." (parts_of path)
      then some "path traversal is not allowed"
      else if has_drive path || starts_with path "/"
      then some "absolute patch paths are not allowed"
      else if any (λ pattern. glob pattern path) blocked_patterns
      then some "blocked generated, Tool Assist, or secret/env target"
      else if os.is_symlink d (repo ++ˢ ("/" ++ˢ join "/" (parts_of path)))
      then some "symlink target mutation is not allowed"
      else if link_above d repo [] (parts_of path)
      then some "symlink parent mutation is not allowed"
      else if is_within (os.resolve_in repo path) repo
      then none
      else some "patch target escapes target_repo"

  -- The reason for the first path that has one.
  unfoldable pub first_reason : os.Disk → String → List String → Option String
  unfolding blocked_path_reason
  first_reason d repo [] = none
  first_reason d repo (path ∷ paths) = elim (blocked_path_reason d path repo) [
    | none ↦ first_reason d repo paths
    | some reason ↦ some reason
  ]

  abbrev result_of : List String → Option String → PatchValidationResult
  result_of affected none = record { status = valid; affected = affected; error = none }
  result_of affected (some reason) = record {
    status = policy_block;
    affected = affected;
    error = some reason;
  }

  abbrev refusal : ValidationStatus → String → PatchValidationResult
  refusal status reason = record { status = status; affected = []; error = some reason }

  abbrev is_nil : List String → Bool
  is_nil [] = true
  is_nil (p ∷ ps) = false

  -- validate_unified_diff with run_git_check=False, as the patch apply service calls it.
  unfoldable pub validate_unified_diff :
      List String → os.Disk → String → String → PatchValidationResult
  unfolding is_under_allowed contains affected_paths first_reason
  validate_unified_diff roots d diff_text target_repo =
      let repo = os.resolve target_repo in
      let affected = affected_paths diff_text in
      if not (is_under_allowed roots repo)
      then refusal policy_block "target_repo is outside allowed roots"
      else if contains "Binary files " diff_text || contains "GIT binary patch" diff_text
      then refusal policy_block "binary patches are not allowed"
      else if is_nil affected
      then refusal warn "unified diff contains no affected paths"
      else result_of affected (first_reason d repo affected)
