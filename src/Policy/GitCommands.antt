-- ===== src/Policy/GitCommands.antt =====
-- `GitGuardrailsService.check_command`
-- (backend/python-daemon/orchestrator/patching/git_guardrails.py).
use text.Mathlib.Text.{starts_with}
use agent_backend.Prelude.{
  String, ◌≡◌, ◌↔◌, ◌⊎◌, inl, inr, Bool, true, false, not, ◌&&◌, ◌||◌, List, [], ◌∷◌, map, arith,
  ◌==◌, eq_iff, elem, any, if◌then◌else◌, Bool-cases,
}

pub data Reason : Type 0 where
  fine empty_command blocked_whitespace blocked_git_mutation not_read_only : Reason
  blocked_destructive blocked_deployment blocked_mutation blocked_install not_allowed : Reason

pub record GuardrailResult : Type 0 where
  pub allowed : Bool
  pub reason : Reason

abbrev pub permit : GuardrailResult
permit = record { allowed = true; reason = fine }

abbrev pub refuse : Reason → GuardrailResult
refuse reason = record { allowed = false; reason = reason }

abbrev pub allowed_git_read : List String
allowed_git_read = "status" ∷ "diff" ∷ "log" ∷ "show" ∷ []

abbrev pub blocked_git : List String
blocked_git = "push" ∷ "clean" ∷ []

abbrev pub blocked_roots : List String
blocked_roots = "docker" ∷ "npm" ∷ "yarn" ∷ "pnpm" ∷ "pip" ∷ "uv" ∷ "poetry" ∷ "env" ∷ "set" ∷ []

abbrev pub destructive : List String
destructive = "rm" ∷ "rmdir" ∷ "del" ∷ "remove-item" ∷ []

-- {…}.intersection(lowered)
unfoldable pub meets : List String → List String → Bool
unfolding elem any
meets names lowered = any (λ part. elem part names) lowered

-- lowered[1], or "" if there is none
abbrev pub subcommand_of : List String → String
subcommand_of [] = ""
subcommand_of (part ∷ parts) = part

-- git, by its subcommand and all the lowered parts.
unfoldable pub check_git : String → List String → GuardrailResult
check_git subcommand lowered =
    if elem subcommand allowed_git_read
    then permit
    else if subcommand == "apply" && any (λ part. starts_with part "--whitespace") lowered
    then refuse blocked_whitespace
    else if subcommand == "apply"
        && (elem "--check" lowered && not (meets ("--index" ∷ "--cached" ∷ "--3way" ∷ []) lowered))
    then permit
    else if elem subcommand blocked_git || (subcommand == "reset" && elem "--hard" lowered)
    then refuse blocked_git_mutation
    else refuse not_read_only

abbrev pub installers : List String
installers = "npm" ∷ "yarn" ∷ "pnpm" ∷ "pip" ∷ "uv" ∷ "poetry" ∷ []

-- Any other program.
unfoldable pub check_other : String → List String → GuardrailResult
check_other root lowered =
    if elem root destructive
    then refuse blocked_destructive
    else if root == "docker"
        && (elem "compose" lowered && meets ("up" ∷ "down" ∷ "build" ∷ []) lowered)
    then refuse blocked_deployment
    else if elem root blocked_roots
    then refuse blocked_mutation
    else if meets ("install" ∷ "add" ∷ []) lowered && elem root installers
    then refuse blocked_install
    else refuse not_allowed

unfoldable pub check_lowered : String → String → List String → GuardrailResult
unfolding check_git check_other
check_lowered root subcommand lowered =
    if root == "git" then check_git subcommand lowered else check_other root lowered

-- `lower` is `str.lower`.
unfoldable pub check_command : (lower : String → String) → List String → GuardrailResult
unfolding check_lowered
check_command lower [] = refuse empty_command
check_command lower (part ∷ parts) =
    check_lowered (lower part) (subcommand_of (map lower parts)) (map lower (part ∷ parts))

-- A git command that only reads, or that checks a patch and leaves the index alone.
abbrev pub IsReadOnlyGit : String → List String → Type 0
IsReadOnlyGit subcommand lowered =
    (elem subcommand allowed_git_read ≡ true)
    ⊎ ((subcommand ≡ "apply")
        × (any (λ part. starts_with part "--whitespace") lowered ≡ false)
        × (elem "--check" lowered ≡ true)
        × (meets ("--index" ∷ "--cached" ∷ "--3way" ∷ []) lowered ≡ false))

check_git_iff :
    (subcommand : String) (lowered : List String)
    → ((check_git subcommand lowered).allowed ≡ true) ↔ IsReadOnlyGit subcommand lowered
unfolding check_git
check_git_iff subcommand lowered =
    (λ h. ground (arith, eq_iff subcommand "apply"), λ h. ground (arith, eq_iff subcommand "apply"))

check_other-refused :
    (root : String) (lowered : List String) → (check_other root lowered).allowed ≡ false
unfolding check_other
check_other-refused root lowered = ground arith

check_lowered_iff :
    (root subcommand : String) (lowered : List String)
    → ((check_lowered root subcommand lowered).allowed ≡ true)
      ↔ ((root ≡ "git") × IsReadOnlyGit subcommand lowered)
unfolding check_lowered
check_lowered_iff root subcommand lowered =
    let (to, from) = check_git_iff subcommand lowered in
    elim (Bool-cases (root == "git")) [
      | inl e ↦ rw e ((λ h. ((eq_iff root "git").0 e, to h)), (λ h. from h.1))
      | inr e ↦ rw e (
        (λ h. absurd (cc (check_other-refused root lowered))),
        (λ h. absurd (ground (arith, eq_iff root "git"))),
      )
    ]

-- A command is let through exactly when it is git and only reads, or checks a patch with
-- `git apply --check` and no option that changes whitespace or the index.
pub check_command-allowed_iff :
    (lower : String → String) (part : String) (parts : List String)
    → ((check_command lower (part ∷ parts)).allowed ≡ true) ↔ (
        (lower part ≡ "git")
        × IsReadOnlyGit (subcommand_of (map lower parts)) (map lower (part ∷ parts)))
unfolding check_command
check_command-allowed_iff lower part parts =
    check_lowered_iff (lower part) (subcommand_of (map lower parts)) (map lower (part ∷ parts))
