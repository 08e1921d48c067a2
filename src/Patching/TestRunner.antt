-- ===== src/Patching/TestRunner.antt =====
-- `DeclaredTestRunner` (backend/python-daemon/orchestrator/patching/test_runner.py).
use agent_backend.Prelude.{
  ℕ, String, Bool, false, not, ◌&&◌, List, [], ◌∷◌, map, ◌==◌, elem, any, eqb, if◌then◌else◌,
  Attempt, done, raised, last_text,
}
use agent_backend.Store.Schema.{ExitCode, status, signal}
use agent_backend.Policy.GitCommands.{GuardrailResult, Reason, check_command}
use agent_backend.Patching.Io.{Io, return, ◌>>=◌}
use agent_backend.Patching.Os.{Os, CompletedText}
use agent_backend.Patching.Diffs.{contains}

abbrev pub shell_metacharacters : List String
shell_metacharacters = ";" ∷ "&&" ∷ "||" ∷ "|" ∷ ">" ∷ ">>" ∷ "<" ∷ "$(" ∷ "`" ∷ []

-- The options of the runner (`tail_chars` is at least 1), `str.lower`, and the texts of the reasons of the guardrails.
pub record Runner : Type 0 where
  pub tail_chars : ℕ
  pub allow_pytest : Bool
  pub allow_node : Bool
  pub lower : String → String
  pub reason_text : Reason → String

pub record TestResult : Type 0 where
  pub argv : List String
  pub returncode : ExitCode
  pub stdout_tail : String
  pub stderr_tail : String

abbrev pub is_zero : ExitCode → Bool
is_zero (status n) = eqb n 0
is_zero (signal n) = false

unfoldable pub has_metacharacter : List String → Bool
unfolding any contains
has_metacharacter command =
    any (λ part. any (λ meta. contains meta part) shell_metacharacters) command

abbrev pub is_unittest : List String → Bool
is_unittest (a ∷ b ∷ c ∷ rest) = a == "python" && (b == "-m" && c == "unittest")
is_unittest _ = false

abbrev pub first_of : List String → String
first_of [] = ""
first_of (a ∷ rest) = a

-- The tests behind the shape of the command: its lowered parts, and what the guardrails say.
abbrev pub validate_lowered :
    Runner → List String → List String → GuardrailResult → Attempt (List String)
validate_lowered r command lowered guard =
    if guard.allowed && first_of lowered == "git"
    then raised "git commands are not declared tests"
    else if is_unittest lowered
    then done command
    else if first_of lowered == "pytest" && r.allow_pytest
    then done command
    else if elem (first_of lowered) ("node" ∷ "npm" ∷ []) && r.allow_node
    then done command
    else if not guard.allowed
    then raised (r.reason_text guard.reason)
    else raised "test command is not explicitly allowed"

-- A command is an array of texts; an empty array or an empty text is refused.
unfoldable pub validate_argv : Runner → List String → Attempt (List String)
unfolding elem any has_metacharacter check_command
validate_argv r [] = raised "declared test command must be an argv array"
validate_argv r (a ∷ rest) =
    if any (λ part. part == "") (a ∷ rest)
    then raised "declared test command must be an argv array"
    else if has_metacharacter (a ∷ rest)
    then raised "shell metacharacters are not allowed"
    else validate_lowered r (a ∷ rest) (map r.lower (a ∷ rest)) (check_command r.lower (a ∷ rest))

module _ (os : Os) where
  abbrev pub test_result : Runner → List String → CompletedText → TestResult
  test_result r argv c = record {
    argv = argv;
    returncode = c.returncode;
    stdout_tail = last_text r.tail_chars c.stdout;
    stderr_tail = last_text r.tail_chars c.stderr;
  }

  abbrev pub of_attempt : {A : Type 0} → Attempt A → Io os.Disk A
  of_attempt a d = (a, d)

  -- The duration, which is only reported, is left out.
  unfoldable pub run : Runner → String → List (List String) → Io os.Disk (List TestResult)
  unfolding validate_argv last_text
  run r target_repo [] = return []
  run r target_repo (command ∷ commands) = do
    argv ← of_attempt (validate_argv r command)
    completed ← os.run_text argv (os.resolve target_repo)
    rest ← run r target_repo commands
    return (test_result r argv completed ∷ rest)
