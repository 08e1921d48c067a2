-- ===== src/Patching/Declared.antt =====
-- Which declared tests run (backend/python-daemon/orchestrator/patching/test_runner.py).
use agent_backend.Prelude.{
  sym, subst, String, ◌≡◌, ◌⊎◌, refl, Bool, true, false, ◌&&◌, List, [], ◌∷◌, map, ◌==◌, elem, any,
  if◌then◌else◌, Attempt, done, raised, arith,
}
use agent_backend.Policy.GitCommands.{GuardrailResult, check_command}
use agent_backend.Patching.TestRunner.{
  Runner, has_metacharacter, is_unittest, first_of, validate_lowered, validate_argv, run,
  test_result,
}
use agent_backend.Patching.Io.{Io, return, continue, ◌>>=◌}
use agent_backend.Patching.Os.{Os, CompletedText}

-- python -m unittest, or pytest, node or npm where the runner allows them.
abbrev pub IsTestProgram : Runner → List String → Type 0
IsTestProgram r lowered =
    (is_unittest lowered ≡ true)
    ⊎ (((first_of lowered == "pytest") && r.allow_pytest ≡ true)
        ⊎ (elem (first_of lowered) ("node" ∷ "npm" ∷ []) && r.allow_node ≡ true))

raise_if :
    (b : Bool) (text : String) (a : Attempt (List String)) {argv : List String}
    → (if b then raised text else a) ≡ done argv
    → (b ≡ false) × (a ≡ done argv)
raise_if true text a h = absurd (cc)
raise_if false text a h = (refl, h)

validate_lowered-done :
    (r : Runner) (command lowered : List String) (guard : GuardrailResult) (argv : List String)
    → validate_lowered r command lowered guard ≡ done argv
    → (argv ≡ command) × IsTestProgram r lowered
validate_lowered-done r command lowered guard argv h = ground arith

-- A command that may run: without an empty part and without a shell metacharacter, and python
-- -m unittest, or pytest, node or npm where the runner allows them.
pub record IsDeclared (r : Runner) (command : List String) : Type 0 where
  pub full : any (λ part. part == "") command ≡ false
  pub plain : has_metacharacter command ≡ false
  pub program : IsTestProgram r (map r.lower command)

validate_argv-done :
    (r : Runner) (command argv : List String)
    → validate_argv r command ≡ done argv
    → (argv ≡ command)
      × (any (λ part. part == "") command ≡ false)
      × (has_metacharacter command ≡ false)
      × IsTestProgram r (map r.lower command)
unfolding validate_argv
validate_argv-done r [] argv h = absurd (cc)
validate_argv-done r (a ∷ rest) argv h =
    let command = a ∷ rest in
    let (full, h1) = raise_if (any (λ part. part == "") command) _ _ h in
    let (plain, h2) = raise_if (has_metacharacter command) _ _ h1 in
    let (same, program) =
      validate_lowered-done r command (map r.lower command) (check_command r.lower command) argv
        h2 in
    (same, full, plain, program)

validate_argv-IsDeclared :
    (r : Runner) (command argv : List String)
    → validate_argv r command ≡ done argv
    → IsDeclared r argv
validate_argv-IsDeclared r command argv h =
    let (same, full, plain, program) = validate_argv-done r command argv h in
    subst (IsDeclared r) (sym same) (record { full = full; plain = plain; program = program })

module _ (os : Os) (r : Runner) (repo : String)
    (run_text : List String → String → Io os.Disk CompletedText) where
  -- Another operating system, which differs in what it does with programs.
  abbrev pub os_with : Os
  os_with = record os { run_text = run_text }

  module _
      (agree : (argv : List String) (d : os.Disk)
        → IsDeclared r argv
        → run_text argv (os.resolve repo) d ≡ os.run_text argv (os.resolve repo) d) where
    run_step :
        (argv : List String) (commands : List (List String)) (a : Attempt CompletedText × os.Disk)
        → ((d' : os.Disk) → run os_with r repo commands d' ≡ run os r repo commands d')
        → continue a (λ c.
          ◌>>=◌ {S = os.Disk}
            (run os_with r repo commands)
            (λ rest. return (test_result os r argv c ∷ rest)))
          ≡ continue a (λ c.
            ◌>>=◌ {S = os.Disk}
              (run os r repo commands)
              (λ rest. return (test_result os r argv c ∷ rest)))
    run_step argv commands (raised text, d') rest = refl
    run_step argv commands (done c, d') rest = rw (rest d') refl

    run_declared :
        (command : List String) (commands : List (List String)) (d : os.Disk)
        (a : Attempt (List String))
        → validate_argv r command ≡ a
        → ((d' : os.Disk) → run os_with r repo commands d' ≡ run os r repo commands d')
        → run os_with r repo (command ∷ commands) d ≡ run os r repo (command ∷ commands) d
    unfolding run
    run_declared command commands d (raised text) h rest = rw h refl
    run_declared command commands d (done argv) h rest =
        let same = agree argv d (validate_argv-IsDeclared r command argv h) in
        rw (h, same) (run_step argv commands (os.run_text argv (os.resolve repo) d) rest)

    -- The runner starts no program but the commands that are declared tests: without an empty part,
    -- without a shell metacharacter, and python -m unittest, or pytest, node or npm where the
    -- runner allows them. With any other treatment of all other commands the results and the disk
    -- are the same.
    pub run-only_declared :
        (commands : List (List String)) (d : os.Disk)
        → run os_with r repo commands d ≡ run os r repo commands d
    run-only_declared [] d = unfold run in refl
    run-only_declared (command ∷ commands) d =
        run_declared command commands d (validate_argv r command) refl (run-only_declared commands)
