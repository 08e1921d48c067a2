-- ===== src/Patching/Os.antt =====
-- What the patch services use of the operating system. Paths are absolute texts in the style of
-- POSIX. `resolve` and `resolve_in` are for the paths that are resolved before a patch runs, by the
-- symbolic links that are there then; `resolved` follows those of the disk, which a patch may have
-- changed.
use text.Mathlib.Text.{starts_with}
use Prim.Native.String.{◌++◌ as ◌++ˢ◌}
use agent_backend.Prelude.{
  ℕ, String, ◌≡◌, Bool, false, ◌||◌, Option, none, some, List, ◌==◌, if◌then◌else◌, Attempt, done,
  raised,
}
use agent_backend.Store.Schema.{ExitCode}
use agent_backend.Patching.Io.{Io}

-- What subprocess.run returns, with the bytes of its output.
pub record Completed (Bytes : Type 0) : Type 0 where
  pub returncode : ExitCode
  pub stdout : Bytes
  pub stderr : Bytes

-- The same in text mode.
pub record CompletedText : Type 0 where
  pub returncode : ExitCode
  pub stdout : String
  pub stderr : String

pub record Os : Type 1 where
  pub Disk : Type 0
  pub Bytes : Type 0
  -- str(Path(p).resolve()), and str((repo / p).resolve())
  pub resolve : String → String
  pub resolve_in : String → String → String
  pub resolved : Disk → String → String
  pub exists : Disk → String → Bool
  pub is_symlink : Disk → String → Bool
  pub read : Disk → String → Attempt Bytes
  pub size : Disk → String → ℕ
  pub write : String → Bytes → Io Disk (Unit {0})
  pub copy2 : String → String → Io Disk (Unit {0})
  pub unlink : String → Io Disk (Unit {0})
  -- Path.mkdir(parents=True, exist_ok=True), and that of the parent of a path
  pub mkdir : String → Io Disk (Unit {0})
  pub mkdir_parent : String → Io Disk (Unit {0})
  pub sha256_hex : Bytes → String
  -- bytes.decode("utf-8"), `none` when it raises, and with errors="replace"
  pub decode : Bytes → Option String
  pub decode_replacing : Bytes → String
  -- subprocess.run(argv, input, cwd), and subprocess.run(argv, cwd, text=True)
  pub run : List String → Bytes → String → Io Disk (Completed Bytes)
  pub run_text : List String → String → Io Disk CompletedText

-- path == root or root in path.parents
unfoldable pub is_within : String → String → Bool
is_within path root = path == root || starts_with path (if root == "/" then "/" else root ++ˢ "/")

module _ (os : Os) where
  -- The digest of a file that can be read.
  abbrev pub digest_of : Attempt os.Bytes → Option String
  digest_of (done bytes) = some (os.sha256_hex bytes)
  digest_of (raised text) = none

  abbrev pub digest : os.Disk → String → Option String
  digest d path = digest_of (os.read d path)

  -- What the calls that succeed do to the files that can be read.
  pub record IsLawful : Type 0 where
    -- Only unlinking a link, which the rollback does not do, changes how a path resolves.
    pub resolved-write :
        (p : String) (b : os.Bytes) (d d' : os.Disk)
        → os.write p b d ≡ (done tt, d')
        → (q : String) → os.resolved d' q ≡ os.resolved d q
    pub resolved-mkdir_parent :
        (p : String) (d d' : os.Disk)
        → os.mkdir_parent p d ≡ (done tt, d')
        → (q : String) → os.resolved d' q ≡ os.resolved d q
    pub resolved-unlink :
        (p : String) (d d' : os.Disk)
        → os.is_symlink d p ≡ false
        → os.unlink p d ≡ (done tt, d')
        → (q : String) → os.resolved d' q ≡ os.resolved d q
    pub read-absent : (d : os.Disk) (p : String) → os.exists d p ≡ false → digest d p ≡ none
    pub read-write :
        (p : String) (b : os.Bytes) (d d' : os.Disk)
        → os.write p b d ≡ (done tt, d')
        → (q : String) → digest d' q ≡ (if p == q then some (os.sha256_hex b) else digest d q)
    pub read-copy2 :
        (p p' : String) (d d' : os.Disk)
        → os.copy2 p p' d ≡ (done tt, d')
        → (q : String) → digest d' q ≡ (if p' == q then digest d p else digest d q)
    pub read-unlink :
        (p : String) (d d' : os.Disk)
        → os.unlink p d ≡ (done tt, d')
        → (q : String) → digest d' q ≡ (if p == q then none else digest d q)
    pub read-mkdir :
        (p : String) (d d' : os.Disk)
        → os.mkdir p d ≡ (done tt, d')
        → (q : String) → digest d' q ≡ digest d q
    pub read-mkdir_parent :
        (p : String) (d d' : os.Disk)
        → os.mkdir_parent p d ≡ (done tt, d')
        → (q : String) → digest d' q ≡ digest d q
