-- ===== src/Tests/Disk.antt =====
-- A disk of texts.
use Prim.Native.String.{◌++◌ as ◌++ˢ◌}
use agent_backend.Prelude.{
  String, ◌≡◌, refl, inl, inr, false, not, ◌∙◌, ap, sym, Option, none, some, List, ◌==◌,
  if◌then◌else◌, is_none, Bool-cases, elem, Attempt, done, raised,
}
use agent_backend.Store.Schema.{status}
use agent_backend.Patching.Os.{Os, IsLawful, digest, digest_of}

abbrev pub Files : Type 0
Files = String → Option String

abbrev pub put : String → Option String → Files → Files
put p o d q = if p == q then o else d q

abbrev pub read_text : Option String → Attempt String
read_text none = raised "No such file or directory"
read_text (some s) = done s

-- `git apply --check` changes nothing; `git apply` writes one file.
abbrev pub git : List String → Files → Files
git argv d = if elem "--check" argv then d else put "/work/a.txt" (some "new") d

abbrev pub os : Os
os = record {
  Disk = Files;
  Bytes = String;
  resolve = λ p. p;
  resolved = λ d p. p;
  resolve_in = λ repo p. repo ++ˢ ("/" ++ˢ p);
  exists = λ d p. not (is_none (d p));
  is_symlink = λ d p. false;
  read = λ d p. read_text (d p);
  size = λ d p. 1;
  write = λ p b d. (done tt, put p (some b) d);
  copy2 = λ p q d. (done tt, put q (d p) d);
  unlink = λ p d. (done tt, put p none d);
  mkdir = λ p d. (done tt, d);
  mkdir_parent = λ p d. (done tt, d);
  sha256_hex = λ b. b;
  decode = λ b. some b;
  decode_replacing = λ b. b;
  run = λ argv input cwd d.
      (done (record { returncode = status 0; stdout = ""; stderr = "" }), git argv d);
  run_text = λ argv cwd d. (done (record { returncode = status 0; stdout = "ok"; stderr = "" }), d);
}

pub absent-digest :
    (o : Option String) → not (is_none o) ≡ false → digest_of os (read_text o) ≡ none
absent-digest none h = refl
absent-digest (some b) h = absurd (cc)

pub put-digest :
    (p q : String) (o : Option String) (d : Files)
    → digest os (put p o d) q ≡ (if p == q then digest_of os (read_text o) else digest os d q)
put-digest p q o d = elim (Bool-cases (p == q)) [ inl e ↦ rw e refl | inr e ↦ rw e refl ]

abbrev pub answer : Files → Attempt (Unit {0}) × Files
answer d = (done tt, d)

-- What a call that succeeds leaves, by the disk that it returns.
pub after :
    (p : String) (o : Option String) (d d' : Files)
    → answer (put p o d) ≡ answer d'
    → (q : String) → digest os d' q ≡ (if p == q then digest_of os (read_text o) else digest os d q)
after p o d d' e q =
    ap (λ (x : Attempt (Unit {0}) × Files). digest os x.1 q) (sym e) ∙ put-digest p q o d

pub os-IsLawful : IsLawful os
os-IsLawful = record {
  resolved-write = λ p b d d' e q. refl;
  resolved-mkdir_parent = λ p d d' e q. refl;
  resolved-unlink = λ p d d' h e q. refl;
  read-absent = λ d p h. absent-digest (d p) h;
  read-write = λ p b d d' e. after p (some b) d d' e;
  read-copy2 = λ p p' d d' e. after p' (d p) d d' e;
  read-unlink = λ p d d' e. after p none d d' e;
  read-mkdir = λ p d d' e q. ap (λ (x : Attempt (Unit {0}) × Files). digest os x.1 q) (sym e);
  read-mkdir_parent =
      λ p d d' e q. ap (λ (x : Attempt (Unit {0}) × Files). digest os x.1 q) (sym e);
}
