-- ===== src/Patching/Bounds.antt =====
-- The errors that are kept of patch runs
-- (backend/python-daemon/orchestrator/patching/repo.py and apply.py).
use agent_backend.Prelude.{
  String, ◌≡◌, refl, inl, inr, Bool, true, false, Option, none, some, List, [], ◌∷◌, ◌++◌, ◌==◌,
  Bool-cases, Attempt, done, raised, All, any, length-take_text,
}
use agent_backend.Sql.{update}
use agent_backend.Patching.Io.{Io, continue, ensure}
use agent_backend.Patching.Schema.{PatchApplyRun, FileSnapshot, PatchDb}
use agent_backend.Patching.Repo.{
  RunUpdate, update_row, insert_apply_run, insert_row, run_key, or_old, cut, insert_file_snapshot,
  snapshot_key,
}
use agent_backend.Memory.Kept.{AtMost}

-- No error of a run has more than 500 characters.
abbrev pub IsBounded : List PatchApplyRun → Type 0
IsBounded = All (λ r. AtMost 500 r.bounded_error)

or_old-cut : (new old : Option String) → AtMost 500 old → AtMost 500 (or_old (cut new) old)
or_old-cut none old h = h
or_old-cut (some s) old h = length-take_text 500 s

pub update-IsBounded :
    (id : String) (u : RunUpdate) (rs : List PatchApplyRun)
    → IsBounded rs
    → IsBounded (update (λ r. r.apply_run_id == id) (update_row u) rs)
unfolding update update_row
update-IsBounded id u [] h = tt
update-IsBounded id u (r ∷ rs) (h, hs) = (
  elim (Bool-cases (r.apply_run_id == id)) [
    | inl e ↦ rw e (or_old-cut u.bounded_error r.bounded_error h)
    | inr e ↦ rw e h
  ],
  update-IsBounded id u rs hs,
)

append-IsBounded :
    (rs : List PatchApplyRun) (r : PatchApplyRun)
    → IsBounded rs
    → AtMost 500 r.bounded_error
    → IsBounded (rs ++ r ∷ [])
append-IsBounded [] r h hr = (hr, tt)
append-IsBounded (x ∷ rs) r (hx, h) hr = (hx, append-IsBounded rs r h hr)

pub insert-IsBounded :
    (r : PatchApplyRun) (d : PatchDb)
    → AtMost 500 r.bounded_error
    → IsBounded d.patch_apply_runs
    → IsBounded (insert_apply_run r d).1.patch_apply_runs
unfolding insert_apply_run insert_row
insert-IsBounded r d hr h =
    elim (Bool-cases (any (λ x. run_key x == run_key r) d.patch_apply_runs)) [
      | inl e ↦ rw (e, insert_apply_run) h
      | inr e ↦ rw (e, insert_apply_run) (append-IsBounded d.patch_apply_runs r h hr)
    ]

pub snapshot-runs :
    (s : FileSnapshot) (d : PatchDb)
    → (insert_file_snapshot s d).1.patch_apply_runs ≡ d.patch_apply_runs
unfolding insert_file_snapshot insert_row
snapshot-runs s d =
    elim (Bool-cases (any (λ x. snapshot_key x == snapshot_key s) d.file_snapshots)) [
      | inl e ↦ rw (e, insert_file_snapshot) refl
      | inr e ↦ rw (e, insert_file_snapshot) refl
    ]

-- Code that keeps an invariant of its state, whether or not it raises.
pub record Keeps {S A : Type 0} (I : S → Type 0) (m : Io S A) : Type 0 where
  pub keeps : (s : S) → I s → I (m s).1

continue-keeps :
    {S A B : Type 0} (I : S → Type 0) (r : Attempt A × S) (f : A → Io S B)
    → I r.1
    → ((a : A) → Keeps I (f a))
    → I (continue r f).1
continue-keeps I (done a, s) f h g = (g a).keeps s h
continue-keeps I (raised text, s) f h g = h

pub Keeps-then :
    {S A B : Type 0} {I : S → Type 0} (m : Io S A) (f : A → Io S B)
    → Keeps I m
    → ((a : A) → Keeps I (f a))
    → Keeps I (λ s. continue (m s) f)
Keeps-then {I = I} m f h g = record { keeps = λ s hs. continue-keeps I (m s) f (h.keeps s hs) g }

pub Keeps-return : {S A : Type 0} {I : S → Type 0} (a : A) → Keeps I (λ (s : S). (done a, s))
Keeps-return a = record { keeps = λ s h. h }

pub Keeps-ensure :
    {S : Type 0} {I : S → Type 0} (b : Bool) (text : String) → Keeps I (ensure {S = S} b text)
unfolding ensure
Keeps-ensure true text = record { keeps = λ s h. h }
Keeps-ensure false text = record { keeps = λ s h. h }
