-- ===== src/Patching/Repo.antt =====
-- `PatchArtifactRepository` (backend/python-daemon/orchestrator/patching/repo.py).
use agent_backend.Prelude.{
  ℕ, String, Bool, Option, none, some, List, [], ◌∷◌, ◌++◌, ◌==◌, any, ltb, if◌then◌else◌, Attempt,
  done, raised, take_text,
}
use agent_backend.Sql.{find, select, update}
use agent_backend.Store.Schema.{Time}
use agent_backend.Queue.Listing.{order_by, limit_to}
use agent_backend.Memory.Records.{clamp_to}
use agent_backend.Patching.Io.{Io}
use agent_backend.Patching.Schema.{
  PatchArtifact, ApprovalRecord, PatchApplyRun, FileSnapshot, PatchDb, ApplyStatus, TestsStatus,
}

abbrev pub unique_failed : String
unique_failed = "UNIQUE constraint failed"

-- INSERT INTO a table with a primary key.
module _ {A : Type 0} (key : A → String) where
  unfoldable pub insert_row : A → List A → Attempt (List A)
  unfolding any
  insert_row r rs =
      if any (λ x. key x == key r) rs then raised unique_failed else done (rs ++ r ∷ [])

abbrev pub artifact_key : PatchArtifact → String
artifact_key a = a.patch_id

abbrev pub approval_key : ApprovalRecord → String
approval_key a = a.approval_id

abbrev pub run_key : PatchApplyRun → String
run_key r = r.apply_run_id

abbrev pub snapshot_key : FileSnapshot → String
snapshot_key s = s.snapshot_file_id

unfoldable pub insert : PatchArtifact → Io PatchDb (Unit {0})
unfolding insert_row
insert a d = elim (insert_row artifact_key a d.patch_artifacts) [
  | done rows ↦ (done tt, record d { patch_artifacts = rows })
  | raised text ↦ (raised text, d)
]

unfoldable pub get : String → PatchDb → Option PatchArtifact
unfolding find
get patch_id d = find artifact_key patch_id d.patch_artifacts

unfoldable pub list_artifacts : ℕ → PatchDb → List PatchArtifact
list_artifacts limit d =
    limit_to (clamp_to 200 limit)
      (order_by (λ (a : PatchArtifact) b. ltb a.created_at b.created_at) d.patch_artifacts)

unfoldable pub insert_approval_record : ApprovalRecord → Io PatchDb (Unit {0})
unfolding insert_row
insert_approval_record a d = elim (insert_row approval_key a d.approval_records) [
  | done rows ↦ (done tt, record d { approval_records = rows })
  | raised text ↦ (raised text, d)
]

unfoldable pub get_approval_record : String → PatchDb → Option ApprovalRecord
unfolding find
get_approval_record approval_id d = find approval_key approval_id d.approval_records

unfoldable pub list_approval_records : ℕ → PatchDb → List ApprovalRecord
list_approval_records limit d =
    limit_to (clamp_to 200 limit)
      (order_by (λ (a : ApprovalRecord) b. ltb a.created_at b.created_at) d.approval_records)

unfoldable pub insert_apply_run : PatchApplyRun → Io PatchDb (Unit {0})
unfolding insert_row
insert_apply_run r d = elim (insert_row run_key r d.patch_apply_runs) [
  | done rows ↦ (done tt, record d { patch_apply_runs = rows })
  | raised text ↦ (raised text, d)
]

-- The keyword arguments of update_apply_run; `none` leaves the column.
pub record RunUpdate : Type 0 where
  pub status : ApplyStatus
  pub completed_at : Option Time
  pub applied_at : Option Time
  pub rollback_available : Option Bool
  pub tests_status : Option TestsStatus
  pub bounded_error : Option String

abbrev pub new_status : ApplyStatus → RunUpdate
new_status s = record {
  status = s;
  completed_at = none;
  applied_at = none;
  rollback_available = none;
  tests_status = none;
  bounded_error = none;
}

-- The new value of a column that may be NULL.
abbrev pub or_old : {A : Type 0} → Option A → Option A → Option A
or_old none old = old
or_old (some a) old = some a

abbrev pub flag_or_old : Option Bool → Bool → Bool
flag_or_old none old = old
flag_or_old (some b) old = b

abbrev pub cut : Option String → Option String
cut none = none
cut (some s) = some (take_text 500 s)

unfoldable pub update_row : RunUpdate → PatchApplyRun → PatchApplyRun
unfolding take_text
update_row u r = record r {
  status = u.status;
  completed_at = or_old u.completed_at r.completed_at;
  applied_at = or_old u.applied_at r.applied_at;
  rollback_available = flag_or_old u.rollback_available r.rollback_available;
  tests_status = or_old u.tests_status r.tests_status;
  bounded_error = or_old (cut u.bounded_error) r.bounded_error;
}

unfoldable pub update_apply_run : String → RunUpdate → PatchDb → PatchDb
unfolding update update_row
update_apply_run apply_run_id u d = record d {
  patch_apply_runs = update (λ r. r.apply_run_id == apply_run_id) (update_row u) d.patch_apply_runs;
}

unfoldable pub get_apply_run : String → PatchDb → Option PatchApplyRun
unfolding find
get_apply_run apply_run_id d = find run_key apply_run_id d.patch_apply_runs

-- COALESCE(completed_at, applied_at, ''): the empty text has the least rank.
abbrev pub last_date : PatchApplyRun → Time
last_date r = elim r.completed_at [
  | some t ↦ t
  | none ↦ elim r.applied_at [ some t ↦ t | none ↦ 0 ]
]

unfoldable pub list_apply_runs : ℕ → PatchDb → List PatchApplyRun
list_apply_runs limit d =
    limit_to (clamp_to 200 limit)
      (order_by (λ a b. ltb (last_date a) (last_date b)) d.patch_apply_runs)

unfoldable pub list_apply_runs_for_patch : String → ℕ → PatchDb → List PatchApplyRun
unfolding select
list_apply_runs_for_patch patch_id limit d = limit_to (clamp_to 100 limit) (
    order_by (λ a b. ltb (last_date a) (last_date b))
      (select (λ r. r.patch_id == patch_id) d.patch_apply_runs))

unfoldable pub insert_file_snapshot : FileSnapshot → Io PatchDb (Unit {0})
unfolding insert_row
insert_file_snapshot s d = elim (insert_row snapshot_key s d.file_snapshots) [
  | done rows ↦ (done tt, record d { file_snapshots = rows })
  | raised text ↦ (raised text, d)
]

unfoldable pub list_file_snapshots : String → PatchDb → List FileSnapshot
unfolding select
list_file_snapshots apply_run_id d =
    order_by (λ (a : FileSnapshot) b. ltb b.created_at a.created_at)
      (select (λ s. s.apply_run_id == apply_run_id) d.file_snapshots)
