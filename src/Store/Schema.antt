-- ===== src/Store/Schema.antt =====
-- The rows of the databases queue.db and control.db
-- (backend/python-daemon/orchestrator/db_bootstrap.py).
use agent_backend.Prelude.{ℕ, String, Option, List}

-- An instant: the rank of its ISO text in SQLite's order of texts.
abbrev pub Time : Type 0
Time = ℕ

-- A REAL column: the bit pattern of an IEEE double.
abbrev pub Real : Type 0
Real = ℕ

pub data State : Type 0 where
  planning pending_approval completed : State

pub data Resolution : Type 0 where
  active rejected cascade_pruned : Resolution

pub data Decision : Type 0 where
  pending approved denied : Decision

pub data RunState : Type 0 where
  running run_completed failed failed_vector_upsert reconciled : RunState

pub data WorkerStatus : Type 0 where
  alive stale exited orphaned : WorkerStatus

-- The decoded `negative_constraints_json` stands for its text.
pub record Task : Type 0 where
  pub task_id : String
  pub project_id : String
  pub state : State
  pub resolution : Resolution
  pub parent_task_id : Option String
  pub title : String
  pub payload_json : String
  pub slr_score : Real
  pub depth_penalty : Real
  pub final_score : Real
  pub depth : ℕ
  pub reroll_count : ℕ
  pub negative_constraints : List String
  pub novelty_md5 : String
  pub lease_owner : Option String
  pub lease_expires_at : Option Time
  pub revision : ℕ
  pub created_at : Time
  pub updated_at : Time
  pub completed_at : Option Time
  pub pruned_by_task_id : Option String
  pub pruned_reason : Option String

pub record Edge : Type 0 where
  pub parent : String
  pub child : String

-- What `_record_task_event` writes as `details`.
pub data Details : Type 0 where
  moved : (from_state to_state : State) (reason : String) → Details
  refused : (reason : String) → Details
  pruned_by : (pruned_by_task_id reason : String) → Details

-- The column event_id, a random text that nothing reads, is left out; so are lease_id and
-- dead_letter_id below.
pub record Event : Type 0 where
  pub task_id : String
  pub details : Details
  pub created_at : Time

pub record Approval : Type 0 where
  pub approval_id : String
  pub task_id : String
  pub diff_sha256 : String
  pub diff_hmac_sha256 : String
  pub base_snapshot_sha256 : String
  pub proposed_snapshot_sha256 : String
  pub decision : Decision
  pub decided_by : Option String
  pub decided_at : Option Time
  pub created_at : Time

pub record FileRow : Type 0 where
  pub project_id : String
  pub project_scope_hash : String
  pub absolute_path : String
  pub file_sha256 : String
  pub file_name : String
  pub metadata_hash : String
  pub size_bytes : ℕ
  pub mtime_ns : ℕ
  pub updated_at : Time

pub record Run : Type 0 where
  pub run_id : String
  pub project_id : String
  pub project_scope_hash : String
  pub target_path : String
  pub state : RunState
  pub error : Option String
  pub started_at : Time
  pub finished_at : Option Time

pub record Chunk : Type 0 where
  pub chunk_id : String
  pub project_id : String
  pub project_scope_hash : String
  pub run_id : String
  pub file_sha256 : String
  pub absolute_path : String
  pub chunk_index : ℕ
  pub processor : String
  pub content_sha1 : String
  pub content : String
  pub metadata_json : String
  pub created_at : Time

pub record Lease : Type 0 where
  pub task_id : String
  pub worker_id : String
  pub acquired_at : Time
  pub expires_at : Time
  pub heartbeat_at : Time

-- What `os.waitstatus_to_exitcode` gives: an exit status, or minus the number of a signal.
pub data ExitCode : Type 0 where
  status : ℕ → ExitCode
  signal : ℕ → ExitCode

pub record Process : Type 0 where
  pub pid : ℕ
  pub worker_id : String
  pub command_json : String
  pub started_at : Time
  pub heartbeat_at : Option Time
  pub status : WorkerStatus
  pub exited_at : Option Time
  pub exit_code : Option ExitCode
  pub orphaned : ℕ

pub record DeadLetter : Type 0 where
  pub task_id : String
  pub reason : String
  pub payload_json : String
  pub created_at : Time
