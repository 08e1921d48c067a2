-- ===== src/Memory/Schema.antt =====
-- The tables of projects, partitions and memories, and the objects that the repositories pass
-- (backend/python-daemon/orchestrator/db_bootstrap.py, active_partition/models.py and
-- memory/models.py).
use agent_backend.Prelude.{ℕ, String, Bool, Option, List}
use agent_backend.Json.{Fields}
use agent_backend.Store.Schema.{Time, Real}

pub data IndexStatus : Type 0 where
  index_pending indexed index_failed : IndexStatus

-- The lists and dicts stand for their JSON texts.
pub record MemoryProject : Type 0 where
  pub project_id : String
  pub project_scope_hash : String
  pub source : String
  pub display_name : String
  pub lmstudio_folder_relpath : Option String
  pub allowed_roots : List String
  pub rag_enabled : Bool
  pub created_at : Time
  pub last_seen_at : Time

pub record ActivePartition : Type 0 where
  pub client_id : String
  pub active_project_id : Option String
  pub active_project_scope_hash : Option String
  pub active_conversation_id : Option String
  pub conversation_path : Option String
  pub confidence : String
  pub source_event : String
  pub updated_at : Time

-- The column event_id, a random text that nothing reads, is left out.
pub record ConversationEvent : Type 0 where
  pub project_scope_hash : String
  pub session_id : String
  pub role : String
  pub content : Fields
  pub token_count : ℕ
  pub timestamp : Time

pub record MemoryRecord : Type 0 where
  pub memory_id : String
  pub project_id : String
  pub project_scope_hash : String
  pub memory_type : String
  pub source : String
  pub content : String
  pub content_sha1 : String
  pub metadata : Fields
  pub confidence_score : Real
  pub created_at : Time
  pub index_status : IndexStatus
  pub indexed_at : Option Time
  pub index_error : Option String

-- The tables of queue.db that these components keep.
pub record MemoryDb : Type 0 where
  pub memory_projects : List MemoryProject
  pub active_partitions : List ActivePartition
  pub conversation_events : List ConversationEvent
  pub memory_records : List MemoryRecord
