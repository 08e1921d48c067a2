-- ===== src/Memory/Activation.antt =====
-- `ActivePartitionService` (backend/python-daemon/orchestrator/active_partition/service.py).
use agent_backend.Prelude.{
  ℕ, String, true, Option, none, some, List, ◌==◌, if◌then◌else◌, Attempt, done, raised,
  replace_char,
}
use agent_backend.Patching.Io.{Io, return, ◌>>◌}
use agent_backend.Json.{str, field, end}
use agent_backend.Store.Schema.{Time}
use agent_backend.Memory.Schema.{MemoryProject, ActivePartition, MemoryDb}
use agent_backend.Memory.Partitions.{
  upsert_memory_project, set_active_partition, record_conversation_event,
}
use agent_backend.Memory.Mapper.{
  Outside, Parts, Mapping, mapped, unmapped, NullStatus, PartitionMapping, map_conversation,
  project_scope_hash,
}

pub record Service : Type 0 where
  pub outside : Outside
  pub conversations_root : Parts
  pub client_id : String
  -- The texts of the allowed roots.
  pub allowed_roots : List String
  -- What the transactions of a call raise, in their order: SQLite may be locked or refuse a text.
  pub fault : ℕ → Option String

-- A transaction, which raises or commits.
abbrev pub commit : Option String → (MemoryDb → MemoryDb) → Io MemoryDb (Unit {0})
commit none f d = (done tt, f d)
commit (some text) f d = (raised text, d)

-- The partition; ActivePartitionServiceError, with the result of the mapper; or another exception.
pub data Activation : Type 0 where
  activated : ActivePartition → Activation
  refused : NullStatus → String → Activation
  crashed : String → Activation

-- The argument `now` gives the readings of the clock, in their order.
abbrev pub folder_project : Service → PartitionMapping → (ℕ → Time) → MemoryProject
folder_project s m now = record {
  project_id = m.project_id;
  project_scope_hash = m.project_scope_hash;
  source = "lmstudio_folder";
  display_name = replace_char b'/' " / " m.folder_relpath;
  lmstudio_folder_relpath = some m.folder_relpath;
  allowed_roots = s.allowed_roots;
  rag_enabled = true;
  created_at = now 0;
  last_seen_at = now 1;
}

abbrev pub folder_partition : Service → PartitionMapping → String → Time → ActivePartition
folder_partition s m source_event at = record {
  client_id = s.client_id;
  active_project_id = some m.project_id;
  active_project_scope_hash = some m.project_scope_hash;
  active_conversation_id = some m.conversation_id;
  conversation_path = some m.conversation_path;
  confidence = "high";
  source_event = source_event;
  updated_at = at;
}

-- The three transactions of a mapped conversation; what one has committed stays when the next
-- raises.
unfoldable pub activate_folder :
    Service → PartitionMapping → String → (ℕ → Time) → Io MemoryDb (Unit {0})
unfolding upsert_memory_project set_active_partition record_conversation_event replace_char
activate_folder s m source_event now = do
  commit (s.fault 0) (upsert_memory_project (folder_project s m now) (now 0) (now 1))
  commit (s.fault 1) (set_active_partition (folder_partition s m source_event (now 2)))
  commit (s.fault 2) (
      record_conversation_event m.project_scope_hash m.conversation_id "system"
        (field "event" (str "active_partition_mapped") (
          field "conversation_path" (str m.conversation_path) (
            field "folder_relpath" (str m.folder_relpath)
              (field "project_id" (str m.project_id) end))))
        0 0 (now 3))

abbrev pub activation_of : ActivePartition → Attempt (Unit {0}) × MemoryDb → Activation × MemoryDb
activation_of p (done u, d) = (activated p, d)
activation_of p (raised text, d) = (crashed text, d)

abbrev pub on_mapping :
    Service → String → (ℕ → Time) → MemoryDb → Attempt Mapping → Activation × MemoryDb
on_mapping s source_event now d (raised text) = (crashed text, d)
on_mapping s source_event now d (done (unmapped status path)) = (refused status path, d)
on_mapping s source_event now d (done (mapped m)) =
    activation_of (folder_partition s m source_event (now 2))
      (activate_folder s m source_event now d)

unfoldable pub set_active_from_conversation_path :
    Service → String → String → (ℕ → Time) → MemoryDb → Activation × MemoryDb
unfolding map_conversation activate_folder
set_active_from_conversation_path s path source_event now d =
    on_mapping s source_event now d (map_conversation s.outside s.conversations_root path)

-- `display_name or project_id`
abbrev pub named : Option String → String → String
named none project_id = project_id
named (some name) project_id = if name == "" then project_id else name

abbrev pub manual_partition : Service → String → Time → ActivePartition
manual_partition s project_id at = record {
  client_id = s.client_id;
  active_project_id = some project_id;
  active_project_scope_hash = some (project_scope_hash s.outside project_id);
  active_conversation_id = none;
  conversation_path = none;
  confidence = "high";
  source_event = "manual_override";
  updated_at = at;
}

abbrev pub manual_project : Service → String → String → (ℕ → Time) → MemoryProject
manual_project s project_id name now = record {
  project_id = project_id;
  project_scope_hash = project_scope_hash s.outside project_id;
  source = "manual_override";
  display_name = name;
  lmstudio_folder_relpath = none;
  allowed_roots = s.allowed_roots;
  rag_enabled = true;
  created_at = now 0;
  last_seen_at = now 1;
}

unfoldable pub set_active_project :
    Service → String → Option String → (ℕ → Time) → Io MemoryDb ActivePartition
unfolding project_scope_hash upsert_memory_project set_active_partition record_conversation_event
set_active_project s project_id display_name now = do
  commit (s.fault 0) (
      upsert_memory_project (manual_project s project_id (named display_name project_id) now)
        (now 0) (now 1))
  commit (s.fault 1) (set_active_partition (manual_partition s project_id (now 2)))
  commit (s.fault 2) (
      record_conversation_event (project_scope_hash s.outside project_id) project_id "system"
        (field "event" (str "manual_active_project_override") (
          field "project_id" (str project_id)
            (field "display_name" (str (named display_name project_id)) end)))
        0 0 (now 3))
  return (manual_partition s project_id (now 2))
