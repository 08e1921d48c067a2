-- ===== src/Memory/Partitions.antt =====
-- `ActivePartitionRepository` (backend/python-daemon/orchestrator/active_partition/repo.py).
use Prim.Native.String.{compare}
use Prim.Native.Nat.{Ordering}
use agent_backend.Prelude.{
  ℕ, zero, suc, String, Bool, true, false, Option, List, [], ◌∷◌, ◌++◌, ◌==◌, ltb, if◌then◌else◌,
}
use agent_backend.Json.{Fields}
use agent_backend.Sql.{find, delete}
use agent_backend.Sql.Upsert.{upsert}
use agent_backend.Store.Schema.{Time}
use agent_backend.Queue.Listing.{order_by}
use agent_backend.Memory.Schema.{MemoryProject, ActivePartition, MemoryDb}

-- `t or _now()`: the empty text, of rank 0, is false.
abbrev pub or_now : Time → Time → Time
or_now zero now = now
or_now (suc t) now = suc t

-- DO UPDATE SET: all but the key and the creation date.
abbrev pub renew_project : MemoryProject → MemoryProject → MemoryProject
renew_project old new = record new {
  project_scope_hash = old.project_scope_hash;
  created_at = old.created_at;
}

abbrev pub dated : MemoryProject → Time → Time → MemoryProject
dated p created seen = record p {
  created_at = or_now p.created_at created;
  last_seen_at = or_now p.last_seen_at seen;
}

unfoldable pub upsert_memory_project : MemoryProject → Time → Time → MemoryDb → MemoryDb
unfolding upsert
upsert_memory_project p created seen d = record d {
  memory_projects =
      upsert (λ (x : MemoryProject). x.project_scope_hash) renew_project (dated p created seen)
        d.memory_projects;
}

-- Whether `a` stands behind `b` in ORDER BY last_seen_at DESC, created_at DESC, project_id ASC.
abbrev pub project_behind : MemoryProject → MemoryProject → Bool
project_behind a b =
    if ltb a.last_seen_at b.last_seen_at
    then true
    else if ltb b.last_seen_at a.last_seen_at
    then false
    else if ltb a.created_at b.created_at
    then true
    else if ltb b.created_at a.created_at
    then false
    else elim (compare a.project_id b.project_id) [ Ordering.gt ↦ true | _ ↦ false ]

unfoldable pub list_memory_projects : MemoryDb → List MemoryProject
list_memory_projects d = order_by project_behind d.memory_projects

abbrev pub client : ActivePartition → String
client p = p.client_id

abbrev pub renew_partition : ActivePartition → ActivePartition → ActivePartition
renew_partition old new = record new { client_id = old.client_id }

unfoldable pub set_active_partition : ActivePartition → MemoryDb → MemoryDb
unfolding upsert
set_active_partition p d = record d {
  active_partitions = upsert client renew_partition p d.active_partitions;
}

unfoldable pub get_active_partition : String → MemoryDb → Option ActivePartition
unfolding find
get_active_partition client_id d = find client client_id d.active_partitions

unfoldable pub clear_active_partition : String → MemoryDb → MemoryDb
unfolding delete
clear_active_partition client_id d = record d {
  active_partitions = delete (λ p. p.client_id == client_id) d.active_partitions;
}

unfoldable pub record_conversation_event :
    String → String → String → Fields → ℕ → Time → Time → MemoryDb → MemoryDb
record_conversation_event scope session role content token_count timestamp now d = record d {
  conversation_events =
      d.conversation_events
      ++ (record {
        project_scope_hash = scope;
        session_id = session;
        role = role;
        content = content;
        token_count = token_count;
        timestamp = or_now timestamp now;
      })
        ∷ [];
}
