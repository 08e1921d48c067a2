-- ===== src/Memory/Records.antt =====
-- `MemoryRepository` (backend/python-daemon/orchestrator/memory/repo.py).
use agent_backend.Prelude.{
  ℕ, String, Bool, true, false, ◌&&◌, Option, none, some, List, ◌==◌, ltb, if◌then◌else◌,
}
use agent_backend.Sql.{update, select}
use agent_backend.Sql.Upsert.{replace}
use agent_backend.Store.Schema.{Time}
use agent_backend.Queue.Listing.{order_by, limit_to}
use agent_backend.Memory.Schema.{IndexStatus, indexed, MemoryRecord, MemoryDb}

abbrev pub record_id : MemoryRecord → String
record_id r = r.memory_id

unfoldable pub insert_memory_record : MemoryRecord → MemoryDb → MemoryDb
unfolding replace
insert_memory_record r d = record d { memory_records = replace record_id r d.memory_records }

abbrev pub index_row : IndexStatus → Option Time → Option String → MemoryRecord → MemoryRecord
index_row status at error r = record r {
  index_status = status;
  indexed_at = at;
  index_error = error;
}

-- The ValueError of a status that is none of the three cannot occur here.
unfoldable pub update_memory_index_state :
    String → IndexStatus → Option Time → Option String → MemoryDb → MemoryDb
unfolding update
update_memory_index_state memory_id status at error d = record d {
  memory_records =
      update (λ r. r.memory_id == memory_id) (index_row status at error) d.memory_records;
}

-- max(1, min(int(limit), most)); a negative limit counts as 0.
abbrev pub clamp_to : ℕ → ℕ → ℕ
clamp_to most limit = if ltb most limit then most else if ltb limit 1 then 1 else limit

unfoldable pub list_memory_records : String → ℕ → MemoryDb → List MemoryRecord
unfolding select
list_memory_records scope limit d = limit_to (clamp_to 200 limit) (
    order_by (λ (a : MemoryRecord) b. ltb a.created_at b.created_at)
      (select (λ r. r.project_scope_hash == scope) d.memory_records))

abbrev pub needs_index : MemoryRecord → Bool
needs_index r = elim r.index_status [ indexed ↦ false | _ ↦ true ]

-- `if project_scope_hash:` adds the condition on the scope.
abbrev pub in_scope : Option String → MemoryRecord → Bool
in_scope none r = true
in_scope (some scope) r = if scope == "" then true else r.project_scope_hash == scope

unfoldable pub list_memory_records_for_reindex : Option String → ℕ → MemoryDb → List MemoryRecord
unfolding select
list_memory_records_for_reindex scope limit d = limit_to (clamp_to 500 limit) (
    order_by (λ (a : MemoryRecord) b. ltb b.created_at a.created_at)
      (select (λ r. needs_index r && in_scope scope r) d.memory_records))
