-- ===== src/Memory/Kept.antt =====
-- What committing a memory leaves (backend/python-daemon/orchestrator/memory/service.py).
use agent_backend.Prelude.{
  ℕ, ◌≤◌, String, ◌≡◌, true, false, Option, none, some, ◌==◌, elem, ltb, if◌then◌else◌, take_text,
  strip, text_length,
}
use agent_backend.Json.{Json}
use agent_backend.Sql.{find}
use agent_backend.Memory.Schema.{MemoryRecord, MemoryDb, IndexStatus, indexed, index_failed}
use agent_backend.Memory.Partitions.{get_active_partition}
use agent_backend.Memory.Records.{record_id}
use agent_backend.Memory.Commit.{
  Vectors, CommitRequest, Commit, committed, commit_index_failed, invalid_category,
  content_too_short, commit_no_partition, usable, allowed_memory_types,
}

unfoldable pub find_record : String → MemoryDb → Option MemoryRecord
unfolding find
find_record memory_id d = find record_id memory_id d.memory_records

abbrev pub AtMost : ℕ → Option String → Type 0
AtMost n none = Unit
AtMost n (some s) = text_length s ≤ n

-- The record of the request, in a project and its scope, with a status of the index; the records
-- with other ids and the other tables are those of `d`.
abbrev pub IsStored : CommitRequest → String → String → IndexStatus → MemoryDb → MemoryDb → Type 0
IsStored c project scope status d d' =
    (r : MemoryRecord) × (r.index_status ≡ status)
    × (r.project_id ≡ project)
    × (r.project_scope_hash ≡ scope)
    × (r.memory_type ≡ c.category)
    × (text_length r.content ≤ 8000)
    × AtMost 2000 r.index_error
    × ((k : String) → find_record k d' ≡ (if c.memory_id == k then some r else find_record k d))
    × (d'.active_partitions ≡ d.active_partitions)

module _ (vectors : Vectors) (sha1_hex : String → String) (client_id : String) where
  -- What the outcome of a commit says of the databases before and after it.
  abbrev pub IsCommit :
      CommitRequest → MemoryDb → vectors.Index → Commit × MemoryDb × vectors.Index → Type 0
  IsCommit c d v (committed memory_id project scope answer, d', v') =
      (usable (get_active_partition client_id d) ≡ some (project, scope))
      × IsStored c project scope indexed d d'
  IsCommit c d v (commit_index_failed memory_id text, d', v') =
      (project : String) × (scope : String) × (usable (get_active_partition client_id d)
        ≡ some (project, scope))
      × IsStored c project scope index_failed d d'
  IsCommit c d v (invalid_category category, d', v') =
      (elem c.category allowed_memory_types ≡ false) × (d' ≡ d)
  IsCommit c d v (content_too_short, d', v') =
      (ltb (text_length (strip (take_text 8000 c.content))) 10 ≡ true) × (d' ≡ d)
  IsCommit c d v (commit_no_partition, d', v') =
      (usable (get_active_partition client_id d) ≡ none) × (d' ≡ d)
