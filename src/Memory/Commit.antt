-- ===== src/Memory/Commit.antt =====
-- `MemoryService` (backend/python-daemon/orchestrator/memory/service.py), over a vector index.
use agent_backend.Prelude.{
  ℕ, ◌+◌, String, Bool, true, false, ◌||◌, Option, none, some, List, [], ◌∷◌, ◌==◌, elem, eqb, ltb,
  if◌then◌else◌, Attempt, done, raised, take_text, strip, text_length,
}
use agent_backend.Json.{Json, Fields}
use agent_backend.Store.Schema.{Time, Real}
use agent_backend.Memory.Schema.{
  ActivePartition, MemoryRecord, index_pending, indexed, index_failed, MemoryDb,
}
use agent_backend.Memory.Partitions.{get_active_partition}
use agent_backend.Memory.Records.{
  insert_memory_record, update_memory_index_state, list_memory_records_for_reindex,
}

-- A chunk as it is given to the index: `memory_metadata` are the entries that stand behind those
-- of the caller and overwrite them.
pub record MemoryDoc : Type 0 where
  pub chunk_id : String
  pub content : String
  pub caller_metadata : Fields
  pub project_id : String
  pub project_scope_hash : String
  pub memory_type : String
  pub confidence_score : Real

-- The manager of the vector index, with its state: `upsert_chunks` of one chunk and `search`.
pub record Vectors : Type 1 where
  pub Index : Type 0
  pub upsert_chunks : String → String → MemoryDoc → Index → Attempt Json × Index
  pub search : String → String → ℕ → String → Index → Attempt (List Json) × Index

abbrev pub allowed_memory_types : List String
allowed_memory_types =
    "architecture" ∷ "decision" ∷ "summary" ∷ "bug_fix" ∷ "preference" ∷ "artifact" ∷ []

-- The dict that `commit_memory` returns.
pub data Commit : Type 0 where
  invalid_category : String → Commit
  content_too_short : Commit
  commit_no_partition : Commit
  committed : (memory_id project_id scope : String) (vectors : Json) → Commit
  commit_index_failed : (memory_id text : String) → Commit

abbrev pub commit_ok : Commit → Bool
commit_ok (committed memory_id project_id scope vectors) = true
commit_ok _ = false

abbrev pub commit_status : Commit → String
commit_status (invalid_category category) = "POLICY_BLOCK"
commit_status content_too_short = "POLICY_BLOCK"
commit_status commit_no_partition = "NO_ACTIVE_PARTITION"
commit_status (committed memory_id project_id scope vectors) = "COMMITTED"
commit_status (commit_index_failed memory_id text) = "ERROR"

-- The project and the scope of a partition that has both, as texts that are not empty.
abbrev pub usable : Option ActivePartition → Option (String × String)
usable none = none
usable (some p) = elim p.active_project_id [
  | none ↦ none
  | some project ↦ elim p.active_project_scope_hash [
    | none ↦ none
    | some scope ↦ if project == "" || scope == "" then none else some (project, scope)
  ]
]

-- What a call of commit_memory brings: its arguments, the new id, and two readings of the clock.
pub record CommitRequest : Type 0 where
  pub category : String
  pub content : String
  pub confidence_score : Real
  pub metadata : Fields
  pub memory_id : String
  pub created_at : Time
  pub indexed_at : Time

abbrev pub memory_record : (String → String) → CommitRequest → String → String → MemoryRecord
memory_record sha1_hex c project scope = record {
  memory_id = c.memory_id;
  project_id = project;
  project_scope_hash = scope;
  memory_type = c.category;
  source = "memory_record";
  content = take_text 8000 c.content;
  content_sha1 = sha1_hex (take_text 8000 c.content);
  metadata = c.metadata;
  confidence_score = c.confidence_score;
  created_at = c.created_at;
  index_status = index_pending;
  indexed_at = none;
  index_error = none;
}

abbrev pub memory_doc : MemoryRecord → MemoryDoc
memory_doc r = record {
  chunk_id = r.memory_id;
  content = r.content;
  caller_metadata = r.metadata;
  project_id = r.project_id;
  project_scope_hash = r.project_scope_hash;
  memory_type = r.memory_type;
  confidence_score = r.confidence_score;
}

module _ (vectors : Vectors) (sha1_hex : String → String) (client_id : String) where
  -- The outcome of the index, and what is written of it.
  abbrev pub after_upsert :
      CommitRequest
      → String
      → String
      → MemoryDb
      → Attempt Json × vectors.Index
      → Commit × MemoryDb × vectors.Index
  after_upsert c project scope d (done answer, v) = (
    committed c.memory_id project scope answer,
    update_memory_index_state c.memory_id indexed (some c.indexed_at) none d,
    v,
  )
  after_upsert c project scope d (raised text, v) = (
    commit_index_failed c.memory_id text,
    update_memory_index_state c.memory_id index_failed none (some (take_text 2000 text)) d,
    v,
  )

  abbrev pub commit_into :
      CommitRequest
      → MemoryDb
      → vectors.Index
      → Option (String × String)
      → Commit × MemoryDb × vectors.Index
  commit_into c d v none = (commit_no_partition, d, v)
  commit_into c d v (some (project, scope)) =
      after_upsert c project scope (insert_memory_record (memory_record sha1_hex c project scope) d)
        (vectors.upsert_chunks project scope (memory_doc (memory_record sha1_hex c project scope))
          v)

  unfoldable pub commit_memory :
      CommitRequest → MemoryDb → vectors.Index → Commit × MemoryDb × vectors.Index
  unfolding elem take_text strip insert_memory_record update_memory_index_state get_active_partition
  commit_memory c d v =
      let kept = commit_into c d v (usable (get_active_partition client_id d)) in
      if elem c.category allowed_memory_types
      then if ltb (text_length (strip (take_text 8000 c.content))) 10
        then (content_too_short, d, v)
        else kept
      else (invalid_category c.category, d, v)

  pub record Counts : Type 0 where
    pub indexed_count : ℕ
    pub failed_count : ℕ

  abbrev pub index_one :
      MemoryRecord
      → Time
      → MemoryDb
      → Attempt Json × vectors.Index
      → Bool × MemoryDb × vectors.Index
  index_one r at d (done answer, v) =
      (true, update_memory_index_state r.memory_id indexed (some at) none d, v)
  index_one r at d (raised text, v) = (
    false,
    update_memory_index_state r.memory_id index_failed none (some (take_text 2000 text)) d,
    v,
  )

  abbrev pub count_one : Bool → Counts → Counts
  count_one true c = record c { indexed_count = c.indexed_count + 1 }
  count_one false c = record c { failed_count = c.failed_count + 1 }

  -- The loop over the records; `clock` reads the time after the record with the id is indexed.
  unfoldable pub reindex_all :
      (String → Time)
      → List MemoryRecord
      → Counts
      → MemoryDb
      → vectors.Index
      → Counts × MemoryDb × vectors.Index
  unfolding update_memory_index_state take_text
  reindex_all clock [] c d v = (c, d, v)
  reindex_all clock (r ∷ rs) c d v =
      let (b, d', v') =
        index_one r (clock r.memory_id) d
          (vectors.upsert_chunks r.project_id r.project_scope_hash (memory_doc r) v) in
      reindex_all clock rs (count_one b c) d' v'

  unfoldable pub rebuild_memory_index_for_project :
      (String → Time) → String → ℕ → MemoryDb → vectors.Index → Counts × MemoryDb × vectors.Index
  unfolding reindex_all list_memory_records_for_reindex
  rebuild_memory_index_for_project clock scope limit d v =
      reindex_all clock (list_memory_records_for_reindex (some scope) limit d)
        (record { indexed_count = 0; failed_count = 0 }) d v

  -- `"ok": failed == 0`
  abbrev pub rebuild_ok : Counts → Bool
  rebuild_ok c = eqb c.failed_count 0

  pub data Found : Type 0 where
    invalid_query invalid_k search_no_partition : Found
    search_failed : String → Found
    results : List Json → Found

  abbrev pub search_result : Attempt (List Json) × vectors.Index → Found × vectors.Index
  search_result (done items, v) = (results items, v)
  search_result (raised text, v) = (search_failed text, v)

  abbrev pub search_in :
      String → ℕ → vectors.Index → Option (String × String) → Found × vectors.Index
  search_in query k v none = (search_no_partition, v)
  search_in query k v (some (project, scope)) =
      search_result (vectors.search project query k scope v)

  -- `search` is taken to raise ChromaAdapterError alone.
  unfoldable pub semantic_search_active :
      String → ℕ → MemoryDb → vectors.Index → Found × vectors.Index
  unfolding strip get_active_partition
  semantic_search_active query k d v =
      let found = search_in query k v (usable (get_active_partition client_id d)) in
      if strip query == ""
      then (invalid_query, v)
      else if ltb k 1 || ltb 50 k
      then (invalid_k, v)
      else found
