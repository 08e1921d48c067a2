-- ===== src/Queue/Ingest.antt =====
-- Ingestion runs, the file manifest and the chunks
-- (backend/python-daemon/orchestrator/queue_repo.py).
use agent_backend.Prelude.{
  ℕ, String, Bool, true, false, ◌&&◌, Option, none, some, List, [], ◌∷◌, ◌++◌, ◌==◌, ltb, map, any,
  if◌then◌else◌, ok, err, integrity_error,
}
use Prim.Native.String.{compare}
use Prim.Native.Nat.{Ordering}
use agent_backend.Sql.{select, update, delete, rowcount, Txn}
use agent_backend.Store.{QueueDb}
use agent_backend.Store.Schema.{
  Time, RunState, running, failed, failed_vector_upsert, reconciled, Run, FileRow, Chunk,
}

-- INSERT OR REPLACE: the row with the same primary key makes way.
unfoldable pub start_ingestion_run : String → String → String → String → Time → QueueDb → QueueDb
unfolding delete
start_ingestion_run run_id project_id project_scope_hash target_path now q = record q {
  ingestion_runs =
      delete (λ r. r.run_id == run_id) q.ingestion_runs
      ++ record {
        run_id = run_id;
        project_id = project_id;
        project_scope_hash = project_scope_hash;
        target_path = target_path;
        state = running;
        error = none;
        started_at = now;
        finished_at = none;
      }
        ∷ [];
}

unfoldable pub finish_ingestion_run : String → RunState → Option String → Time → QueueDb → QueueDb
unfolding update
finish_ingestion_run run_id state error now q = record q {
  ingestion_runs =
      update (λ r. r.run_id == run_id)
        (λ r. record r { state = state; error = error; finished_at = some now }) q.ingestion_runs;
}

abbrev pub is_rebuildable : RunState → Bool
is_rebuildable failed = true
is_rebuildable failed_vector_upsert = true
is_rebuildable _ = false

abbrev pub same_path : String → String → FileRow → Bool
same_path scope path f = f.project_scope_hash == scope && f.absolute_path == path

abbrev pub chunk_on_path : String → String → Chunk → Bool
chunk_on_path scope path c = c.project_scope_hash == scope && c.absolute_path == path

-- INSERT OR REPLACE deletes a row with this key first, and then the chunks that refer to it would
-- be left without their file: the foreign key is checked when the statement ends, with the new row.
unfoldable pub record_file_manifest : FileRow → QueueDb → QueueDb
unfolding delete
record_file_manifest f q = record q {
  files = delete (same_path f.project_scope_hash f.absolute_path) q.files ++ f ∷ [];
}

unfoldable pub file_manifest : String → String → QueueDb → Option FileRow
unfolding select
file_manifest scope path q = elim (select (same_path scope path) q.files) [
  | [] ↦ none
  | f ∷ fs ↦ some f
]

unfoldable pub file_paths_for_scope : String → QueueDb → List String
unfolding select
file_paths_for_scope scope q =
    map (λ f. f.absolute_path) (select (λ f. f.project_scope_hash == scope) q.files)

-- The chunks of the path go first, so that no foreign key is left open.
unfoldable pub delete_file_manifest : String → String → QueueDb → ℕ × QueueDb
unfolding delete rowcount
delete_file_manifest scope path q = (
  rowcount (same_path scope path) q.files,
  record q {
    chunks = delete (chunk_on_path scope path) q.chunks;
    files = delete (same_path scope path) q.files;
  },
)

-- The foreign keys of a chunk: its run and its file.
unfoldable pub chunk_known : QueueDb → Chunk → Bool
unfolding any
chunk_known q c =
    any (λ r. r.run_id == c.run_id) q.ingestion_runs
    && any (same_path c.project_scope_hash c.absolute_path) q.files

-- The loop of `record_chunks`; a chunk that is refused undoes the whole transaction.
unfoldable pub record_chunks : List Chunk → Txn QueueDb (Unit {0})
unfolding delete chunk_known
record_chunks [] q = ok (tt, q)
record_chunks (c ∷ cs) q =
    let q' : QueueDb = record q {
      chunks = delete (λ x. x.chunk_id == c.chunk_id) q.chunks ++ c ∷ [];
    } in
    let rest = record_chunks cs q' in if chunk_known q c then rest else err integrity_error

unfoldable pub delete_chunks_for_path : String → String → QueueDb → ℕ × QueueDb
unfolding delete rowcount
delete_chunks_for_path scope path q = (
  rowcount (chunk_on_path scope path) q.chunks,
  record q { chunks = delete (chunk_on_path scope path) q.chunks },
)

-- The WHERE of `list_rebuildable_chunks`: a failed run holds the chunk.
unfoldable pub needs_rebuild : QueueDb → String → Chunk → Bool
unfolding any
needs_rebuild q project_id c =
    c.project_id == project_id
    && any (λ r. r.run_id == c.run_id && is_rebuildable r.state) q.ingestion_runs

-- ORDER BY absolute_path, chunk_index
abbrev stands_behind : Chunk → Chunk → Bool
stands_behind c d = elim (compare c.absolute_path d.absolute_path) [
  | Ordering.lt ↦ false
  | Ordering.eq ↦ ltb d.chunk_index c.chunk_index
  | Ordering.gt ↦ true
]

abbrev insert_chunk : Chunk → List Chunk → List Chunk
insert_chunk c [] = c ∷ []
insert_chunk c (d ∷ ds) =
    let rest = insert_chunk c ds in if stands_behind c d then d ∷ rest else c ∷ d ∷ ds

abbrev pub by_path : List Chunk → List Chunk
by_path [] = []
by_path (c ∷ cs) = insert_chunk c (by_path cs)

unfoldable pub list_rebuildable_chunks : String → QueueDb → List Chunk
unfolding select needs_rebuild
list_rebuildable_chunks project_id q = by_path (select (needs_rebuild q project_id) q.chunks)

unfoldable pub mark_rebuildable_runs_reconciled : String → Time → QueueDb → ℕ × QueueDb
unfolding update rowcount
mark_rebuildable_runs_reconciled project_id now q =
    let hit = λ (r : Run). r.project_id == project_id && is_rebuildable r.state in
    (
      rowcount hit q.ingestion_runs,
      record q {
        ingestion_runs =
            update hit (λ r. record r { state = reconciled; error = none; finished_at = some now })
              q.ingestion_runs;
      },
    )
