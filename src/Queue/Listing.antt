-- ===== src/Queue/Listing.antt =====
-- The methods of `QueueRepository` that list rows in an order
-- (backend/python-daemon/orchestrator/queue_repo.py).
use Prim.Native.String.{compare}
use Prim.Native.Nat.{Ordering}
use agent_backend.Prelude.{
  ℕ, zero, suc, String, Bool, true, false, List, [], ◌∷◌, ◌==◌, ltb, if◌then◌else◌, length, Result,
  ok, err, key_error,
}
use agent_backend.Sql.{select}
use agent_backend.Store.{QueueDb, ControlDb}
use agent_backend.Store.Schema.{Run, Event, Chunk, Process, DeadLetter}
use agent_backend.Queue.Ingest.{by_path}

module _ {A : Type 0} (behind : A → A → Bool) where
  abbrev pub insert : A → List A → List A
  insert a [] = a ∷ []
  insert a (b ∷ bs) = let rest = insert a bs in if behind a b then b ∷ rest else a ∷ b ∷ bs

  -- ORDER BY; rows of the same rank keep the order of the table.
  abbrev pub order_by : List A → List A
  order_by [] = []
  order_by (a ∷ rest) = insert a (order_by rest)

-- LIMIT
abbrev pub limit_to : {A : Type 0} → ℕ → List A → List A
limit_to n [] = []
limit_to zero (a ∷ rest) = []
limit_to (suc n) (a ∷ rest) = a ∷ limit_to n rest

unfoldable pub list_task_events : String → QueueDb → List Event
unfolding select
list_task_events task_id q =
    order_by (λ a b. ltb b.created_at a.created_at)
      (select (λ e. e.task_id == task_id) q.task_events)

-- max(1, min(int(limit), 1000))
abbrev pub clamp : ℕ → ℕ
clamp limit = if ltb 1000 limit then 1000 else if ltb limit 1 then 1 else limit

unfoldable pub list_dead_letters : ℕ → ControlDb → List DeadLetter
list_dead_letters limit c =
    limit_to (clamp limit) (order_by (λ a b. ltb a.created_at b.created_at) c.dead_letters)

abbrev first_run : String → List Run → Result Run
first_run project_id [] = err (key_error project_id)
first_run project_id (r ∷ rest) = ok r

unfoldable pub latest_ingestion_run : String → QueueDb → Result Run
unfolding select
latest_ingestion_run project_id q = first_run project_id (
    order_by (λ a b. ltb a.started_at b.started_at)
      (select (λ r. r.project_id == project_id) q.ingestion_runs))

abbrev by_index : Chunk → Chunk → Bool
by_index a b =
    if ltb b.chunk_index a.chunk_index
    then true
    else if ltb a.chunk_index b.chunk_index
    then false
    else elim (compare a.chunk_id b.chunk_id) [
      | Ordering.lt ↦ false
      | Ordering.eq ↦ false
      | Ordering.gt ↦ true
    ]

unfoldable pub list_chunks : String → QueueDb → List Chunk
unfolding select
list_chunks project_id q = order_by by_index (select (λ c. c.project_id == project_id) q.chunks)

unfoldable pub chunks_for_rebuild : String → QueueDb → List Chunk
unfolding select
chunks_for_rebuild project_id q = by_path (select (λ c. c.project_id == project_id) q.chunks)

unfoldable pub count_file_manifests : QueueDb → ℕ
count_file_manifests q = length q.files

unfoldable pub list_worker_status : ControlDb → List Process
list_worker_status c = order_by (λ a b. ltb b.started_at a.started_at) c.process_registry
