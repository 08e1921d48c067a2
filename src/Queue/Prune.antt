-- ===== src/Queue/Prune.antt =====
-- `reject_and_prune`: the rejected task and its descendants
-- (backend/python-daemon/orchestrator/queue_repo.py).
use agent_backend.Prelude.{
  suc, ◌+◌, String, ◌&&◌, none, some, List, [], ◌∷◌, ◌==◌, length, Result, ok, err,
}
use agent_backend.Sql.{update, Txn, ◌>>◌, pure, modify}
use agent_backend.Store.{QueueDb}
use agent_backend.Store.Schema.{Time, rejected, cascade_pruned, Task, refused, pruned_by}
use agent_backend.Queue.Tasks.{is_active, record_task_event}
use agent_backend.Queue.Moves.{update_task}
use agent_backend.Dag.Descend.{reachable_edges, topological_descendants}

unfoldable pub reject_row : String → Time → Task → Task
reject_row reason now t = record t {
  resolution = rejected;
  lease_owner = none;
  lease_expires_at = none;
  pruned_reason = some reason;
  updated_at = now;
  revision = t.revision + 1;
}

unfoldable pub prune_row : String → String → Time → Task → Task
prune_row root reason now t = record t {
  resolution = cascade_pruned;
  lease_owner = none;
  lease_expires_at = none;
  pruned_by_task_id = some root;
  pruned_reason = some reason;
  updated_at = now;
  revision = t.revision + 1;
}

-- UPDATE tasks … WHERE task_id = ? AND resolution = 'ACTIVE'
unfoldable pub prune_one : String → String → Time → String → QueueDb → QueueDb
unfolding update prune_row
prune_one root reason now child q = record q {
  tasks =
      update (λ r. r.task_id == child && is_active r.resolution) (prune_row root reason now)
        q.tasks;
}

-- The loop over the descendants; `clock` is when the event of each is recorded.
unfoldable pub prune_all :
    String → String → Time → (String → Time) → List String → Txn QueueDb (Unit {0})
unfolding prune_one record_task_event
prune_all root reason now clock [] = pure tt
prune_all root reason now clock (child ∷ rest) = do
  modify (prune_one root reason now child)
  record_task_event child (pruned_by root reason) (clock child)
  prune_all root reason now clock rest

-- The queue.db transaction of `reject_and_prune`.
unfoldable pub prune :
    String → String → List String → Time → (String → Time) → Txn QueueDb (Unit {0})
unfolding update_task reject_row record_task_event prune_all
prune root reason descendants now clock = do
  modify (update_task root (reject_row reason now))
  record_task_event root (refused reason) (clock root)
  prune_all root reason now clock descendants

-- `_descendants`. The recursive query gets a round for each task: a path of edges between
-- different tasks is no longer.
unfoldable pub descendants : String → QueueDb → Result (List String)
unfolding reachable_edges topological_descendants
descendants root q = elim (reachable_edges (suc (length q.tasks)) root q.task_edges) [
  | err e ↦ err e
  | ok edges ↦ topological_descendants root edges
]
