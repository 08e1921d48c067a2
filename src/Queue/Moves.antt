-- ===== src/Queue/Moves.antt =====
-- The transactions of `QueueRepository` that move a task or give its lease back
-- (backend/python-daemon/orchestrator/queue_repo.py).
use agent_backend.Prelude.{
  ℕ, ◌+◌, String, Bool, false, none, some, List, [], ◌∷◌, map, ◌==◌, ltb, key_error,
}
use agent_backend.Sql.{select, update, Txn, ◌>>=◌, ◌>>◌, pure, fail, get, modify}
use agent_backend.Store.{QueueDb}
use agent_backend.Store.Schema.{Time, Real, State, completed, Task, moved}
use agent_backend.Queue.Tasks.{find_task, record_task_event}

-- UPDATE tasks SET f WHERE task_id = k
unfoldable pub update_task : String → (Task → Task) → QueueDb → QueueDb
unfolding update
update_task k f q = record q { tasks = update (λ r. r.task_id == k) f q.tasks }

unfoldable pub lease_expired : Time → Task → Bool
lease_expired now_iso t = elim t.lease_owner [
  | none ↦ false
  | some w ↦ elim t.lease_expires_at [ none ↦ false | some e ↦ ltb e now_iso ]
]

unfoldable pub release_lease : Time → Task → Task
release_lease now t = record t {
  lease_owner = none;
  lease_expires_at = none;
  updated_at = now;
  revision = t.revision + 1;
}

-- The loop over the expired tasks; `clock` is the reading of the clock at each of them.
unfoldable pub release_all : (String → Time) → List String → QueueDb → QueueDb
unfolding update_task release_lease
release_all clock [] q = q
release_all clock (k ∷ ks) q = release_all clock ks (update_task k (release_lease (clock k)) q)

-- SELECT task_id … WHERE the lease has expired
unfoldable pub expired_ids : Time → QueueDb → List String
unfolding select lease_expired
expired_ids now_iso q = map (λ t. t.task_id) (select (lease_expired now_iso) q.tasks)

-- The transaction of `release_expired_leases`: the ids of the released tasks.
unfoldable pub release : Time → (String → Time) → Txn QueueDb (List String)
unfolding expired_ids release_all
release now_iso clock = do
  q ← get
  let task_ids = expired_ids now_iso q
  modify (release_all clock task_ids)
  pure task_ids

unfoldable pub set_state : State → Time → Task → Task
set_state to_state now t = record t {
  state = to_state;
  updated_at = now;
  revision = t.revision + 1;
}

-- The row that SELECT found, or KeyError.
unfoldable pub fetch_task : String → Txn QueueDb Task
unfolding find_task
fetch_task k q = elim (find_task k q) [ none ↦ fail (key_error k) q | some t ↦ pure t q ]

-- The transaction of `transition_task_state`: the UPDATE and its event, once the row has been read.
-- `at` is when the event is recorded.
unfoldable pub write_state : String → State → State → String → Time → Time → Txn QueueDb (Unit {0})
unfolding set_state update_task record_task_event
write_state task_id from_state to_state reason now at = do
  modify (update_task task_id (set_state to_state now))
  record_task_event task_id (moved from_state to_state reason) at

unfoldable pub complete_row : Time → Task → Task
complete_row now t = record t {
  state = completed;
  lease_owner = none;
  lease_expires_at = none;
  completed_at = some now;
  updated_at = now;
  revision = t.revision + 1;
}

-- The queue.db transaction of `complete_task`, once the state has been read.
unfoldable pub write_completed : String → State → Time → Time → Txn QueueDb (Unit {0})
unfolding complete_row update_task record_task_event
write_completed task_id from_state now at = do
  modify (update_task task_id (complete_row now))
  record_task_event task_id (moved from_state completed "complete_task") at

unfoldable pub score_row : Real → Real → Real → Time → Task → Task
score_row slr_score depth_penalty final_score now t = record t {
  slr_score = slr_score;
  depth_penalty = depth_penalty;
  final_score = final_score;
  updated_at = now;
}

unfoldable pub constrain_row : List String → ℕ → Time → Task → Task
constrain_row constraints reroll_count now t = record t {
  negative_constraints = constraints;
  reroll_count = reroll_count;
  lease_owner = none;
  lease_expires_at = none;
  updated_at = now;
  revision = t.revision + 1;
}
