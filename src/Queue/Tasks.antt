-- ===== src/Queue/Tasks.antt =====
-- The transactions of `QueueRepository` on the tasks of queue.db
-- (backend/python-daemon/orchestrator/queue_repo.py).
use mathlib.Core.Option
use agent_backend.Prelude.{
  ℕ, ◌+◌, String, Bool, true, false, not, ◌&&◌, ◌||◌, Option, none, some, List, [], ◌∷◌, ◌++◌, ◌==◌,
  is_none, any, integrity_error,
}
use agent_backend.Sql.{select, update, find, earliest, Txn, ◌>>=◌, ◌>>◌, pure, get, modify, guard}
use agent_backend.Store.{QueueDb}
use agent_backend.Store.Schema.{
  Time, State, planning, pending_approval, completed, Resolution, active, Task, Edge, Details,
}

abbrev pub state_eq : State → State → Bool
state_eq planning planning = true
state_eq pending_approval pending_approval = true
state_eq completed completed = true
state_eq _ _ = false

abbrev pub is_active : Resolution → Bool
is_active active = true
is_active _ = false

-- ALLOWED_TASK_TRANSITIONS
abbrev pub allowed_task_transitions : List (State × State)
allowed_task_transitions =
    (planning, pending_approval)
    ∷ (planning, completed)
    ∷ (pending_approval, planning)
    ∷ (pending_approval, completed)
    ∷ []

unfoldable pub allowed : State → State → Bool
unfolding any
allowed from_state to_state =
    any (λ t. state_eq t.0 from_state && state_eq t.1 to_state) allowed_task_transitions

unfoldable pub find_task : String → QueueDb → Option Task
unfolding find
find_task k q = find (λ t. t.task_id) k q.tasks

unfoldable pub has_task : QueueDb → String → Bool
unfolding any
has_task q k = any (λ t. t.task_id == k) q.tasks

-- The row that INSERT INTO tasks writes.
unfoldable pub new_task :
    (task_id project_id title payload_json novelty_md5 : String) (depth : ℕ)
    (parent_task_id : Option String) (now : Time)
    → Task
new_task task_id project_id title payload_json novelty_md5 depth parent_task_id now = record {
  task_id = task_id;
  project_id = project_id;
  state = planning;
  resolution = active;
  parent_task_id = parent_task_id;
  title = title;
  payload_json = payload_json;
  slr_score = 0;
  depth_penalty = 0;
  final_score = 0;
  depth = depth;
  reroll_count = 0;
  negative_constraints = [];
  novelty_md5 = novelty_md5;
  lease_owner = none;
  lease_expires_at = none;
  revision = 0;
  created_at = now;
  updated_at = now;
  completed_at = none;
  pruned_by_task_id = none;
  pruned_reason = none;
}

-- FOREIGN KEY (parent_task_id) REFERENCES tasks(task_id): the row itself counts.
unfoldable pub parent_known : QueueDb → Task → Bool
unfolding has_task
parent_known q t = elim t.parent_task_id [ none ↦ true | some p ↦ has_task q p || p == t.task_id ]

unfoldable pub insert_task : Task → Txn QueueDb (Unit {0})
unfolding has_task parent_known
insert_task t = do
  q ← get
  guard (not (has_task q t.task_id)) integrity_error
  guard (parent_known q t) integrity_error
  modify (λ d. record d { tasks = d.tasks ++ t ∷ [] })

unfoldable pub has_edge : QueueDb → Edge → Bool
unfolding any
has_edge q e = any (λ x. x.parent == e.parent && x.child == e.child) q.task_edges

unfoldable pub insert_edge : Edge → Txn QueueDb (Unit {0})
unfolding has_task has_edge
insert_edge e = do
  q ← get
  guard (not (has_edge q e)) integrity_error
  guard (has_task q e.parent && has_task q e.child) integrity_error
  modify (λ d. record d { task_edges = d.task_edges ++ e ∷ [] })

-- The edge from the parent, if there is one.
unfoldable pub link_parent : String → Option String → Txn QueueDb (Unit {0})
unfolding insert_edge
link_parent k none = pure tt
link_parent k (some p) = insert_edge (record { parent = p; child = k })

-- The transaction of `create_task`.
unfoldable pub create : Task → Txn QueueDb (Unit {0})
unfolding insert_task link_parent
create t = do insert_task t; link_parent t.task_id t.parent_task_id

-- `_record_task_event`, with the foreign key of task_events.
unfoldable pub record_task_event : String → Details → Time → Txn QueueDb (Unit {0})
unfolding has_task
record_task_event task_id details created_at = do
  q ← get
  guard (has_task q task_id) integrity_error
  modify (λ d. record d {
    task_events =
        d.task_events
        ++ record { task_id = task_id; details = details; created_at = created_at } ∷ [];
  })

-- The columns of RETURNING in `claim_ready_task`.
pub record Claim : Type 0 where
  pub task_id : String
  pub project_id : String
  pub state : State
  pub resolution : Resolution
  pub payload_json : String
  pub revision : ℕ

abbrev pub claim_of : Task → Claim
claim_of t = record {
  task_id = t.task_id;
  project_id = t.project_id;
  state = t.state;
  resolution = t.resolution;
  payload_json = t.payload_json;
  revision = t.revision;
}

abbrev pub is_done : Task → Bool
is_done p = state_eq p.state completed && is_active p.resolution

-- NOT EXISTS, negated: an edge leads here from a task that is not completed and active.
unfoldable pub is_blocked : QueueDb → String → Bool
unfolding any
is_blocked q k =
    any (λ e. e.child == k && any (λ p. p.task_id == e.parent && not (is_done p)) q.tasks)
      q.task_edges

unfoldable pub is_ready : QueueDb → String → Task → Bool
is_ready q project_id t =
    t.project_id == project_id
    && (state_eq t.state planning
        && (is_active t.resolution && (is_none t.lease_owner && not (is_blocked q t.task_id))))

unfoldable pub lease_task : String → Time → Time → Task → Task
lease_task worker_id expires_at now t = record t {
  lease_owner = some worker_id;
  lease_expires_at = some expires_at;
  revision = t.revision + 1;
  updated_at = now;
}

-- The transaction of `claim_ready_task`.
unfoldable pub claim : String → String → Time → Time → Txn QueueDb (Option Claim)
unfolding select earliest update is_ready lease_task find_task
claim project_id worker_id expires_at now q =
    elim (earliest (λ t. t.created_at) (select (is_ready q project_id) q.tasks)) [
      | none ↦ pure none q
      | some t ↦
          let rows =
            update (λ r. r.task_id == t.task_id) (lease_task worker_id expires_at now) q.tasks in
          let q' : QueueDb = record q { tasks = rows } in
          pure (Option.map claim_of (find_task t.task_id q')) q'
    ]
