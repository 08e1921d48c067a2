-- ===== src/Tests/Samples.antt =====
-- A queue of two tasks, the second one a child of the first.
use agent_backend.Prelude.{none, some, [], ◌∷◌}
use agent_backend.Store.{QueueDb}
use agent_backend.Store.Schema.{planning, active, Task, Time}

abbrev pub root_task : Task
root_task = record {
  task_id = "root";
  project_id = "p";
  state = planning;
  resolution = active;
  parent_task_id = none;
  title = "Survey";
  payload_json = "{}";
  slr_score = 0;
  depth_penalty = 0;
  final_score = 0;
  depth = 0;
  reroll_count = 0;
  negative_constraints = [];
  novelty_md5 = "m";
  lease_owner = none;
  lease_expires_at = none;
  revision = 0;
  created_at = 10;
  updated_at = 10;
  completed_at = none;
  pruned_by_task_id = none;
  pruned_reason = none;
}

abbrev pub leaf_task : Task
leaf_task = record root_task { task_id = "leaf"; parent_task_id = some "root"; created_at = 11 }

abbrev pub other_task : Task
other_task = record root_task { task_id = "other"; created_at = 12 }

abbrev pub queue : QueueDb
queue = record {
  tasks = root_task ∷ leaf_task ∷ other_task ∷ [];
  task_edges = record { parent = "root"; child = "leaf" } ∷ [];
  task_events = [];
  approvals = [];
  files = [];
  ingestion_runs = [];
  chunks = [];
}

abbrev pub leased : Time → Time → Task → Task
leased expires now t = record t {
  lease_owner = some "w";
  lease_expires_at = some expires;
  revision = 1;
  updated_at = now;
}

-- The queue after a worker has taken the root, and after it has taken the other task as well.
abbrev pub queue_1 : QueueDb
queue_1 = record queue { tasks = leased 90 20 root_task ∷ leaf_task ∷ other_task ∷ [] }

abbrev pub queue_2 : QueueDb
queue_2 = record queue { tasks = leased 90 20 root_task ∷ leaf_task ∷ leased 91 21 other_task ∷ [] }
