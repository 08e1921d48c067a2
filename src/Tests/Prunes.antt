-- ===== src/Tests/Prunes.antt =====
-- The root of the sample queue is rejected.
use agent_backend.Prelude.{
  ℕ, ◌<◌, ◌≤◌, String, ◌≡◌, refl, ◌↔◌, subst, inl, inr, true, some, List, [], ◌∷◌, arith, ◌==◌,
  elem, length, if◌then◌else◌, ok,
}
use mathlib.Core.Option
use agent_backend.Store.{Store}
use agent_backend.Store.Schema.{Edge, Time}
use agent_backend.Dag.Reaches.{Reaches}
use agent_backend.Dag.Levels.{Climbs}
use agent_backend.Dag.Topological.{ParentsFirst}
use agent_backend.Dag.Descend.{collect_descendants}
use agent_backend.Queue.Prune.{descendants}
use agent_backend.Queue.Pruning.{descendants-collect}
use agent_backend.Tests.Samples.{queue}

abbrev height : String → ℕ
height k = if k == "leaf" then 1 else 0

queue-Climbs : Climbs height (length queue.tasks) queue.task_edges
queue-Climbs = record {
  up = λ e m. elim m [
    | inl p ↦ subst (λ (x : Edge). height x.parent < height x.child) p (omega arith)
    | inr n ↦ absurd n
  ];
  bounded = λ e m. elim m [
    | inl p ↦ subst (λ (x : Edge). height x.child ≤ 3) p (omega arith)
    | inr n ↦ absurd n
  ];
}

abbrev stored : Store
stored = record {
  queue = queue;
  control = record {
    leases =
        record {
          task_id = "leaf";
          worker_id = "w";
          acquired_at = 1;
          expires_at = 9;
          heartbeat_at = 1;
        }
        ∷ [];
    process_registry = [];
    dead_letters = [];
  };
}

below_root : descendants "root" queue ≡ ok ("leaf" ∷ [])
unfolding descendants
below_root = refl

descendants-collect_example :
    (out : List String) × (seen : List String) × (descendants "root" queue ≡ ok out)
    × (collect_descendants "root" queue.task_edges ≡ some seen)
    × ((x : String) → elem x out ≡ elem x seen)
    × ((x : String) → (elem x out ≡ true) ↔ Reaches queue.task_edges "root" x)
    × ParentsFirst queue.task_edges "root" [] out
descendants-collect_example = descendants-collect height "root" queue queue-Climbs

abbrev ticks : String → Time
ticks k = 30
