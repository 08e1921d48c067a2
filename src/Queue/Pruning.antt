-- ===== src/Queue/Pruning.antt =====
-- What `reject_and_prune` does to the task, to its descendants and to the others
-- (backend/python-daemon/orchestrator/queue_repo.py).
use mathlib.Core.Option
use agent_backend.Prelude.{ℕ, suc, String, ◌≡◌, ◌↔◌, true, some, List, [], ◌∷◌, elem, length, ok}
use agent_backend.Sql.Rows.{Among}
use agent_backend.Store.{QueueDb, Store}
use agent_backend.Store.Schema.{Edge}
use agent_backend.Dag.Reaches.{Reaches}
use agent_backend.Dag.Descend.{collect_descendants, reachable_edges, topological_descendants}
use agent_backend.Dag.Collect.{collect_descendants_iff}
use agent_backend.Dag.Levels.{Climbs, reachable_edges_iff}
use agent_backend.Dag.Topological.{ParentsFirst, topological_descendants_iff}
use agent_backend.Queue.Prune.{descendants}
use agent_backend.Queue.Fates.{Bool_ext}

ParentsFirst-mono :
    (es fs : List Edge) (root : String)
    → ((e : Edge) → Among e fs → Reaches fs root e.parent → Among e es × Reaches es root e.parent)
    → (before xs : List String) → ParentsFirst es root before xs
    → ParentsFirst fs root before xs
ParentsFirst-mono es fs root sub before [] p = tt
ParentsFirst-mono es fs root sub before (x ∷ xs) p = (
  λ e m to r. let (m', r') = sub e m r in p.0 e m' to r',
  ParentsFirst-mono es fs root sub (x ∷ before) xs p.1,
)

descendants_run :
    (root : String) (q : QueueDb) (rows : List Edge) (out : List String)
    → reachable_edges (suc (length q.tasks)) root q.task_edges ≡ ok rows
    → topological_descendants root rows ≡ ok out
    → descendants root q ≡ ok out
unfolding descendants
descendants_run root q rows out r t = rw (r, descendants) t

-- If the edges of the table all lead upwards in a rank that is at most the number of tasks, then
-- the recursive query and the sorting end, and give the same tasks as the loop of
-- _collect_descendants does on the whole table: those that a path of edges reaches. Every task is
-- listed after those of its parents that are descendants.
pub descendants-collect :
    (rank : String → ℕ) (root : String) (q : QueueDb)
    → Climbs rank (length q.tasks) q.task_edges
    → (out : List String) × (seen : List String) × (descendants root q ≡ ok out)
      × (collect_descendants root q.task_edges ≡ some seen)
      × ((x : String) → elem x out ≡ elem x seen)
      × ((x : String) → (elem x out ≡ true) ↔ Reaches q.task_edges root x)
      × ParentsFirst q.task_edges root [] out
descendants-collect rank root q climbs =
    let (rows, query, sub, same, complete) =
      reachable_edges_iff rank root (length q.tasks) q.task_edges climbs in
    let (out, sorted, listed, first) =
      topological_descendants_iff rank root rows (λ e m. climbs.up e (sub e m)) in
    let (seen, collected, reached) = collect_descendants_iff root q.task_edges in
    let reaches : (x : String) → (elem x out ≡ true) ↔ Reaches q.task_edges root x =
      λ x. (λ h. (same x).0 ((listed x).0 h), λ r. (listed x).1 ((same x).1 r)) in
    (
      out,
      seen,
      descendants_run root q rows out query sorted,
      collected,
      λ x.
          Bool_ext (elem x out) (elem x seen) (λ h. (reached x).1 ((reaches x).0 h))
            (λ h. (reaches x).1 ((reached x).0 h)),
      reaches,
      ParentsFirst-mono rows q.task_edges root (λ e m r. (complete e m r, (same e.parent).1 r)) []
          out first,
    )
