-- ===== src/Queue/Commits.antt =====
-- What a committed transaction has written
-- (backend/python-daemon/orchestrator/queue_repo.py).
use agent_backend.Prelude.{
  String, ◌≡◌, true, false, not, ◌&&◌, Option, none, some, List, [], ◌∷◌, ◌++◌, arith, ◌∙◌, ap, ok,
}
use mathlib.Core.List.{append-nil}
use agent_backend.Sql.Inversion.{>>=-eq-ok, guard-eq-ok}
use agent_backend.Prelude.{integrity_error}
use agent_backend.Store.{QueueDb}
use agent_backend.Store.Schema.{Time, State, completed, Task, Edge, Details, moved}
use agent_backend.Queue.Tasks.{
  create, insert_task, insert_edge, link_parent, record_task_event, has_task, has_edge,
  parent_known,
}
use agent_backend.Queue.Moves.{update_task, set_state, complete_row, write_state, write_completed}
use agent_backend.Queue.Outcomes.{log_event}

insert_task-ok :
    (t : Task) (q : QueueDb) {r : Unit {0} × QueueDb}
    → insert_task t q ≡ ok r
    → (has_task q t.task_id ≡ false)
      × (parent_known q t ≡ true)
      × (r.1 ≡ record q { tasks = q.tasks ++ t ∷ [] })
unfolding insert_task
insert_task-ok t q {r} h =
    let (absent, h1) = guard-eq-ok (not (has_task q t.task_id)) integrity_error _ q h in
    let (known, h2) = guard-eq-ok (parent_known q t) integrity_error _ q h1 in
    (ground arith, known, cc)

insert_edge-ok :
    (e : Edge) (q : QueueDb) {r : Unit {0} × QueueDb}
    → insert_edge e q ≡ ok r
    → (has_task q e.parent ≡ true)
      × (has_task q e.child ≡ true)
      × (r.1 ≡ record q { task_edges = q.task_edges ++ e ∷ [] })
unfolding insert_edge
insert_edge-ok e q {r} h =
    let (fresh, h1) = guard-eq-ok (not (has_edge q e)) integrity_error _ q h in
    let (ends, h2) =
      guard-eq-ok (has_task q e.parent && has_task q e.child) integrity_error _ q h1 in
    (ground arith, ground arith, cc)

-- The edges that `create` adds for a parent.
abbrev pub edges_of : String → Option String → List Edge
edges_of k none = []
edges_of k (some p) = record { parent = p; child = k } ∷ []

link_parent-ok :
    (k : String) (o : Option String) (q : QueueDb) {r : Unit {0} × QueueDb}
    → link_parent k o q ≡ ok r
    → r.1 ≡ record q { task_edges = q.task_edges ++ edges_of k o }
unfolding link_parent
link_parent-ok k none q h = cc (append-nil q.task_edges)
link_parent-ok k (some p) q h = (insert_edge-ok _ q h).2

-- What a successful `create` leaves.
pub create-ok :
    (t : Task) (q : QueueDb) {r : Unit {0} × QueueDb}
    → create t q ≡ ok r
    → (has_task q t.task_id ≡ false)
      × (parent_known q t ≡ true)
      × (r.1 ≡ record q {
        tasks = q.tasks ++ t ∷ [];
        task_edges = q.task_edges ++ edges_of t.task_id t.parent_task_id;
      })
unfolding create
create-ok t q {r} h =
    let (u, s, e, h1) = >>=-eq-ok (insert_task t) _ q h in
    let (absent, known, same) = insert_task-ok t q e in
    (
      absent,
      known,
      link_parent-ok t.task_id t.parent_task_id s h1
          ∙ ap
              (λ (d : QueueDb). record d {
                task_edges = d.task_edges ++ edges_of t.task_id t.parent_task_id;
              })
              same,
    )

-- An event touches no other table.
pub record_task_event-ok :
    (k : String) (d : Details) (at : Time) (q : QueueDb) {r : Unit {0} × QueueDb}
    → record_task_event k d at q ≡ ok r
    → r.1 ≡ log_event k d at q
unfolding record_task_event
record_task_event-ok k d at q h =
    let (known, h1) = guard-eq-ok (has_task q k) integrity_error _ q h in cc

-- What the writes of a transition and of a completion leave.
pub write_state-wrote :
    (k : String) (from to : State) (reason : String) (now at : Time) (q : QueueDb)
    {r : Unit {0} × QueueDb}
    → write_state k from to reason now at q ≡ ok r
    → r.1 ≡ log_event k (moved from to reason) at (update_task k (set_state to now) q)
unfolding write_state
write_state-wrote k from to reason now at q h =
    record_task_event-ok k (moved from to reason) at (update_task k (set_state to now) q) h

pub write_completed-wrote :
    (k : String) (from : State) (now at : Time) (q : QueueDb) {r : Unit {0} × QueueDb}
    → write_completed k from now at q ≡ ok r
    → r.1
      ≡ log_event k (moved from completed "complete_task") at (update_task k (complete_row now) q)
unfolding write_completed
write_completed-wrote k from now at q h =
    record_task_event-ok k (moved from completed "complete_task") at
      (update_task k (complete_row now) q) h
