-- ===== src/Queue/Outcomes.antt =====
-- What the statements on one task return
-- (backend/python-daemon/orchestrator/queue_repo.py).
use mathlib.Core.Option
use agent_backend.Prelude.{
  arith, false, String, ◌≡◌, refl, inl, inr, true, not, none, some, [], ◌∷◌, ◌++◌, ◌==◌, eq_iff,
  if◌then◌else◌, is_none, Option-cases, ok, err, key_error,
}
use agent_backend.Sql.{find-update, find-key}
use agent_backend.Sql.Rows.{any-find}
use agent_backend.Store.{QueueDb}
use agent_backend.Store.Schema.{Time, State, completed, Task, Details, moved}
use agent_backend.Queue.Tasks.{find_task, has_task, record_task_event}
use agent_backend.Queue.Moves.{
  update_task, set_state, fetch_task, write_state, complete_row, write_completed,
}

pub has_task-find : (q : QueueDb) (k : String) → has_task q k ≡ not (is_none (find_task k q))
unfolding has_task find_task
has_task-find q k = any-find (λ (t : Task). t.task_id) k q.tasks

pub find_task-update_task :
    (k : String) (f : Task → Task) (keeps : (t : Task) → (f t).task_id ≡ t.task_id) (q : QueueDb)
    (j : String)
    → find_task j (update_task k f q)
      ≡ Option.map (λ t. if t.task_id == k then f t else t) (find_task j q)
unfolding find_task update_task
find_task-update_task k f keeps q j = find-update (λ t. t.task_id) _ f keeps j q.tasks

pub find_task-id : (k : String) (q : QueueDb) {t : Task} → find_task k q ≡ some t → t.task_id ≡ k
unfolding find_task
find_task-id k q h = find-key (λ t. t.task_id) k q.tasks h

-- The row itself after an update of it.
pub find_task-update_task_self :
    (k : String) (f : Task → Task) (keeps : (t : Task) → (f t).task_id ≡ t.task_id) (q : QueueDb)
    {t : Task}
    → find_task k q ≡ some t
    → find_task k (update_task k f q) ≡ some (f t)
find_task-update_task_self k f keeps q h =
    rw (find_task-update_task k f keeps q k, h, (eq_iff _ k).1 (find_task-id k q h))

abbrev pub log_event : String → Details → Time → QueueDb → QueueDb
log_event k d at q = record q {
  task_events = q.task_events ++ record { task_id = k; details = d; created_at = at } ∷ [];
}

-- The foreign key of the event holds after an update of a row that is there.
pub record-update :
    (k : String) (f : Task → Task) (keeps : (t : Task) → (f t).task_id ≡ t.task_id) (q : QueueDb)
    (d : Details) (at : Time) {t : Task}
    → find_task k q ≡ some t
    → record_task_event k d at (update_task k f q) ≡ ok (tt, log_event k d at (update_task k f q))
unfolding record_task_event
record-update k f keeps q d at h =
    let there : has_task (update_task k f q) k ≡ true =
      rw (has_task-find (update_task k f q) k, find_task-update_task_self k f keeps q h) in
    rw there

pub fetch-none :
    (k : String) (q : QueueDb) → find_task k q ≡ none → fetch_task k q ≡ err (key_error k)
unfolding fetch_task
fetch-none k q h = rw (h, fetch_task)

pub fetch-some :
    (k : String) (q : QueueDb) {t : Task} → find_task k q ≡ some t → fetch_task k q ≡ ok (t, q)
unfolding fetch_task
fetch-some k q h = rw (h, fetch_task)

-- The writes of a transition and of a completion, of a task that is there.
pub write_state-ok :
    (k : String) (from to : State) (reason : String) (now at : Time) (q : QueueDb) {t : Task}
    → find_task k q ≡ some t
    → write_state k from to reason now at q
      ≡ ok (tt, log_event k (moved from to reason) at (update_task k (set_state to now) q))
unfolding write_state
write_state-ok k from to reason now at q found =
    record-update k (set_state to now) (λ t. unfold set_state in refl) q (moved from to reason) at
      found

pub write_completed-ok :
    (k : String) (from : State) (now at : Time) (q : QueueDb) {t : Task}
    → find_task k q ≡ some t
    → write_completed k from now at q
      ≡ ok (
        tt,
        log_event k (moved from completed "complete_task") at (update_task k (complete_row now) q),
      )
unfolding write_completed
write_completed-ok k from now at q found =
    record-update k (complete_row now) (λ t. unfold complete_row in refl) q
      (moved from completed "complete_task") at found

pub find_task-update_task_other :
    (k : String) (f : Task → Task) (keeps : (t : Task) → (f t).task_id ≡ t.task_id) (q : QueueDb)
    (j : String)
    → (k == j) ≡ false
    → find_task j (update_task k f q) ≡ find_task j q
find_task-update_task_other k f keeps q j other = elim (Option-cases (find_task j q)) [
  | inl e ↦ rw (find_task-update_task k f keeps q j, e)
  | inr (t, e) ↦
      let named = find_task-id j q e in
      rw (find_task-update_task k f keeps q j, e) (ground (arith, eq_iff t.task_id k, eq_iff k j))
]
