-- ===== src/Queue/Moved.antt =====
-- What the methods that move one task return and write, on every branch, when no other connection
-- writes between their statements
-- (backend/python-daemon/orchestrator/queue_repo.py).
use agent_backend.Prelude.{
  ℕ, ◌+◌, String, ◌≡◌, refl, ◌≢◌, ◌↔◌, inl, inr, true, false, none, some, [], ◌∷◌, ◌++◌, arith,
  ◌==◌, elem, Bool-cases, Option-cases, Result, ok, err, key_error, invalid_transition,
  state_mismatch,
}
use agent_backend.Sql.{delete}
use agent_backend.Store.{QueueDb, Store, ensure, ◌>>=◌, on_queue, continue}
use agent_backend.Store.Schema.{
  Time, State, planning, pending_approval, completed, Task, Details, moved,
}
use agent_backend.Queue.Tasks.{allowed, state_eq, find_task}
use agent_backend.Queue.Moves.{update_task, set_state, complete_row, constrain_row}
use agent_backend.Queue.Repo.{
  get_task, transition_task_state, complete_task, add_negative_constraint, drop_leases,
}
use agent_backend.Queue.Outcomes.{
  log_event, fetch-none, fetch-some, write_state-ok, write_completed-ok, find_task-update_task_self,
  find_task-update_task_other,
}

-- The moves that a task may make: to another state, unless it is completed.
abbrev pub Moves : State → State → Type 0
Moves from to = (from ≢ completed) × (from ≢ to)

pub allowed_iff : (from to : State) → (allowed from to ≡ true) ↔ Moves from to
unfolding allowed
allowed_iff planning planning = ground arith
allowed_iff planning pending_approval = ground arith
allowed_iff planning completed = ground arith
allowed_iff pending_approval planning = ground arith
allowed_iff pending_approval pending_approval = ground arith
allowed_iff pending_approval completed = ground arith
allowed_iff completed planning = ground arith
allowed_iff completed pending_approval = ground arith
allowed_iff completed completed = ground arith

pub state_eq_iff : (s s' : State) → (state_eq s s' ≡ true) ↔ (s ≡ s')
state_eq_iff planning planning = ground arith
state_eq_iff planning pending_approval = ground arith
state_eq_iff planning completed = ground arith
state_eq_iff pending_approval planning = ground arith
state_eq_iff pending_approval pending_approval = ground arith
state_eq_iff pending_approval completed = ground arith
state_eq_iff completed planning = ground arith
state_eq_iff completed pending_approval = ground arith
state_eq_iff completed completed = ground arith

-- The row of one task is rewritten; every other row and every other table but the events stays.
pub record Rewritten (k : String) (t : Task) (q q' : QueueDb) : Type 0 where
  pub row : find_task k q' ≡ some t
  pub others : (j : String) → (k == j) ≡ false → find_task j q' ≡ find_task j q
  pub rest : q' ≡ record q { tasks = q'.tasks; task_events = q'.task_events }

-- One event is appended.
abbrev pub Logged : String → Details → Time → QueueDb → QueueDb → Type 0
Logged k d at q q' =
    q'.task_events ≡ q.task_events ++ record { task_id = k; details = d; created_at = at } ∷ []

log-Rewritten :
    (k : String) (f : Task → Task) (d : Details) (at : Time) (q : QueueDb) {t : Task}
    → ((t : Task) → (f t).task_id ≡ t.task_id)
    → find_task k q ≡ some t
    → Rewritten k (f t) q (log_event k d at (update_task k f q))
unfolding find_task update_task
log-Rewritten k f d at q keeps found = record {
  row = find_task-update_task_self k f keeps q found;
  others = λ j h. find_task-update_task_other k f keeps q j h;
  rest = refl;
}

update-Rewritten :
    (k : String) (f : Task → Task) (q : QueueDb) {t : Task}
    → ((t : Task) → (f t).task_id ≡ t.task_id)
    → find_task k q ≡ some t
    → Rewritten k (f t) q (update_task k f q)
unfolding update_task
update-Rewritten k f q keeps found = record {
  row = find_task-update_task_self k f keeps q found;
  others = λ j h. find_task-update_task_other k f keeps q j h;
  rest = refl;
}

module _ (k : String) (now at : Time) (s : Store) where
  -- What a transition gives: the table of moves, the task and its state are tested in this order.
  pub data Transitioned (from to : State) (reason : String)
      : Result (Unit {0}) × Store → Type 0 where
    not_a_move : ¬ Moves from to → Transitioned from to reason (err invalid_transition, s)
    unknown :
        Moves from to
        → find_task k s.queue ≡ none
        → Transitioned from to reason (err (key_error k), s)
    in_another_state :
        (t : Task)
        → Moves from to
        → find_task k s.queue ≡ some t
        → t.state ≢ from
        → Transitioned from to reason (err state_mismatch, s)
    in_the_new_state :
        (t : Task) (q' : QueueDb)
        → Moves from to
        → find_task k s.queue ≡ some t
        → t.state ≡ from
        → Rewritten k
            (record t { state = to; updated_at = now; revision = t.revision + 1 })
            s.queue
            q'
        → Logged k (moved from to reason) at s.queue q'
        → Transitioned from to reason (ok tt, record s { queue = q' })

  transition_found :
      (from to : State) (reason : String) (t : Task)
      → Moves from to
      → allowed from to ≡ true
      → find_task k s.queue ≡ some t
      → Transitioned from to reason (transition_task_state k from to reason now at s)
  unfolding transition_task_state set_state
  transition_found from to reason t m e found = elim (Bool-cases (state_eq t.state from)) [
    | inr f ↦
        rw (e, ensure, ◌>>=◌, continue, on_queue, fetch-some k s.queue found, f)
          (in_another_state t m found (λ same. absurd (cc ((state_eq_iff t.state from).1 same, f))))
    | inl f ↦
        rw (e, fetch-some k s.queue found, f, write_state-ok k from to reason now at s.queue found)
          (in_the_new_state t _ m found ((state_eq_iff t.state from).0 f)
            (log-Rewritten k (set_state to now) (moved from to reason) at s.queue (λ u. refl) found)
            refl)
  ]

  -- A transition outside the table of moves, of an unknown task or from another state raises, in
  -- this order, and writes nothing; any other sets the state and the date of the task, raises its
  -- revision by one, appends the event of the move, and leaves every other row as it is.
  pub transition_task_state-Transitioned :
      (from to : State) (reason : String)
      → Transitioned from to reason (transition_task_state k from to reason now at s)
  unfolding transition_task_state
  transition_task_state-Transitioned from to reason = elim (Bool-cases (allowed from to)) [
    | inr e ↦
        rw (e, ensure, ◌>>=◌, continue)
          (not_a_move (λ m. absurd (cc ((allowed_iff from to).1 m, e))))
    | inl e ↦
        let m = (allowed_iff from to).0 e in
        elim (Option-cases (find_task k s.queue)) [
          | inl absent ↦ rw (e, on_queue, fetch-none k s.queue absent) (unknown m absent)
          | inr (t, found) ↦ transition_found from to reason t m e found
        ]
  ]

  -- What a completion gives.
  pub data Completed : Result (Unit {0}) × Store → Type 0 where
    no_task : find_task k s.queue ≡ none → Completed (err (key_error k), s)
    completed_before :
        (t : Task)
        → find_task k s.queue ≡ some t
        → t.state ≡ completed
        → Completed (err invalid_transition, s)
    completed_now :
        (t : Task) (q' : QueueDb)
        → find_task k s.queue ≡ some t
        → t.state ≢ completed
        → Rewritten k
            (record t {
              state = completed;
              lease_owner = none;
              lease_expires_at = none;
              completed_at = some now;
              updated_at = now;
              revision = t.revision + 1;
            })
            s.queue
            q'
        → Logged k (moved t.state completed "complete_task") at s.queue q'
        → Completed (
          ok tt,
          record s {
            queue = q';
            control = record s.control {
              leases = delete (λ l. elem l.task_id (k ∷ [])) s.control.leases;
            };
          },
        )

  complete_found : (t : Task) → find_task k s.queue ≡ some t → Completed (complete_task k now at s)
  unfolding complete_task complete_row drop_leases
  complete_found t found = elim (Bool-cases (allowed t.state completed)) [
    | inr f ↦
        rw (◌>>=◌, continue, on_queue, fetch-some k s.queue found, f)
          (completed_before t found (ground (arith, allowed_iff t.state completed)))
    | inl f ↦
        rw
          (
            ◌>>=◌,
            continue,
            on_queue,
            fetch-some k s.queue found,
            f,
            write_completed-ok k t.state now at s.queue found,
          )
          (completed_now t _ found ((allowed_iff t.state completed).0 f).0
            (log-Rewritten k (complete_row now) (moved t.state completed "complete_task") at s.queue
              (λ u. refl) found)
            refl)
  ]

  -- Completing an unknown task, or one that is completed already, raises and writes nothing; any
  -- other task becomes completed, without a lease, with its date of completion and one revision
  -- more, the event of the move is appended, its leases in control.db are deleted and no others,
  -- and every other row stays as it is.
  pub complete_task-Completed : Completed (complete_task k now at s)
  unfolding complete_task
  complete_task-Completed = elim (Option-cases (find_task k s.queue)) [
    | inl absent ↦ rw (◌>>=◌, continue, on_queue, fetch-none k s.queue absent) (no_task absent)
    | inr (t, found) ↦ complete_found t found
  ]

  -- What a further constraint gives: the new count of rerolls.
  pub data Constrained (constraint : String) : Result ℕ × Store → Type 0 where
    nothing_to_constrain :
        find_task k s.queue ≡ none → Constrained constraint (err (key_error k), s)
    constrained :
        (t : Task) (q' : QueueDb)
        → find_task k s.queue ≡ some t
        → Rewritten k
            (record t {
              negative_constraints = t.negative_constraints ++ constraint ∷ [];
              reroll_count = t.reroll_count + 1;
              lease_owner = none;
              lease_expires_at = none;
              updated_at = now;
              revision = t.revision + 1;
            })
            s.queue
            q'
        → q'.task_events ≡ s.queue.task_events
        → Constrained constraint (ok (t.reroll_count + 1), record s { queue = q' })

  -- Adding a constraint to an unknown task raises and writes nothing; any other task gets the
  -- constraint behind its others, loses its lease, has one reroll and one revision more, and the
  -- new count of rerolls is returned; no event is appended and every other row stays as it is.
  pub add_negative_constraint-Constrained :
      (constraint : String) → Constrained constraint (add_negative_constraint k constraint now s)
  unfolding add_negative_constraint get_task constrain_row update_task
  add_negative_constraint-Constrained constraint = elim (Option-cases (find_task k s.queue)) [
    | inl absent ↦
        rw (◌>>=◌, continue, on_queue, fetch-none k s.queue absent) (nothing_to_constrain absent)
    | inr (t, found) ↦
        let write =
          constrain_row (t.negative_constraints ++ constraint ∷ []) (t.reroll_count + 1) now in
        rw (◌>>=◌, continue, on_queue, fetch-some k s.queue found)
          (constrained t _ found (update-Rewritten k write s.queue (λ u. refl) found) refl)
  ]
