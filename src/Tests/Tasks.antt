-- ===== src/Tests/Tasks.antt =====
-- One task at a time, and a history of the queue.
use mathlib.Core.Option
use agent_backend.Prelude.{false, ◌≡◌, refl, inl, inr, some, ok, err, key_error, []}
use agent_backend.Store.{QueueDb, Store}
use agent_backend.Store.Schema.{planning, pending_approval, Task}
use agent_backend.Queue.Tasks.{find_task}
use agent_backend.Queue.Moves.{fetch_task, write_completed, write_state}
use agent_backend.Queue.Repo.{transition_task_state, complete_task, add_negative_constraint}
use agent_backend.Queue.Moved.{
  Transitioned, Completed, Constrained, transition_task_state-Transitioned, complete_task-Completed,
  add_negative_constraint-Constrained,
}
use agent_backend.Queue.Evolution.{Evolves}
use agent_backend.Queue.Steps.{claims, Reach, here, next, history-Evolved}
use agent_backend.Queue.Soundness.{IsSound, history-IsSound}
use agent_backend.Tests.Samples.{root_task, queue, queue_2}
use agent_backend.Tests.Claims.{first_claim, second_claim, queue-UniqueTasks}

abbrev store : Store
store = record {
  queue = queue;
  control = record { leases = []; process_registry = []; dead_letters = [] };
}

-- Completing a task that is not there.
unknown_task : (complete_task "none" 30 31 store).0 ≡ err (key_error "none")
unfolding complete_task find_task fetch_task
unknown_task = refl

transition_task_state-Transitioned_example :
    Transitioned "root" 30 31 store planning pending_approval "review"
      (transition_task_state "root" planning pending_approval "review" 30 31 store)
transition_task_state-Transitioned_example =
    transition_task_state-Transitioned "root" 30 31 store planning pending_approval "review"

complete_task-Completed_example : Completed "leaf" 30 31 store (complete_task "leaf" 30 31 store)
complete_task-Completed_example = complete_task-Completed "leaf" 30 31 store

add_negative_constraint-Constrained_example :
    Constrained "leaf" 30 31 store "no network"
      (add_negative_constraint "leaf" "no network" 30 store)
add_negative_constraint-Constrained_example =
    add_negative_constraint-Constrained "leaf" 30 31 store "no network"

two_claims : Reach false queue queue_2
two_claims =
    next (next here (claims "p" "w" 90 20 _ first_claim)) (claims "p" "w" 91 21 _ second_claim)

pub root_in_queue : find_task "root" queue ≡ some root_task
unfolding find_task
root_in_queue = refl

history-Evolved_example :
    (t : Task) × (find_task "root" queue_2 ≡ some t) × Evolves false root_task t
history-Evolved_example =
    history-Evolved false queue queue_2 two_claims "root" root_task root_in_queue

pub queue-IsSound : IsSound queue
queue-IsSound = record {
  unique = queue-UniqueTasks;
  paired = λ t m. elim m [
    | inl e ↦ rw (← e) refl
    | inr m' ↦ elim m' [
      | inl e ↦ rw (← e) refl
      | inr m'' ↦ elim m'' [ inl e ↦ rw (← e) refl | inr n ↦ absurd n ]
    ]
  ];
}

history-IsSound_example : IsSound queue_2
history-IsSound_example = history-IsSound false queue queue_2 queue-IsSound two_claims

-- Two workers: both read the row of the root while it waits, then one completes it and the other
-- writes the state that it was asked for. The task is no longer completed.
uncompleted :
    (q' : QueueDb) × (q'' : QueueDb) × (write_completed "root" planning 30 31 queue ≡ ok (tt, q'))
    × (write_state "root" planning pending_approval "review" 32 33 q' ≡ ok (tt, q''))
    × (Option.map (λ t. t.state) (find_task "root" q'') ≡ some pending_approval)
unfolding write_completed write_state find_task
uncompleted = (_, _, refl, refl, refl)
