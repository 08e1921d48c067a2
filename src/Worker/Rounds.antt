-- ===== src/Worker/Rounds.antt =====
-- A round of the worker is a history of steps of the queue
-- (backend/python-daemon/orchestrator/worker.py and execution_loop.py).
use agent_backend.Prelude.{
  ℕ, String, ◌≡◌, refl, ◌⊎◌, true, false, Option, none, some, ltb, Bool-cases, inl, inr,
  Option-cases, Result, ok, err, Error,
}
use agent_backend.Json.{Fields, Codec, obj, field, str, end}
use agent_backend.Store.{QueueDb, Store, return, ◌>>=◌, ◌>>◌, on_control}
use agent_backend.Store.Schema.{Time}
use agent_backend.Queue.Tasks.{Claim}
use agent_backend.Queue.Repo.{
  claim_ready_task, release_expired_leases, complete_task, add_negative_constraint, dead_letter,
}
use agent_backend.Queue.Workers.{heartbeat_worker}
use agent_backend.Queue.Steps.{here, history-Evolved}
use agent_backend.Queue.Soundness.{IsSound, history-IsSound}
use agent_backend.Queue.Evolution.{Evolved}
use agent_backend.Queue.Methods.{Keeps, Keeps-return, Keeps-on_control, Keeps-bind}
use agent_backend.Queue.Keeping.{
  claim_ready_task-Keeps, release_expired_leases-Keeps, complete_task-Keeps,
  add_negative_constraint-Keeps, dead_letter-Keeps,
}
use agent_backend.Worker.Loop.{
  Outside, Answer, result, adapter_failure, Executed, ran, failed_with, invalid_task_payload,
  settle, handle_validation_failure, after_call, execute_tool_for_task, schema_failure_text,
  read_payload, succeeded, close_task, run_task, run_claim, run_once,
}

Result-cases : {A : Type 0} (r : Result A) → ((a : A) × (r ≡ ok a)) ⊎ ((e : Error) × (r ≡ err e))
Result-cases (ok a) = inl (a, refl)
Result-cases (err e) = inr (e, refl)

settle-Keeps :
    (codec : Codec) (m : ℕ) (k text : String) (n : ℕ) (now : Time)
    → Keeps (settle codec m k text n now)
unfolding settle dead_letter
settle-Keeps codec m k text n now s = elim (Bool-cases (ltb m n)) [
  | inl e ↦ rw (e, settle) here
  | inr e ↦ rw (e, settle) here
]

module _ (outside : Outside) (max_rerolls : ℕ) where
  -- queue.db after a round.
  abbrev pub queue_after : ℕ → String → String → ℕ → (ℕ → Time) → (String → Time) → Store → QueueDb
  queue_after lease_seconds project_id worker_id pid clock released s =
      (run_once outside max_rerolls lease_seconds project_id worker_id pid clock released s).1.queue

  handle-Keeps :
      (k text : String) (now later : Time)
      → Keeps (handle_validation_failure outside max_rerolls k text now later)
  unfolding handle_validation_failure
  handle-Keeps k text now later =
      Keeps-bind (add_negative_constraint k (outside.constraint_text text) now)
        (λ n. settle outside.codec max_rerolls k text n later)
        (add_negative_constraint-Keeps k (outside.constraint_text text) now)
        λ n. settle-Keeps outside.codec max_rerolls k text n later

  after_call-Keeps :
      (k tool : String) (now later : Time) (answer : Answer)
      → Keeps (after_call outside max_rerolls k tool now later answer)
  unfolding after_call
  after_call-Keeps k tool now later (result r) s = here
  after_call-Keeps k tool now later (adapter_failure message) s =
      let text = schema_failure_text outside.codec tool message in
      Keeps-bind (handle_validation_failure outside max_rerolls k text now later)
        (λ action. return (failed_with message action)) (handle-Keeps k text now later)
        (λ action. Keeps-return (failed_with message action)) s

  close_task-Keeps : (k : String) (x : Executed) (now at : Time) → Keeps (close_task k x now at)
  unfolding close_task
  close_task-Keeps k x now at s = elim (Result-cases (succeeded x)) [
    | inr (e, f) ↦ rw (f, close_task) here
    | inl (true, f) ↦
        rw (f, close_task)
          (Keeps-bind (complete_task k now at) (λ _. return (ran k x))
            (complete_task-Keeps k now at) (λ _. Keeps-return (ran k x)) s)
    | inl (false, f) ↦ rw (f, close_task) here
  ]

  module _ (tools : (name : String) (args : Fields) → Keeps (outside.call_mcp_tool name args)) where
    execute-Keeps :
        (k name : String) (args : Fields) (now later : Time)
        → Keeps (execute_tool_for_task outside max_rerolls k name args now later)
    unfolding execute_tool_for_task
    execute-Keeps k name args now later =
        Keeps-bind (outside.call_mcp_tool name args)
          (λ answer. after_call outside max_rerolls k name now later answer) (tools name args)
          λ answer. after_call-Keeps k name now later answer

    run_task-Keeps : (clock : ℕ → Time) (c : Claim) → Keeps (run_task outside max_rerolls clock c)
    unfolding run_task
    run_task-Keeps clock c s =
        elim (Option-cases (read_payload (outside.codec.loads c.payload_json))) [
          | inl e ↦
              let payload = outside.codec.dumps (
                obj (
                  field "error" (str (outside.exception_text c.payload_json))
                    (field "payload_json" (str c.payload_json) end))) in
              let close = complete_task c.task_id (clock 6) (clock 7) in
              let bad = return (invalid_task_payload c.task_id) in
              rw (e, run_task)
                (Keeps-bind (dead_letter c.task_id "invalid_task_payload" payload (clock 5))
                  (λ _. close >> bad)
                  (dead_letter-Keeps c.task_id "invalid_task_payload" payload (clock 5))
                  (λ _.
                    Keeps-bind close (λ _. bad) (complete_task-Keeps c.task_id (clock 6) (clock 7))
                      (λ _ r. here))
                  s)
          | inr (call, e) ↦
              let run =
                execute_tool_for_task outside max_rerolls c.task_id call.0 call.1 (clock 5)
                  (clock 6) in
              rw (e, run_task)
                (Keeps-bind run (λ x. close_task c.task_id x (clock 7) (clock 8))
                  (execute-Keeps c.task_id call.0 call.1 (clock 5) (clock 6))
                  (λ x. close_task-Keeps c.task_id x (clock 7) (clock 8)) s)
        ]

    run_claim-Keeps :
        (clock : ℕ → Time) (c : Option Claim) → Keeps (run_claim outside max_rerolls clock c)
    unfolding run_claim
    run_claim-Keeps clock none s = here
    run_claim-Keeps clock (some c) s = run_task-Keeps clock c s

    run_once-Keeps :
        (lease_seconds : ℕ) (project_id worker_id : String) (pid : ℕ) (clock : ℕ → Time)
        (released : String → Time)
        → Keeps (run_once outside max_rerolls lease_seconds project_id worker_id pid clock released)
    unfolding run_once
    run_once-Keeps lease_seconds project_id worker_id pid clock released =
        let beat = heartbeat_worker worker_id pid (clock 0) (clock 1) in
        let expires = outside.plus_seconds (clock 3) lease_seconds in
        let take = claim_ready_task project_id worker_id expires (clock 4) in
        let claimed = take >>= λ task. run_claim outside max_rerolls clock task in
        Keeps-bind (on_control beat)
          (λ _. release_expired_leases (clock 2) released >>= λ _. claimed) (Keeps-on_control beat)
          λ _.
            Keeps-bind (release_expired_leases (clock 2) released) (λ _. claimed)
              (release_expired_leases-Keeps (clock 2) released)
              λ _.
                Keeps-bind take (λ task. run_claim outside max_rerolls clock task)
                  (claim_ready_task-Keeps project_id worker_id expires (clock 4))
                  λ task. run_claim-Keeps clock task

    -- If the tools change queue.db by steps of the repository only, so does a round of the worker,
    -- whatever it meets and also if it raises: a sound queue stays sound, and its tasks are still
    -- there and further on.
    pub run_once-IsSound :
        (lease_seconds : ℕ) (project_id worker_id : String) (pid : ℕ) (clock : ℕ → Time)
        (released : String → Time) (s : Store)
        → IsSound s.queue
        → IsSound (queue_after lease_seconds project_id worker_id pid clock released s)
          × Evolved true s.queue
              (queue_after lease_seconds project_id worker_id pid clock released s)
    run_once-IsSound lease_seconds project_id worker_id pid clock released s h =
        let run = run_once-Keeps lease_seconds project_id worker_id pid clock released s in
        (history-IsSound true s.queue _ h run, history-Evolved true s.queue _ run)
