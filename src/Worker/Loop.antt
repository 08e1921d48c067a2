-- ===== src/Worker/Loop.antt =====
-- `ExecutionLoop` and `DaemonWorker.run_once`
-- (backend/python-daemon/orchestrator/execution_loop.py, reroll.py and worker.py).
use agent_backend.Prelude.{
  ℕ, String, Bool, true, false, Option, none, some, ltb, Result, ok, err, attribute_error,
}
use agent_backend.Json
use agent_backend.Json.{Json, Fields, Codec, bool, num, str, arr, obj, nil, cons, end, field}
use agent_backend.Store.{Method, return, raise, ◌>>=◌, ◌>>◌, on_control}
use agent_backend.Store.Schema.{Time}
use agent_backend.Queue.Tasks.{Claim}
use agent_backend.Queue.Repo.{
  claim_ready_task, release_expired_leases, complete_task, add_negative_constraint, dead_letter,
}
use agent_backend.Queue.Workers.{heartbeat_worker}

-- What a tool gives back: its result, or the message of an AdapterFailure.
pub data Answer : Type 0 where
  result : Json → Answer
  adapter_failure : String → Answer

-- What the loop calls outside the queue: `ToolAdapters.call_mcp_tool`, which runs a program that
-- may use the databases, json, str of an exception, f"…{failure_text}", and datetime's addition.
pub record Outside : Type 0 where
  pub codec : Codec
  pub call_mcp_tool : String → Fields → Method Answer
  pub exception_text : String → String
  pub constraint_text : String → String
  pub plus_seconds : Time → ℕ → Time

pub data Action : Type 0 where
  reroll dead_lettered : Action

-- `ValidationFailure.schema_failure_text` of an adapter's failure, with sorted keys.
unfoldable pub schema_failure_text : Codec → String → String → String
schema_failure_text codec tool_name message =
    let detail =
      field "kind" (str "adapter_failure")
        (field "message" (str message) (field "path" (str "/") end)) in
    codec.dumps (
      obj (
        field "details" (arr (cons (obj detail) nil))
          (field "error" (str "schema_validation_failed") (field "tool_name" (str tool_name) end))))

-- After the constraint: the reroll count decides.
unfoldable pub settle : Codec → ℕ → String → String → ℕ → Time → Method Action
unfolding dead_letter
settle codec max_rerolls task_id failure_text reroll_count now =
    let payload =
      codec.dumps
        (obj (field "failure" (str failure_text) (field "reroll_count" (num reroll_count) end))) in
    elim (ltb max_rerolls reroll_count) [
      | true ↦
          dead_letter task_id "schema_validation_failed: reroll_limit_exhausted" payload now
          >> return dead_lettered
      | false ↦ return reroll
    ]

unfoldable pub handle_validation_failure :
    Outside → ℕ → String → String → Time → Time → Method Action
unfolding add_negative_constraint settle
handle_validation_failure outside max_rerolls task_id failure_text now later = do
  reroll_count ← add_negative_constraint task_id (outside.constraint_text failure_text) now
  settle outside.codec max_rerolls task_id failure_text reroll_count later

-- What `execute_tool_for_task` returns: the tool's result, or the failure and what became of it.
pub data Executed : Type 0 where
  finished : Json → Executed
  failed_with : (message : String) → Action → Executed

unfoldable pub after_call : Outside → ℕ → String → String → Time → Time → Answer → Method Executed
unfolding handle_validation_failure schema_failure_text
after_call outside max_rerolls task_id tool_name now later (result r) = return (finished r)
after_call outside max_rerolls task_id tool_name now later (adapter_failure message) = do
  action ←
      handle_validation_failure outside max_rerolls task_id
        (schema_failure_text outside.codec tool_name message) now later
  return (failed_with message action)

unfoldable pub execute_tool_for_task :
    Outside → ℕ → String → String → Fields → Time → Time → Method Executed
unfolding after_call
execute_tool_for_task outside max_rerolls task_id tool_name args now later = do
  answer ← outside.call_mcp_tool tool_name args
  after_call outside max_rerolls task_id tool_name now later answer

-- The tool and the arguments of a payload; `none` stands for the exceptions that are caught.
abbrev args_of : Option Json → Option Fields
args_of none = some end
args_of (some (obj fields)) = some fields
args_of (some _) = none

abbrev call_of : Option Json → Option Fields → Option (String × Fields)
call_of (some (str tool_name)) (some args) = some (tool_name, args)
call_of _ _ = none

unfoldable pub read_payload : Option Json → Option (String × Fields)
unfolding Json.get
read_payload (some (obj fields)) =
    call_of (Json.get "tool" fields) (args_of (Json.get "args" fields))
read_payload _ = none

-- What `run_once` returns.
pub data Round : Type 0 where
  idle : Round
  invalid_task_payload : (task_id : String) → Round
  ran : (task_id : String) → Executed → Round

-- result.get("ok") is not False
abbrev is_not_false : Option Json → Bool
is_not_false (some (bool b)) = b
is_not_false _ = true

-- A result that is no dict has no `get`.
unfoldable pub succeeded : Executed → Result Bool
unfolding Json.get
succeeded (finished (obj fields)) = ok (is_not_false (Json.get "ok" fields))
succeeded (finished _) = err attribute_error
succeeded (failed_with message action) = ok false

-- The task is completed unless its result says that it failed.
unfoldable pub close_task : String → Executed → Time → Time → Method Round
unfolding succeeded complete_task
close_task task_id executed now at = elim (succeeded executed) [
  | ok true ↦ complete_task task_id now at >> return (ran task_id executed)
  | ok false ↦ return (ran task_id executed)
  | err e ↦ raise e
]

-- `clock` gives the readings of the clock, in the order of the calls.
unfoldable pub run_task : Outside → ℕ → (ℕ → Time) → Claim → Method Round
unfolding read_payload dead_letter complete_task execute_tool_for_task close_task
run_task outside max_rerolls clock task =
    let text = task.payload_json in
    let payload = outside.codec.dumps (
      obj (
        field "error" (str (outside.exception_text text)) (field "payload_json" (str text) end))) in
    elim (read_payload (outside.codec.loads text)) [
      | none ↦
          dead_letter task.task_id "invalid_task_payload" payload (clock 5)
          >> (complete_task task.task_id (clock 6) (clock 7)
              >> return (invalid_task_payload task.task_id))
      | some call ↦
          execute_tool_for_task outside max_rerolls task.task_id call.0 call.1 (clock 5) (clock 6)
          >>= λ executed. close_task task.task_id executed (clock 7) (clock 8)
    ]

unfoldable pub run_claim : Outside → ℕ → (ℕ → Time) → Option Claim → Method Round
unfolding run_task
run_claim outside max_rerolls clock none = return idle
run_claim outside max_rerolls clock (some task) = run_task outside max_rerolls clock task

unfoldable pub run_once :
    (outside : Outside) (max_rerolls lease_seconds : ℕ) (project_id worker_id : String) (pid : ℕ)
    (clock : ℕ → Time) (released : String → Time)
    → Method Round
unfolding heartbeat_worker release_expired_leases claim_ready_task run_claim
run_once outside max_rerolls lease_seconds project_id worker_id pid clock released =
    on_control (heartbeat_worker worker_id pid (clock 0) (clock 1))
    >> (release_expired_leases (clock 2) released >>= λ count.
        claim_ready_task project_id worker_id (outside.plus_seconds (clock 3) lease_seconds)
          (clock 4)
        >>= λ task. run_claim outside max_rerolls clock task)
