-- ===== src/Workflow/State.antt =====
-- `WorkflowState` and the services that the runner calls
-- (backend/python-daemon/orchestrator/agent_workflow/state.py and runner.py).
use agent_backend.Prelude.{
  ℕ, String, Bool, Option, none, some, List, [], ◌∷◌, ◌==◌, is_none, if◌then◌else◌, Attempt,
}
use agent_backend.Json.{Json, str, arr, obj, Items, nil, cons, Fields, end, field, get}
use agent_backend.Pipeline.Models.{Arg, binding, text, nested, other, Args, none_left, arg, Todo}
use agent_backend.Workflow.Compaction.{Problem, Compact}
use agent_backend.Workflow.Args.{Outputs}

-- An entry of `state.todos`.
pub record TodoItem : Type 0 where
  pub id : String
  pub status : String
  pub description : String
  pub tool_name : String
  pub args : Fields
  pub outputs : List (String × String)

-- The fields that are written once and not read again are left out: run_id, created_at,
-- user_prompt, goal, reasoning_policy, warnings and those of the skill selection but
-- selected_skill.
pub record WorkflowState : Type 0 where
  pub phase : String
  pub todos : List TodoItem
  pub artifacts : Fields
  pub tool_results : List Compact
  pub errors : List Problem
  pub selected_skill : Json
  pub final_summary : String

-- A plan's arguments as the dict that they are; a compiled plan has no ArgBinding left in it.
mutual
  pub json_of_arg : Arg → Json
  json_of_arg (binding from_step path) =
      obj (field "from_step" (str from_step) (field "path" (str path) end))
  json_of_arg (text s) = str s
  json_of_arg (nested args) = obj (fields_of args)
  json_of_arg (other v) = v

  pub fields_of : Args → Fields
  fields_of none_left = end
  fields_of (arg key v rest) = field key (json_of_arg v) (fields_of rest)

-- `_clone_todo`; the status of a todo of a plan is "pending".
unfoldable pub clone_todo : Todo → TodoItem
unfolding fields_of
clone_todo t = record {
  id = t.id;
  status = "pending";
  description = t.description;
  tool_name = t.tool_name;
  args = fields_of t.args;
  outputs = t.outputs;
}

-- d[key] = value
unfoldable pub set_field : String → Json → Fields → Fields
set_field key v end = field key v end
set_field key v (field j w fs) =
    let rest = set_field key v fs in if j == key then field j v fs else field j w rest

-- step_outputs[step_id] = compact
unfoldable pub set_output : String → Compact → Outputs → Outputs
set_output key c [] = (key, c) ∷ []
set_output key c ((j, d) ∷ outs) =
    let rest = set_output key c outs in if j == key then (j, c) ∷ outs else (j, d) ∷ rest

-- d.setdefault(key, value)
unfoldable pub set_default : String → Json → Fields → Fields
unfolding get set_field
set_default key v fs = if is_none (get key fs) then set_field key v fs else fs

-- `_merge_artifacts`
unfoldable pub merge_artifacts : List (String × String) → Fields → Fields
unfolding set_default
merge_artifacts [] merged = merged
merge_artifacts ((k, t) ∷ rest) merged = merge_artifacts rest (set_default k (str t) merged)

abbrev pub names_of : List (String × String) → Items
names_of [] = nil
names_of ((k, t) ∷ rest) = cons (str k) (names_of rest)

abbrev pub trace_of : Outputs → Fields
trace_of [] = end
trace_of ((step_id, c) ∷ outs) = field step_id (arr (names_of c.artifacts)) (trace_of outs)

-- `_record_binding_trace`
unfoldable pub record_binding_trace : Outputs → WorkflowState → WorkflowState
unfolding set_field
record_binding_trace [] s = s
record_binding_trace (o ∷ outs) s = record s {
  artifacts = set_field "binding_trace" (obj (trace_of (o ∷ outs))) s.artifacts;
}

-- What the runner calls, on a world W: the executor of the tools, which may raise; `save`, which
-- writes the state's file; `_attach_round_one_artifacts`; and the receipt and the reports that are
-- attached after the trace of the bindings. These three are as they are in a run in which they
-- return: what they raise goes through the runner, and such a run is not modelled.
pub record Services (W : Type 0) : Type 1 where
  pub call_tool : String → Fields → W → Attempt Json × W
  pub save : WorkflowState → W → W
  pub attach_round_one : WorkflowState → W → WorkflowState × W
  pub attach_reports : Outputs → WorkflowState → W → WorkflowState × W

-- The settings of the runner and of its compiler, and what the call asks for.
pub record Settings : Type 0 where
  pub max_steps : ℕ
  pub max_tool_result_chars : ℕ
  pub include_report_preview : Bool
  pub allowed_tools : Option (List String)

-- The dict of `_final_response`, but for run_id and state_path.
pub record Response : Type 0 where
  pub ok : Bool
  pub status : String
  pub summary : String
  pub artifacts : Fields
  pub error : Option Problem

abbrev pub success_summary : String
success_summary =
    "Workflow complete. Generated session, manifest, validation, handoff, and archive artifacts."

abbrev pub workflow_failed : Problem
workflow_failed = record { code = "workflow_failed"; message = "Workflow failed." }

-- errors[-1], or the given one.
abbrev pub last_error : Problem → List Problem → Problem
last_error p [] = p
last_error p (e ∷ es) = last_error e es

-- `_final_response`
unfoldable pub final_response : WorkflowState → Bool → String → Response
unfolding set_field
final_response s ok status = record {
  ok = ok;
  status = status;
  summary = if s.final_summary == "" then success_summary else s.final_summary;
  artifacts = set_field "selected_skill" s.selected_skill s.artifacts;
  error = if ok then none else some (last_error workflow_failed s.errors);
}
