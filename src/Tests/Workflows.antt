-- ===== src/Tests/Workflows.antt =====
-- A workflow of two steps, the second of which uses an artifact of the first.
use agent_backend.Prelude.{
  String, ◌≡◌, refl, true, false, none, some, List, [], ◌∷◌, ◌++◌, ◌==◌, if◌then◌else◌, Attempt,
  done, raised,
}
use agent_backend.Json.{Json, null, bool, str, obj, Fields, end, field, get}
use agent_backend.Pipeline.Models.{binding, text, none_left, arg, PipelineDefinition, PipelineStep}
use agent_backend.Workflow.Compaction.{text_in, dict_of, compact_tool_result}
use agent_backend.Workflow.Args.{Outputs}
use agent_backend.Workflow.State.{TodoItem, WorkflowState, Services, Settings}
use agent_backend.Workflow.Steps.{act, run_tool}
use agent_backend.Workflow.Runner.{RunRequest, Catalog, new_state, run}
use agent_backend.Workflow.Progress.{Acted, act-Acted}
use agent_backend.Workflow.Resolved.{Called, run_tool-Called}
use agent_backend.Workflow.Bounds.{Fits, compact_tool_result-Fits}
use agent_backend.Workflow.Guarded.{Guarded, run-Guarded}

-- The calls that were made: a world.
abbrev Calls : Type 0
Calls = List (String × Fields)

abbrev show_json : Json → String
show_json v = "None"

abbrev session_result : Json
session_result = obj (
    field "ok" (bool true) (
      field "status" (str "CREATED")
        (field "artifacts" (obj (field "session_path" (str "/s/1") end)) end)))

-- "session" succeeds, "flaky" raises, and every other tool returns nothing.
abbrev answer : String → Attempt Json
answer tool =
    if tool == "session"
    then done session_result
    else if tool == "flaky"
    then raised "down"
    else done null

abbrev toolbox : Services Calls
toolbox = record {
  call_tool = λ tool args w. (answer tool, w ++ (tool, args) ∷ []);
  save = λ s w. w;
  attach_round_one = λ s w. (s, w);
  attach_reports = λ outputs s w. (s, w);
}

abbrev small_settings : Settings
small_settings = record {
  max_steps = 3;
  max_tool_result_chars = 20;
  include_report_preview = false;
  allowed_tools = none;
}

abbrev first_step : PipelineStep
first_step = record {
  step_id = "a";
  tool_name = "session";
  args_template = arg "goal" (text "${objective}") none_left;
  description = "";
  depends_on = [];
  outputs = [];
}

abbrev second_step : PipelineStep
second_step = record {
  step_id = "b";
  tool_name = "session";
  args_template = arg "path" (binding "a" "artifacts.session_path") none_left;
  description = "";
  depends_on = "a" ∷ [];
  outputs = [];
}

abbrev two_steps : PipelineDefinition
two_steps = record {
  pipeline_id = "investigation";
  version = "1";
  steps = first_step ∷ second_step ∷ [];
  variables = [];
  max_steps = 5;
}

abbrev small_catalog : Catalog
small_catalog = record { load = λ id. done two_steps; registry = none; message = λ e. "blocked" }

abbrev small_request : RunRequest
small_request = record {
  objective = "look";
  target_repo = "/work";
  profile = "safe";
  pipeline_id = none;
  pipeline_vars = [];
  selected_skill = null;
}

calls_of_run :
    (run show_json toolbox small_settings small_catalog small_request []).1
    ≡ ("session", field "goal" (str "look") end) ∷ ("session", field "path" (str "/s/1") end) ∷ []
unfolding run
calls_of_run = refl

run-Guarded_example :
    Guarded show_json toolbox small_settings small_catalog small_request []
      (run show_json toolbox small_settings small_catalog small_request [])
run-Guarded_example = run-Guarded show_json toolbox small_settings small_catalog small_request []

abbrev flaky_item : TodoItem
flaky_item = record {
  id = "f";
  status = "pending";
  description = "";
  tool_name = "flaky";
  args = end;
  outputs = [];
}

abbrev later_item : TodoItem
later_item = record {
  id = "l";
  status = "pending";
  description = "";
  tool_name = "session";
  args =
      field "path"
        (obj (
          field "__binding__" (bool true)
            (field "from_step" (str "a") (field "path" (str "artifacts.session_path") end))))
        end;
  outputs = [];
}

abbrev started_state : WorkflowState
started_state = record (new_state small_request) { todos = flaky_item ∷ later_item ∷ [] }

act-Acted_example :
    Acted
      (flaky_item ∷ later_item ∷ [])
      []
      started_state
      (act show_json toolbox small_settings (flaky_item ∷ later_item ∷ []) [] [] started_state []).0
act-Acted_example =
    act-Acted show_json toolbox small_settings (flaky_item ∷ later_item ∷ []) [] [] started_state []
      refl

abbrev outputs_of_a : Outputs
outputs_of_a = ("a", compact_tool_result show_json "session" session_result 20 false) ∷ []

run_tool-Called_example :
    Called show_json toolbox small_settings later_item outputs_of_a []
      (run_tool show_json toolbox small_settings later_item outputs_of_a [])
run_tool-Called_example =
    run_tool-Called show_json toolbox small_settings later_item outputs_of_a []

abbrev with_text : Json
with_text = obj (field "ok" (bool true) (field "content" (str "a long report") end))

preview_of_text :
    (compact_tool_result show_json "read" with_text 6 true).content_preview ≡ some "a long"
unfolding compact_tool_result
preview_of_text = refl

compact_tool_result-Fits_example :
    Fits 6
      (text_in (get "content" (dict_of (some with_text))))
      (compact_tool_result show_json "read" with_text 6 true)
compact_tool_result-Fits_example = compact_tool_result-Fits show_json "read" with_text 6 true
