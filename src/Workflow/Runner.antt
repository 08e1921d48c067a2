-- ===== src/Workflow/Runner.antt =====
-- `WorkflowRunner.run` without a patch to apply
-- (backend/python-daemon/orchestrator/agent_workflow/runner.py).
use agent_backend.Prelude.{
  ℕ, String, true, false, Option, none, some, List, [], ◌∷◌, ◌++◌, map, length, ltb, if◌then◌else◌,
  Attempt, done, raised,
}
use agent_backend.Json.{Json, num, str, end}
use agent_backend.Capabilities.Models.{CapabilityManifest}
use agent_backend.Policy.Capabilities.{PolicyError, check_pipeline_policy}
use agent_backend.Pipeline.Models.{Todo, PipelineDefinition, CompileError, CompiledPlan, Outcome}
use agent_backend.Pipeline.Compiler.{compile}
use agent_backend.Workflow.Args.{Outputs}
use agent_backend.Workflow.State.{
  TodoItem, WorkflowState, Services, Settings, Response, clone_todo, set_field,
  record_binding_trace, success_summary, final_response,
}
use agent_backend.Workflow.Steps.{Ending, returned, left, act}

-- What `run` is called with, but for the fields that only go to the state.
pub record RunRequest : Type 0 where
  pub objective : String
  pub target_repo : String
  pub profile : String
  pub pipeline_id : Option String
  pub pipeline_vars : List (String × String)
  pub selected_skill : Json

-- The loader and the registry of the capabilities, with the text of a policy error.
pub record Catalog : Type 0 where
  pub load : String → Attempt PipelineDefinition
  pub registry : Option (String → Option CapabilityManifest)
  pub message : PolicyError → String

-- What comes of a run: a state and a response, or an exception of the loader or the compiler.
pub data RunEnd : Type 0 where
  responded : WorkflowState → Response → RunEnd
  load_failed : String → RunEnd
  compile_failed : CompileError → RunEnd

abbrev pub effective_pipeline_id : Option String → String
effective_pipeline_id none = "investigation"
effective_pipeline_id (some id) = id

abbrev pub new_state : RunRequest → WorkflowState
new_state r = record {
  phase = "PLAN";
  todos = [];
  artifacts = end;
  tool_results = [];
  errors = [];
  selected_skill = r.selected_skill;
  final_summary = "";
}

abbrev pub plan_too_long : String
plan_too_long = "Workflow blocked: plan exceeds the configured maximum step count."

abbrev pub refused : String → String → WorkflowState → WorkflowState
refused code message s = record s {
  phase = "FINAL";
  final_summary = message;
  errors = s.errors ++ (record { code = code; message = message }) ∷ [];
}

abbrev pub planned : String → ℕ → WorkflowState → WorkflowState
planned pipeline_id count s = record s {
  artifacts =
      set_field "compiled_step_count" (num count)
        (set_field "pipeline_id" (str pipeline_id) s.artifacts);
}

abbrev pub synthesized : WorkflowState → WorkflowState
synthesized s = record s { phase = "SYNTHESIZE"; final_summary = success_summary }

abbrev pub finalized : WorkflowState → WorkflowState
finalized s = record s { phase = "FINAL" }

module _ {W : Type 0} (show : Json → String) (services : Services W) (settings : Settings)
    (catalog : Catalog) where
  -- The state is saved and the block is returned.
  abbrev pub blocked : WorkflowState → W → RunEnd × W
  blocked s w = (responded s (final_response s false "POLICY_BLOCK"), services.save s w)

  abbrev pub runtime_vars : RunRequest → List (String × String)
  runtime_vars r =
      r.pipeline_vars
      ++ ("objective", r.objective)
        ∷ ("target_repo", r.target_repo)
        ∷ ("profile", r.profile)
        ∷ ("max_chars", show (num settings.max_tool_result_chars))
        ∷ []

  abbrev pub reported : WorkflowState × W → RunEnd × W
  reported (s, w) = (
    responded (finalized s) (final_response (finalized s) true "COMPLETE"),
    services.save (finalized s) (services.save s w),
  )

  abbrev pub traced : Outputs → WorkflowState × W → RunEnd × W
  traced outputs (s, w) =
      reported (services.attach_reports outputs (record_binding_trace outputs s) w)

  -- What follows the loop, or its last step.
  abbrev pub after_loop : Ending × W → RunEnd × W
  after_loop (returned s r, w) = (responded s r, w)
  after_loop (left s outputs, w) = traced outputs (services.attach_round_one (synthesized s) w)

  unfoldable pub run_todos : List TodoItem → WorkflowState → W → RunEnd × W
  unfolding act record_binding_trace final_response
  run_todos todos s w =
      let s' : WorkflowState = record s { todos = todos } in
      after_loop (act show services settings todos [] [] s' (services.save s' w))

  unfoldable pub run_plan : String → List Todo → WorkflowState → W → RunEnd × W
  unfolding run_todos set_field clone_todo final_response
  run_plan pipeline_id plan s w =
      let s' : WorkflowState = planned pipeline_id (length plan) s in
      if ltb settings.max_steps (length plan)
      then blocked (refused "plan_too_long" plan_too_long s') w
      else run_todos (map clone_todo plan) s' w

  abbrev pub run_compiled : String → Outcome CompiledPlan → WorkflowState → W → RunEnd × W
  run_compiled pipeline_id (Outcome.done plan) s w = run_plan pipeline_id plan.todos s w
  run_compiled pipeline_id (Outcome.failed e) s w = (compile_failed e, w)

  abbrev pub run_loaded :
      RunRequest → String → Attempt PipelineDefinition → WorkflowState → W → RunEnd × W
  run_loaded r pipeline_id (raised e) s w = (load_failed e, w)
  run_loaded r pipeline_id (done d) s w =
      run_compiled pipeline_id (compile settings.allowed_tools d (runtime_vars r)) s w

  abbrev pub run_allowed : RunRequest → String → Option PolicyError → W → RunEnd × W
  run_allowed r pipeline_id (some e) w =
      blocked (refused "capability_policy_block" (catalog.message e) (new_state r)) w
  run_allowed r pipeline_id none w =
      run_loaded r pipeline_id (catalog.load pipeline_id) (new_state r) w

  unfoldable pub run : RunRequest → W → RunEnd × W
  unfolding run_plan compile check_pipeline_policy final_response
  run r w =
      let id : String = effective_pipeline_id r.pipeline_id in
      run_allowed r id (check_pipeline_policy id catalog.registry) w
