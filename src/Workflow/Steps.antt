-- ===== src/Workflow/Steps.antt =====
-- The loop of `WorkflowRunner.run` over the todos
-- (backend/python-daemon/orchestrator/agent_workflow/runner.py).
use Prim.Native.String.{◌++◌ as ◌++ˢ◌}
use agent_backend.Prelude.{
  String, Bool, true, false, ◌&&◌, none, some, List, [], ◌∷◌, ◌++◌, ◌==◌, if◌then◌else◌, Attempt,
  done, raised, take_text, join,
}
use agent_backend.Json.{Json, bool, str, obj, Fields, end, field}
use agent_backend.Workflow.Compaction.{Problem, Compact, compact_tool_result}
use agent_backend.Workflow.Args.{Outputs, resolve_step_args}
use agent_backend.Workflow.State.{
  TodoItem, WorkflowState, Services, Settings, Response, set_output, merge_artifacts,
  final_response,
}

-- The result that the runner makes up for a step that it could not run.
abbrev pub failed_raw : (status summary code message : String) → Json
failed_raw status summary code message = obj (
    field "ok" (bool false) (
      field "status" (str status) (
        field "summary" (str summary) (
          field "artifacts" (obj end) (
            field "error" (obj (field "code" (str code) (field "message" (str message) end)))
              end)))))

abbrev pub execution_failed : String → Json
execution_failed e =
    failed_raw "ERROR" ("workflow tool execution failed: " ++ˢ e) "tool_execution_failed"
      (take_text 2000 e)

abbrev pub bindings_failed : List String → Json
bindings_failed failures =
    failed_raw "POLICY_BLOCK" (join "; " failures) "binding_resolution_failed" (join "; " failures)

abbrev pub read_report : String
read_report = "mcp_investigation_read_report"

abbrev pub compile_handoff : String
compile_handoff = "mcp_investigation_compile_handoff"

abbrev pub with_status : String → TodoItem → TodoItem
with_status status t = record t { status = status }

abbrev pub problem_of : Compact → Problem
problem_of c = elim c.error [
  | none ↦ record { code = "tool_failed"; message = c.summary }
  | some e ↦ record { code = e.code; message = c.summary }
]

-- How the loop is left: it returned, or the run goes on to its end, with `step_outputs`.
pub data Ending : Type 0 where
  returned : WorkflowState → Response → Ending
  left : WorkflowState → Outputs → Ending

module _ {W : Type 0} (show : Json → String) (services : Services W) (settings : Settings) where
  abbrev pub raw_of : Attempt Json × W → Json × W
  raw_of (done raw, w) = (raw, w)
  raw_of (raised e, w) = (execution_failed e, w)

  abbrev pub call_resolved : TodoItem → Attempt (Fields × List String) → W → Json × W
  call_resolved t (raised e) w = (execution_failed e, w)
  call_resolved t (done (args, [])) w = raw_of (services.call_tool t.tool_name args w)
  call_resolved t (done (args, f ∷ fs)) w = (bindings_failed (f ∷ fs), w)

  -- The `try` block: the raw result of the step.
  unfoldable pub run_tool : TodoItem → Outputs → W → Json × W
  unfolding resolve_step_args take_text
  run_tool t outputs w = call_resolved t (resolve_step_args show outputs t.id t.args) w

  unfoldable pub compact_of : TodoItem → Json → Compact
  unfolding compact_tool_result
  compact_of t raw =
      compact_tool_result show t.tool_name raw settings.max_tool_result_chars
        (settings.include_report_preview && (t.tool_name == read_report))

  abbrev pub started : List TodoItem → TodoItem → List TodoItem → WorkflowState → WorkflowState
  started passed t rest s = record s {
    phase = "ACT";
    todos = passed ++ with_status "active" t ∷ rest;
  }

  abbrev pub summarised :
      List TodoItem → TodoItem → List TodoItem → Compact → WorkflowState → WorkflowState
  summarised passed t rest c s = record s {
    phase = "SUMMARISE_TOOL_RESULT";
    todos = passed ++ with_status (if c.ok then "done" else "blocked") t ∷ rest;
    artifacts = merge_artifacts c.artifacts s.artifacts;
    tool_results = s.tool_results ++ c ∷ [];
  }

  abbrev pub checked : WorkflowState → WorkflowState
  checked s = record s { phase = "CHECK" }

  -- The result was not ok.
  abbrev pub failed : Compact → WorkflowState → WorkflowState
  failed c s = record s {
    phase = "FINAL";
    errors = s.errors ++ problem_of c ∷ [];
    final_summary = c.summary;
  }

  -- The rest of the loop after the result of `t`, unless it ends there.
  abbrev pub after_result :
      (Bool × Bool)
      → TodoItem
      → Compact
      → Outputs
      → WorkflowState
      → W
      → (Outputs → WorkflowState → W → Ending × W)
      → Ending × W
  after_result (false, handoff) t c outputs s w next = (
    returned (failed c s) (final_response (failed c s) false c.status),
    services.save (failed c s) w,
  )
  after_result (true, true) t c outputs s w next = (left s (set_output t.id c outputs), w)
  after_result (true, false) t c outputs s w next = next (set_output t.id c outputs) s w

  abbrev pub saved_twice : WorkflowState → W → W
  saved_twice s w = services.save (checked s) (services.save s w)

  -- The loop: `passed` are the todos before the remaining ones.
  unfoldable pub act : List TodoItem → List TodoItem → Outputs → WorkflowState → W → Ending × W
  unfolding run_tool compact_of merge_artifacts set_output final_response
  act [] passed outputs s w = (left s outputs, w)
  act (t ∷ ts) passed outputs s w =
      let ran : Json × W = run_tool t outputs (services.save (started passed t ts s) w) in
      let c : Compact = compact_of t ran.0 in
      let s' : WorkflowState = summarised passed t ts c (started passed t ts s) in
      after_result (c.ok, t.tool_name == compile_handoff) t c outputs (checked s')
        (saved_twice s' ran.1) (act ts (passed ++ with_status "done" t ∷ []))
