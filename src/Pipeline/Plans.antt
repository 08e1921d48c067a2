-- ===== src/Pipeline/Plans.antt =====
-- What holds of a plan that `compile` returns
-- (backend/python-daemon/orchestrator/pipeline/compiler.py).
use agent_backend.Prelude.{◌≤◌, String, ◌≡◌, true, Option, List, [], map, elem, length}
use agent_backend.Sql.Rows.{Among}
use agent_backend.Dag.Order.{IsOrdered}
use agent_backend.Pipeline.Models.{binding, PipelineStep, PipelineDefinition, Todo, CompiledPlan}
use agent_backend.Pipeline.Compiler.{
  tool_allowed, node_of_step, resolve_args, collect_unresolved, serialize_args,
}
use agent_backend.Pipeline.Bindings.{IsArg, IsBound}

-- What a todo says of the step that it comes from.
pub record Comes (merged : List (String × String)) (t : Todo) (s : PipelineStep) : Type 0 where
  pub id : t.id ≡ s.step_id
  pub tool_name : t.tool_name ≡ s.tool_name
  pub description : t.description ≡ s.description
  pub outputs : t.outputs ≡ s.outputs
  pub args : t.args ≡ serialize_args (resolve_args merged s.args_template)
  pub no_variable : collect_unresolved (resolve_args merged s.args_template) ≡ []

abbrev pub todo_ids : CompiledPlan → List String
todo_ids plan = map (λ t. t.id) plan.todos

pub record IsPlanOf (allowed_tools : Option (List String)) (d : PipelineDefinition)
    (merged : List (String × String)) (plan : CompiledPlan) : Type 0 where
  pub pipeline_id : plan.pipeline_id ≡ d.pipeline_id
  pub few : length d.steps ≤ d.max_steps
  pub ordered : IsOrdered (map node_of_step d.steps) [] (todo_ids plan)
  pub complete : (s : PipelineStep) → Among s d.steps → elem s.step_id (todo_ids plan) ≡ true
  pub sources :
      (t : Todo) → Among t plan.todos → (s : PipelineStep) × Among s d.steps × Comes merged t s
  pub tools : (s : PipelineStep) → Among s d.steps → tool_allowed allowed_tools s.tool_name ≡ true
  pub bindings :
      (s : PipelineStep)
      → Among s d.steps
      → (key from_step path : String) → IsArg key (binding from_step path) s.args_template
      → IsBound (todo_ids plan) s from_step
