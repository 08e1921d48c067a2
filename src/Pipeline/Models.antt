-- ===== src/Pipeline/Models.antt =====
-- The definition of a pipeline and the plan that it becomes
-- (backend/python-daemon/orchestrator/pipeline/models.py and compiler.py).
use agent_backend.Prelude.{ℕ, String, List}
use agent_backend.Json.{Json}

-- A value of `args_template`: an ArgBinding, a text, a dict, or any other value.
mutual
  pub data Arg : Type 0 where
    binding : (from_step path : String) → Arg
    text : String → Arg
    nested : Args → Arg
    other : Json → Arg

  pub data Args : Type 0 where
    none_left : Args
    arg : String → Arg → Args → Args

-- The fields that the compiler does not read are left out: required_outputs, negative_constraints
-- and depth of a step, name and description of a definition.
pub record PipelineStep : Type 0 where
  pub step_id : String
  pub tool_name : String
  pub args_template : Args
  pub description : String
  pub depends_on : List String
  pub outputs : List (String × String)

pub record PipelineDefinition : Type 0 where
  pub pipeline_id : String
  pub version : String
  pub steps : List PipelineStep
  pub variables : List (String × String)
  pub max_steps : ℕ

-- An entry of `todos`; its status is "pending".
pub record Todo : Type 0 where
  pub id : String
  pub description : String
  pub tool_name : String
  pub args : Args
  pub outputs : List (String × String)

pub record CompiledPlan : Type 0 where
  pub pipeline_id : String
  pub version : String
  pub todos : List Todo

-- PipelineCompileError, by its message.
pub data CompileError : Type 0 where
  no_steps : CompileError
  too_many_steps : (steps max_steps : ℕ) → CompileError
  duplicate_step_id : CompileError
  tool_not_allowed : (tool_name : String) → CompileError
  unknown_dependency : (step_id dependency : String) → CompileError
  dependency_cycle : CompileError
  binds_itself binds_unknown binds_later binds_undeclared : (step_id key : String) → CompileError
  unresolved : (step_id : String) → List String → CompileError
  -- an outcome of the model alone: no step has an id of the order
  lost_step : String → CompileError

pub data Outcome (A : Type 0) : Type 0 where
  done : A → Outcome A
  failed : CompileError → Outcome A
