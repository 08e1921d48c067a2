-- ===== src/Pipeline/Compiler.antt =====
-- `PipelineCompiler.compile`
-- (backend/python-daemon/orchestrator/pipeline/compiler.py).
use agent_backend.Prelude.{
  String, Bool, true, false, not, ◌&&◌, Option, none, some, List, [], ◌∷◌, ◌++◌, map, ◌==◌, eqb,
  leb, elem, length, if◌then◌else◌, ok, err,
}
use agent_backend.Json.{bool}
use agent_backend.Sql.{find}
use agent_backend.Dag.Descend.{Node, static_order}
use agent_backend.Pipeline.Variables.{pieces, variables, substitute}
use agent_backend.Pipeline.Models.{
  Arg, binding, text, nested, other, Args, none_left, arg, PipelineStep, PipelineDefinition, Todo,
  CompiledPlan, CompileError, no_steps, too_many_steps, duplicate_step_id, tool_not_allowed,
  unknown_dependency, dependency_cycle, binds_itself, binds_unknown, binds_later, binds_undeclared,
  unresolved, lost_step, Outcome, done, failed,
}

abbrev pub then_do : {A B : Type 0} → Outcome A → (A → Outcome B) → Outcome B
then_do (done a) f = f a
then_do (failed e) f = failed e

-- Raises unless the test holds.
abbrev pub check : Bool → CompileError → Outcome (Unit {0})
check true e = done tt
check false e = failed e

abbrev pub ids : List PipelineStep → List String
ids steps = map (λ s. s.step_id) steps

-- len({...}) == len(steps)
unfoldable pub all_different : List String → Bool
unfolding elem
all_different [] = true
all_different (k ∷ ks) = not (elem k ks) && all_different ks

unfoldable pub check_dependencies : List String → String → List String → Outcome (Unit {0})
unfolding elem
check_dependencies step_ids step_id [] = done tt
check_dependencies step_ids step_id (d ∷ ds) =
    then_do (check (elem d step_ids) (unknown_dependency step_id d))
      λ _. check_dependencies step_ids step_id ds

-- `tool_name not in self.allowed_tools`, unless no tools were named.
abbrev pub tool_allowed : Option (List String) → String → Bool
tool_allowed none tool = true
tool_allowed (some tools) tool = elem tool tools

unfoldable pub check_steps :
    Option (List String) → List String → List PipelineStep → Outcome (Unit {0})
unfolding elem check_dependencies
check_steps allowed_tools step_ids [] = done tt
check_steps allowed_tools step_ids (s ∷ ss) =
    then_do (check (tool_allowed allowed_tools s.tool_name) (tool_not_allowed s.tool_name)) λ _.
      then_do (check_dependencies step_ids s.step_id s.depends_on)
        λ _. check_steps allowed_tools step_ids ss

-- `_validate`
unfoldable pub validate : Option (List String) → PipelineDefinition → Outcome (Unit {0})
unfolding all_different check_steps
validate allowed_tools d = then_do (check (not (eqb (length d.steps) 0)) no_steps) λ _.
    then_do (check (leb (length d.steps) d.max_steps) (too_many_steps (length d.steps) d.max_steps))
      λ _.
        then_do (check (all_different (ids d.steps)) duplicate_step_id)
          λ _. check_steps allowed_tools (ids d.steps) d.steps

abbrev pub node_of_step : PipelineStep → Node
node_of_step s = record { name = s.step_id; before = s.depends_on }

-- [step_map[sid] for sid in ordered_ids]
unfoldable pub pick : List PipelineStep → List String → Outcome (List PipelineStep)
unfolding find
pick steps [] = done []
pick steps (k ∷ ks) = elim (find (λ s. s.step_id) k steps) [
  | none ↦ failed (lost_step k)
  | some s ↦ then_do (pick steps ks) λ rest. done (s ∷ rest)
]

-- `_topological_order`
unfoldable pub topological_order : List PipelineStep → Outcome (List PipelineStep)
unfolding static_order pick
topological_order steps = elim (static_order (map node_of_step steps)) [
  | err e ↦ failed dependency_cycle
  | ok ordered_ids ↦ pick steps ordered_ids
]

-- ordered_ids.index(k) < ordered_ids.index(j), for two ids of the list.
unfoldable pub precedes : List String → String → String → Bool
unfolding elem
precedes [] k j = false
precedes (x ∷ xs) k j =
    let later = precedes xs k j in if x == j then false else if x == k then true else later

-- The body of the inner loop of `_validate_bindings`.
unfoldable pub check_binding :
    List String → List String → PipelineStep → String → String → Outcome (Unit {0})
unfolding elem precedes
check_binding step_ids ordered_ids s key from_step =
    then_do (check (not (from_step == s.step_id)) (binds_itself s.step_id key)) λ _.
      then_do (check (elem from_step step_ids) (binds_unknown s.step_id key)) λ _.
        then_do (check (precedes ordered_ids from_step s.step_id) (binds_later s.step_id key))
          λ _. check (elem from_step s.depends_on) (binds_undeclared s.step_id key)

-- The loop over the arguments of a step: only those at the top are looked at.
unfoldable pub check_args : List String → List String → PipelineStep → Args → Outcome (Unit {0})
unfolding check_binding
check_args step_ids ordered_ids s none_left = done tt
check_args step_ids ordered_ids s (arg key (binding from_step path) rest) =
    then_do (check_binding step_ids ordered_ids s key from_step)
      λ _. check_args step_ids ordered_ids s rest
check_args step_ids ordered_ids s (arg key _ rest) = check_args step_ids ordered_ids s rest

-- `_validate_bindings`
unfoldable pub validate_bindings :
    List String → List String → List PipelineStep → Outcome (Unit {0})
unfolding check_args
validate_bindings step_ids ordered_ids [] = done tt
validate_bindings step_ids ordered_ids (s ∷ ss) =
    then_do (check_args step_ids ordered_ids s s.args_template)
      λ _. validate_bindings step_ids ordered_ids ss

-- `_resolve_args`, on the merged variables.
unfoldable mutual
  unfolding substitute

  pub resolve_arg : List (String × String) → Arg → Arg
  resolve_arg merged (binding from_step path) = binding from_step path
  resolve_arg merged (text s) = text (substitute merged s)
  resolve_arg merged (nested args) = nested (resolve_args merged args)
  resolve_arg merged (other v) = other v

  pub resolve_args : List (String × String) → Args → Args
  resolve_args merged none_left = none_left
  resolve_args merged (arg key v rest) = arg key (resolve_arg merged v) (resolve_args merged rest)

-- `_collect_unresolved`
unfoldable mutual
  unfolding pieces

  pub unresolved_in : Arg → List String
  unresolved_in (binding from_step path) = []
  unresolved_in (text s) = variables (pieces s)
  unresolved_in (nested args) = collect_unresolved args
  unresolved_in (other v) = []

  pub collect_unresolved : Args → List String
  collect_unresolved none_left = []
  collect_unresolved (arg key v rest) = unresolved_in v ++ collect_unresolved rest

-- `_serialize_args`
unfoldable mutual
  pub serialize_arg : Arg → Arg
  serialize_arg (binding from_step path) = nested (
      arg "__binding__" (other (bool true))
        (arg "from_step" (text from_step) (arg "path" (text path) none_left)))
  serialize_arg (text s) = text s
  serialize_arg (nested args) = nested (serialize_args args)
  serialize_arg (other v) = other v

  pub serialize_args : Args → Args
  serialize_args none_left = none_left
  serialize_args (arg key v rest) = arg key (serialize_arg v) (serialize_args rest)

-- The body of the loop of `compile` over the ordered steps.
unfoldable pub todo_of : List (String × String) → PipelineStep → Outcome Todo
unfolding resolve_args collect_unresolved serialize_args
todo_of merged s =
    let resolved = resolve_args merged s.args_template in
    elim (collect_unresolved resolved) [
      | k ∷ ks ↦ failed (unresolved s.step_id (k ∷ ks))
      | [] ↦ done (record {
        id = s.step_id;
        description = s.description;
        tool_name = s.tool_name;
        args = serialize_args resolved;
        outputs = s.outputs;
      })
    ]

unfoldable pub todos_of : List (String × String) → List PipelineStep → Outcome (List Todo)
unfolding todo_of
todos_of merged [] = done []
todos_of merged (s ∷ ss) =
    then_do (todo_of merged s) λ t. then_do (todos_of merged ss) λ ts. done (t ∷ ts)

-- `compile`; {**declared_vars, **runtime_vars}: the runtime's values come first.
unfoldable pub compile :
    Option (List String) → PipelineDefinition → List (String × String) → Outcome CompiledPlan
unfolding validate topological_order validate_bindings todos_of
compile allowed_tools d runtime_vars = then_do (validate allowed_tools d) λ _.
    then_do (topological_order d.steps) λ ordered.
      then_do (validate_bindings (ids d.steps) (ids ordered) d.steps) λ _.
        then_do (todos_of (runtime_vars ++ d.variables) ordered)
          λ todos. done (record { pipeline_id = d.pipeline_id; version = d.version; todos = todos })
