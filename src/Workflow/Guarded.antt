-- ===== src/Workflow/Guarded.antt =====
-- What stands between a request and its first tool call, and how a run ends.
use agent_backend.Prelude.{
  ◌≤◌, ◌<◌, String, ◌≡◌, refl, inl, inr, Bool, true, false, Option, none, some, List, [], ◌∷◌, ◌++◌,
  map, length, ltb, arith, Attempt, done, raised, Bool-cases,
}
use agent_backend.Json.{Json}
use agent_backend.Policy.Capabilities.{PolicyError, check_pipeline_policy}
use agent_backend.Pipeline.Models.{PipelineDefinition, CompileError, CompiledPlan, Outcome}
use agent_backend.Pipeline.Compiler.{compile}
use agent_backend.Workflow.Compaction.{Problem, Compact}
use agent_backend.Workflow.Args.{Outputs}
use agent_backend.Workflow.State.{
  TodoItem, WorkflowState, Services, Settings, clone_todo, set_output, final_response,
}
use agent_backend.Workflow.Steps.{
  Ending, returned, left, act, after_result, failed, with_status, problem_of,
}
use agent_backend.Workflow.Runner.{
  RunRequest, Catalog, RunEnd, responded, load_failed, compile_failed, effective_pipeline_id,
  new_state, plan_too_long, planned, runtime_vars, after_loop, run_todos, run_plan, run_compiled,
  run_loaded, run_allowed, run,
}

module _ {W : Type 0} (show : Json → String) (services : Services W) (settings : Settings) where
  -- The loop either goes on to the end or has just saved the state that it returns.
  data Left : Ending × W → Type 0 where
    is_left : (s : WorkflowState) (outputs : Outputs) (w : W) → Left (left s outputs, w)
    is_returned :
        (c : Compact) (s : WorkflowState) (w : W)
        → Left (
          returned
              (failed show services settings c s)
              (final_response (failed show services settings c s) false c.status),
          services.save (failed show services settings c s) w,
        )

  after_result-Left :
      (ok handoff : Bool) (t : TodoItem) (c : Compact) (outputs : Outputs) (s : WorkflowState)
      (w : W) (next : Outputs → WorkflowState → W → Ending × W)
      → ((o : Outputs) (r : WorkflowState) (v : W) → Left (next o r v))
      → Left (after_result show services settings (ok, handoff) t c outputs s w next)
  after_result-Left false handoff t c outputs s w next p = is_returned c s w
  after_result-Left true true t c outputs s w next p = is_left s (set_output t.id c outputs) w
  after_result-Left true false t c outputs s w next p = p (set_output t.id c outputs) s w

  act-Left :
      (ts passed : List TodoItem) (outputs : Outputs) (s : WorkflowState) (w : W)
      → Left (act show services settings ts passed outputs s w)
  unfolding act
  act-Left [] passed outputs s w = is_left s outputs w
  act-Left (t ∷ ts) passed outputs s w =
      after_result-Left _ _ t _ outputs _ _ _
        (λ o r v. act-Left ts (passed ++ with_status "done" t ∷ []) o r v)

  -- The state that is returned is the one that was saved last, in its final phase; the response
  -- is made of it, and it is an error if one was noted last.
  pub data Ends : RunEnd × W → Type 0 where
    completed :
        (s : WorkflowState) (w : W)
        → s.phase ≡ "FINAL"
        → Ends (responded s (final_response s true "COMPLETE"), services.save s w)
    stopped :
        (s : WorkflowState) (w : W) (status : String) (ps : List Problem) (p : Problem)
        → s.phase ≡ "FINAL"
        → s.errors ≡ ps ++ p ∷ []
        → Ends (responded s (final_response s false status), services.save s w)

  module _ (catalog : Catalog) where
    after_loop-Ends : (x : Ending × W) → Left x → Ends (after_loop show services settings catalog x)
    after_loop-Ends _ (is_left s outputs w) = completed _ _ refl
    after_loop-Ends _ (is_returned c s w) = stopped _ w c.status s.errors (problem_of c) refl refl

    run_todos-Ends :
        (todos : List TodoItem) (s : WorkflowState) (w : W)
        → Ends (run_todos show services settings catalog todos s w)
    unfolding run_todos
    run_todos-Ends todos s w = after_loop-Ends _ (act-Left todos [] [] _ _)

    abbrev pub policy_of : RunRequest → Option PolicyError
    policy_of r = check_pipeline_policy (effective_pipeline_id r.pipeline_id) catalog.registry

    abbrev pub compiled_from : RunRequest → PipelineDefinition → Outcome CompiledPlan
    compiled_from r d =
        compile settings.allowed_tools d (runtime_vars show services settings catalog r)

    -- The reason for an end without a tool call.
    pub data Reason (r : RunRequest) : Problem → Type 0 where
      policy :
          (e : PolicyError)
          → policy_of r ≡ some e
          → Reason r (record { code = "capability_policy_block"; message = catalog.message e })
      too_long :
          (d : PipelineDefinition) (plan : CompiledPlan)
          → policy_of r ≡ none
          → catalog.load (effective_pipeline_id r.pipeline_id) ≡ done d
          → compiled_from r d ≡ Outcome.done plan
          → settings.max_steps < length plan.todos
          → Reason r (record { code = "plan_too_long"; message = plan_too_long })

    pub data Guarded (r : RunRequest) (w : W) : RunEnd × W → Type 0 where
      not_loaded :
          (e : String)
          → policy_of r ≡ none
          → catalog.load (effective_pipeline_id r.pipeline_id) ≡ raised e
          → Guarded r w (load_failed e, w)
      not_compiled :
          (d : PipelineDefinition) (e : CompileError)
          → policy_of r ≡ none
          → catalog.load (effective_pipeline_id r.pipeline_id) ≡ done d
          → compiled_from r d ≡ Outcome.failed e
          → Guarded r w (compile_failed e, w)
      held_back :
          (s : WorkflowState) (p : Problem)
          → s.tool_results ≡ []
          → s.errors ≡ p ∷ []
          → Reason r p
          → Guarded r w (responded s (final_response s false "POLICY_BLOCK"), services.save s w)
      carried_out :
          (d : PipelineDefinition) (plan : CompiledPlan) (e : RunEnd × W)
          → policy_of r ≡ none
          → catalog.load (effective_pipeline_id r.pipeline_id) ≡ done d
          → compiled_from r d ≡ Outcome.done plan
          → length plan.todos ≤ settings.max_steps
          → Ends e
          → Guarded r w e

    run_plan-Guarded :
        (r : RunRequest) (w : W) (d : PipelineDefinition) (plan : CompiledPlan)
        → policy_of r ≡ none
        → catalog.load (effective_pipeline_id r.pipeline_id) ≡ done d
        → compiled_from r d ≡ Outcome.done plan
        → Guarded r w (
            run_plan show services settings catalog
              (effective_pipeline_id r.pipeline_id)
              plan.todos
              (new_state r)
              w)
    unfolding run_plan
    run_plan-Guarded r w d plan p l h =
        elim (Bool-cases (ltb settings.max_steps (length plan.todos))) [
          | inl e ↦ rw e (
              held_back _ (record { code = "plan_too_long"; message = plan_too_long }) refl refl
                (too_long d plan p l h (ground (arith, e))))
          | inr e ↦ rw e (
              carried_out d plan _ p l h (ground (arith, e)) (
                run_todos-Ends (map clone_todo plan.todos)
                  (planned (effective_pipeline_id r.pipeline_id) (length plan.todos) (new_state r))
                  w))
        ]

    run_compiled-Guarded :
        (r : RunRequest) (w : W) (d : PipelineDefinition) (o : Outcome CompiledPlan)
        → policy_of r ≡ none
        → catalog.load (effective_pipeline_id r.pipeline_id) ≡ done d
        → compiled_from r d ≡ o
        → Guarded r w (
            run_compiled show services settings catalog
              (effective_pipeline_id r.pipeline_id)
              o
              (new_state r)
              w)
    run_compiled-Guarded r w d (Outcome.done plan) p l h = run_plan-Guarded r w d plan p l h
    run_compiled-Guarded r w d (Outcome.failed e) p l h = not_compiled d e p l h

    run_loaded-Guarded :
        (r : RunRequest) (w : W) (a : Attempt PipelineDefinition)
        → policy_of r ≡ none
        → catalog.load (effective_pipeline_id r.pipeline_id) ≡ a
        → Guarded r w (
            run_loaded show services settings catalog r
              (effective_pipeline_id r.pipeline_id)
              a
              (new_state r)
              w)
    run_loaded-Guarded r w (raised e) p l = not_loaded e p l
    run_loaded-Guarded r w (done d) p l = run_compiled-Guarded r w d (compiled_from r d) p l refl

    run_allowed-Guarded :
        (r : RunRequest) (w : W) (o : Option PolicyError)
        → policy_of r ≡ o
        → Guarded r w
            (run_allowed show services settings catalog r (effective_pipeline_id r.pipeline_id) o w)
    run_allowed-Guarded r w (some e) p = held_back _ _ refl refl (policy e p)
    run_allowed-Guarded r w none p =
        run_loaded-Guarded r w (catalog.load (effective_pipeline_id r.pipeline_id)) p refl

    -- If the state's file can be written and the reports are attached without an exception, a run
    -- calls a tool only if the capability policy lets the pipeline pass, it is loaded, and it
    -- compiles to a plan of at most max_steps steps. If the policy does not let it pass or the plan
    -- is too long, nothing is done to the world but that the state is saved, without a tool result
    -- and with the reason as its only error; and exactly what the loader or the compiler raises is
    -- raised, with the world as it is. A run that is carried out returns the state that it saved
    -- last, in the phase FINAL, with a response that is COMPLETE or that is not ok, and in this
    -- case an error has been noted.
    pub run-Guarded :
        (r : RunRequest) (w : W) → Guarded r w (run show services settings catalog r w)
    unfolding run
    run-Guarded r w = run_allowed-Guarded r w (policy_of r) refl
