-- ===== src/Workflow/Args.antt =====
-- How the runner fills the arguments of a step with the results of the earlier ones:
-- `_is_binding`, `_resolve_binding` and `_resolve_args`
-- (backend/python-daemon/orchestrator/agent_workflow/runner.py).
use Prim.Native.String.{◌++◌ as ◌++ˢ◌}
use agent_backend.Prelude.{
  String, Bool, true, false, Option, none, some, List, [], ◌∷◌, ◌++◌, ◌==◌, lookup, partition,
  if◌then◌else◌, Attempt, done, raised,
}
use agent_backend.Json.{Json, null, bool, str, obj, Fields, end, field, get}
use agent_backend.Workflow.Compaction.{Compact, Problem, text_of}

-- `step_outputs`: the compact result of every step that has run, by the step's id. Of a result
-- the five entries ok, status, summary, artifacts and error are kept.
abbrev pub Outputs : Type 0
Outputs = List (String × Compact)

-- v.get("__binding__") is True
abbrev pub is_marked : Option Json → Bool
is_marked (some (bool b)) = b
is_marked _ = false

abbrev pub is_binding : Json → Bool
is_binding (obj fs) = is_marked (get "__binding__" fs)
is_binding _ = false

abbrev pub error_entries : Option Problem → List (String × String)
error_entries none = []
error_entries (some e) = ("code", e.code) ∷ ("message", e.message) ∷ []

-- step_result.get(prefix), if that is a dict: all the values of both are texts.
abbrev pub segment : Compact → String → List (String × String)
segment c prefix =
    if prefix == "artifacts"
    then c.artifacts
    else if prefix == "error"
    then error_entries c.error
    else []

-- `_resolve_binding` on the step and the path: the value, if the bound artifact is there.
unfoldable pub resolve_binding : Outputs → (from_step path : String) → Option String
unfolding lookup partition
resolve_binding outputs from_step path = elim (lookup from_step outputs) [
  | none ↦ none
  | some c ↦ lookup (partition path).1 (segment c (partition path).0)
]

abbrev pub requires : (step_id from_step path : String) → String
requires step_id from_step path =
    "step '" ++ˢ (step_id ++ˢ ("' requires " ++ˢ (path ++ˢ (" from " ++ˢ from_step))))

-- The resolved value of a binding and its failure, if it has one.
abbrev pub bound_value : (step_id from_step path : String) → Option String → Json × List String
bound_value step_id from_step path (some t) = (str t, [])
bound_value step_id from_step path none = (null, requires step_id from_step path ∷ [])

module _ (show : Json → String) (outputs : Outputs) (step_id : String) where
  -- binding["from_step"] and binding["path"] raise if the entry is missing.
  abbrev pub bind_value : Option Json → Option Json → Attempt (Json × List String)
  bind_value none path = raised "'from_step'"
  bind_value (some from_step) none = raised "'path'"
  bind_value (some from_step) (some path) = done (
      bound_value step_id (text_of show from_step) (text_of show path)
        (resolve_binding outputs (text_of show from_step) (text_of show path)))

  abbrev pub bind_dict : Bool → Fields → Attempt (Json × List String)
  bind_dict true fs = bind_value (get "from_step" fs) (get "path" fs)
  bind_dict false fs = done (obj fs, [])

  abbrev pub resolve_value : Json → Attempt (Json × List String)
  resolve_value (obj fs) = bind_dict (is_marked (get "__binding__" fs)) fs
  resolve_value v = done (v, [])

  abbrev pub and_rest :
      String
      → Attempt (Json × List String)
      → Attempt (Fields × List String)
      → Attempt (Fields × List String)
  and_rest key (raised e) rest = raised e
  and_rest key (done v) (raised e) = raised e
  and_rest key (done (v, failures)) (done (fs, more)) = done (field key v fs, failures ++ more)

  -- `_resolve_args`: the resolved arguments and the failures.
  unfoldable pub resolve_step_args : Fields → Attempt (Fields × List String)
  unfolding get resolve_binding
  resolve_step_args end = done (end, [])
  resolve_step_args (field key v fs) = and_rest key (resolve_value v) (resolve_step_args fs)
