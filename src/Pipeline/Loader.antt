-- ===== src/Pipeline/Loader.antt =====
-- `PipelineLoader`
-- (backend/python-daemon/orchestrator/pipeline/loader.py).
use Prim.Native.String.{[] as empty, ◌∷◌ as ◌∷ˢ◌}
use agent_backend.Prelude.{
  ℕ, suc, String, Bool, true, false, not, ◌&&◌, Option, none, some, List, [], ◌∷◌, map, ◌==◌, elem,
  if◌then◌else◌, Attempt, done, raised, sorted,
}
use agent_backend.Json.{
  Json, null, bool, num, str, arr, obj, Items, nil, cons, Fields, end, field, get, keys,
}
use agent_backend.Sql.{select}
use agent_backend.Workflow.Compaction.{text_of, get_or}
use agent_backend.Pipeline.Models.{
  Arg, binding, text, nested, other, Args, none_left, arg, PipelineStep, PipelineDefinition,
}
use agent_backend.Pipeline.Names.{
  is_pipeline_id, is_binding_path, active_pipelines, reserved_pipeline_ids,
}

-- What the loader finds in `templates_dir`, by the id of a pipeline, and Python's `str` and `int` of
-- a YAML value. `read` opens the file and parses it; `schema_message` is the text of the first
-- errors of the schema, if there is a schema and there are errors.
pub record Templates : Type 0 where
  pub is_dir : Bool
  pub stems : List String
  pub within : String → Bool
  pub exists : String → Bool
  -- A scalar that JSON lacks, such as a date, stands as a number, with its texts in `show`.
  pub read : String → Attempt Json
  pub schema_message : Json → Option String
  pub show : Json → String
  pub to_int : Json → Attempt ℕ

-- PipelineLoadError, by its message, and the exceptions of Python's own.
pub data LoadError : Type 0 where
  malformed_binding : LoadError
  deep_path : (path : String) → LoadError
  invalid_id reserved_id inactive_id : LoadError
  escapes_directory template_not_found not_a_mapping : LoadError
  schema_failed : (message : String) → LoadError
  missing_fields : List String → LoadError
  no_steps_list : LoadError
  step_not_mapping : ℕ → LoadError
  step_missing : ℕ → List String → LoadError
  python_error : (message : String) → LoadError

pub data Loading (A : Type 0) : Type 0 where
  loaded : A → Loading A
  refused : LoadError → Loading A

infixl 10 ◌>>=◌ ◌>>◌
abbrev pub ◌>>=◌ : {A B : Type 0} → Loading A → (A → Loading B) → Loading B
loaded a >>= f = f a
refused e >>= f = refused e

abbrev pub ◌>>◌ : {B : Type 0} → Loading (Unit {0}) → Loading B → Loading B
m >> k = m >>= λ _. k

abbrev pub require : Bool → LoadError → Loading (Unit {0})
require true e = loaded tt
require false e = refused e

abbrev pub attempt : {A : Type 0} → Attempt A → Loading A
attempt (done a) = loaded a
attempt (raised e) = refused (python_error e)

-- The keys of `required` that the dict does not have.
abbrev pub missing_of : List String → Fields → List String
missing_of required fs = select (λ k. not (elem k (keys fs))) required

abbrev pub require_all : (List String → LoadError) → List String → Loading (Unit {0})
require_all e [] = loaded tt
require_all e (k ∷ ks) = refused (e (k ∷ ks))

-- x.items()
abbrev pub items_of : Json → Loading Fields
items_of (obj fs) = loaded fs
items_of _ = refused (python_error "object has no attribute 'items'")

-- dict(x), but for a list of pairs, which the repository's schema excludes.
abbrev pub dict_from : Json → Loading Fields
dict_from (obj fs) = loaded fs
dict_from _ = refused (python_error "object is not a dict")

abbrev pub characters : String → List Json
characters empty = []
characters (c ∷ˢ s) = str (c ∷ˢ "") ∷ characters s

abbrev pub elements : Items → List Json
elements nil = []
elements (cons v vs) = v ∷ elements vs

-- `for d in x`
abbrev pub iterate : Json → Loading (List Json)
iterate (arr vs) = loaded (elements vs)
iterate (str s) = loaded (characters s)
iterate (obj fs) = loaded (map (λ k. str k) (keys fs))
iterate _ = refused (python_error "object is not iterable")

module _ (t : Templates) where
  abbrev pub bind_path : String → String → Loading Arg
  bind_path from_step path =
      if is_binding_path path then loaded (binding from_step path) else refused (deep_path path)

  abbrev pub bind_entries : Option Json → Option Json → Loading Arg
  bind_entries (some from_step) (some path) =
      bind_path (text_of t.show from_step) (text_of t.show path)
  bind_entries _ _ = refused malformed_binding

  abbrev pub parse_bind : Json → Loading Arg
  parse_bind (obj fs) = bind_entries (get "from_step" fs) (get "path" fs)
  parse_bind _ = refused malformed_binding

  abbrev pub and_field : String → Loading Arg → Loading Args → Loading Args
  and_field k v rest = do v' ← v; rest' ← rest; loaded (arg k v' rest')

  abbrev pub as_nested : Loading Args → Loading Arg
  as_nested m = m >>= λ args. loaded (nested args)

  -- The dict is {"bind": …}.
  abbrev pub only_bind : Fields → Option Json
  only_bind (field k v end) = if k == "bind" then some v else none
  only_bind _ = none

  abbrev pub dict_value : Option Json → Loading Args → Loading Arg
  dict_value (some inner) args = parse_bind inner
  dict_value none args = as_nested args

  -- `_parse_arg_value`
  unfoldable mutual
    unfolding get is_binding_path

    pub parse_arg_value : Json → Loading Arg
    parse_arg_value (obj fs) = dict_value (only_bind fs) (parse_args fs)
    parse_arg_value (str s) = loaded (text s)
    parse_arg_value null = loaded (other null)
    parse_arg_value (bool b) = loaded (other (bool b))
    parse_arg_value (num n) = loaded (other (num n))
    parse_arg_value (arr vs) = loaded (other (arr vs))

    pub parse_args : Fields → Loading Args
    parse_args end = loaded none_left
    parse_args (field k v fs) = and_field k (parse_arg_value v) (parse_args fs)

  abbrev pub texts_of : Fields → List (String × String)
  texts_of end = []
  texts_of (field k v fs) = (k, text_of t.show v) ∷ texts_of fs

  abbrev pub text_at : String → Fields → String
  text_at k fs = text_of t.show (get_or k null fs)

  -- An entry of `steps`; the fields that are not kept are read as well.
  unfoldable pub parse_step : Fields → Loading PipelineStep
  unfolding parse_args get
  parse_step fs = do
    raw_args ← items_of (get_or "args" (obj end) fs)
    args_template ← parse_args raw_args
    outputs ← items_of (get_or "outputs" (obj end) fs)
    depends_on ← iterate (get_or "depends_on" (arr nil) fs)
    iterate (get_or "required_outputs" (arr nil) fs) >>= λ _.
        iterate (get_or "negative_constraints" (arr nil) fs) >>= λ _.
        attempt (t.to_int (get_or "depth" (num 0) fs)) >>= λ _. loaded (record {
          step_id = text_at "step_id" fs;
          tool_name = text_at "tool_name" fs;
          args_template = args_template;
          description = text_at "description" fs;
          depends_on = map (text_of t.show) depends_on;
          outputs = texts_of outputs;
        })

  abbrev pub checked_step : ℕ → Json → Loading PipelineStep
  checked_step i (obj fs) = do
    require_all (step_missing i) (missing_of ("description" ∷ "step_id" ∷ "tool_name" ∷ []) fs)
    parse_step fs
  checked_step i _ = refused (step_not_mapping i)

  unfoldable pub parse_steps : ℕ → Items → Loading (List PipelineStep)
  unfolding parse_step select elem
  parse_steps i nil = loaded []
  parse_steps i (cons v vs) = do
    s ← checked_step i v
    rest ← parse_steps (suc i) vs
    loaded (s ∷ rest)

  abbrev pub steps_list : Json → Loading Items
  steps_list (arr (cons v vs)) = loaded (cons v vs)
  steps_list _ = refused no_steps_list

  -- `_parse`
  unfoldable pub parse : Fields → Loading PipelineDefinition
  unfolding parse_steps
  parse raw = do
    require_all missing_fields (missing_of ("name" ∷ "pipeline_id" ∷ "steps" ∷ "version" ∷ []) raw)
    raw_steps ← steps_list (get_or "steps" null raw)
    steps ← parse_steps 0 raw_steps
    variables ← dict_from (get_or "variables" (obj end) raw)
    max_steps ← attempt (t.to_int (get_or "max_steps" (num 20) raw))
    loaded (record {
      pipeline_id = text_at "pipeline_id" raw;
      version = text_at "version" raw;
      steps = steps;
      variables = texts_of variables;
      max_steps = max_steps;
    })

  abbrev pub schema_passes : Option String → Loading (Unit {0})
  schema_passes none = loaded tt
  schema_passes (some message) = refused (schema_failed message)

  abbrev pub parse_mapping : Json → Loading PipelineDefinition
  parse_mapping (obj raw) = do schema_passes (t.schema_message (obj raw)); parse raw
  parse_mapping _ = refused not_a_mapping

  -- `load_file`, on the file of a pipeline
  unfoldable pub load_file : String → Loading PipelineDefinition
  unfolding parse
  load_file id = do raw ← attempt (t.read id); parse_mapping raw

  unfoldable pub load : String → Loading PipelineDefinition
  unfolding is_pipeline_id elem load_file
  load id = do
    require (is_pipeline_id id) invalid_id
    require (not (elem id reserved_pipeline_ids)) reserved_id
    require (elem id active_pipelines) inactive_id
    require (t.within id) escapes_directory
    require (t.exists id) template_not_found
    load_file id

  unfoldable pub list_templates : List String
  unfolding is_pipeline_id elem sorted select
  list_templates =
      if t.is_dir
      then sorted (select (λ s. is_pipeline_id s && elem s active_pipelines) t.stems)
      else []
