-- ===== src/Pipeline/Loading.antt =====
-- What a pipeline that has been loaded is like.
use agent_backend.Prelude.{
  ℕ, suc, String, ◌≡◌, refl, Bool, true, false, not, List, [], ◌∷◌, elem, All, arith,
}
use agent_backend.Json.{Json, null, bool, num, str, arr, obj, Items, nil, cons, Fields, end}
use agent_backend.Workflow.Compaction.{get_or}
use agent_backend.Pipeline.Models.{PipelineStep, PipelineDefinition}
use agent_backend.Pipeline.Names.{is_pipeline_id, active_pipelines, reserved_pipeline_ids}
use agent_backend.Pipeline.Loader.{
  Templates, LoadError, Loading, loaded, ◌>>=◌, require, require_all, attempt, iterate, items_of,
  step_missing, missing_fields, missing_of, schema_passes, dict_from, invalid_id, reserved_id,
  inactive_id, escapes_directory, template_not_found, parse_args, parse_step, checked_step,
  parse_steps, steps_list, parse, parse_mapping, load_file, load,
}
use agent_backend.Pipeline.Shallow.{
  ArgsAreShallow, Gives, Gives-loaded, Gives-refused, Gives-bind, Gives-after,
  parse_args-AreShallow,
}

module _ (t : Templates) where
  abbrev StepIsShallow : PipelineStep → Type 0
  StepIsShallow s = ArgsAreShallow s.args_template

  parse_step-IsShallow : (fs : Fields) → Gives StepIsShallow (parse_step t fs)
  unfolding parse_step
  parse_step-IsShallow fs =
      Gives-after StepIsShallow (items_of (get_or "args" (obj end) fs)) _ (λ raw_args.
        Gives-bind ArgsAreShallow StepIsShallow (parse_args t raw_args) _
          (parse_args-AreShallow t raw_args)
          (λ args p.
            Gives-after StepIsShallow (items_of (get_or "outputs" (obj end) fs)) _ (λ outputs.
              Gives-after StepIsShallow (iterate (get_or "depends_on" (arr nil) fs)) _
                (λ depends_on.
                  Gives-after StepIsShallow (iterate (get_or "required_outputs" (arr nil) fs)) _
                    (λ r.
                      Gives-after StepIsShallow
                        (iterate (get_or "negative_constraints" (arr nil) fs)) _
                        (λ c.
                          Gives-after StepIsShallow (attempt (t.to_int (get_or "depth" (num 0) fs)))
                            _ (λ depth. Gives-loaded StepIsShallow _ p)))))))

  checked_step-IsShallow : (i : ℕ) (v : Json) → Gives StepIsShallow (checked_step t i v)
  checked_step-IsShallow i (obj fs) =
      Gives-after StepIsShallow
        (require_all (step_missing i)
          (missing_of ("description" ∷ "step_id" ∷ "tool_name" ∷ []) fs))
        _ (λ u. parse_step-IsShallow fs)
  checked_step-IsShallow i null = Gives-refused StepIsShallow _
  checked_step-IsShallow i (bool b) = Gives-refused StepIsShallow _
  checked_step-IsShallow i (num n) = Gives-refused StepIsShallow _
  checked_step-IsShallow i (str s) = Gives-refused StepIsShallow _
  checked_step-IsShallow i (arr vs) = Gives-refused StepIsShallow _

  abbrev StepsAreShallow : List PipelineStep → Type 0
  StepsAreShallow ss = All StepIsShallow ss

  parse_steps-AreShallow : (i : ℕ) (vs : Items) → Gives StepsAreShallow (parse_steps t i vs)
  unfolding parse_steps
  parse_steps-AreShallow i nil = Gives-loaded StepsAreShallow [] tt
  parse_steps-AreShallow i (cons v vs) =
      Gives-bind StepIsShallow StepsAreShallow (checked_step t i v) _ (checked_step-IsShallow i v)
        (λ s p.
          Gives-bind StepsAreShallow StepsAreShallow (parse_steps t (suc i) vs) _
            (parse_steps-AreShallow (suc i) vs)
            (λ ss ps. Gives-loaded StepsAreShallow (s ∷ ss) (p, ps)))

  abbrev BindsShallowly : PipelineDefinition → Type 0
  BindsShallowly d = StepsAreShallow d.steps

  parse-IsShallow : (raw : Fields) → Gives BindsShallowly (parse t raw)
  unfolding parse
  parse-IsShallow raw =
      Gives-after BindsShallowly
        (require_all missing_fields
          (missing_of ("name" ∷ "pipeline_id" ∷ "steps" ∷ "version" ∷ []) raw))
        _
        (λ u. Gives-after BindsShallowly (steps_list t (get_or "steps" null raw)) _ (λ raw_steps.
          Gives-bind StepsAreShallow BindsShallowly (parse_steps t 0 raw_steps) _
            (parse_steps-AreShallow 0 raw_steps)
            (λ steps p.
              Gives-after BindsShallowly (dict_from (get_or "variables" (obj end) raw)) _
                (λ variables.
                  Gives-after BindsShallowly (attempt (t.to_int (get_or "max_steps" (num 20) raw)))
                    _ (λ max_steps. Gives-loaded BindsShallowly _ p)))))

  parse_mapping-IsShallow : (v : Json) → Gives BindsShallowly (parse_mapping t v)
  parse_mapping-IsShallow (obj raw) =
      Gives-after BindsShallowly (schema_passes t (t.schema_message (obj raw))) _
        (λ u. parse-IsShallow raw)
  parse_mapping-IsShallow null = Gives-refused BindsShallowly _
  parse_mapping-IsShallow (bool b) = Gives-refused BindsShallowly _
  parse_mapping-IsShallow (num n) = Gives-refused BindsShallowly _
  parse_mapping-IsShallow (str s) = Gives-refused BindsShallowly _
  parse_mapping-IsShallow (arr vs) = Gives-refused BindsShallowly _

  load_file-IsShallow : (id : String) → Gives BindsShallowly (load_file t id)
  unfolding load_file
  load_file-IsShallow id =
      Gives-after BindsShallowly (attempt (t.read id)) _ (λ raw. parse_mapping-IsShallow raw)

  -- What `load` guarantees of a definition.
  pub record IsLoadable (id : String) (d : PipelineDefinition) : Type 0 where
    pub named : is_pipeline_id id ≡ true
    pub free : elem id reserved_pipeline_ids ≡ false
    pub listed : elem id active_pipelines ≡ true
    pub inside_directory : t.within id ≡ true
    pub shallow : StepsAreShallow d.steps

  Gives-require :
      {B : Type 0} (Q : B → Type 0) (b : Bool) (e : LoadError) (m : Loading B)
      → (b ≡ true → Gives Q m)
      → Gives Q (require b e >>= λ u. m)
  Gives-require Q true e m q = q refl
  Gives-require Q false e m q = Gives-refused Q e

  load-Gives : (id : String) → Gives (IsLoadable id) (load t id)
  unfolding load
  load-Gives id = Gives-require (IsLoadable id) (is_pipeline_id id) invalid_id _ (λ n.
      Gives-require (IsLoadable id) (not (elem id reserved_pipeline_ids)) reserved_id _ (λ f.
        Gives-require (IsLoadable id) (elem id active_pipelines) inactive_id _ (λ a.
          Gives-require (IsLoadable id) (t.within id) escapes_directory _ (λ w.
            Gives-require (IsLoadable id) (t.exists id) template_not_found _ (λ x. record {
              given = λ d h. record {
                named = n;
                free = ground (arith, f);
                listed = a;
                inside_directory = w;
                shallow = (load_file-IsShallow id).given d h;
              };
            })))))

  -- A pipeline is loaded only under an id of lower-case letters, digits and underscores that is one
  -- of the active ones and not reserved, from a file inside the directory of the templates; and
  -- every binding in the arguments of its steps, at any depth, has a path of one of the five
  -- prefixes, a dot and an identifier.
  pub load-IsLoadable :
      (id : String) (d : PipelineDefinition) → load t id ≡ loaded d → IsLoadable id d
  load-IsLoadable id d h = (load-Gives id).given d h
