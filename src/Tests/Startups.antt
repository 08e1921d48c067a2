-- ===== src/Tests/Startups.antt =====
-- A directory with one good template and one that is no mapping.
use agent_backend.Prelude.{
  ℕ, String, ◌≡◌, ◌≢◌, ◌↔◌, refl, Bool, true, false, none, some, List, [], ◌∷◌, ◌==◌, elem, Attempt,
  done, raised, if◌then◌else◌,
}
use agent_backend.Workflow.Compaction.{text_of, get_or}
use agent_backend.Json.{Json, get, null, num, str, arr, obj, nil, cons, Fields, end, field}
use agent_backend.Store.Schema.{Time}
use agent_backend.Pipeline.Models.{PipelineDefinition, arg, text, none_left}
use agent_backend.Pipeline.Loader.{Templates, loaded, load, list_templates}
use agent_backend.Pipeline.Loading.{IsLoadable, load-IsLoadable}
use agent_backend.Policy.Capabilities.{capability_of, check_pipeline_policy}
use agent_backend.Capabilities.Registry.{Row, get_capability}
use agent_backend.Capabilities.Loader.{
  Messages, check_raw, check_template, Import, finished, import_pipeline_templates,
}
use agent_backend.Capabilities.Startup.{StartsUp, IsStorable, import-policy}

abbrev one_step : Fields
one_step = field "step_id" (str "a") (
    field "tool_name" (str "mcp_x") (
      field "description" (str "look")
        (field "args" (obj (field "goal" (str "${objective}") end)) end)))

abbrev template : Fields
template = field "pipeline_id" (str "investigation") (
    field "version" (str "1")
      (field "name" (str "look") (field "steps" (arr (cons (obj one_step) nil)) end)))

abbrev int_of : Json → Attempt ℕ
int_of (num n) = done n
int_of _ = raised "no number"

abbrev two_templates : Templates
two_templates = record {
  is_dir = true;
  stems = "investigation" ∷ "patch_plan" ∷ [];
  within = λ id. true;
  exists = λ id. true;
  read = λ id. done (if id == "investigation" then obj template else null);
  schema_message = λ v. none;
  show = λ v. "None";
  to_int = int_of;
}

abbrev plain_messages : Messages
plain_messages = record {
  dumps_error = λ m. none;
  load_message = λ e. "load";
  compile_message = λ e. "compile";
}

abbrev investigation : PipelineDefinition
investigation = record {
  pipeline_id = "investigation";
  version = "1";
  steps =
      record {
        step_id = "a";
        tool_name = "mcp_x";
        args_template = arg "goal" (text "${objective}") none_left;
        description = "look";
        depends_on = [];
        outputs = [];
      }
      ∷ [];
  variables = [];
  max_steps = 20;
}

loads_investigation : load two_templates "investigation" ≡ loaded investigation
unfolding load agent_backend.Json.keys
loads_investigation = refl

load-IsLoadable_example : IsLoadable two_templates "investigation" investigation
load-IsLoadable_example =
    load-IsLoadable two_templates "investigation" investigation loads_investigation

abbrev at_start : String → Time
at_start id = 7

raw_version :
    (id : String) (b : Bool)
    → text_of two_templates.show (
        get_or "version"
          (str "0.0.0")
          (check_raw two_templates plain_messages none id
            (done (if b then obj template else null))).raw)
      ≢ ""
unfolding get
raw_version id true e = absurd (cc (e))
raw_version id false e = absurd (cc (e))

versions :
    (id : String)
    → elem id (list_templates two_templates) ≡ true
    → IsStorable two_templates plain_messages none id
versions id m = ((unfold check_template in raw_version id (id == "investigation")), refl)

import-policy_example :
    (i : Import) × (rows' : List Row) × (import_pipeline_templates two_templates plain_messages none
        at_start []
      ≡ (finished i, rows'))
    × ((id : String)
        → elem id (list_templates two_templates) ≡ true
        → true ≡ true
        → (check_pipeline_policy id (some (λ k. get_capability k rows')) ≡ none)
          ↔ StartsUp two_templates plain_messages none id)
    × ((k : String)
        → ((id : String) → elem id (list_templates two_templates) ≡ true → capability_of id ≢ k)
        → get_capability k rows' ≡ get_capability k [])
import-policy_example = import-policy two_templates plain_messages none at_start [] refl versions
