-- ===== src/Tests/Pipelines.antt =====
-- A pipeline of two steps.
use agent_backend.Prelude.{String, ◌≡◌, ◌↔◌, refl, true, none, [], ◌∷◌, elem}
use Prim.Native.String.{◌++◌ as ◌++ˢ◌}
use agent_backend.Json.{bool}
use agent_backend.Pipeline.Variables.{pieces, variables, occurrence}
use agent_backend.Pipeline.Scanning.{variables_iff}
use agent_backend.Pipeline.Models.{
  none_left, arg, binding, text, nested, other, PipelineStep, PipelineDefinition, CompiledPlan,
  done, failed, unresolved,
}
use agent_backend.Pipeline.Compiler.{compile}

-- The second step is listed first, and takes its input from the first.
abbrev report : PipelineStep
report = record {
  step_id = "report";
  tool_name = "write";
  args_template = arg "input" (binding "search" "artifacts.path") none_left;
  description = "Report";
  depends_on = "search" ∷ [];
  outputs = [];
}

abbrev search : PipelineStep
search = record {
  step_id = "search";
  tool_name = "find";
  args_template = arg "query" (text "all of ${topic}") none_left;
  description = "Search";
  depends_on = [];
  outputs = [];
}

abbrev survey : PipelineDefinition
survey = record {
  pipeline_id = "survey";
  version = "1";
  steps = report ∷ search ∷ [];
  variables = ("topic", "nothing") ∷ [];
  max_steps = 20;
}

abbrev plan : CompiledPlan
plan = record {
  pipeline_id = "survey";
  version = "1";
  todos =
      record {
        id = "search";
        description = "Search";
        tool_name = "find";
        args = arg "query" (text "all of birds") none_left;
        outputs = [];
      }
      ∷ record {
        id = "report";
        description = "Report";
        tool_name = "write";
        args =
            arg "input"
              (nested (
                arg "__binding__" (other (bool true))
                  (arg "from_step" (text "search") (arg "path" (text "artifacts.path") none_left))))
              none_left;
        outputs = [];
      }
      ∷ [];
}

-- A value may bring in a variable of its own, which is then unresolved.
survey_unresolved :
    compile none survey (("topic", "${bird}") ∷ []) ≡ failed (unresolved "search" ("bird" ∷ []))
unfolding compile
survey_unresolved = refl

-- A binding inside a dict is not looked at: it may refer to a step that is not there.
hidden_binding :
    (plan : CompiledPlan) × (compile none
        (record survey {
          steps =
              record search {
                args_template =
                    arg "in" (nested (arg "x" (binding "nowhere" "p") none_left)) none_left;
              }
              ∷ [];
        })
        []
      ≡ done plan)
unfolding compile
hidden_binding = (_, refl)

variables_iff_example :
    (elem "topic" (variables (pieces "all of ${topic}")) ≡ true)
    ↔ ((before after : String) × ("all of ${topic}" ≡ before ++ˢ (occurrence "topic" ++ˢ after)))
variables_iff_example = variables_iff "topic" "all of ${topic}" refl
