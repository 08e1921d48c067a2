-- ===== src/Tests/Rules.antt =====
-- The rules on a few tools and commands.
use agent_backend.Prelude.{
  String, ◌≡◌, ◌≢◌, ◌↔◌, Bool, true, false, Option, none, some, if◌then◌else◌, ◌==◌, [], ◌∷◌, elem,
  map,
}
use agent_backend.Json.{Json, str, obj, end, field}
use agent_backend.Policy.Sandbox.{classify_sandbox_request, effective_risk, LetsThrough}
use agent_backend.Policy.Allowed.{classify-allowed_iff}
use agent_backend.Policy.Approval.{
  ApprovalRequirement, evaluate_approval_requirement, evaluate-allowed_iff,
}
use agent_backend.Policy.GitCommands.{
  check_command, subcommand_of, IsReadOnlyGit, check_command-allowed_iff,
}
use agent_backend.Capabilities.Models.{CapabilityManifest, pipeline_template}
use agent_backend.Policy.Capabilities.{
  capability_of, check_pipeline_policy, Passes, check_pipeline_policy_iff,
}
use agent_backend.Policy.Integrations.{
  classify_with, known_integration_types, classify_with-allowed_iff,
}
use agent_backend.Policy.Tools.{
  validate_tool, accepted, raw_shell_tools, allowed_tools, Completes, validate_tool-accepted_iff,
}

-- Text on which `str.lower` changes nothing.
abbrev same : String → String
same s = s

classify-allowed_iff_example :
    ((classify_sandbox_request "mcp_ingest_target" "trusted" none true).allowed ≡ true)
    ↔ LetsThrough (effective_risk "mcp_ingest_target" none) "trusted"
classify-allowed_iff_example = classify-allowed_iff "mcp_ingest_target" "trusted" none true

abbrev web_search : ApprovalRequirement
web_search = record {
  capability_id = "search";
  risk_tier = "T1";
  reason = "";
  requested_action = "";
  writes_files = false;
  network_access = true;
  writes_external_state = false;
}

evaluate-allowed_iff_example : ((evaluate_approval_requirement web_search).allowed ≡ true) ↔ (
    (web_search.risk_tier ≢ "T3")
    × (web_search.risk_tier ≢ "T4")
    × (web_search.network_access ≡ false)
    × (web_search.writes_external_state ≡ false)
    × (web_search.writes_files ≡ false))
evaluate-allowed_iff_example = evaluate-allowed_iff web_search

check_command-allowed_iff_example :
    ((check_command same ("git" ∷ "apply" ∷ "--check" ∷ "--index" ∷ [])).allowed ≡ true) ↔ (
      (same "git" ≡ "git")
      × IsReadOnlyGit
          (subcommand_of (map same ("apply" ∷ "--check" ∷ "--index" ∷ [])))
          (map same ("git" ∷ "apply" ∷ "--check" ∷ "--index" ∷ [])))
check_command-allowed_iff_example =
    check_command-allowed_iff same "git" ("apply" ∷ "--check" ∷ "--index" ∷ [])

abbrev ingest_tool : String
ingest_tool = "mcp_ingest_target"

abbrev allow_no_ingest : Bool
allow_no_ingest = false

abbrev ingest : Json
ingest = obj (field "project_id" (str "p") (field "absolute_path" (str "/x") end))

validate_tool-accepted_iff_example :
    (validate_tool ingest_tool ingest allow_no_ingest ≡ accepted) ↔ (
      (elem ingest_tool raw_shell_tools ≡ false)
      × (elem ingest_tool allowed_tools ≡ true)
      × ((ingest_tool ≡ "mcp_ingest_target") → (allow_no_ingest ≡ true))
      × Completes ingest_tool ingest)
validate_tool-accepted_iff_example = validate_tool-accepted_iff ingest_tool ingest allow_no_ingest

classify_with-allowed_iff_example :
    ((classify_with true "composio" false "trusted").allowed ≡ true)
    ↔ ((elem "composio" known_integration_types ≡ true) × (false ≡ true))
classify_with-allowed_iff_example = classify_with-allowed_iff true "composio" false "trusted"

-- A pipeline of tier T5 that asks for no approval.
abbrev risky : CapabilityManifest
risky = record {
  capability_id = "pipeline.x";
  capability_type = pipeline_template;
  version = "1";
  name = "x";
  description = "";
  risk_tier = "T5";
  requires_approval = false;
  network_access = false;
  writes_external_state = false;
  metadata = end;
  status = "verified";
  source_path = none;
}

abbrev one_capability : String → Option CapabilityManifest
one_capability k = if k == "pipeline.x" then some risky else none

check_pipeline_policy_iff_example :
    (check_pipeline_policy "x" (some one_capability) ≡ none)
    ↔ ((m : CapabilityManifest) → one_capability (capability_of "x") ≡ some m → Passes m)
check_pipeline_policy_iff_example = check_pipeline_policy_iff "x" one_capability
