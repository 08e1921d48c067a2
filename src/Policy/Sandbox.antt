-- ===== src/Policy/Sandbox.antt =====
-- `classify_sandbox_request`
-- (backend/python-daemon/orchestrator/sandbox/policy.py).
use agent_backend.Prelude.{
  String, ◌≡◌, ◌⊎◌, Bool, true, false, Option, none, some, List, [], ◌∷◌, lookup, if◌then◌else◌,
  is_none,
}

pub data Verdict : Type 0 where
  allow read_only require_approval block : Verdict

abbrev pub Profiles : Type 0
Profiles = List (String × Verdict)

abbrev pub verdict_table : List (String × Profiles)
verdict_table =
    ("read_only", ("safe", allow) ∷ ("trusted", allow) ∷ [])
    ∷ ("write_memory", ("safe", allow) ∷ ("trusted", allow) ∷ [])
    ∷ ("write_files", ("safe", require_approval) ∷ ("trusted", allow) ∷ [])
    ∷ ("admin", ("safe", block) ∷ ("trusted", require_approval) ∷ [])
    ∷ []

abbrev pub known_risk_levels : List (String × String)
known_risk_levels =
    ("mcp_agent_workflow_run", "read_only")
    ∷ ("mcp_code_intelligence", "read_only")
    ∷ ("mcp_commit_memory", "write_memory")
    ∷ ("mcp_extract_image", "read_only")
    ∷ ("mcp_get_active_partition", "read_only")
    ∷ ("mcp_ingest_target", "write_files")
    ∷ ("mcp_investigation_compile_handoff", "read_only")
    ∷ ("mcp_investigation_filemap", "read_only")
    ∷ ("mcp_investigation_read_report", "read_only")
    ∷ ("mcp_investigation_start", "read_only")
    ∷ ("mcp_investigation_validate_manifest", "read_only")
    ∷ ("mcp_list_capabilities", "read_only")
    ∷ ("mcp_list_memory_projects", "read_only")
    ∷ ("mcp_sandbox_probe", "read_only")
    ∷ ("mcp_scout_workspace", "read_only")
    ∷ ("mcp_semantic_search", "read_only")
    ∷ ("mcp_semantic_search_active", "read_only")
    ∷ ("mcp_set_active_partition", "write_memory")
    ∷ ("mcp_set_active_project_manual", "admin")
    ∷ ("mcp_verify_integrity", "read_only")
    ∷ ("mcp_deep_research", "read_only")
    ∷ ("mcp_integration_invoke", "write_files")
    ∷ []

abbrev pub risk_tiers : List (String × String)
risk_tiers =
    ("read_only", "T1") ∷ ("write_memory", "T2") ∷ ("write_files", "T3") ∷ ("admin", "T4") ∷ []

-- The f-string that explains the verdict, by its parts.
pub data Reason : Type 0 where
  unknown_tool : String → Reason
  unknown_risk_level : String → Reason
  verdict_under : Verdict → (risk profile : String) → Reason

pub record SandboxDecision : Type 0 where
  pub verdict : Verdict
  pub reason : Reason
  pub risk_tier : String
  pub tool_name : String
  pub requires_root : Bool
  pub allowed : Bool

abbrev pub is_allow : Verdict → Bool
is_allow allow = true
is_allow _ = false

abbrev or_else : {A : Type 0} → Option A → A → A
or_else none a = a
or_else (some b) a = b

-- profile_verdicts[effective_profile]: an unknown profile counts as "safe". Every row of the table
-- has both profiles, so that the lookup does not fail; `block` stands for its KeyError.
unfoldable pub effective_profile : String → Profiles → String
unfolding lookup
effective_profile profile verdicts = if is_none (lookup profile verdicts) then "safe" else profile

unfoldable pub verdict_for : String → Profiles → Verdict
unfolding lookup effective_profile
verdict_for profile verdicts = or_else (lookup (effective_profile profile verdicts) verdicts) block

abbrev pub blocked : Reason → String → Bool → SandboxDecision
blocked reason tool_name requires_root = record {
  verdict = block;
  reason = reason;
  risk_tier = "UNKNOWN";
  tool_name = tool_name;
  requires_root = requires_root;
  allowed = false;
}

abbrev pub decided : String → String → Profiles → String → Bool → SandboxDecision
decided risk profile verdicts tool_name requires_root = record {
  verdict = verdict_for profile verdicts;
  reason = verdict_under (verdict_for profile verdicts) risk (effective_profile profile verdicts);
  risk_tier = or_else (lookup risk risk_tiers) "UNKNOWN";
  tool_name = tool_name;
  requires_root = requires_root;
  allowed = is_allow (verdict_for profile verdicts);
}

-- `risk_level` overrides the table of tools.
unfoldable pub effective_risk : String → Option String → Option String
unfolding lookup
effective_risk tool_name none = lookup tool_name known_risk_levels
effective_risk tool_name (some risk) = some risk

unfoldable pub classify_sandbox_request : String → String → Option String → Bool → SandboxDecision
unfolding effective_risk lookup verdict_for
classify_sandbox_request tool_name profile risk_level requires_root =
    elim (effective_risk tool_name risk_level) [
      | none ↦ blocked (unknown_tool tool_name) tool_name requires_root
      | some risk ↦ elim (lookup risk verdict_table) [
        | none ↦ blocked (unknown_risk_level risk) tool_name requires_root
        | some verdicts ↦ decided risk profile verdicts tool_name requires_root
      ]
    ]

-- Which effective risk is let through: reading and memory always, files under "trusted" only.
abbrev pub LetsThrough : Option String → String → Type 0
LetsThrough none profile = ⊥
LetsThrough (some risk) profile =
    (risk ≡ "read_only")
    ⊎ ((risk ≡ "write_memory") ⊎ ((risk ≡ "write_files") × (profile ≡ "trusted")))
