-- ===== src/Policy/Tools.antt =====
-- `validate_tool` (backend/python-daemon/orchestrator/agent_workflow/policies.py).
use agent_backend.Prelude.{
  String, ◌≡◌, ◌↔◌, refl, inl, inr, Bool, true, false, not, ◌&&◌, Option, none, some, List, [], ◌∷◌,
  arith, ◌==◌, eq_iff, elem, lookup, if◌then◌else◌, Bool-cases, All,
}
use agent_backend.Json.{Json, Fields, obj, keys}

abbrev pub allowed_tools : List String
allowed_tools =
    "mcp_agent_workflow_run" ∷ "mcp_commit_memory" ∷ "mcp_extract_image"
    ∷ "mcp_get_active_partition" ∷ "mcp_ingest_target" ∷ "mcp_investigation_compile_handoff"
    ∷ "mcp_investigation_filemap" ∷ "mcp_investigation_read_report" ∷ "mcp_investigation_start"
    ∷ "mcp_investigation_validate_manifest" ∷ "mcp_code_intelligence" ∷ "mcp_list_capabilities"
    ∷ "mcp_list_memory_projects" ∷ "mcp_scout_workspace" ∷ "mcp_semantic_search"
    ∷ "mcp_semantic_search_active" ∷ "mcp_set_active_partition" ∷ "mcp_integration_invoke"
    ∷ "mcp_sandbox_probe" ∷ "mcp_set_active_project_manual" ∷ "mcp_verify_integrity"
    ∷ "mcp_deep_research" ∷ []

abbrev pub raw_shell_tools : List String
raw_shell_tools = "sh" ∷ "bash" ∷ "shell" ∷ "exec" ∷ "python" ∷ []

abbrev pub required_args : List (String × List String)
required_args =
    ("mcp_agent_workflow_run", "objective" ∷ "target_repo" ∷ [])
    ∷ ("mcp_commit_memory", "category" ∷ "content" ∷ [])
    ∷ ("mcp_ingest_target", "project_id" ∷ "absolute_path" ∷ [])
    ∷ ("mcp_investigation_compile_handoff", "session_path" ∷ [])
    ∷ ("mcp_investigation_filemap", "session_path" ∷ [])
    ∷ ("mcp_investigation_read_report", "session_path" ∷ "artifact_key" ∷ [])
    ∷ ("mcp_investigation_start", "objective" ∷ "target_repo" ∷ [])
    ∷ ("mcp_investigation_validate_manifest", "session_path" ∷ [])
    ∷ ("mcp_code_intelligence", "target_repo" ∷ "mode" ∷ [])
    ∷ ("mcp_semantic_search", "project_id" ∷ "query" ∷ [])
    ∷ ("mcp_semantic_search_active", "query" ∷ [])
    ∷ ("mcp_set_active_partition", "conversation_path" ∷ [])
    ∷ ("mcp_integration_invoke", "integration_type" ∷ "action" ∷ [])
    ∷ ("mcp_sandbox_probe", "path" ∷ "operation" ∷ [])
    ∷ ("mcp_set_active_project_manual", "project_id" ∷ [])
    ∷ ("mcp_scout_workspace", "project_id" ∷ "absolute_path" ∷ [])
    ∷ ("mcp_verify_integrity", "absolute_path" ∷ "expected_sha256" ∷ "expected_metadata_hash" ∷ [])
    ∷ ("mcp_deep_research", "query" ∷ [])
    ∷ []

pub data Verdict : Type 0 where
  accepted : Verdict
  raw_shell not_allowlisted : String → Verdict
  not_an_object ingest_blocked : Verdict
  missing : List String → Verdict

-- REQUIRED_ARGS.get(tool_name, ())
unfoldable pub required_of : String → List String
unfolding lookup
required_of tool_name = elim (lookup tool_name required_args) [ none ↦ [] | some names ↦ names ]

unfoldable pub missing_args : List String → Fields → List String
unfolding elem keys
missing_args [] args = []
missing_args (name ∷ names) args =
    let rest = missing_args names args in if elem name (keys args) then rest else name ∷ rest

abbrev checked : String → Fields → Verdict
checked tool_name args = elim (missing_args (required_of tool_name) args) [
  | [] ↦ accepted
  | name ∷ names ↦ missing (name ∷ names)
]

abbrev as_object : Json → Option Fields
as_object (obj fields) = some fields
as_object _ = none

unfoldable pub validate_tool : String → Json → Bool → Verdict
validate_tool tool_name args allow_ingest =
    if elem tool_name raw_shell_tools
    then raw_shell tool_name
    else if not (elem tool_name allowed_tools)
    then not_allowlisted tool_name
    else elim (as_object args) [
      | none ↦ not_an_object
      | some fields ↦
          if tool_name == "mcp_ingest_target" && not allow_ingest
          then ingest_blocked
          else checked tool_name fields
    ]

-- Every name of the list is a key of the arguments.
abbrev pub HasAll : List String → Fields → Type 0
HasAll names args = All (λ name. elem name (keys args) ≡ true) names

missing_args-nil :
    (names : List String) (args : Fields) → (missing_args names args ≡ []) ↔ HasAll names args
unfolding missing_args
missing_args-nil [] args = ((λ h. tt), (λ h. refl))
missing_args-nil (name ∷ names) args =
    let (to, from) = missing_args-nil names args in
    elim (Bool-cases (elem name (keys args))) [
      | inl e ↦ ((λ h. (e, to (ground (arith, e)))), (λ h. ground (arith, e, from h.1)))
      | inr e ↦ ((λ h. absurd (ground (arith, e))), (λ h. absurd (ground (arith, e))))
    ]

-- The arguments are an object with every required key.
abbrev pub Completes : String → Json → Type 0
Completes tool_name args =
    (fields : Fields) × (args ≡ obj fields) × HasAll (required_of tool_name) fields

checked-accepted :
    (tool_name : String) (args : Fields)
    → checked tool_name args ≡ accepted
    → HasAll (required_of tool_name) args
checked-accepted tool_name args h = (missing_args-nil (required_of tool_name) args).0 (ground arith)

accepted-object :
    (tool_name : String) (args : Json) (allow_ingest : Bool)
    → validate_tool tool_name args allow_ingest ≡ accepted
    → Completes tool_name args
unfolding validate_tool
accepted-object tool_name (obj fields) allow_ingest h =
    (fields, refl, checked-accepted tool_name fields (ground arith))
accepted-object tool_name _ allow_ingest h = absurd (ground arith)

-- A call is accepted exactly when its tool is in the list, its arguments are an object that has
-- every required key, and an ingestion has been permitted.
pub validate_tool-accepted_iff :
    (tool_name : String) (args : Json) (allow_ingest : Bool)
    → (validate_tool tool_name args allow_ingest ≡ accepted) ↔ (
        (elem tool_name raw_shell_tools ≡ false)
        × (elem tool_name allowed_tools ≡ true)
        × ((tool_name ≡ "mcp_ingest_target") → (allow_ingest ≡ true))
        × Completes tool_name args)
unfolding validate_tool
validate_tool-accepted_iff tool_name args allow_ingest = (
  λ h. (
    ground arith,
    ground arith,
    (λ e. ground (arith, eq_iff tool_name "mcp_ingest_target")),
    accepted-object tool_name args allow_ingest h,
  ),
  λ h.
      let (fields, is, all) = h.3 in
      let none_missing = (missing_args-nil (required_of tool_name) fields).1 all in
      ground (arith, h.0, h.1, h.2, is, none_missing, eq_iff tool_name "mcp_ingest_target"),
)
