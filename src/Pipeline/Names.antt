-- ===== src/Pipeline/Names.antt =====
-- The ids of pipelines and the paths of bindings that the loader accepts
-- (backend/python-daemon/orchestrator/pipeline/loader.py).
use Prim.Native.Char.{code}
use Prim.Native.String.{[] as empty, ◌∷◌ as ◌∷ˢ◌}
use agent_backend.Prelude.{
  ℕ, String, Bool, true, false, ◌&&◌, ◌||◌, List, [], ◌∷◌, eqb, leb, elem, partition,
}
use agent_backend.Pipeline.Variables.{is_start, is_part}

-- [a-z], and [a-z0-9_]
abbrev pub is_lower : ℕ → Bool
is_lower n = leb b'a' n && leb n b'z'

abbrev pub is_id_part : ℕ → Bool
is_id_part n = is_lower n || ((leb b'0' n && leb n b'9') || eqb n b'_')

unfoldable pub every_char : (ℕ → Bool) → String → Bool
every_char p empty = true
every_char p (c ∷ˢ s) = p (code c) && every_char p s

-- _PIPELINE_ID_RE.fullmatch
unfoldable pub is_pipeline_id : String → Bool
unfolding every_char
is_pipeline_id empty = false
is_pipeline_id (c ∷ˢ s) = is_lower (code c) && every_char is_id_part s

unfoldable pub every_part : String → Bool
every_part empty = true
every_part (c ∷ˢ s) = is_part c && every_part s

-- [A-Za-z_][A-Za-z0-9_]*
unfoldable pub is_identifier : String → Bool
unfolding every_part
is_identifier empty = false
is_identifier (c ∷ˢ s) = is_start c && every_part s

abbrev pub path_prefixes : List String
path_prefixes = "artifacts" ∷ "result" ∷ "error" ∷ "status" ∷ "summary" ∷ []

-- _BINDING_PATH_RE.fullmatch: no prefix has a dot in it.
unfoldable pub is_binding_path : String → Bool
unfolding elem is_identifier partition
is_binding_path path = elem (partition path).0 path_prefixes && is_identifier (partition path).1

abbrev pub active_pipelines : List String
active_pipelines = "investigation" ∷ "patch_plan" ∷ "code_review" ∷ "deep_research" ∷ []

abbrev pub reserved_pipeline_ids : List String
reserved_pipeline_ids =
    "mcp_pipeline_run" ∷ "mcp_agent_workflow_run" ∷ "tools" ∷ "admin" ∷ "debug" ∷ "schema"
    ∷ "examples" ∷ "staging" ∷ []
