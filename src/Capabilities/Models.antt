-- ===== src/Capabilities/Models.antt =====
-- Manifests of capabilities, and their validation
-- (backend/python-daemon/orchestrator/capabilities/models.py and schema.py).
use agent_backend.Prelude.{String, Bool, true, false, not, Option, List, [], ◌∷◌, ◌++◌, ◌==◌, elem}
use agent_backend.Json.{Fields}

pub data CapabilityType : Type 0 where
  adapter sandbox_provider indexer pipeline_template integration_provider : CapabilityType

abbrev pub same_type : CapabilityType → CapabilityType → Bool
same_type adapter adapter = true
same_type sandbox_provider sandbox_provider = true
same_type indexer indexer = true
same_type pipeline_template pipeline_template = true
same_type integration_provider integration_provider = true
same_type _ _ = false

pub record CapabilityManifest : Type 0 where
  pub capability_id : String
  pub capability_type : CapabilityType
  pub version : String
  pub name : String
  pub description : String
  pub risk_tier : String
  pub requires_approval : Bool
  pub network_access : Bool
  pub writes_external_state : Bool
  pub metadata : Fields
  pub status : String
  pub source_path : Option String

abbrev pub valid_risk_tiers : List String
valid_risk_tiers = "T1" ∷ "T2" ∷ "T3" ∷ "T4" ∷ "T5" ∷ []

abbrev pub valid_statuses : List String
valid_statuses = "verified" ∷ "quarantined" ∷ "disabled" ∷ []

-- The errors that `validate_capability_manifest` can find in the dict of a manifest, whose fields
-- have the types that are declared above.
pub data ManifestError : Type 0 where
  empty_capability_id unknown_risk_tier unknown_status empty_version : ManifestError

abbrev pub error_if : Bool → ManifestError → List ManifestError
error_if true e = e ∷ []
error_if false e = []

unfoldable pub validate_capability_manifest : CapabilityManifest → List ManifestError
unfolding elem
validate_capability_manifest m =
    error_if (m.capability_id == "") empty_capability_id
    ++ (error_if (not (elem m.risk_tier valid_risk_tiers)) unknown_risk_tier
        ++ (error_if (not (elem m.status valid_statuses)) unknown_status
            ++ error_if (m.version == "") empty_version))
