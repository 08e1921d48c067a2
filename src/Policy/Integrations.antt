-- ===== src/Policy/Integrations.antt =====
-- `classify_integration_request`
-- (backend/python-daemon/orchestrator/integrations/policy.py and models.py).
use agent_backend.Prelude.{
  String, ◌≡◌, ◌↔◌, Bool, true, false, not, ◌&&◌, List, [], ◌∷◌, arith, elem, if◌then◌else◌,
}

pub data Verdict : Type 0 where
  allow require_approval block : Verdict

pub record IntegrationDecision : Type 0 where
  pub allowed : Bool
  pub verdict : Verdict
  pub risk_tier : String
  pub integration_type : String
  pub dry_run : Bool

abbrev pub known_integration_types : List String
known_integration_types = "composio" ∷ "rube" ∷ []

-- _LIVE_INVOCATIONS_ENABLED
abbrev pub live_invocations_enabled : Bool
live_invocations_enabled = false

-- The body, for either setting. The text of the reason is left out.
unfoldable pub classify_with :
    (live_enabled : Bool) (integration_type : String) (dry_run : Bool) (profile : String)
    → IntegrationDecision
classify_with live_enabled integration_type dry_run profile =
    if not (elem integration_type known_integration_types)
    then record {
      allowed = false;
      verdict = block;
      risk_tier = "UNKNOWN";
      integration_type = integration_type;
      dry_run = dry_run;
    }
    else if not dry_run && not live_enabled
    then record {
      allowed = false;
      verdict = block;
      risk_tier = "T4";
      integration_type = integration_type;
      dry_run = dry_run;
    }
    else if not dry_run
    then record {
      allowed = false;
      verdict = if elem profile ("safe" ∷ "trusted" ∷ []) then require_approval else block;
      risk_tier = "T4";
      integration_type = integration_type;
      dry_run = dry_run;
    }
    else record {
      allowed = true;
      verdict = allow;
      risk_tier = "T2";
      integration_type = integration_type;
      dry_run = true;
    }

unfoldable pub classify_integration_request : String → Bool → String → IntegrationDecision
unfolding classify_with
classify_integration_request integration_type dry_run profile =
    classify_with live_invocations_enabled integration_type dry_run profile

-- Whether live invocations are enabled or not, an integration is allowed exactly when its type is
-- known and it is a dry run; a live one is allowed under no profile.
pub classify_with-allowed_iff :
    (live_enabled : Bool) (integration_type : String) (dry_run : Bool) (profile : String)
    → ((classify_with live_enabled integration_type dry_run profile).allowed ≡ true)
      ↔ ((elem integration_type known_integration_types ≡ true) × (dry_run ≡ true))
unfolding classify_with
classify_with-allowed_iff live_enabled integration_type dry_run profile =
    (λ h. (ground arith, ground arith), λ h. ground (arith, h.0, h.1))
