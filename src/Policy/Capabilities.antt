-- ===== src/Policy/Capabilities.antt =====
-- `enforce_capability_policy` and `check_pipeline_policy`
-- (backend/python-daemon/orchestrator/capabilities/policy.py).
use Prim.Native.String.{◌++◌ as ◌++ˢ◌}
use agent_backend.Prelude.{
  String, ◌≡◌, ◌≢◌, ◌↔◌, refl, true, not, ◌&&◌, Option, none, some, List, [], ◌∷◌, arith, ◌==◌,
  eq_iff, elem, any, if◌then◌else◌, Option-cases, inl, inr, subst,
}
use agent_backend.Capabilities.Models.{CapabilityManifest}

-- CapabilityPolicyError, by its message.
pub data PolicyError : Type 0 where
  quarantined disabled : (capability_id : String) → PolicyError
  tier_needs_approval : (capability_id risk_tier : String) → PolicyError
  external_needs_approval : (capability_id : String) → PolicyError

abbrev pub risk_tier_requires_approval : List String
risk_tier_requires_approval = "T3" ∷ "T4" ∷ "T5" ∷ []

-- The error that is raised, if any.
unfoldable pub enforce_capability_policy : CapabilityManifest → Option PolicyError
unfolding elem any
enforce_capability_policy m =
    if m.status == "quarantined"
    then some (quarantined m.capability_id)
    else if m.status == "disabled"
    then some (disabled m.capability_id)
    else if elem m.risk_tier risk_tier_requires_approval && not m.requires_approval
    then some (tier_needs_approval m.capability_id m.risk_tier)
    else if m.writes_external_state && not m.requires_approval
    then some (external_needs_approval m.capability_id)
    else none

abbrev pub capability_of : String → String
capability_of pipeline_id = "pipeline." ++ˢ pipeline_id

-- `registry` is `registry.get`, or `none` if there is no registry.
unfoldable pub check_pipeline_policy :
    (pipeline_id : String) → Option (String → Option CapabilityManifest) → Option PolicyError
unfolding enforce_capability_policy
check_pipeline_policy pipeline_id none = none
check_pipeline_policy pipeline_id (some registry) = elim (registry (capability_of pipeline_id)) [
  | none ↦ none
  | some manifest ↦ enforce_capability_policy manifest
]

-- A capability that the policy lets pass.
pub record Passes (m : CapabilityManifest) : Type 0 where
  pub not_quarantined : m.status ≢ "quarantined"
  pub not_disabled : m.status ≢ "disabled"
  pub risky_asks : elem m.risk_tier risk_tier_requires_approval ≡ true → m.requires_approval ≡ true
  pub external_asks : m.writes_external_state ≡ true → m.requires_approval ≡ true

enforce_iff : (m : CapabilityManifest) → (enforce_capability_policy m ≡ none) ↔ Passes m
unfolding enforce_capability_policy
enforce_iff m = (
  λ h. record {
    not_quarantined = ground (arith, eq_iff m.status "quarantined");
    not_disabled = ground (arith, eq_iff m.status "disabled");
    risky_asks = λ e. ground arith;
    external_asks = λ e. ground arith;
  },
  λ p. ground (
    arith,
    p.not_quarantined,
    p.not_disabled,
    p.risky_asks,
    p.external_asks,
    eq_iff m.status "quarantined",
    eq_iff m.status "disabled",
  ),
)

-- With a registry a pipeline is blocked exactly when the registry knows it and its manifest does
-- not pass: it is quarantined or disabled, or it asks for no approval although its tier is T3, T4
-- or T5 or it writes external state.
pub check_pipeline_policy_iff :
    (pipeline_id : String) (registry : String → Option CapabilityManifest)
    → (check_pipeline_policy pipeline_id (some registry) ≡ none)
      ↔ ((m : CapabilityManifest) → registry (capability_of pipeline_id) ≡ some m → Passes m)
unfolding check_pipeline_policy
check_pipeline_policy_iff pipeline_id registry =
    elim (Option-cases (registry (capability_of pipeline_id))) [
      | inl e ↦ ((λ h m found. absurd (cc)), (λ h. rw (e, check_pipeline_policy) refl))
      | inr (n, e) ↦ (
        (λ h m found.
            let same : n ≡ m = cc in
            subst Passes same ((enforce_iff n).0 (rw (e, check_pipeline_policy) at h))),
        (λ h. rw (e, check_pipeline_policy) ((enforce_iff n).1 (h n e))),
      )
    ]
