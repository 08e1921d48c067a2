-- ===== src/Policy/Approval.antt =====
-- `evaluate_approval_requirement` and its receipt
-- (backend/python-daemon/orchestrator/approvals/policy.py and models.py).
use agent_backend.Prelude.{
  String, ◌≡◌, ◌≢◌, ◌↔◌, Bool, true, false, not, ◌&&◌, Option, none, some, List, [], ◌∷◌, arith,
  eq_iff, elem, any, if◌then◌else◌,
}

pub data ApprovalStatus : Type 0 where
  approved pending_approval policy_block not_required : ApprovalStatus

pub record ApprovalRequirement : Type 0 where
  pub capability_id : String
  pub risk_tier : String
  pub reason : String
  pub requested_action : String
  pub writes_files : Bool
  pub network_access : Bool
  pub writes_external_state : Bool

-- Why approval is needed; `no_need` is the text of the decision that needs none.
pub data Why : Type 0 where
  tier : String → Why
  network external_state files no_need : Why

pub record ApprovalDecision : Type 0 where
  pub allowed : Bool
  pub status : ApprovalStatus
  pub reason : Why
  pub approval_id : Option String

pub record ApprovalReceipt : Type 0 where
  pub capability_id : String
  pub status : ApprovalStatus
  pub allowed : Bool
  pub reason : Why
  pub approval_id : Option String
  pub risk_tier : String

abbrev pub approval_required_tiers : List String
approval_required_tiers = "T3" ∷ "T4" ∷ []

-- _NETWORK_ALLOWLIST, which is empty.
abbrev pub network_allowlist : List String
network_allowlist = []

unfoldable pub needs_approval : ApprovalRequirement → Option Why
unfolding elem any
needs_approval req =
    if elem req.risk_tier approval_required_tiers
    then some (tier req.risk_tier)
    else if req.network_access && not (elem req.capability_id network_allowlist)
    then some network
    else if req.writes_external_state
    then some external_state
    else if req.writes_files
    then some files
    else none

unfoldable pub evaluate_approval_requirement : ApprovalRequirement → ApprovalDecision
unfolding needs_approval
evaluate_approval_requirement req = elim (needs_approval req) [
  | none ↦ record { allowed = true; status = not_required; reason = no_need; approval_id = none }
  | some why ↦ record {
    allowed = false;
    status = pending_approval;
    reason = why;
    approval_id = none;
  }
]

unfoldable pub build_approval_receipt : ApprovalRequirement → ApprovalDecision → ApprovalReceipt
build_approval_receipt req decision = record {
  capability_id = req.capability_id;
  status = decision.status;
  allowed = decision.allowed;
  reason = decision.reason;
  approval_id = decision.approval_id;
  risk_tier = req.risk_tier;
}

-- A capability goes ahead without a person exactly when its tier is neither T3 nor T4 and it
-- neither uses the network nor writes files or external state. Every other text counts as a tier
-- that needs no approval, also "T5", where the docstring says that tiers from T3 on are held.
pub evaluate-allowed_iff :
    (req : ApprovalRequirement)
    → ((evaluate_approval_requirement req).allowed ≡ true) ↔ (
        (req.risk_tier ≢ "T3")
        × (req.risk_tier ≢ "T4")
        × (req.network_access ≡ false)
        × (req.writes_external_state ≡ false)
        × (req.writes_files ≡ false))
unfolding evaluate_approval_requirement
evaluate-allowed_iff req = (
  λ h. (
    ground (arith, eq_iff "T3" req.risk_tier),
    ground (arith, eq_iff "T4" req.risk_tier),
    ground arith,
    ground arith,
    ground arith,
  ),
  λ h. ground (arith, eq_iff "T3" req.risk_tier, eq_iff "T4" req.risk_tier),
)
