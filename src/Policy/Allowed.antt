-- ===== src/Policy/Allowed.antt =====
-- Which requests `classify_sandbox_request` lets through
-- (backend/python-daemon/orchestrator/sandbox/policy.py).
use agent_backend.Prelude.{
  String, ◌≡◌, ◌↔◌, inl, inr, Bool, true, Option, none, some, [], ◌∷◌, arith, ◌==◌, eq_iff, lookup,
  if◌then◌else◌, Bool-cases, Option-cases,
}
use agent_backend.Policy.Sandbox.{
  Verdict, allow, require_approval, block, is_allow, verdict_table, verdict_for, effective_risk,
  classify_sandbox_request, LetsThrough,
}

-- A row of the table with both profiles: the verdict for "trusted", or else that for "safe".
verdict_for-row :
    (profile : String) (a b : Verdict)
    → verdict_for profile (("safe", a) ∷ ("trusted", b) ∷ [])
      ≡ (if "trusted" == profile then b else a)
unfolding verdict_for
verdict_for-row profile a b = elim (Bool-cases ("safe" == profile)) [
  | inl e ↦ let named = (eq_iff "safe" profile).0 e in rw (← named)
  | inr e ↦ elim (Bool-cases ("trusted" == profile)) [
    | inl f ↦ let named = (eq_iff "trusted" profile).0 f in rw (← named)
    | inr f ↦ rw (e, f)
  ]
]

unfoldable row_verdict : String → String → Verdict
row_verdict profile risk =
    let trusted = "trusted" == profile in
    if "read_only" == risk
    then allow
    else if "write_memory" == risk
    then allow
    else if "write_files" == risk
    then (if trusted then allow else require_approval)
    else if "admin" == risk
    then (if trusted then require_approval else block)
    else block

classify-row :
    (tool_name profile : String) (risk_level : Option String) (requires_root : Bool) (risk : String)
    → effective_risk tool_name risk_level ≡ some risk
    → (classify_sandbox_request tool_name profile risk_level requires_root).verdict
      ≡ row_verdict profile risk
unfolding classify_sandbox_request row_verdict
classify-row tool_name profile risk_level requires_root risk h =
    elim (Bool-cases ("read_only" == risk)) [
      | inl e ↦
          rw (h, classify_sandbox_request, e, verdict_for-row profile allow allow)
            (ground (arith, e))
      | inr e ↦ elim (Bool-cases ("write_memory" == risk)) [
        | inl f ↦
            rw (h, classify_sandbox_request, e, f, verdict_for-row profile allow allow)
              (ground (arith, e, f))
        | inr f ↦ elim (Bool-cases ("write_files" == risk)) [
          | inl g ↦
              rw
                (
                  h,
                  classify_sandbox_request,
                  e,
                  f,
                  g,
                  verdict_for-row profile require_approval allow,
                )
                (ground (arith, e, f, g))
          | inr g ↦ elim (Bool-cases ("admin" == risk)) [
            | inl k ↦
                rw
                  (
                    h,
                    classify_sandbox_request,
                    e,
                    f,
                    g,
                    k,
                    verdict_for-row profile block require_approval,
                  )
                  (ground (arith, e, f, g, k))
            | inr k ↦ rw (h, classify_sandbox_request, e, f, g, k) (ground (arith, e, f, g, k))
          ]
        ]
      ]
    ]

allowed-verdict :
    (tool_name profile : String) (risk_level : Option String) (requires_root : Bool)
    → (classify_sandbox_request tool_name profile risk_level requires_root).allowed
      ≡ is_allow (classify_sandbox_request tool_name profile risk_level requires_root).verdict
unfolding classify_sandbox_request
allowed-verdict tool_name profile risk_level requires_root =
    elim (Option-cases (effective_risk tool_name risk_level)) [
      | inl e ↦ rw (e, classify_sandbox_request)
      | inr (risk, e) ↦ elim (Option-cases (lookup risk verdict_table)) [
        | inl f ↦ rw (e, classify_sandbox_request, f)
        | inr (row, f) ↦ rw (e, classify_sandbox_request, f)
      ]
    ]

classify-unknown :
    (tool_name profile : String) (risk_level : Option String) (requires_root : Bool)
    → effective_risk tool_name risk_level ≡ none
    → (classify_sandbox_request tool_name profile risk_level requires_root).verdict ≡ block
unfolding classify_sandbox_request
classify-unknown tool_name profile risk_level requires_root e = rw (e, classify_sandbox_request)

row_verdict-allow :
    (profile risk : String)
    → (is_allow (row_verdict profile risk) ≡ true) ↔ LetsThrough (some risk) profile
unfolding row_verdict
row_verdict-allow profile risk = (
  λ h. ground (
    arith,
    eq_iff "read_only" risk,
    eq_iff "write_memory" risk,
    eq_iff "write_files" risk,
    eq_iff "trusted" profile,
  ),
  λ h. ground (
    arith,
    eq_iff "read_only" risk,
    eq_iff "write_memory" risk,
    eq_iff "write_files" risk,
    eq_iff "trusted" profile,
    eq_iff "read_only" "write_files",
    eq_iff "write_memory" "write_files",
  ),
)

-- A tool is allowed exactly when its risk is to read or to write memory, or, under the profile
-- "trusted", to write files: never as an admin tool, and never with an unknown tool or risk.
pub classify-allowed_iff :
    (tool_name profile : String) (risk_level : Option String) (requires_root : Bool)
    → ((classify_sandbox_request tool_name profile risk_level requires_root).allowed ≡ true)
      ↔ LetsThrough (effective_risk tool_name risk_level) profile
classify-allowed_iff tool_name profile risk_level requires_root =
    elim (Option-cases (effective_risk tool_name risk_level)) [
      | inl e ↦
          rw
            (
              allowed-verdict tool_name profile risk_level requires_root,
              classify-unknown tool_name profile risk_level requires_root e,
              e,
            )
            ((λ h. absurd (cc)), (λ h. absurd h))
      | inr (risk, e) ↦
          rw
            (
              allowed-verdict tool_name profile risk_level requires_root,
              classify-row tool_name profile risk_level requires_root risk e,
              e,
            )
            (row_verdict-allow profile risk)
    ]
