-- ===== src/Dag/Collect.antt =====
-- `_collect_descendants` finds the descendants, all of them and nothing else
-- (backend/python-daemon/orchestrator/dag_runtime.py).
use agent_backend.Prelude.{
  ℕ, zero, suc, ◌+◌, ◌≤◌, String, ◌≡◌, refl, ◌↔◌, inl, inr, true, false, ◌||◌, some, List, [], ◌∷◌,
  arith, ◌==◌, eq_iff, elem, any, length, Bool-cases, ==-self, ==-cases, sym, ◌∙◌, subst,
}
use agent_backend.Sql.Rows.{Among}
use agent_backend.Store.Schema.{Edge}
use agent_backend.Dag.Reaches.{
  Reaches, child, further, length-push, elem-push, open_edges, open-le, children-le, open-visit,
}
use agent_backend.Dag.Descend.{children, push, collect, collect_descendants}

module _ (fuel : ℕ) (edges : List Edge) (n : String) (stack seen : List String) where
  collect-old :
      elem n seen ≡ true → collect (suc fuel) edges (n ∷ stack) seen ≡ collect fuel edges stack seen
  unfolding collect
  collect-old e = rw (e, collect)

  collect-new :
      elem n seen ≡ false
      → collect (suc fuel) edges (n ∷ stack) seen
        ≡ collect fuel edges (push (children edges n) stack) (n ∷ seen)
  unfolding collect
  collect-new e = rw (e, collect)

-- The loop ends within a round for each entry of the stack and each edge still to follow.
collect_total :
    (fuel : ℕ) (edges : List Edge) (stack seen : List String)
    → length stack + open_edges edges seen ≤ fuel
    → (out : List String) × (collect fuel edges stack seen ≡ some out)
unfolding collect
collect_total zero edges [] seen h = (seen, refl)
collect_total (suc fuel) edges [] seen h = (seen, refl)
collect_total zero edges (n ∷ stack) seen h = absurd (omega arith)
collect_total (suc fuel) edges (n ∷ stack) seen h = elim (Bool-cases (elem n seen)) [
  | inl e ↦
      let (out, r) = collect_total fuel edges stack seen (omega arith) in
      (out, collect-old fuel edges n stack seen e ∙ r)
  | inr e ↦
      let (out, r) =
        collect_total fuel edges (push (children edges n) stack) (n ∷ seen)
          (omega (arith, length-push (children edges n) stack, open-visit edges n seen e)) in
      (out, collect-new fuel edges n stack seen e ∙ r)
]

collect-nil :
    (fuel : ℕ) (edges : List Edge) (seen out : List String)
    → collect fuel edges [] seen ≡ some out
    → seen ≡ out
unfolding collect
collect-nil zero edges seen out h = cc
collect-nil (suc fuel) edges seen out h = cc

-- Where the loop stands: every child of a visited node is visited or on the stack.
abbrev IsClosed : List Edge → List String → List String → Type 0
IsClosed edges stack seen =
    (p c : String)
    → elem p seen ≡ true
    → elem c (children edges p) ≡ true
    → (elem c seen || elem c stack) ≡ true

-- All that was visited or waiting is in the result.
abbrev Holds : List String → List String → List String → Type 0
Holds stack seen out = (x : String) → (elem x seen || elem x stack) ≡ true → elem x out ≡ true

-- What the loop returns holds all that was visited or waiting, and is closed under children.
collect-IsClosed :
    (fuel : ℕ) (edges : List Edge) (stack seen out : List String)
    → collect fuel edges stack seen ≡ some out
    → IsClosed edges stack seen
    → Holds stack seen out × IsClosed edges [] out
unfolding elem any collect
collect-IsClosed zero edges [] seen out h inv =
    subst (λ o. Holds [] seen o × IsClosed edges [] o) (collect-nil zero edges seen out h)
      ((λ x k. ground arith), inv)
collect-IsClosed (suc fuel) edges [] seen out h inv =
    subst (λ o. Holds [] seen o × IsClosed edges [] o) (collect-nil (suc fuel) edges seen out h)
      ((λ x k. ground arith), inv)
collect-IsClosed zero edges (n ∷ stack) seen out h inv = absurd (cc)
collect-IsClosed (suc fuel) edges (n ∷ stack) seen out h inv = elim (Bool-cases (elem n seen)) [
  | inl e ↦
      let (all, closed) =
        collect-IsClosed fuel edges stack seen out (sym (collect-old fuel edges n stack seen e) ∙ h)
          λ p c hp hc. ground (arith, inv p c hp hc, eq_iff n c) in
      ((λ x k. all x (ground (arith, eq_iff n x))), closed)
  | inr e ↦
      let (all, closed) =
        collect-IsClosed fuel edges (push (children edges n) stack) (n ∷ seen) out
          (sym (collect-new fuel edges n stack seen e) ∙ h)
          λ p c hp hc. elim (==-cases n p) [
            | inl same ↦
                let kids = subst (λ k. elem c (children edges k) ≡ true) (sym same) hc in
                ground (arith, kids, elem-push c (children edges n) stack)
            | inr other ↦
                let old : elem p seen ≡ true = ground (arith, eq_iff n p) in
                ground (arith, inv p c old hc, elem-push c (children edges n) stack)
          ] in
      ((λ x k. all x (ground (arith, elem-push x (children edges n) stack))), closed)
]

children-edge :
    (edges : List Edge) (p c : String)
    → elem c (children edges p) ≡ true
    → (e : Edge) × Among e edges × (e.parent ≡ p) × (e.child ≡ c)
unfolding children elem any
children-edge [] p c h = absurd (cc)
children-edge (e ∷ es) p c h = elim (Bool-cases (e.parent == p)) [
  | inr other ↦
      let (d, m, a, b) = children-edge es p c (rw (other, children) at h) in (d, inr m, a, b)
  | inl same ↦ elim (Bool-cases (e.child == c)) [
    | inl hit ↦ (e, inl refl, (eq_iff e.parent p).0 same, (eq_iff e.child c).0 hit)
    | inr miss ↦ let (d, m, a, b) = children-edge es p c (ground arith) in (d, inr m, a, b)
  ]
]

edge-children :
    (edges : List Edge) (e : Edge) → Among e edges → elem e.child (children edges e.parent) ≡ true
unfolding children elem any
edge-children [] e m = absurd m
edge-children (d ∷ es) e m = elim m [
  | inl same ↦ rw (same, ==-self e.parent, ==-self e.child)
  | inr m' ↦ ground (arith, edge-children es e m')
]

-- Whatever the loop starts from, it returns only what can be reached.
collect-Reaches :
    (root : String) (fuel : ℕ) (edges : List Edge) (stack seen out : List String)
    → collect fuel edges stack seen ≡ some out
    → ((x : String) → (elem x seen || elem x stack) ≡ true → Reaches edges root x)
    → (x : String) → elem x out ≡ true
    → Reaches edges root x
unfolding collect elem any
collect-Reaches root zero edges [] seen out h inv x m =
    inv x (rw (collect-nil zero edges seen out h) (ground arith))
collect-Reaches root (suc fuel) edges [] seen out h inv x m =
    inv x (rw (collect-nil (suc fuel) edges seen out h) (ground arith))
collect-Reaches root zero edges (n ∷ stack) seen out h inv x m = absurd (cc)
collect-Reaches root (suc fuel) edges (n ∷ stack) seen out h inv x m =
    elim (Bool-cases (elem n seen)) [
      | inl e ↦
          collect-Reaches root fuel edges stack seen out
            (sym (collect-old fuel edges n stack seen e) ∙ h) (λ y k. inv y (ground arith)) x m
      | inr e ↦
          collect-Reaches root fuel edges (push (children edges n) stack) (n ∷ seen) out
            (sym (collect-new fuel edges n stack seen e) ∙ h)
            (λ y k. elim (Bool-cases (elem y (children edges n))) [
              | inl kid ↦
                  let (d, among, from, to) = children-edge edges n y kid in
                  let reached : Reaches edges root n = inv n (rw ==-self (ground arith)) in
                  further d (rw from reached) among to
              | inr other ↦ inv y (ground (arith, elem-push y (children edges n) stack))
            ])
            x m
    ]

-- Every reachable node is in a closed list that holds the children of the root.
reached-elem :
    (root : String) (edges : List Edge) (out : List String)
    → Holds (push (children edges root) []) [] out
    → IsClosed edges [] out
    → (x : String) → Reaches edges root x
    → elem x out ≡ true
unfolding elem any
reached-elem root edges out all closed x (child e m from to) =
    let kid = rw (from, to) at (edge-children edges e m) in
    all x (ground (arith, kid, elem-push x (children edges root) []))
reached-elem root edges out all closed x (further e r m to) =
    let before = reached-elem root edges out all closed e.parent r in
    let kid = rw to at (edge-children edges e m) in ground (arith, closed e.parent x before kid)

-- Enough fuel for any graph: two rounds for each edge.
pub collect_descendants_total :
    (root : String) (edges : List Edge)
    → (out : List String) × (collect_descendants root edges ≡ some out)
unfolding collect_descendants
collect_descendants_total root edges =
    collect_total (length edges + length edges) edges (push (children edges root) []) [] (
      omega (arith, length-push (children edges root) [], children-le edges root, open-le edges []))

-- The loop always ends, and the nodes that it returns are those that a path of one or more edges
-- reaches from the root.
pub collect_descendants_iff :
    (root : String) (edges : List Edge)
    → (out : List String) × (collect_descendants root edges ≡ some out)
      × ((x : String) → (elem x out ≡ true) ↔ Reaches edges root x)
unfolding collect_descendants elem any
collect_descendants_iff root edges =
    let (out, run) = collect_descendants_total root edges in
    let fuel = length edges + length edges in
    let (all, closed) =
      collect-IsClosed fuel edges (push (children edges root) []) [] out run
        (λ p c hp hc. absurd (cc)) in
    (
      out,
      run,
      λ x. (
        collect-Reaches root fuel edges (push (children edges root) []) [] out run
            (λ y k.
              let (d, m, from, to) =
                children-edge edges root y (ground (arith, elem-push y (children edges root) [])) in
              child d m from to)
            x,
        reached-elem root edges out all closed x,
      ),
    )
