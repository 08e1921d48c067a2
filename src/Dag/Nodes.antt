-- ===== src/Dag/Nodes.antt =====
-- The nodes that `topological_descendants` makes of the descendants
-- (backend/python-daemon/orchestrator/dag_runtime.py).
use agent_backend.Prelude.{
  ℕ, zero, suc, ◌<◌, String, ◌≡◌, ◌≢◌, refl, inl, inr, Bool, true, false, not, ◌&&◌, List, [], ◌∷◌,
  map, arith, ◌==◌, eq_iff, elem, any, Bool-cases, none, some, sym, subst,
}
use agent_backend.Sql.{select, find}
use agent_backend.Sql.Rows.{Among, IsUnique}
use agent_backend.Sql.Keys.{IsDistinct}
use agent_backend.Store.Schema.{Edge}
use agent_backend.Dag.Order.{names}
use agent_backend.Dag.Acyclic.{IsRanked}
use agent_backend.Dag.Descend.{Node, children, push, collect, parents_within, node_of}

-- A predecessor that is added is the parent of an edge, and a descendant.
pub parents_within-edge :
    (root : String) (within : List String) (edges : List Edge) (node p : String)
    → elem p (parents_within root within edges node) ≡ true
    → (e : Edge) × Among e edges × (e.parent ≡ p) × (e.child ≡ node) × (elem p within ≡ true)
unfolding parents_within elem any
parents_within-edge root within [] node p h = absurd (cc)
parents_within-edge root within (e ∷ es) node p h =
    elim (Bool-cases (e.child == node && (not (e.parent == root) && elem e.parent within))) [
      | inl t ↦ elim (Bool-cases (e.parent == p)) [
        | inl q ↦
            let same = (eq_iff e.parent p).0 q in
            (
              e,
              inl refl,
              same,
              (eq_iff e.child node).0 (ground (arith, t)),
              subst (λ x. elem x within ≡ true) same (ground (arith, t)),
            )
        | inr q ↦
            let (d, m, a, b, c) =
              parents_within-edge root within es node p
                (ground (arith, rw (t, parents_within) at h, q)) in
            (d, inr m, a, b, c)
      ]
      | inr t ↦
          let (d, m, a, b, c) =
            parents_within-edge root within es node p (rw (t, parents_within) at h) in
          (d, inr m, a, b, c)
    ]

pub names-nodes :
    (root : String) (within : List String) (edges : List Edge) (ks : List String)
    → names (map (node_of root within edges) ks) ≡ ks
names-nodes root within edges [] = refl
names-nodes root within edges (k ∷ ks) = λ i. k ∷ names-nodes root within edges ks i

pub node_of_eq :
    (root : String) (within : List String) (edges : List Edge) (ks : List String) (n : Node)
    → Among n (map (node_of root within edges) ks)
    → n ≡ node_of root within edges n.name
node_of_eq root within edges [] n m = absurd m
node_of_eq root within edges (k ∷ ks) n m = elim m [
  | inl e ↦ subst (λ x. x ≡ node_of root within edges x.name) e refl
  | inr m' ↦ node_of_eq root within edges ks n m'
]

pub elem-select :
    (p : String → Bool) (k : String) (xs : List String)
    → elem k xs ≡ true
    → p k ≡ true
    → elem k (select p xs) ≡ true
unfolding select elem any
elem-select p k [] h t = absurd (cc)
elem-select p k (x ∷ xs) h t = elim (Bool-cases (x == k)) [
  | inl e ↦
      let here : p x ≡ true = subst (λ y. p y ≡ true) (sym ((eq_iff x k).0 e)) t in
      rw here (ground (arith, e))
  | inr e ↦ ground (arith, e, elem-select p k xs)
]

pub select-elem :
    (p : String → Bool) (k : String) (xs : List String) → elem k (select p xs) ≡ true → p k ≡ true
unfolding select elem any
select-elem p k [] h = absurd (cc)
select-elem p k (x ∷ xs) h = elim (Bool-cases (p x)) [
  | inr t ↦ select-elem p k xs (ground (arith, t))
  | inl t ↦ elim (Bool-cases (x == k)) [
    | inl e ↦ subst (λ y. p y ≡ true) ((eq_iff x k).0 e) t
    | inr e ↦ select-elem p k xs (ground (arith, t, e))
  ]
]

-- Every edge leads upwards: there is no cycle.
abbrev pub Ascends : (String → ℕ) → List Edge → Type 0
Ascends rank edges = (e : Edge) → Among e edges → rank e.parent < rank e.child

pub nodes-IsRanked :
    (rank : String → ℕ) (root : String) (within : List String) (edges : List Edge)
    → Ascends rank edges
    → IsRanked rank (map (node_of root within edges) within)
nodes-IsRanked rank root within edges up = record {
  below = λ n m p h.
      let made = node_of_eq root within edges within n m in
      let (e, me, from, to, w) =
        parents_within-edge root within edges n.name p
          (subst (λ (x : Node). elem p x.before ≡ true) made h) in
      let less = up e me in
      subst (λ x. rank p < rank x) to (subst (λ x. rank x < rank e.child) from less);
  known = λ n m p h.
      let made = node_of_eq root within edges within n m in
      let (e, me, from, to, w) =
        parents_within-edge root within edges n.name p
          (subst (λ (x : Node). elem p x.before ≡ true) made h) in
      subst (λ ks. elem p ks ≡ true) (sym (names-nodes root within edges within)) w;
}

-- The loop visits no node twice.
pub collect-IsDistinct :
    (fuel : ℕ) (edges : List Edge) (stack seen out : List String)
    → collect fuel edges stack seen ≡ some out
    → IsDistinct seen
    → IsDistinct out
unfolding collect
collect-IsDistinct zero edges [] seen out h d = subst (λ o. IsDistinct o) (cc (h)) d
collect-IsDistinct (suc fuel) edges [] seen out h d = subst (λ o. IsDistinct o) (cc (h)) d
collect-IsDistinct zero edges (n ∷ stack) seen out h d = absurd (cc)
collect-IsDistinct (suc fuel) edges (n ∷ stack) seen out h d = elim (Bool-cases (elem n seen)) [
  | inl e ↦ collect-IsDistinct fuel edges stack seen out (rw (e, collect) at h) d
  | inr e ↦
      collect-IsDistinct fuel edges (push (children edges n) stack) (n ∷ seen) out
        (rw (e, collect) at h) (e, d)
]

pub nodes-find :
    (root : String) (within : List String) (edges : List Edge) (k : String) (ks : List String)
    → elem k ks ≡ false
    → find (λ n. n.name) k (map (node_of root within edges) ks) ≡ none
unfolding find elem any
nodes-find root within edges k [] h = refl
nodes-find root within edges k (j ∷ ks) h = ground (arith, nodes-find root within edges k ks)

pub nodes-IsUnique :
    (root : String) (within : List String) (edges : List Edge) (ks : List String)
    → IsDistinct ks
    → IsUnique (λ n. n.name) (map (node_of root within edges) ks)
nodes-IsUnique root within edges [] d = tt
nodes-IsUnique root within edges (k ∷ ks) d =
    (nodes-find root within edges k ks d.0, nodes-IsUnique root within edges ks d.1)

pub edge-parents_within :
    (root : String) (within : List String) (edges : List Edge) (e : Edge)
    → Among e edges
    → e.parent ≢ root
    → elem e.parent within ≡ true
    → elem e.parent (parents_within root within edges e.child) ≡ true
unfolding parents_within elem any
edge-parents_within root within [] e m other w = absurd m
edge-parents_within root within (d ∷ es) e m other w = elim m [
  | inl same ↦
      subst (λ (x : Edge). elem e.parent (parents_within root within (x ∷ es) e.child) ≡ true)
        (sym same)
        (ground
          (arith, eq_iff e.child e.child, eq_iff e.parent root, eq_iff e.parent e.parent, other, w))
  | inr m' ↦ ground (arith, edge-parents_within root within es e m' other w)
]
