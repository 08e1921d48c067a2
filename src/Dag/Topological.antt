-- ===== src/Dag/Topological.antt =====
-- `topological_descendants` on a graph without cycles
-- (backend/python-daemon/orchestrator/dag_runtime.py).
use agent_backend.Prelude.{
  ℕ, ◌+◌, ◌<◌, length, String, ◌≡◌, ◌≢◌, refl, ap, ◌↔◌, inl, inr, true, false, List, [], ◌∷◌, map,
  arith, ◌==◌, eq_iff, elem, any, Bool-cases, some, sym, subst, ok,
}
use agent_backend.Sql.{select}
use agent_backend.Sql.Rows.{Among}
use agent_backend.Store.Schema.{Edge}
use agent_backend.Dag.Reaches.{Reaches, child, further}
use agent_backend.Dag.Collect.{collect_descendants_iff}
use agent_backend.Dag.Order.{IsOrdered, static_order-IsOrdered}
use agent_backend.Dag.Acyclic.{static_order_total, static_order-elem}
use agent_backend.Dag.Descend.{
  Node, children, push, collect_descendants, parents_within, node_of, static_order,
  topological_descendants,
}
use agent_backend.Dag.Nodes.{
  names-nodes, elem-select, select-elem, Ascends, nodes-IsRanked, collect-IsDistinct,
  nodes-IsUnique, edge-parents_within,
}

-- Every descendant that is the parent of a listed one stands before it.
abbrev pub ParentsFirst : List Edge → String → List String → List String → Type 0
ParentsFirst edges root done [] = Unit
ParentsFirst edges root done (x ∷ xs) =
    ((e : Edge)
      → Among e edges
      → e.child ≡ x
      → Reaches edges root e.parent
      → elem e.parent done ≡ true)
    × ParentsFirst edges root (x ∷ done) xs

Reaches-lt :
    (rank : String → ℕ) (root : String) (edges : List Edge)
    → Ascends rank edges
    → {x : String} → Reaches edges root x
    → rank root < rank x
Reaches-lt rank root edges up (child e m from to) =
    subst (λ y. rank root < rank y) to (subst (λ y. rank y < rank e.child) from (up e m))
Reaches-lt rank root edges up (further e r m to) =
    subst (λ y. rank root < rank y) to (omega (arith, up e m, Reaches-lt rank root edges up r))

node-Among :
    (root : String) (within : List String) (edges : List Edge) (k : String) (ks : List String)
    → elem k ks ≡ true
    → Among (node_of root within edges k) (map (node_of root within edges) ks)
unfolding elem any
node-Among root within edges k [] h = absurd (cc)
node-Among root within edges k (j ∷ ks) h = elim (Bool-cases (j == k)) [
  | inl e ↦ inl (ap (node_of root within edges) ((eq_iff j k).0 e))
  | inr e ↦ inr (node-Among root within edges k ks (ground (arith, e)))
]

-- The first list has all of the second one that is within.
abbrev Covers : List String → List String → List String → Type 0
Covers within after before =
    (y : String) → elem y before ≡ true → elem y within ≡ true → elem y after ≡ true

Covers-both :
    (within after before : List String) (x : String)
    → Covers within after before
    → Covers within (x ∷ after) (x ∷ before)
unfolding elem any
Covers-both within after before x sub y h w = elim (Bool-cases (x == y)) [
  | inl e ↦ ground (arith, e)
  | inr e ↦ ground (arith, e, sub y (ground (arith, e)) w)
]

Covers-skip :
    (within after before : List String) (x : String)
    → elem x within ≡ false
    → Covers within after before
    → Covers within after (x ∷ before)
unfolding elem any
Covers-skip within after before x out sub y h w = elim (Bool-cases (x == y)) [
  | inl e ↦
      let gone = subst (λ k. elem k within ≡ false) ((eq_iff x y).0 e) out in absurd (cc (gone, w))
  | inr e ↦ sub y (ground (arith, e)) w
]

module _ (rank : String → ℕ) (root : String) (within : List String) (edges : List Edge)
    (up : Ascends rank edges)
    (all : (x : String) → Reaches edges root x → elem x within ≡ true) where
  listed_after :
      (before : List String) (x : String) (e : Edge)
      → elem x within ≡ true
      → ((n : Node)
          → Among n (map (node_of root within edges) within)
          → n.name ≡ x
          → (p : String) → elem p n.before ≡ true
          → elem p before ≡ true)
      → Among e edges
      → e.child ≡ x
      → Reaches edges root e.parent
      → elem e.parent before ≡ true
  listed_after before x e w o m to r =
      let other : e.parent ≢ root = λ q.
        let less = subst (λ y. rank root < rank y) q (Reaches-lt rank root edges up r) in
        omega (arith, less) in
      let parent = edge-parents_within root within edges e m other (all e.parent r) in
      o (node_of root within edges x) (node-Among root within edges x within w) refl e.parent
        (subst (λ y. elem e.parent (parents_within root within edges y) ≡ true) to parent)

  -- The selected names of an order are in order.
  IsOrdered-ParentsFirst :
      (before after xs : List String)
      → Covers within after before
      → IsOrdered (map (node_of root within edges) within) before xs
      → ParentsFirst edges root after (select (λ n. elem n within) xs)
  unfolding select
  IsOrdered-ParentsFirst before after [] sub o = tt
  IsOrdered-ParentsFirst before after (x ∷ xs) sub o = elim (Bool-cases (elem x within)) [
    | inr t ↦
        rw t (
          IsOrdered-ParentsFirst (x ∷ before) after xs (Covers-skip within after before x t sub)
            o.1)
    | inl t ↦ rw t (
      λ e m to r. sub e.parent (listed_after before x e t o.0 m to r) (all e.parent r),
      IsOrdered-ParentsFirst (x ∷ before) (x ∷ after) xs (Covers-both within after before x sub)
          o.1,
    )
  ]

topological_run :
    (root : String) (edges : List Edge) (within listed : List String)
    → collect_descendants root edges ≡ some within
    → static_order (map (node_of root within edges) within) ≡ ok listed
    → topological_descendants root edges ≡ ok (select (λ n. elem n within) listed)
unfolding topological_descendants
topological_run root edges within listed found run = rw (found, run, topological_descendants)

-- On edges that all lead upwards, without a cycle, the order is found: it lists what a path of
-- edges reaches from the root and nothing else, and every listed parent stands before its child.
pub topological_descendants_iff :
    (rank : String → ℕ) (root : String) (edges : List Edge)
    → Ascends rank edges
    → (out : List String) × (topological_descendants root edges ≡ ok out)
      × ((x : String) → (elem x out ≡ true) ↔ Reaches edges root x)
      × ParentsFirst edges root [] out
unfolding collect_descendants
topological_descendants_iff rank root edges up =
    let (within, found, reached) = collect_descendants_iff root edges in
    let nodes = map (node_of root within edges) within in
    let (listed, run) = static_order_total rank nodes (nodes-IsRanked rank root within edges up) in
    let unique = nodes-IsUnique root within edges within (
      collect-IsDistinct (length edges + length edges) edges (push (children edges root) []) []
        within found tt) in
    (
      select (λ n. elem n within) listed,
      topological_run root edges within listed found run,
      λ x. (
        λ h. (reached x).0 (select-elem (λ n. elem n within) x listed h),
        λ r.
            let here = (reached x).1 r in
            elem-select (λ n. elem n within) x listed
              (static_order-elem nodes listed run x
                (subst (λ ks. elem x ks ≡ true) (sym (names-nodes root within edges within)) here))
              here,
      ),
      IsOrdered-ParentsFirst rank root within edges up (λ x. (reached x).1) [] [] listed
          (λ y h w. h) (static_order-IsOrdered nodes listed unique run),
    )
