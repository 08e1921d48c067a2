-- ===== src/Tests/Graph.antt =====
-- A small task graph: "b" and "c" behind "a", and "d" behind both.
use agent_backend.Prelude.{
  ℕ, String, ◌≡◌, refl, ◌↔◌, true, some, List, [], ◌∷◌, elem, inl, inr, Bool-cases, eq_iff, ok, err,
  cycle_error, arith, ◌<◌, ◌==◌, if◌then◌else◌,
}
use agent_backend.Store.Schema.{Edge}
use agent_backend.Dag.Descend.{Node, collect_descendants, static_order, topological_descendants}
use agent_backend.Dag.Reaches.{Reaches}
use agent_backend.Dag.Collect.{collect_descendants_iff}
use agent_backend.Dag.Order.{names}
use agent_backend.Dag.Acyclic.{IsRanked, static_order_total}

abbrev diamond : List Edge
diamond =
    record { parent = "a"; child = "b" }
    ∷ record { parent = "a"; child = "c" }
    ∷ record { parent = "b"; child = "d" }
    ∷ record { parent = "c"; child = "d" }
    ∷ []

abbrev nodes : List Node
nodes =
    record { name = "d"; before = "b" ∷ "c" ∷ [] }
    ∷ record { name = "b"; before = [] }
    ∷ record { name = "c"; before = [] }
    ∷ []

below_a : topological_descendants "a" diamond ≡ ok ("b" ∷ "c" ∷ "d" ∷ [])
unfolding topological_descendants
below_a = refl

cycle : static_order (record { name = "x"; before = "x" ∷ [] } ∷ []) ≡ err cycle_error
unfolding static_order
cycle = refl

collect_descendants_iff_example :
    (out : List String) × (collect_descendants "a" diamond ≡ some out)
    × ((x : String) → (elem x out ≡ true) ↔ Reaches diamond "a" x)
collect_descendants_iff_example = collect_descendants_iff "a" diamond

nodes_order : static_order nodes ≡ ok ("b" ∷ "c" ∷ "d" ∷ [])
unfolding static_order
nodes_order = refl

abbrev rank : String → ℕ
rank k = if k == "d" then 1 else 0

before_d :
    (p : String) → elem p ("b" ∷ "c" ∷ []) ≡ true → (rank p < 1) × (elem p (names nodes) ≡ true)
unfolding elem
before_d p h = elim (Bool-cases ("b" == p)) [
  | inl e ↦ rw (← (eq_iff "b" p).0 e) (omega arith, refl)
  | inr e ↦
      let named : "c" ≡ p = (eq_iff "c" p).0 (ground arith) in rw (← named) (omega arith, refl)
]

nodes-IsRanked : IsRanked rank nodes
unfolding elem
nodes-IsRanked = record {
  below = λ n m p h. elim m [
    | inl e ↦ rw (← e) (before_d p (rw (← e) at h)).0
    | inr m' ↦ elim m' [
      | inl e ↦ absurd (cc)
      | inr m'' ↦ elim m'' [ inl e ↦ absurd (cc) | inr x ↦ absurd x ]
    ]
  ];
  known = λ n m p h. elim m [
    | inl e ↦ (before_d p (rw (← e) at h)).1
    | inr m' ↦ elim m' [
      | inl e ↦ absurd (cc)
      | inr m'' ↦ elim m'' [ inl e ↦ absurd (cc) | inr x ↦ absurd x ]
    ]
  ];
}

static_order_total_example : (out : List String) × (static_order nodes ≡ ok out)
static_order_total_example = static_order_total rank nodes nodes-IsRanked
