-- ===== src/Dag/Descend.antt =====
-- `topological_descendants` and `_collect_descendants`
-- (backend/python-daemon/orchestrator/dag_runtime.py), over `TopologicalSorter` of graphlib.
use agent_backend.Prelude.{
  ℕ, zero, suc, ◌+◌, String, Bool, true, false, not, ◌&&◌, Option, none, some, List, [], ◌∷◌, ◌++◌,
  map, ◌==◌, any, elem, length, if◌then◌else◌, Result, ok, err, cycle_error, out_of_fuel,
}
use agent_backend.Sql.{select, delete}
use agent_backend.Store.Schema.{Edge}

-- children_by_parent.get(node, [])
unfoldable pub children : List Edge → String → List String
children [] node = []
children (e ∷ es) node =
    let rest = children es node in if e.parent == node then e.child ∷ rest else rest

-- stack.extend(nodes), on a stack whose top is its head
unfoldable pub push : List String → List String → List String
push [] stack = stack
push (n ∷ ns) stack = push ns (n ∷ stack)

-- The `while` loop of `_collect_descendants`. The top of the stack, the end of the Python list, is
-- the head here; `seen` has the node that was added last at its head.
unfoldable pub collect : ℕ → List Edge → List String → List String → Option (List String)
unfolding children elem push
collect fuel edges [] seen = some seen
collect zero edges (node ∷ stack) seen = none
collect (suc fuel) edges (node ∷ stack) seen = elim (elem node seen) [
  | true ↦ collect fuel edges stack seen
  | false ↦ collect fuel edges (push (children edges node) stack) (node ∷ seen)
]

unfoldable pub collect_descendants : String → List Edge → Option (List String)
unfolding collect
collect_descendants root edges =
    collect (length edges + length edges) edges (push (children edges root) []) []

-- What `TopologicalSorter.add` is told: a node with the nodes that come before it.
pub record Node : Type 0 where
  pub name : String
  pub before : List String

-- A node all of whose predecessors are done.
unfoldable pub is_free : List String → Node → Bool
unfolding elem any
is_free done n = not (any (λ p. not (elem p done)) n.before)

-- `static_order`: rounds of the nodes whose predecessors are all done. The order inside a round is
-- the library's own; here it is that of the nodes. Each round takes a node, so that there are no
-- more rounds than nodes.
unfoldable pub rounds : ℕ → List String → List Node → Result (List String)
unfolding is_free select delete
rounds fuel done [] = ok []
rounds zero done (n ∷ ns) = err out_of_fuel
rounds (suc fuel) done (n ∷ ns) =
    let free = select (is_free done) (n ∷ ns) in
    let names = map (λ m. m.name) free in
    let rest = rounds fuel (names ++ done) (delete (is_free done) (n ∷ ns)) in
    elim free [
      | [] ↦ err cycle_error
      | r ∷ rs ↦ elim rest [ ok more ↦ ok (names ++ more) | err e ↦ err e ]
    ]

unfoldable pub static_order : List Node → Result (List String)
unfolding rounds
static_order nodes = rounds (length nodes) [] nodes

-- The predecessors that the second loop of `topological_descendants` adds for `node`: an edge from
-- the root adds none.
unfoldable pub parents_within : String → List String → List Edge → String → List String
unfolding elem
parents_within root descendants [] node = []
parents_within root descendants (e ∷ es) node =
    let rest = parents_within root descendants es node in
    if e.child == node && (not (e.parent == root) && elem e.parent descendants)
    then e.parent ∷ rest
    else rest

abbrev pub node_of : String → List String → List Edge → String → Node
node_of root descendants edges n = record {
  name = n;
  before = parents_within root descendants edges n;
}

unfoldable pub topological_descendants : String → List Edge → Result (List String)
unfolding collect_descendants parents_within static_order select elem
topological_descendants root edges = elim (collect_descendants root edges) [
  | none ↦ err out_of_fuel
  | some descendants ↦ elim (static_order (map (node_of root descendants edges) descendants)) [
    | err e ↦ err e
    | ok names ↦ ok (select (λ n. elem n descendants) names)
  ]
]

-- The rows of the recursive query of `_descendants`: the edges at depth 1, at depth 2, and so on,
-- an edge once for each path that leads to it (UNION ALL). SQLite stops when a level is empty.
abbrev pub next_level : List Edge → List Edge → List Edge
next_level edges [] = []
next_level edges (d ∷ ds) = select (λ e. e.parent == d.child) edges ++ next_level edges ds

unfoldable pub levels : ℕ → List Edge → List Edge → Result (List Edge)
unfolding select
levels fuel edges [] = ok []
levels zero edges (d ∷ ds) = err out_of_fuel
levels (suc fuel) edges (d ∷ ds) = elim (levels fuel edges (next_level edges (d ∷ ds))) [
  | ok rest ↦ ok ((d ∷ ds) ++ rest)
  | err e ↦ err e
]

unfoldable pub reachable_edges : ℕ → String → List Edge → Result (List Edge)
unfolding levels
reachable_edges fuel root edges = levels fuel edges (select (λ e. e.parent == root) edges)
