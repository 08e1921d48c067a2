-- ===== src/Dag/Reaches.antt =====
-- Paths of edges, and what a visit of a node leaves to follow
-- (backend/python-daemon/orchestrator/dag_runtime.py).
use agent_backend.Prelude.{
  ℕ, suc, ◌+◌, ◌≤◌, String, ◌≡◌, refl, inl, inr, true, false, ◌||◌, List, [], ◌∷◌, arith, ◌==◌,
  eq_iff, elem, any, length, Bool-cases, sym, subst,
}
use agent_backend.Sql.Rows.{Among}
use agent_backend.Store.Schema.{Edge}
use agent_backend.Dag.Descend.{children, push}

-- A path of one or more edges.
pub data Reaches (edges : List Edge) (root : String) : String → Type 0 where
  child :
      (e : Edge)
      → Among e edges
      → e.parent ≡ root
      → {x : String} → e.child ≡ x
      → Reaches edges root x
  further :
      (e : Edge)
      → Reaches edges root e.parent
      → Among e edges
      → {x : String} → e.child ≡ x
      → Reaches edges root x

pub length-push : (ns stack : List String) → length (push ns stack) ≡ length ns + length stack
unfolding push
length-push [] stack = omega arith
length-push (n ∷ ns) stack = omega (arith, length-push ns (n ∷ stack))

pub elem-push :
    (x : String) (ns stack : List String) → elem x (push ns stack) ≡ (elem x ns || elem x stack)
unfolding push elem any
elem-push x [] stack = refl
elem-push x (n ∷ ns) stack = ground (arith, elem-push x ns (n ∷ stack))

-- Edges whose parent has not been visited.
unfoldable pub open_edges : List Edge → List String → ℕ
unfolding elem
open_edges [] seen = 0
open_edges (e ∷ es) seen =
    let rest = open_edges es seen in elim (elem e.parent seen) [ true ↦ rest | false ↦ suc rest ]

pub open-le : (edges : List Edge) (seen : List String) → open_edges edges seen ≤ length edges
unfolding open_edges
open-le [] seen = omega arith
open-le (e ∷ es) seen = ground (arith, open-le es seen)

pub children-le : (edges : List Edge) (n : String) → length (children edges n) ≤ length edges
unfolding children
children-le [] n = omega arith
children-le (e ∷ es) n = ground (arith, children-le es n)

pub open-visit :
    (edges : List Edge) (n : String) (seen : List String)
    → elem n seen ≡ false
    → open_edges edges (n ∷ seen) + length (children edges n) ≡ open_edges edges seen
unfolding open_edges children elem any
open-visit [] n seen h = omega arith
open-visit (e ∷ es) n seen h = elim (Bool-cases (e.parent == n)) [
  | inl same ↦
      let named = (eq_iff e.parent n).0 same in
      let out : elem e.parent seen ≡ false = subst (λ k. elem k seen ≡ false) (sym named) h in
      ground (arith, open-visit es n seen h, eq_iff e.parent n, eq_iff n e.parent)
  | inr other ↦ ground (arith, open-visit es n seen h, eq_iff e.parent n, eq_iff n e.parent)
]
