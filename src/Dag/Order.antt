-- ===== src/Dag/Order.antt =====
-- `static_order` lists every node once it has listed the nodes before it
-- (backend/python-daemon/orchestrator/dag_runtime.py, over graphlib).
use agent_backend.Prelude.{
  ℕ, zero, suc, String, ◌≡◌, refl, inl, inr, true, false, not, List, [], ◌∷◌, ◌++◌, map, arith,
  ◌==◌, eq_iff, elem, any, length, Bool-cases, subst, any-append, Result, ok, err,
}
use agent_backend.Sql.{select, delete}
use agent_backend.Sql.Rows.{Among, IsUnique, select-Among, delete-Among, find-Among}
use agent_backend.Dag.Descend.{Node, is_free, rounds, static_order}

abbrev pub names : List Node → List String
names ns = map (λ n. n.name) ns

all_done :
    (done ps : List String) (p : String)
    → any (λ q. not (elem q done)) ps ≡ false
    → elem p ps ≡ true
    → elem p done ≡ true
unfolding elem any
all_done done [] p h k = absurd (cc)
all_done done (q ∷ ps) p h k = elim (Bool-cases (q == p)) [
  | inl e ↦
      let same = (eq_iff q p).0 e in
      let here : elem q done ≡ true = ground arith in subst (λ x. elem x done ≡ true) same here
  | inr e ↦ all_done done ps p (ground arith) (ground arith)
]

is_free-done :
    (done : List String) (n : Node) (p : String)
    → is_free done n ≡ true
    → elem p n.before ≡ true
    → elem p done ≡ true
unfolding is_free
is_free-done done n p h k = all_done done n.before p (ground arith) k

-- Every name comes after the predecessors of its node: they are in `done`, or listed before it.
abbrev pub IsOrdered : List Node → List String → List String → Type 0
IsOrdered nodes done [] = Unit
IsOrdered nodes done (x ∷ xs) =
    ((n : Node)
      → Among n nodes
      → n.name ≡ x
      → (p : String) → elem p n.before ≡ true
      → elem p done ≡ true)
    × IsOrdered nodes (x ∷ done) xs

module _ (done : List String) (pending : List Node) where
  abbrev pub free : List Node
  free = select (is_free done) pending

  abbrev pub waiting : List Node
  waiting = delete (is_free done) pending

-- How a round that succeeds goes on.
pub rounds-step :
    (fuel : ℕ) (done : List String) (n : Node) (ns : List Node) {out : List String}
    → rounds (suc fuel) done (n ∷ ns) ≡ ok out
    → (more : List String) × (rounds fuel
          (names (free done (n ∷ ns)) ++ done)
          (waiting done (n ∷ ns))
        ≡ ok more)
      × (out ≡ names (free done (n ∷ ns)) ++ more)
unfolding rounds
rounds-step fuel done n ns {out} h =
    go (free done (n ∷ ns))
      (rounds fuel (names (free done (n ∷ ns)) ++ done) (waiting done (n ∷ ns))) refl refl
  where
    go :
        (fs : List Node) (r : Result (List String))
        → free done (n ∷ ns) ≡ fs
        → rounds fuel (names (free done (n ∷ ns)) ++ done) (waiting done (n ∷ ns)) ≡ r
        → (more : List String) × (rounds fuel
              (names (free done (n ∷ ns)) ++ done)
              (waiting done (n ∷ ns))
            ≡ ok more)
          × (out ≡ names (free done (n ∷ ns)) ++ more)
    go [] r e e' = absurd (ground (arith, e, e'))
    go (f ∷ fs) (err x) e e' = absurd (ground (arith, e, e'))
    go (f ∷ fs) (ok more) e e' = (more, e', ground (arith, e, e'))

module _ (nodes : List Node) where
  -- More may be done already.
  IsOrdered-weaken :
      (xs done more : List String)
      → ((p : String) → elem p done ≡ true → elem p more ≡ true)
      → IsOrdered nodes done xs
      → IsOrdered nodes more xs
  IsOrdered-weaken [] done more w h = tt
  IsOrdered-weaken (x ∷ xs) done more w h = (
    λ n m e p k. w p (h.0 n m e p k),
    IsOrdered-weaken xs (x ∷ done) (x ∷ more) (λ p k. unfold elem any in ground (arith, w p)) h.1,
  )

  IsOrdered-append :
      (xs ys done : List String)
      → IsOrdered nodes done xs
      → IsOrdered nodes (xs ++ done) ys
      → IsOrdered nodes done (xs ++ ys)
  IsOrdered-append [] ys done hx hy = hy
  IsOrdered-append (x ∷ xs) ys done hx hy = (
    hx.0,
    IsOrdered-append xs ys (x ∷ done) hx.1 (
        IsOrdered-weaken ys (x ∷ xs ++ done) (xs ++ x ∷ done)
          (λ p k.
            unfold elem any in
            ground
              (arith, any-append (λ y. y == p) xs done, any-append (λ y. y == p) xs (x ∷ done)))
          hy),
  )

  -- The nodes of one round, whose predecessors are all done.
  IsOrdered-free :
      (free : List Node) (done : List String)
      → IsUnique (λ n. n.name) nodes
      → ((f : Node) → Among f free → Among f nodes × (is_free done f ≡ true))
      → IsOrdered nodes done (names free)
  unfolding is_free
  IsOrdered-free [] done u h = tt
  IsOrdered-free (f ∷ fs) done u h = (
    λ n m e p k.
        let found_n = find-Among (λ (x : Node). x.name) nodes u m in
        let found_f = find-Among (λ (x : Node). x.name) nodes u (h f (inl refl)).0 in
        let same : n ≡ f = cc (found_n, found_f, e) in
        is_free-done done f p (h f (inl refl)).1 (rw same at k),
    IsOrdered-weaken (names fs) done (f.name ∷ done) (λ p k. unfold elem any in ground arith)
        (IsOrdered-free fs done u (λ g m. h g (inr m))),
  )

  rounds-IsOrdered :
      (fuel : ℕ) (done : List String) (pending : List Node) (out : List String)
      → IsUnique (λ n. n.name) nodes
      → ((n : Node) → Among n pending → Among n nodes)
      → rounds fuel done pending ≡ ok out
      → IsOrdered nodes done out
  unfolding rounds
  rounds-IsOrdered zero done [] [] u sub h = tt
  rounds-IsOrdered zero done [] (x ∷ out) u sub h = absurd (cc)
  rounds-IsOrdered (suc fuel) done [] [] u sub h = tt
  rounds-IsOrdered (suc fuel) done [] (x ∷ out) u sub h = absurd (cc)
  rounds-IsOrdered zero done (n ∷ ns) out u sub h = absurd (cc)
  rounds-IsOrdered (suc fuel) done (n ∷ ns) out u sub h =
      let (more, run, whole) = rounds-step fuel done n ns h in
      rw whole (
        IsOrdered-append (names (free done (n ∷ ns))) more done
          (IsOrdered-free (free done (n ∷ ns)) done u
            λ f m. let (among, is) = select-Among (is_free done) (n ∷ ns) m in (sub f among, is))
          (rounds-IsOrdered fuel (names (free done (n ∷ ns)) ++ done) (waiting done (n ∷ ns)) more u
            (λ f m. sub f (delete-Among (is_free done) (n ∷ ns) f m)) run))

-- The order that comes out has every node behind its predecessors.
pub static_order-IsOrdered :
    (nodes : List Node) (out : List String)
    → IsUnique (λ n. n.name) nodes
    → static_order nodes ≡ ok out
    → IsOrdered nodes [] out
unfolding static_order
static_order-IsOrdered nodes out u h =
    rounds-IsOrdered nodes (length nodes) [] nodes out u (λ n m. m) h
