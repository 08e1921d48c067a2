-- ===== src/Dag/Acyclic.antt =====
-- `static_order` raises no CycleError on a graph without cycles, and loses no node
-- (backend/python-daemon/orchestrator/dag_runtime.py, over graphlib).
use agent_backend.Prelude.{
  ℕ, zero, suc, ◌≤◌, ◌<◌, String, ◌≡◌, refl, inl, inr, Bool, true, false, not, ◌||◌, List, [], ◌∷◌,
  ◌++◌, arith, ◌==◌, eq_iff, elem, any, length, Bool-cases, ==-self, any-append, ok,
}
use agent_backend.Sql.Rows.{Among, select-nil, length-delete, Among-split, delete-Among}
use agent_backend.Dag.Descend.{Node, is_free, rounds, static_order}
use agent_backend.Dag.Order.{names, free, waiting, rounds-step}

-- A text that passes a test that some text of the list passes.
any-witness :
    (p : String → Bool) (xs : List String)
    → any p xs ≡ true
    → (x : String) × (elem x xs ≡ true) × (p x ≡ true)
unfolding any elem
any-witness p [] h = absurd (cc)
any-witness p (x ∷ xs) h = elim (Bool-cases (p x)) [
  | inl e ↦ (x, rw (==-self x) refl, e)
  | inr e ↦ let (y, m, q) = any-witness p xs (ground arith) in (y, ground arith, q)
]

elem-names : (ns : List Node) (n : Node) → Among n ns → elem n.name (names ns) ≡ true
unfolding elem any
elem-names [] n m = absurd m
elem-names (x ∷ ns) n m = elim m [
  | inl e ↦ rw (e, ==-self n.name)
  | inr m' ↦ ground (arith, elem-names ns n m')
]

names-elem :
    (ns : List Node) (k : String)
    → elem k (names ns) ≡ true
    → (n : Node) × Among n ns × (n.name ≡ k)
unfolding elem any
names-elem [] k h = absurd (cc)
names-elem (x ∷ ns) k h = elim (Bool-cases (x.name == k)) [
  | inl e ↦ (x, inl refl, (eq_iff x.name k).0 e)
  | inr e ↦ let (n, m, q) = names-elem ns k (ground arith) in (n, inr m, q)
]

-- `rank` puts every predecessor below its node, and is a predecessor known, so there is no cycle.
pub record IsRanked (rank : String → ℕ) (nodes : List Node) : Type 0 where
  pub below :
      (n : Node) → Among n nodes → (p : String) → elem p n.before ≡ true → rank p < rank n.name
  pub known :
      (n : Node)
      → Among n nodes
      → (p : String) → elem p n.before ≡ true
      → elem p (names nodes) ≡ true

-- What holds between two rounds: a node is done or waits.
record Inv (nodes : List Node) (done : List String) (pending : List Node) : Type 0 where
  sub : (n : Node) → Among n pending → Among n nodes
  split :
      (k : String) → elem k (names nodes) ≡ true → (elem k done || elem k (names pending)) ≡ true

module _ (rank : String → ℕ) (nodes : List Node) (ranked : IsRanked rank nodes) where
  -- With no free node, below each pending node there is another one.
  no_least :
      (done : List String) (pending : List Node)
      → Inv nodes done pending
      → free done pending ≡ []
      → (b : ℕ) (n : Node) → Among n pending
      → ¬ (rank n.name < b)
  unfolding is_free
  no_least done pending inv idle zero n m h = omega arith
  no_least done pending inv idle (suc b) n m h =
      let stuck : is_free done n ≡ false = select-nil (is_free done) pending idle n m in
      let (p, before, missing) = any-witness (λ p. not (elem p done)) n.before (ground arith) in
      let here = inv.sub n m in
      let waits = inv.split p (ranked.known n here p before) in
      let (u, mu, named) = names-elem pending p (ground arith) in
      let lower = ranked.below n here p before in
      no_least done pending inv idle b u mu (rw named (omega arith))

  -- A round keeps the invariant.
  Inv-round :
      (done : List String) (pending : List Node)
      → Inv nodes done pending
      → Inv nodes (names (free done pending) ++ done) (waiting done pending)
  unfolding elem
  Inv-round done pending inv = record {
    sub = λ n m. inv.sub n (delete-Among (is_free done) pending n m);
    split = λ k h.
        let app = any-append (λ x. x == k) (names (free done pending)) done in
        elim (Bool-cases (elem k done)) [
          | inl e ↦ ground (arith, e, app)
          | inr e ↦
              let (n, m, named) = names-elem pending k (ground (arith, inv.split k h)) in
              elim (Among-split (is_free done) pending n m) [
                | inl f ↦
                    let hit = elem-names (free done pending) n f in
                    ground (arith, app, rw named at hit)
                | inr w ↦
                    let hit = elem-names (waiting done pending) n w in
                    ground (arith, app, rw named at hit)
              ]
        ];
  }

  rounds_total :
      (fuel : ℕ) (done : List String) (pending : List Node)
      → length pending ≤ fuel
      → Inv nodes done pending
      → (out : List String) × (rounds fuel done pending ≡ ok out)
  unfolding rounds
  rounds_total zero done [] h inv = ([], refl)
  rounds_total (suc fuel) done [] h inv = ([], refl)
  rounds_total zero done (n ∷ ns) h inv = absurd (omega arith)
  rounds_total (suc fuel) done (n ∷ ns) h inv = go (free done (n ∷ ns)) refl λ room.
      rounds_total fuel (names (free done (n ∷ ns)) ++ done) (waiting done (n ∷ ns)) room
        (Inv-round done (n ∷ ns) inv)
    where
      go :
          (fs : List Node)
          → free done (n ∷ ns) ≡ fs
          → (length (waiting done (n ∷ ns)) ≤ fuel
              → (out : List String) × (rounds fuel
                    (names (free done (n ∷ ns)) ++ done)
                    (waiting done (n ∷ ns))
                  ≡ ok out))
          → (out : List String) × (rounds (suc fuel) done (n ∷ ns) ≡ ok out)
      go [] e rec =
          absurd (no_least done (n ∷ ns) inv e (suc (rank n.name)) n (inl refl) (omega arith))
      go (f ∷ fs) e rec =
          let some_free : suc (length fs) ≡ length (free done (n ∷ ns)) = rw e in
          let (more, run) = rec (omega (arith, length-delete (is_free done) (n ∷ ns))) in
          (names (free done (n ∷ ns)) ++ more, ground (arith, e, run))

-- A ranked graph has an order.
pub static_order_total :
    (rank : String → ℕ) (nodes : List Node)
    → IsRanked rank nodes
    → (out : List String) × (static_order nodes ≡ ok out)
unfolding static_order elem
static_order_total rank nodes ranked =
    rounds_total rank nodes ranked (length nodes) [] nodes (omega arith)
      (record { sub = λ n m. m; split = λ k h. ground arith })

rounds-elem :
    (fuel : ℕ) (done : List String) (pending : List Node) (out : List String)
    → rounds fuel done pending ≡ ok out
    → (k : String) → elem k (names pending) ≡ true
    → elem k out ≡ true
unfolding rounds elem
rounds-elem zero done [] out h k m = absurd (unfold any in cc)
rounds-elem (suc fuel) done [] out h k m = absurd (unfold any in cc)
rounds-elem zero done (n ∷ ns) out h k m = absurd (cc)
rounds-elem (suc fuel) done (n ∷ ns) out h k m =
    let (more, run, whole) = rounds-step fuel done n ns h in
    let app = any-append (λ x. x == k) (names (free done (n ∷ ns))) more in
    let (u, mu, named) = names-elem (n ∷ ns) k m in
    elim (Among-split (is_free done) (n ∷ ns) u mu) [
      | inl f ↦
          let hit = elem-names (free done (n ∷ ns)) u f in
          rw whole (ground (arith, app, rw named at hit))
      | inr w ↦
          let hit = elem-names (waiting done (n ∷ ns)) u w in
          let later =
            rounds-elem fuel (names (free done (n ∷ ns)) ++ done) (waiting done (n ∷ ns)) more run k
              (rw named at hit) in
          rw whole (ground (arith, app, later))
    ]

-- Every node is listed.
pub static_order-elem :
    (nodes : List Node) (out : List String)
    → static_order nodes ≡ ok out
    → (k : String) → elem k (names nodes) ≡ true
    → elem k out ≡ true
unfolding static_order
static_order-elem nodes out h = rounds-elem (length nodes) [] nodes out h
