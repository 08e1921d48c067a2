-- ===== src/Dag/Levels.antt =====
-- The recursive query of `_descendants` ends on a graph without cycles, and finds the edges that
-- can be followed from the root
-- (backend/python-daemon/orchestrator/queue_repo.py).
use agent_backend.Prelude.{
  ℕ, zero, suc, ◌+◌, ◌≤◌, ◌<◌, String, ◌≡◌, refl, ◌↔◌, ◌⊎◌, inl, inr, List, [], ◌∷◌, ◌++◌, arith,
  ◌==◌, eq_iff, sym, subst, Result, Error, ok, err,
}
use agent_backend.Sql.{select}
use agent_backend.Sql.Rows.{Among, select-Among, Among-select}
use agent_backend.Store.Schema.{Edge}
use agent_backend.Dag.Reaches.{Reaches, child, further}
use agent_backend.Dag.Descend.{next_level, levels, reachable_edges}

module _ {A : Type 0} where
  Among-left : (xs ys : List A) (r : A) → Among r xs → Among r (xs ++ ys)
  Among-left [] ys r m = absurd m
  Among-left (x ∷ xs) ys r m = elim m [ inl e ↦ inl e | inr p ↦ inr (Among-left xs ys r p) ]

  Among-right : (xs ys : List A) (r : A) → Among r ys → Among r (xs ++ ys)
  Among-right [] ys r m = m
  Among-right (x ∷ xs) ys r m = inr (Among-right xs ys r m)

  Among-append : (xs ys : List A) (r : A) → Among r (xs ++ ys) → Among r xs ⊎ Among r ys
  Among-append [] ys r m = inr m
  Among-append (x ∷ xs) ys r m = elim m [
    | inl e ↦ inl (inl e)
    | inr p ↦ elim (Among-append xs ys r p) [ inl q ↦ inl (inr q) | inr q ↦ inr q ]
  ]

-- Every edge leads upwards, and not above `top`: so there is no cycle.
pub record Climbs (rank : String → ℕ) (top : ℕ) (edges : List Edge) : Type 0 where
  pub up : (e : Edge) → Among e edges → rank e.parent < rank e.child
  pub bounded : (e : Edge) → Among e edges → rank e.child ≤ top

Result-cases : {A : Type 0} (r : Result A) → ((a : A) × (r ≡ ok a)) ⊎ ((e : Error) × (r ≡ err e))
Result-cases (ok a) = inl (a, refl)
Result-cases (err e) = inr (e, refl)

module _ (edges : List Edge) where
  -- The edges of the next level follow those of the level before.
  next_level-Among :
      (ds : List Edge) (e : Edge)
      → Among e (next_level edges ds)
      → (d : Edge) × Among e edges × Among d ds × (e.parent ≡ d.child)
  next_level-Among [] e m = absurd m
  next_level-Among (d ∷ ds) e m =
      elim (Among-append (select (λ x. x.parent == d.child) edges) (next_level edges ds) e m) [
        | inl here ↦
            let (among, same) = select-Among (λ x. x.parent == d.child) edges here in
            (d, among, inl refl, (eq_iff e.parent d.child).0 same)
        | inr there ↦
            let (b, among, mb, same) = next_level-Among ds e there in (b, among, inr mb, same)
      ]

  Among-next_level :
      (ds : List Edge) (d e : Edge)
      → Among d ds
      → Among e edges
      → e.parent ≡ d.child
      → Among e (next_level edges ds)
  Among-next_level [] d e md me same = absurd md
  Among-next_level (b ∷ ds) d e md me same = elim md [
    | inl p ↦
        Among-left (select (λ x. x.parent == b.child) edges) (next_level edges ds) e (
          Among-select (λ x. x.parent == b.child) edges me
            (rw p ((eq_iff e.parent d.child).1 same)))
    | inr q ↦
        Among-right (select (λ x. x.parent == b.child) edges) (next_level edges ds) e
          (Among-next_level ds d e q me same)
  ]

  levels_more :
      (fuel : ℕ) (d : Edge) (ds rest : List Edge)
      → levels fuel edges (next_level edges (d ∷ ds)) ≡ ok rest
      → levels (suc fuel) edges (d ∷ ds) ≡ ok ((d ∷ ds) ++ rest)
  unfolding levels
  levels_more fuel d ds rest e = rw (e, levels)

  -- With a level of fuel for each rank the query ends.
  levels_total :
      (rank : String → ℕ) (top k : ℕ) (fuel : ℕ) (ds : List Edge)
      → Climbs rank top edges
      → top < k + fuel
      → ((d : Edge) → Among d ds → (k < rank d.child) × (rank d.child ≤ top))
      → (out : List Edge) × (levels fuel edges ds ≡ ok out)
  unfolding levels
  levels_total rank top k zero [] climbs room low = ([], refl)
  levels_total rank top k (suc fuel) [] climbs room low = ([], refl)
  levels_total rank top k zero (d ∷ ds) climbs room low = absurd (omega (arith, low d (inl refl)))
  levels_total rank top k (suc fuel) (d ∷ ds) climbs room low =
      let (rest, run) =
        levels_total rank top (suc k) fuel (next_level edges (d ∷ ds)) climbs (omega arith) (λ e m.
          let (b, among, mb, same) = next_level-Among (d ∷ ds) e m in
          let above : suc k < rank e.child =
            omega (arith, climbs.up e among, subst (λ x. k < rank x) (sym same) (low b mb).0) in
          (above, climbs.bounded e among)) in
      ((d ∷ ds) ++ rest, levels_more fuel d ds rest run)

  levels_step :
      (fuel : ℕ) (d : Edge) (ds out : List Edge)
      → levels (suc fuel) edges (d ∷ ds) ≡ ok out
      → (rest : List Edge) × (levels fuel edges (next_level edges (d ∷ ds)) ≡ ok rest)
        × ((d ∷ ds) ++ rest ≡ out)
  unfolding levels
  levels_step fuel d ds out h =
      elim (Result-cases (levels fuel edges (next_level edges (d ∷ ds)))) [
        | inl (rest, e) ↦ (rest, e, cc (rw (e, levels) at h))
        | inr (err', e) ↦ absurd (cc (rw (e, levels) at h))
      ]

  -- What the query starts from is in its result, and with an edge every edge that follows it.
  levels-IsClosed :
      (fuel : ℕ) (ds out : List Edge)
      → levels fuel edges ds ≡ ok out
      → ((d : Edge) → Among d ds → Among d out)
        × ((d e : Edge) → Among d out → Among e edges → e.parent ≡ d.child → Among e out)
  unfolding levels
  levels-IsClosed zero [] out h =
      ((λ d m. absurd m), λ d e m. absurd (subst (λ l. Among d l) {y = []} (cc (h)) m))
  levels-IsClosed (suc fuel) [] out h =
      ((λ d m. absurd m), λ d e m. absurd (subst (λ l. Among d l) {y = []} (cc (h)) m))
  levels-IsClosed zero (b ∷ ds) out h = absurd (cc)
  levels-IsClosed (suc fuel) (b ∷ ds) out h =
      let (rest, run, whole) = levels_step fuel b ds out h in
      let (starts, closed) = levels-IsClosed fuel (next_level edges (b ∷ ds)) rest run in
      (
        λ d m. subst (λ l. Among d l) whole (Among-left (b ∷ ds) rest d m),
        λ d e m me same.
            subst (λ l. Among e l) whole
              (Among-right (b ∷ ds) rest e
                (elim (Among-append (b ∷ ds) rest d (subst (λ l. Among d l) (sym whole) m)) [
                  | inl first ↦ starts e (Among-next_level (b ∷ ds) d e first me same)
                  | inr later ↦ closed d e later me same
                ])),
      )

  -- Every edge of the result is one of the graph, and its child can be reached.
  levels-Reaches :
      (root : String) (fuel : ℕ) (ds out : List Edge)
      → levels fuel edges ds ≡ ok out
      → ((d : Edge) → Among d ds → Among d edges × Reaches edges root d.child)
      → (d : Edge) → Among d out
      → Among d edges × Reaches edges root d.child
  unfolding levels
  levels-Reaches root zero [] out h inv d m = absurd (subst (λ l. Among d l) {y = []} (cc (h)) m)
  levels-Reaches root (suc fuel) [] out h inv d m =
      absurd (subst (λ l. Among d l) {y = []} (cc (h)) m)
  levels-Reaches root zero (b ∷ ds) out h inv d m = absurd (cc)
  levels-Reaches root (suc fuel) (b ∷ ds) out h inv d m =
      let (rest, run, whole) = levels_step fuel b ds out h in
      elim (Among-append (b ∷ ds) rest d (subst (λ l. Among d l) (sym whole) m)) [
        | inl first ↦ inv d first
        | inr later ↦
            levels-Reaches root fuel (next_level edges (b ∷ ds)) rest run
              (λ e me.
                let (a, among, ma, same) = next_level-Among (b ∷ ds) e me in
                (
                  among,
                  further e (subst (λ x. Reaches edges root x) (sym same) (inv a ma).1) among refl,
                ))
              d later
      ]

-- More edges reach more.
Reaches-mono :
    (es fs : List Edge) (root : String)
    → ((e : Edge) → Among e es → Among e fs)
    → {x : String} → Reaches es root x
    → Reaches fs root x
Reaches-mono es fs root sub (child e m from to) = child e (sub e m) from to
Reaches-mono es fs root sub (further e r m to) =
    further e (Reaches-mono es fs root sub r) (sub e m) to

-- Rows that have the edges from the root, and with an edge all that follow it, reach as much.
Reaches-rows :
    (edges rows : List Edge) (root : String)
    → ((e : Edge) → Among e edges → e.parent ≡ root → Among e rows)
    → ((d e : Edge) → Among d rows → Among e edges → e.parent ≡ d.child → Among e rows)
    → {x : String} → Reaches edges root x
    → (d : Edge) × Among d rows × (d.child ≡ x) × Reaches rows root x
Reaches-rows edges rows root starts closed (child e m from to) =
    let here = starts e m from in (e, here, to, child e here from to)
Reaches-rows edges rows root starts closed (further e r m to) =
    let (d, md, same, before) = Reaches-rows edges rows root starts closed r in
    let here = closed d e md m (sym same) in (e, here, to, further e before here to)

-- The query on a graph that climbs: it ends, and by its rows the same nodes are reached as by all
-- the edges.
pub reachable_edges_iff :
    (rank : String → ℕ) (root : String) (fuel : ℕ) (edges : List Edge)
    → Climbs rank fuel edges
    → (rows : List Edge) × (reachable_edges (suc fuel) root edges ≡ ok rows)
      × ((e : Edge) → Among e rows → Among e edges)
      × ((x : String) → Reaches rows root x ↔ Reaches edges root x)
      × ((e : Edge) → Among e edges → Reaches edges root e.parent → Among e rows)
unfolding reachable_edges
reachable_edges_iff rank root fuel edges climbs =
    let first = select (λ e. e.parent == root) edges in
    let from_root : (d : Edge) → Among d first → Among d edges × (d.parent ≡ root) = λ d m.
      let (among, same) = select-Among (λ e. e.parent == root) edges m in
      (among, (eq_iff d.parent root).0 same) in
    let (rows, run) = levels_total edges rank fuel 0 (suc fuel) first climbs (omega arith) (λ d m.
      let among = (from_root d m).0 in
      (omega (arith, climbs.up d among), climbs.bounded d among)) in
    let sound =
      levels-Reaches edges root (suc fuel) first rows run
        (λ d m. ((from_root d m).0, child d (from_root d m).0 (from_root d m).1 refl)) in
    let (starts, closed) = levels-IsClosed edges (suc fuel) first rows run in
    let from : (e : Edge) → Among e edges → e.parent ≡ root → Among e rows = λ e m same.
      starts e (Among-select (λ x. x.parent == root) edges m ((eq_iff e.parent root).1 same)) in
    (
      rows,
      run,
      λ e m. (sound e m).0,
      λ x. (
        λ r. Reaches-mono rows edges root (λ e m. (sound e m).0) r,
        λ r. (Reaches-rows edges rows root from closed r).3,
      ),
      λ e m r.
          let (d, md, same, before) = Reaches-rows edges rows root from closed r in
          closed d e md m (sym same),
    )
