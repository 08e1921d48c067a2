-- ===== src/Pipeline/Ordering.antt =====
-- The steps in the order of the plan
-- (backend/python-daemon/orchestrator/pipeline/compiler.py).
use agent_backend.Prelude.{
  String, ◌≡◌, refl, inl, inr, true, false, none, List, [], ◌∷◌, map, arith, elem, any,
  Option-cases, sym, ◌∙◌, ap, subst, Result, ok, err,
}
use agent_backend.Sql.{find, find-key}
use agent_backend.Sql.Rows.{Among, IsUnique, Among-find}
use agent_backend.Dag.Descend.{static_order}
use agent_backend.Dag.Order.{names}
use agent_backend.Pipeline.Models.{PipelineStep, done}
use agent_backend.Pipeline.Compiler.{ids, all_different, node_of_step, pick, topological_order}
use agent_backend.Pipeline.Bindings.{then_do-done}

pick-ids :
    (steps : List PipelineStep) (ks : List String) {ss : List PipelineStep}
    → pick steps ks ≡ done ss
    → (ids ss ≡ ks) × ((s : PipelineStep) → Among s ss → Among s steps)
unfolding pick
pick-ids steps [] {ss} h =
    let none_picked : [] ≡ ss = cc in
    subst (λ x. (ids x ≡ []) × ((s : PipelineStep) → Among s x → Among s steps)) none_picked
      (refl, λ s m. absurd m)
pick-ids steps (k ∷ ks) {ss} h = elim (Option-cases (find (λ s. s.step_id) k steps)) [
  | inl e ↦ absurd (cc (rw (e, pick) at h))
  | inr (s, e) ↦
      let (rest, a, b) = then_do-done (pick steps ks) _ (rw (e, pick) at h) in
      let (same, sub) = pick-ids steps ks a in
      let whole : s ∷ rest ≡ ss = cc in
      subst (λ x. (ids x ≡ k ∷ ks) × ((u : PipelineStep) → Among u x → Among u steps)) whole
        (
          cc (find-key (λ (s : PipelineStep). s.step_id) k steps e, same),
          λ u m. elim m [
            | inl is ↦
                subst (λ x. Among x steps) is
                  (Among-find (λ (s : PipelineStep). s.step_id) k steps e)
            | inr later ↦ sub u later
          ],
        )
]

pub names-nodes : (steps : List PipelineStep) → names (map node_of_step steps) ≡ ids steps
names-nodes [] = refl
names-nodes (s ∷ ss) = ap (λ ks. s.step_id ∷ ks) (names-nodes ss)

fresh :
    (k : String) (steps : List PipelineStep)
    → elem k (ids steps) ≡ false
    → find (λ n. n.name) k (map node_of_step steps) ≡ none
unfolding elem any find
fresh k [] h = refl
fresh k (s ∷ ss) h = ground (arith, fresh k ss)

pub all_different-IsUnique :
    (steps : List PipelineStep)
    → all_different (ids steps) ≡ true
    → IsUnique (λ n. n.name) (map node_of_step steps)
unfolding all_different
all_different-IsUnique [] h = tt
all_different-IsUnique (s ∷ ss) h =
    (ground (arith, fresh s.step_id ss), all_different-IsUnique ss (ground arith))

pub topological_order-ok :
    (steps : List PipelineStep) {ordered : List PipelineStep}
    → topological_order steps ≡ done ordered
    → (static_order (map node_of_step steps) ≡ ok (ids ordered))
      × ((s : PipelineStep) → Among s ordered → Among s steps)
unfolding topological_order
topological_order-ok steps {ordered} h = go (static_order (map node_of_step steps)) refl
  where
    go :
        (r : Result (List String))
        → static_order (map node_of_step steps) ≡ r
        → (static_order (map node_of_step steps) ≡ ok (ids ordered))
          × ((s : PipelineStep) → Among s ordered → Among s steps)
    go (err x) e = absurd (cc (rw (e, topological_order) at h))
    go (ok out) e =
        let (same, sub) = pick-ids steps out (rw (e, topological_order) at h) in
        (e ∙ ap ok (sym same), sub)
