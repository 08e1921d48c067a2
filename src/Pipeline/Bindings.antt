-- ===== src/Pipeline/Bindings.antt =====
-- What the checks of a definition leave of its bindings
-- (backend/python-daemon/orchestrator/pipeline/compiler.py).
use agent_backend.Prelude.{
  String, ◌≡◌, refl, ◌≢◌, ◌⊎◌, inl, inr, Bool, true, false, not, List, [], ◌∷◌, arith, ◌==◌, eq_iff,
  elem, subst,
}
use agent_backend.Sql.Rows.{Among}
use agent_backend.Pipeline.Models.{
  Arg, binding, Args, none_left, arg, PipelineStep, CompileError, Outcome, done, failed,
}
use agent_backend.Pipeline.Compiler.{
  then_do, check, precedes, check_binding, check_args, validate_bindings,
}

pub then_do-done :
    {A B : Type 0} (m : Outcome A) (f : A → Outcome B) {b : B}
    → then_do m f ≡ done b
    → (a : A) × (m ≡ done a) × (f a ≡ done b)
then_do-done (done a) f h = (a, refl, h)
then_do-done (failed e) f h = absurd (cc)

pub check-done : (b : Bool) (e : CompileError) {u : Unit {0}} → check b e ≡ done u → b ≡ true
check-done true e h = refl
check-done false e h = absurd (cc)

-- The argument stands at the top of the arguments.
abbrev pub IsArg : String → Arg → Args → Type 0
IsArg key value none_left = ⊥
IsArg key value (arg k v rest) = ((k ≡ key) × (v ≡ value)) ⊎ IsArg key value rest

-- The binding of an argument to an earlier step.
pub record IsBound (order : List String) (s : PipelineStep) (from_step : String) : Type 0 where
  pub is_another : from_step ≢ s.step_id
  pub is_declared : elem from_step s.depends_on ≡ true
  pub is_earlier : precedes order from_step s.step_id ≡ true

check_binding-IsBound :
    (step_ids order : List String) (s : PipelineStep) (key from_step : String) {u : Unit {0}}
    → check_binding step_ids order s key from_step ≡ done u
    → IsBound order s from_step
unfolding check_binding
check_binding-IsBound step_ids order s key from_step h =
    let (_, a, h1) = then_do-done (check (not (from_step == s.step_id)) _) _ h in
    let (_, b, h2) = then_do-done (check (elem from_step step_ids) _) _ h1 in
    let (_, c, h3) = then_do-done (check (precedes order from_step s.step_id) _) _ h2 in
    record {
      is_another = λ e. absurd (ground (arith, check-done _ _ a, (eq_iff from_step s.step_id).1 e));
      is_declared = check-done _ _ h3;
      is_earlier = check-done _ _ c;
    }

check_args-IsBound :
    (step_ids order : List String) (s : PipelineStep) (args : Args) {u : Unit {0}}
    → check_args step_ids order s args ≡ done u
    → (key from_step path : String) → IsArg key (binding from_step path) args
    → IsBound order s from_step
unfolding check_args
check_args-IsBound step_ids order s none_left h key from_step path m = absurd m
check_args-IsBound step_ids order s (arg k (binding f p) rest) h key from_step path m =
    let (_, a, h1) = then_do-done (check_binding step_ids order s k f) _ h in
    elim m [
      | inl e ↦
          let same : f ≡ from_step = cc (e.1) in
          subst (IsBound order s) same (check_binding-IsBound step_ids order s k f a)
      | inr m' ↦ check_args-IsBound step_ids order s rest h1 key from_step path m'
    ]
check_args-IsBound step_ids order s (arg k v rest) h key from_step path m = elim m [
  | inl e ↦ absurd (cc (e.1))
  | inr m' ↦ check_args-IsBound step_ids order s rest h key from_step path m'
]

pub validate_bindings-IsBound :
    (step_ids order : List String) (steps : List PipelineStep) {u : Unit {0}}
    → validate_bindings step_ids order steps ≡ done u
    → (s : PipelineStep) → Among s steps
    → (key from_step path : String) → IsArg key (binding from_step path) s.args_template
    → IsBound order s from_step
unfolding validate_bindings
validate_bindings-IsBound step_ids order [] h s m key from_step path is = absurd m
validate_bindings-IsBound step_ids order (t ∷ ts) h s m key from_step path is =
    let (_, a, h1) = then_do-done (check_args step_ids order t t.args_template) _ h in
    elim m [
      | inl e ↦
          check_args-IsBound step_ids order s s.args_template (rw e at a) key from_step path is
      | inr m' ↦ validate_bindings-IsBound step_ids order ts h1 s m' key from_step path is
    ]
