-- ===== src/Workflow/Resolved.antt =====
-- With what arguments the runner calls the executor of the tools.
use agent_backend.Prelude.{
  ℕ, String, ◌≡◌, ◌≢◌, refl, ap, subst, inl, inr, Bool, true, false, Option, none, some, List, [],
  ◌∷◌, ◌++◌, lookup, partition, Attempt, done, raised, Option-cases,
}
use agent_backend.Json.{Json, null, bool, num, str, arr, obj, Fields, end, field, get}
use agent_backend.Workflow.Compaction.{Compact, text_of, with_content, compact_tool_result}
use agent_backend.Workflow.Args.{
  Outputs, is_marked, is_binding, segment, resolve_binding, bound_value, bind_value, bind_dict,
  resolve_value, and_rest, resolve_step_args,
}
use agent_backend.Workflow.State.{TodoItem, Services, Settings}
use agent_backend.Workflow.Steps.{run_tool, raw_of, call_resolved, compact_of, failed_raw}

-- The binding names a step that has run, and the text is in the part of its result that the path
-- names.
pub record IsBound (show : Json → String) (outputs : Outputs) (fs : Fields) (t : String)
    : Type 0 where
  pub from_step : Json
  pub path : Json
  pub result : Compact
  pub named : get "from_step" fs ≡ some from_step
  pub pathed : get "path" fs ≡ some path
  pub ran : lookup (text_of show from_step) outputs ≡ some result
  pub there :
      lookup (partition (text_of show path)).1 (segment result (partition (text_of show path)).0)
      ≡ some t

-- A value and what it becomes.
pub data Filled (show : Json → String) (outputs : Outputs) : Json → Json → Type 0 where
  kept : (v : Json) → is_binding v ≡ false → Filled show outputs v v
  bound :
      (fs : Fields) (t : String)
      → is_marked (get "__binding__" fs) ≡ true
      → IsBound show outputs fs t
      → Filled show outputs (obj fs) (str t)

pub data AllFilled (show : Json → String) (outputs : Outputs) : Fields → Fields → Type 0 where
  none_left : AllFilled show outputs end end
  and_field :
      (key : String) (v v' : Json) (fs gs : Fields)
      → Filled show outputs v v'
      → AllFilled show outputs fs gs
      → AllFilled show outputs (field key v fs) (field key v' gs)

module _ (show : Json → String) (outputs : Outputs) where
  binding-IsBound :
      (fs : Fields) (from_step path : Json) (t : String)
      → get "from_step" fs ≡ some from_step
      → get "path" fs ≡ some path
      → resolve_binding outputs (text_of show from_step) (text_of show path) ≡ some t
      → IsBound show outputs fs t
  unfolding resolve_binding
  binding-IsBound fs from_step path t f p h =
      elim (Option-cases (lookup (text_of show from_step) outputs)) [
        | inl e ↦ absurd (cc (rw (e, resolve_binding) at h))
        | inr (c, e) ↦ record {
          from_step = from_step;
          path = path;
          result = c;
          named = f;
          pathed = p;
          ran = e;
          there = rw (e, resolve_binding) at h;
        }
      ]

  bound_value-Filled :
      (step_id : String) (fs : Fields) (from_step path : Json) (o : Option String) (v : Json)
      → resolve_binding outputs (text_of show from_step) (text_of show path) ≡ o
      → is_marked (get "__binding__" fs) ≡ true
      → get "from_step" fs ≡ some from_step
      → get "path" fs ≡ some path
      → bound_value step_id (text_of show from_step) (text_of show path) o ≡ (v, [])
      → Filled show outputs (obj fs) v
  bound_value-Filled step_id fs from_step path none v e m f p h = absurd (cc)
  bound_value-Filled step_id fs from_step path (some t) v e m f p h =
      subst (λ x. Filled show outputs (obj fs) x) (ap (λ x. x.0) h)
        (bound fs t m (binding-IsBound fs from_step path t f p e))

  bind_value-Filled :
      (step_id : String) (fs : Fields) (from_step path : Option Json) (v : Json)
      → is_marked (get "__binding__" fs) ≡ true
      → get "from_step" fs ≡ from_step
      → get "path" fs ≡ path
      → bind_value show outputs step_id from_step path ≡ done (v, [])
      → Filled show outputs (obj fs) v
  bind_value-Filled step_id fs none path v m f p h = absurd (cc)
  bind_value-Filled step_id fs (some from_step) none v m f p h = absurd (cc)
  bind_value-Filled step_id fs (some from_step) (some path) v m f p h =
      bound_value-Filled step_id fs from_step path
        (resolve_binding outputs (text_of show from_step) (text_of show path)) v refl m f p (cc (h))

  bind_dict-Filled :
      (step_id : String) (fs : Fields) (b : Bool) (v : Json)
      → is_marked (get "__binding__" fs) ≡ b
      → bind_dict show outputs step_id b fs ≡ done (v, [])
      → Filled show outputs (obj fs) v
  bind_dict-Filled step_id fs true v m h =
      bind_value-Filled step_id fs (get "from_step" fs) (get "path" fs) v m refl refl h
  bind_dict-Filled step_id fs false v m h =
      subst (λ x. Filled show outputs (obj fs) x) (cc (h)) (kept (obj fs) m)

  resolve_value-Filled :
      (step_id : String) (v v' : Json)
      → resolve_value show outputs step_id v ≡ done (v', [])
      → Filled show outputs v v'
  resolve_value-Filled step_id (obj fs) v' h =
      bind_dict-Filled step_id fs (is_marked (get "__binding__" fs)) v' refl h
  resolve_value-Filled step_id null v' h =
      subst (λ x. Filled show outputs null x) (cc (h)) (kept null refl)
  resolve_value-Filled step_id (bool b) v' h =
      subst (λ x. Filled show outputs (bool b) x) (cc (h)) (kept (bool b) refl)
  resolve_value-Filled step_id (num n) v' h =
      subst (λ x. Filled show outputs (num n) x) (cc (h)) (kept (num n) refl)
  resolve_value-Filled step_id (str s) v' h =
      subst (λ x. Filled show outputs (str s) x) (cc (h)) (kept (str s) refl)
  resolve_value-Filled step_id (arr vs) v' h =
      subst (λ x. Filled show outputs (arr vs) x) (cc (h)) (kept (arr vs) refl)

  append_empty : (xs ys : List String) → xs ++ ys ≡ [] → (xs ≡ []) × (ys ≡ [])
  append_empty [] ys h = (refl, h)
  append_empty (x ∷ xs) ys h = absurd (cc)

  and_rest-AllFilled :
      (key : String) (v : Json) (fs gs : Fields) (here : Attempt (Json × List String))
      (rest : Attempt (Fields × List String))
      → ((v' : Json) → here ≡ done (v', []) → Filled show outputs v v')
      → ((gs' : Fields) → rest ≡ done (gs', []) → AllFilled show outputs fs gs')
      → and_rest show outputs "" key here rest ≡ done (gs, [])
      → AllFilled show outputs (field key v fs) gs
  and_rest-AllFilled key v fs gs (raised e) rest p q h = absurd (cc)
  and_rest-AllFilled key v fs gs (done r) (raised e) p q h = absurd (cc)
  and_rest-AllFilled key v fs gs (done (v', failures)) (done (gs', more)) p q h =
      let same : field key v' gs' ≡ gs = cc (h) in
      let none_of : failures ++ more ≡ [] = cc (h) in
      let parts = append_empty failures more none_of in
      subst (λ x. AllFilled show outputs (field key v fs) x) same
        (and_field key v v' fs gs' (p v' (ap (λ l. done (v', l)) parts.0))
          (q gs' (ap (λ l. done (gs', l)) parts.1)))

  resolve_step_args-AllFilled :
      (step_id : String) (fs gs : Fields)
      → resolve_step_args show outputs step_id fs ≡ done (gs, [])
      → AllFilled show outputs fs gs
  unfolding resolve_step_args
  resolve_step_args-AllFilled step_id end gs h =
      subst (λ x. AllFilled show outputs end x) (cc (h)) none_left
  resolve_step_args-AllFilled step_id (field key v fs) gs h =
      and_rest-AllFilled key v fs gs (resolve_value show outputs step_id v)
        (resolve_step_args show outputs step_id fs) (resolve_value-Filled step_id v)
        (resolve_step_args-AllFilled step_id fs) h

module _ (show : Json → String) (outputs : Outputs) where
  bound-run :
      (step_id : String) (fs : Fields) (t : String)
      → is_marked (get "__binding__" fs) ≡ true
      → IsBound show outputs fs t
      → resolve_value show outputs step_id (obj fs) ≡ done (str t, [])
  unfolding resolve_binding
  bound-run step_id fs t m b =
      let found : resolve_binding outputs (text_of show b.from_step) (text_of show b.path)
          ≡ some t =
        rw (resolve_binding, b.ran) b.there in
      rw (resolve_value, bind_dict, m, b.named, b.pathed, bind_value, found) refl

  Filled-resolve :
      (step_id : String) (v v' : Json)
      → Filled show outputs v v'
      → resolve_value show outputs step_id v ≡ done (v', [])
  Filled-resolve step_id _ _ (kept (obj fs) m) = rw (resolve_value, m) refl
  Filled-resolve step_id _ _ (kept null m) = refl
  Filled-resolve step_id _ _ (kept (bool b) m) = refl
  Filled-resolve step_id _ _ (kept (num n) m) = refl
  Filled-resolve step_id _ _ (kept (str s) m) = refl
  Filled-resolve step_id _ _ (kept (arr vs) m) = refl
  Filled-resolve step_id _ _ (bound fs t m b) = bound-run step_id fs t m b

  AllFilled-resolve :
      (step_id : String) (fs gs : Fields)
      → AllFilled show outputs fs gs
      → resolve_step_args show outputs step_id fs ≡ done (gs, [])
  unfolding resolve_step_args
  AllFilled-resolve step_id _ _ none_left = refl
  AllFilled-resolve step_id _ _ (and_field key v v' fs gs f h) =
      rw (Filled-resolve step_id v v' f, AllFilled-resolve step_id fs gs h) refl

module _ {W : Type 0} (show : Json → String) (services : Services W) (settings : Settings) where
  -- What a step does to the world, and its raw result.
  pub data Called (t : TodoItem) (outputs : Outputs) (w : W) : Json × W → Type 0 where
    called :
        (gs : Fields)
        → AllFilled show outputs t.args gs
        → Called t outputs w (raw_of show services settings (services.call_tool t.tool_name gs w))
    not_called :
        (raw : Json)
        → ((gs : Fields) → ¬ AllFilled show outputs t.args gs)
        → (compact_of show services settings t raw).ok ≡ false
        → Called t outputs w (raw, w)

  with_content-ok :
      (b : Bool) (n : ℕ) (o : Option String) (c : Compact) → (with_content show b n o c).ok ≡ c.ok
  with_content-ok true n (some s) c = refl
  with_content-ok true n none c = refl
  with_content-ok false n o c = refl

  failed_raw-ok :
      (t : TodoItem) (status summary code message : String)
      → (compact_of show services settings t (failed_raw status summary code message)).ok ≡ false
  unfolding compact_of compact_tool_result get
  failed_raw-ok t status summary code message = with_content-ok _ _ _ _

  -- What was resolved is the only way to fill the arguments.
  unfillable :
      (t : TodoItem) (outputs : Outputs) (a : Attempt (Fields × List String))
      → resolve_step_args show outputs t.id t.args ≡ a
      → ((gs : Fields) → a ≢ done (gs, []))
      → (gs : Fields) → ¬ AllFilled show outputs t.args gs
  unfillable t outputs a e h gs f = h gs (cc (e, AllFilled-resolve show outputs t.id t.args gs f))

  call_resolved-Called :
      (t : TodoItem) (outputs : Outputs) (w : W) (a : Attempt (Fields × List String))
      → resolve_step_args show outputs t.id t.args ≡ a
      → Called t outputs w (call_resolved show services settings t a w)
  call_resolved-Called t outputs w (raised x) e =
      not_called _ (unfillable t outputs (raised x) e (λ gs h. absurd (cc (h))))
        (failed_raw-ok t _ _ _ _)
  call_resolved-Called t outputs w (done (gs, [])) e =
      called gs (resolve_step_args-AllFilled show outputs t.id t.args gs e)
  call_resolved-Called t outputs w (done (gs, f ∷ fs)) e =
      not_called _
        (unfillable t outputs (done (gs, f ∷ fs)) e
          (λ gs' h. let nothing : f ∷ fs ≡ [] = cc (h) in absurd (cc (nothing))))
        (failed_raw-ok t _ _ _ _)

  -- If every binding among the arguments of a step names a step that has run and a text in its
  -- result, the step calls its tool, with each of them replaced by that text and the other
  -- arguments as they are, and what the tool gives is the raw result; otherwise nothing is called,
  -- the world stays as it is and the result is not ok.
  pub run_tool-Called :
      (t : TodoItem) (outputs : Outputs) (w : W)
      → Called t outputs w (run_tool show services settings t outputs w)
  unfolding run_tool
  run_tool-Called t outputs w =
      call_resolved-Called t outputs w (resolve_step_args show outputs t.id t.args) refl
