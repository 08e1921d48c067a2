-- ===== src/Workflow/Progress.antt =====
-- What the loop over the todos leaves behind.
use agent_backend.Prelude.{
  String, ◌≡◌, ◌≢◌, refl, sym, ap, ◌∙◌, inl, inr, Bool, true, false, Option, none, some, List, [],
  ◌∷◌, ◌++◌, ◌==◌, eq_iff, if◌then◌else◌, is_none, Bool-cases, arith,
}
use agent_backend.Json.{Json, str, Fields, end, field, get}
use agent_backend.Workflow.Compaction.{Compact}
use agent_backend.Workflow.Args.{Outputs}
use agent_backend.Workflow.State.{
  TodoItem, WorkflowState, Services, Settings, Response, set_field, set_default, merge_artifacts,
  set_output, final_response,
}
use agent_backend.Workflow.Steps.{
  Ending, returned, left, act, after_result, run_tool, compact_of, with_status, problem_of,
  compile_handoff, started, summarised, checked,
}

-- The todos before and after the loop, with the results of those that ran, in order; the last
-- index is the result that blocked the workflow, if one did.
pub data Trail : List TodoItem → List TodoItem → List Compact → Option Compact → Type 0 where
  no_more : Trail [] [] [] none
  handed_over :
      (t : TodoItem) (ts : List TodoItem) (c : Compact)
      → c.ok ≡ true
      → t.tool_name ≡ compile_handoff
      → Trail (t ∷ ts) (with_status "done" t ∷ ts) (c ∷ []) none
  was_blocked :
      (t : TodoItem) (ts : List TodoItem) (c : Compact)
      → c.ok ≡ false
      → Trail (t ∷ ts) (with_status "blocked" t ∷ ts) (c ∷ []) (some c)
  was_done :
      (t : TodoItem) (ts us : List TodoItem) (c : Compact) (cs : List Compact) (b : Option Compact)
      → c.ok ≡ true
      → t.tool_name ≢ compile_handoff
      → Trail ts us cs b
      → Trail (t ∷ ts) (with_status "done" t ∷ us) (c ∷ cs) b

-- Every entry of the first dict is in the second one.
pub record Extends (fs gs : Fields) : Type 0 where
  pub keeps : (k : String) (v : Json) → get k fs ≡ some v → get k gs ≡ some v

-- From `s` to `s'`, when the todos `ts` come after `passed`.
pub record Advanced (ts passed : List TodoItem) (s s' : WorkflowState) (b : Option Compact)
    : Type 0 where
  pub now : List TodoItem
  pub new_results : List Compact
  pub trail : Trail ts now new_results b
  pub todos : s'.todos ≡ passed ++ now
  pub results : s'.tool_results ≡ s.tool_results ++ new_results
  pub extends : Extends s.artifacts s'.artifacts

pub record Blocked (ts passed : List TodoItem) (s s' : WorkflowState) (r : Response) : Type 0 where
  pub result : Compact
  pub advanced : Advanced ts passed s s' (some result)
  pub errors : s'.errors ≡ s.errors ++ problem_of result ∷ []
  pub response : r ≡ final_response s' false result.status

pub record Passed (ts passed : List TodoItem) (s s' : WorkflowState) : Type 0 where
  pub advanced : Advanced ts passed s s' none
  pub errors : s'.errors ≡ s.errors

abbrev pub Acted : List TodoItem → List TodoItem → WorkflowState → Ending → Type 0
Acted ts passed s (returned s' r) = Blocked ts passed s s' r
Acted ts passed s (left s' outputs) = Passed ts passed s s'

append_assoc : {A : Type 0} (xs ys zs : List A) → (xs ++ ys) ++ zs ≡ xs ++ (ys ++ zs)
append_assoc [] ys zs = refl
append_assoc (x ∷ xs) ys zs = ap (λ l. x ∷ l) (append_assoc xs ys zs)

append_none : {A : Type 0} (xs : List A) → xs ++ [] ≡ xs
append_none [] = refl
append_none (x ∷ xs) = ap (λ l. x ∷ l) (append_none xs)

-- A new key leaves the entries of the others.
get-set_field :
    (k key : String) (v w : Json) (fs : Fields)
    → get key fs ≡ none
    → get k fs ≡ some v
    → get k (set_field key w fs) ≡ some v
unfolding get set_field
get-set_field k key v w end h e = absurd (cc)
get-set_field k key v w (field j x fs) h e =
    let rest = get-set_field k key v w fs in
    elim (Bool-cases (j == key)) [ inl p ↦ absurd (cc) | inr p ↦ ground (arith, rest) ]

is_none-none : {A : Type 0} (o : Option A) → is_none o ≡ true → o ≡ none
is_none-none none h = refl
is_none-none (some a) h = absurd (cc)

fresh-Extends :
    (key : String) (w : Json) (fs : Fields) (fresh : Bool)
    → is_none (get key fs) ≡ fresh
    → Extends fs (if fresh then set_field key w fs else fs)
fresh-Extends key w fs true h = record {
  keeps = λ k v e. get-set_field k key v w fs (is_none-none (get key fs) h) e;
}
fresh-Extends key w fs false h = record { keeps = λ k v e. e }

set_default-Extends : (key : String) (w : Json) (fs : Fields) → Extends fs (set_default key w fs)
unfolding set_default
set_default-Extends key w fs = fresh-Extends key w fs (is_none (get key fs)) refl

merge-Extends :
    (artifacts : List (String × String)) (fs : Fields) → Extends fs (merge_artifacts artifacts fs)
unfolding merge_artifacts
merge-Extends [] fs = record { keeps = λ k v e. e }
merge-Extends ((j, t) ∷ rest) fs = record {
  keeps = λ k v e.
      (merge-Extends rest (set_default j (str t) fs)).keeps k v
        ((set_default-Extends j (str t) fs).keeps k v e);
}

Extends-trans : (fs gs hs : Fields) → Extends fs gs → Extends gs hs → Extends fs hs
Extends-trans fs gs hs p q = record { keeps = λ k v e. q.keeps k v (p.keeps k v e) }

-- The step of a todo, before the steps of the rest.
Advanced-step :
    (t : TodoItem) (ts passed : List TodoItem) (c : Compact) (s s' s″ : WorkflowState)
    (b : Option Compact)
    → c.ok ≡ true
    → t.tool_name ≢ compile_handoff
    → s'.tool_results ≡ s.tool_results ++ c ∷ []
    → Extends s.artifacts s'.artifacts
    → Advanced ts (passed ++ with_status "done" t ∷ []) s' s″ b
    → Advanced (t ∷ ts) passed s s″ b
Advanced-step t ts passed c s s' s″ b is_ok other results extends a = record {
  now = with_status "done" t ∷ a.now;
  new_results = c ∷ a.new_results;
  trail = was_done t ts a.now c a.new_results b is_ok other a.trail;
  todos = a.todos ∙ append_assoc passed (with_status "done" t ∷ []) a.now;
  results =
      a.results
      ∙ ap (λ l. l ++ a.new_results) results
      ∙ append_assoc s.tool_results (c ∷ []) a.new_results;
  extends = Extends-trans s.artifacts s'.artifacts s″.artifacts extends a.extends;
}

Acted-step :
    (t : TodoItem) (ts passed : List TodoItem) (c : Compact) (s s' : WorkflowState) (e : Ending)
    → c.ok ≡ true
    → t.tool_name ≢ compile_handoff
    → s'.tool_results ≡ s.tool_results ++ c ∷ []
    → s'.errors ≡ s.errors
    → Extends s.artifacts s'.artifacts
    → Acted ts (passed ++ with_status "done" t ∷ []) s' e
    → Acted (t ∷ ts) passed s e
Acted-step t ts passed c s s' (returned s″ r) is_ok other results errors extends acted = record {
  result = acted.result;
  advanced =
      Advanced-step t ts passed c s s' s″ (some acted.result) is_ok other results extends
        acted.advanced;
  errors = acted.errors ∙ ap (λ es. es ++ problem_of acted.result ∷ []) errors;
  response = acted.response;
}
Acted-step t ts passed c s s' (left s″ outputs) is_ok other results errors extends acted = record {
  advanced = Advanced-step t ts passed c s s' s″ none is_ok other results extends acted.advanced;
  errors = acted.errors ∙ errors;
}

module _ {W : Type 0} (show : Json → String) (services : Services W) (settings : Settings) where
  after_result-Acted :
      (t : TodoItem) (ts passed : List TodoItem) (c : Compact) (outputs : Outputs)
      (s s' : WorkflowState) (w : W) (next : Outputs → WorkflowState → W → Ending × W)
      (ok handoff : Bool)
      → c.ok ≡ ok
      → (t.tool_name == compile_handoff) ≡ handoff
      → s'.todos ≡ passed ++ with_status (if ok then "done" else "blocked") t ∷ ts
      → s'.tool_results ≡ s.tool_results ++ c ∷ []
      → s'.errors ≡ s.errors
      → Extends s.artifacts s'.artifacts
      → ((outs : Outputs) (r : WorkflowState) (v : W)
          → r.todos ≡ (passed ++ with_status "done" t ∷ []) ++ ts
          → Acted ts (passed ++ with_status "done" t ∷ []) r (next outs r v).0)
      → Acted
          (t ∷ ts)
          passed
          s
          (after_result show services settings (ok, handoff) t c outputs s' w next).0
  after_result-Acted t ts passed c outputs s s' w next false handoff is_ok is_handoff todos results
        errors extends rest =
      record {
        result = c;
        advanced = record {
          now = with_status "blocked" t ∷ ts;
          new_results = c ∷ [];
          trail = was_blocked t ts c is_ok;
          todos = todos;
          results = results;
          extends = extends;
        };
        errors = ap (λ es. es ++ problem_of c ∷ []) errors;
        response = refl;
      }
  after_result-Acted t ts passed c outputs s s' w next true true is_ok is_handoff todos results
        errors extends rest =
      record {
        advanced = record {
          now = with_status "done" t ∷ ts;
          new_results = c ∷ [];
          trail = handed_over t ts c is_ok ((eq_iff t.tool_name compile_handoff).0 is_handoff);
          todos = todos;
          results = results;
          extends = extends;
        };
        errors = errors;
      }
  after_result-Acted t ts passed c outputs s s' w next true false is_ok is_handoff todos results
        errors extends rest =
      Acted-step t ts passed c s s' (next (set_output t.id c outputs) s' w).0 is_ok
        (λ e. absurd (cc (is_handoff, (eq_iff t.tool_name compile_handoff).1 e))) results errors
        extends
        (rest (set_output t.id c outputs) s' w
          (todos ∙ sym (append_assoc passed (with_status "done" t ∷ []) ts)))

  -- When the todos of the state are the passed and the remaining ones, the loop sets the statuses
  -- in order: "done" up to the end, up to a handoff that ends it, or up to the first result that is
  -- not ok, whose todo is "blocked"; the later todos stay as they are. One result is added for each
  -- todo that ran, the artifacts that were there are kept, and an error is added, and a response
  -- that is not ok returned, exactly if a result was not ok.
  pub act-Acted :
      (ts passed : List TodoItem) (outputs : Outputs) (s : WorkflowState) (w : W)
      → s.todos ≡ passed ++ ts
      → Acted ts passed s (act show services settings ts passed outputs s w).0
  unfolding act
  act-Acted [] passed outputs s w h = record {
    advanced = record {
      now = [];
      new_results = [];
      trail = no_more;
      todos = h;
      results = sym (append_none s.tool_results);
      extends = record { keeps = λ k v e. e };
    };
    errors = refl;
  }
  act-Acted (t ∷ ts) passed outputs s w h =
      let ran : Json × W =
        run_tool show services settings t outputs
          (services.save (started show services settings passed t ts s) w) in
      let c : Compact = compact_of show services settings t ran.0 in
      after_result-Acted t ts passed c (outputs) s
        (checked show services settings (
          summarised show services settings passed t ts c
            (started show services settings passed t ts s)))
        _ _ c.ok (t.tool_name == compile_handoff) refl refl refl refl refl
        (merge-Extends c.artifacts s.artifacts)
        (λ outs r v e. act-Acted ts (passed ++ with_status "done" t ∷ []) outs r v e)
