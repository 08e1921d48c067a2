-- ===== src/Workflow/Bounds.antt =====
-- The sizes of a compact result.
use Prim.Native.String.{[] as empty, ◌∷◌ as ◌∷ˢ◌}
use agent_backend.Prelude.{
  ℕ, zero, suc, ◌≤◌, String, ◌≡◌, refl, sym, ap, subst, Bool, true, false, Option, none, some,
  arith, ltb, take_text, text_length, length-take_text,
}
use agent_backend.Json.{Json, null, bool, num, str, arr, obj, Items, nil, cons, get}
use agent_backend.Workflow.Compaction.{
  Problem, Compact, at_least_one, take_items, compact_error, with_content, text_in, dict_of,
  compact_tool_result,
}

unfoldable pub count_items : Items → ℕ
count_items nil = 0
count_items (cons v vs) = suc (count_items vs)

count-take_items : (n : ℕ) (vs : Items) → count_items (take_items n vs) ≤ n
unfolding count_items take_items
count-take_items zero vs = omega arith
count-take_items (suc n) nil = omega arith
count-take_items (suc n) (cons v vs) = omega (arith, count-take_items n vs)

abbrev pub ErrorFits : Option Problem → Type 0
ErrorFits none = Unit
ErrorFits (some e) = (text_length e.code ≤ 120) × (text_length e.message ≤ 1000)

-- The preview has at most `n` characters of the content, and the result says that content is
-- omitted unless the preview is the whole of it.
pub data Preview (n : ℕ) (content : Option String) : Bool → Option String → Type 0 where
  left_out : Preview n content true none
  whole : (s : String) → content ≡ some s → text_length s ≤ n → Preview n content false (some s)
  start :
      (s : String)
      → content ≡ some s
      → suc n ≤ text_length s
      → Preview n content true (some (take_text n s))

pub record Fits (max_chars : ℕ) (content : Option String) (c : Compact) : Type 0 where
  pub summary : text_length c.summary ≤ 1000
  pub candidates : count_items c.top_candidates ≤ 10
  pub error : ErrorFits c.error
  pub preview : Preview (at_least_one max_chars) content c.content_omitted c.content_preview

take_text-whole : (n : ℕ) (s : String) → text_length s ≤ n → take_text n s ≡ s
unfolding take_text
take_text-whole zero empty h = refl
take_text-whole zero (c ∷ˢ s) h = absurd (omega (arith, h))
take_text-whole (suc n) empty h = refl
take_text-whole (suc n) (c ∷ˢ s) h = ap (λ r. c ∷ˢ r) (take_text-whole n s (omega (arith, h)))

cut-Preview :
    (n : ℕ) (s : String) (o : Option String) (b : Bool)
    → o ≡ some s
    → ltb n (text_length s) ≡ b
    → Preview n o b (some (take_text n s))
cut-Preview n s o true e h = start s e (ground (arith, h))
cut-Preview n s o false e h =
    let short : text_length s ≤ n = ground (arith, h) in
    subst (λ r. Preview n o false (some r)) (sym (take_text-whole n s short)) (whole s e short)

module _ (show : Json → String) where
  compact_error-ErrorFits : (o : Option Json) → ErrorFits (compact_error show o)
  compact_error-ErrorFits none = tt
  compact_error-ErrorFits (some (obj fs)) = (length-take_text 120 _, length-take_text 1000 _)
  compact_error-ErrorFits (some null) = tt
  compact_error-ErrorFits (some (bool b)) = tt
  compact_error-ErrorFits (some (num n)) = tt
  compact_error-ErrorFits (some (str s)) = tt
  compact_error-ErrorFits (some (arr vs)) = tt

  with_content-Fits :
      (b : Bool) (n : ℕ) (o : Option String) (c : Compact)
      → text_length c.summary ≤ 1000
      → count_items c.top_candidates ≤ 10
      → ErrorFits c.error
      → c.content_omitted ≡ true
      → c.content_preview ≡ none
      → Fits n o (with_content show b n o c)
  with_content-Fits true n (some s) c a k e m p = record {
    summary = a;
    candidates = k;
    error = e;
    preview =
        cut-Preview (at_least_one n) s (some s) (ltb (at_least_one n) (text_length s)) refl refl;
  }
  with_content-Fits true n none c a k e m p = record {
    summary = a;
    candidates = k;
    error = e;
    preview = rw (m, p) left_out;
  }
  with_content-Fits false n o c a k e m p = record {
    summary = a;
    candidates = k;
    error = e;
    preview = rw (m, p) left_out;
  }

  -- Whatever a tool returned, its compact result has a summary of at most 1000 characters, at most
  -- 10 candidates, and an error of at most 120 and 1000; it has no preview of the content, or one
  -- of at most max(1, max_chars) characters, and content_omitted is false only if the preview is
  -- the whole content.
  pub compact_tool_result-Fits :
      (tool_name : String) (raw : Json) (max_chars : ℕ) (include_content : Bool)
      → Fits max_chars
          (text_in (get "content" (dict_of (some raw))))
          (compact_tool_result show tool_name raw max_chars include_content)
  unfolding compact_tool_result
  compact_tool_result-Fits tool_name raw max_chars include_content =
      with_content-Fits include_content max_chars _ _ (length-take_text 1000 _)
        (count-take_items 10 _) (compact_error-ErrorFits _) refl refl
