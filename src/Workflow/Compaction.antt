-- ===== src/Workflow/Compaction.antt =====
-- `compact_tool_result`
-- (backend/python-daemon/orchestrator/agent_workflow/compaction.py).
use agent_backend.Prelude.{
  ℕ, zero, suc, String, Bool, true, false, not, Option, none, some, List, [], ◌∷◌, ◌==◌, ltb,
  take_text, text_length, if◌then◌else◌,
}
use agent_backend.Json.{
  Json, null, bool, num, str, arr, obj, Items, nil, cons, Fields, end, field, get,
}

-- The entry `error` of a compact result, and an entry of `state.errors`.
pub record Problem : Type 0 where
  pub code : String
  pub message : String

-- A compact result; `content_preview` may be missing from it.
pub record Compact : Type 0 where
  pub ok : Bool
  pub status : String
  pub summary : String
  pub artifacts : List (String × String)
  pub top_candidates : Items
  pub recommended_next_tool : String
  pub content_omitted : Bool
  pub error : Option Problem
  pub content_preview : Option String

-- bool(v)
abbrev pub truthy : Json → Bool
truthy null = false
truthy (bool b) = b
truthy (num zero) = false
truthy (num (suc n)) = true
truthy (str s) = not (s == "")
truthy (arr nil) = false
truthy (arr (cons v vs)) = true
truthy (obj end) = false
truthy (obj (field k v fs)) = true

-- `v or w`, where a missing entry is None.
abbrev pub or_else : Option Json → Json → Json
or_else none w = w
or_else (some v) w = if truthy v then v else w

-- payload.get(key, w)
abbrev pub get_or : String → Json → Fields → Json
get_or key w fs = elim (get key fs) [ none ↦ w | some v ↦ v ]

-- isinstance(v, dict), isinstance(v, list), isinstance(v, str)
abbrev pub dict_of : Option Json → Fields
dict_of (some (obj fs)) = fs
dict_of _ = end

abbrev pub list_of : Option Json → Items
list_of (some (arr vs)) = vs
list_of _ = nil

abbrev pub text_in : Option Json → Option String
text_in (some (str s)) = some s
text_in _ = none

-- vs[:n]
unfoldable pub take_items : ℕ → Items → Items
take_items zero vs = nil
take_items (suc n) nil = nil
take_items (suc n) (cons v vs) = cons v (take_items n vs)

-- max(1, n)
abbrev pub at_least_one : ℕ → ℕ
at_least_one zero = 1
at_least_one (suc n) = suc n

-- `show` is Python's `str` of a value that is no text.
module _ (show : Json → String) where
  -- str(v)
  abbrev pub text_of : Json → String
  text_of (str s) = s
  text_of v = show v

  abbrev pub compact_error : Option Json → Option Problem
  compact_error (some (obj fs)) = some (record {
    code = take_text 120 (text_of (get_or "code" (str "") fs));
    message = take_text 1000 (text_of (get_or "message" (str "") fs));
  })
  compact_error _ = none

  -- {str(key): str(value) for key, value in artifacts_raw.items() if value is not None}
  unfoldable pub artifacts_of : Fields → List (String × String)
  artifacts_of end = []
  artifacts_of (field k null fs) = artifacts_of fs
  artifacts_of (field k v fs) = (k, text_of v) ∷ artifacts_of fs

  -- The last `if` of the function.
  abbrev pub with_content : Bool → ℕ → Option String → Compact → Compact
  with_content true max_chars (some content) c = record c {
    content_preview = some (take_text (at_least_one max_chars) content);
    content_omitted = ltb (at_least_one max_chars) (text_length content);
  }
  with_content _ max_chars content c = c

  abbrev pub summary_of : String → Fields → Json
  summary_of tool_name payload =
      or_else (get "summary" payload)
        (or_else (get "message" payload) (or_else (get "status" payload) (str tool_name)))

  unfoldable pub compact_tool_result : String → Json → ℕ → Bool → Compact
  unfolding get artifacts_of take_items take_text
  compact_tool_result tool_name raw max_chars include_content =
      let payload = dict_of (some raw) in
      with_content include_content max_chars (text_in (get "content" payload)) (record {
        ok = truthy (get_or "ok" (bool false) payload);
        status = text_of (get_or "status" (str "ERROR") payload);
        summary = take_text 1000 (text_of (summary_of tool_name payload));
        artifacts = artifacts_of (dict_of (get "artifacts" payload));
        top_candidates = take_items 10 (list_of (get "top_candidates" payload));
        recommended_next_tool = text_of (get_or "recommended_next_tool" (str "") payload);
        content_omitted = true;
        error = compact_error (get "error" payload);
        content_preview = none;
      })
