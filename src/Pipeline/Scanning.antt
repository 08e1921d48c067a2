-- ===== src/Pipeline/Scanning.antt =====
-- The machine loses no character and finds every occurrence
-- (backend/python-daemon/orchestrator/pipeline/compiler.py).
use Prim.Native.Char.{Char, code}
use Prim.Native.String.{String, [] as empty, ◌∷◌ as ◌∷ˢ◌, ◌++◌ as ◌++ˢ◌}
use text.Mathlib.TextLemmas.{nil-append, cons-append, append-nil, append_assoc}
use text.Mathlib.TextEquality.{Char-path}
use agent_backend.Prelude.{
  ◌≡◌, refl, inl, inr, Bool, true, false, ◌&&◌, List, [], ◌∷◌, ◌++◌, arith, eqb, Bool-cases, ap,
  sym, ◌∙◌, elem, any, any-append, ==-self, eq_iff, ◌==◌, ◌↔◌,
}
use agent_backend.Pipeline.Variables.{
  Piece, literal, variable, Scan, outside, dollar, opened, named, is_start, is_part, literals,
  restart, step, held, scan, pieces, variables, render, occurrence, substitute,
}

module _ (value : String → String) where
  render-append :
      (ps qs : List Piece) → render value (ps ++ qs) ≡ render value ps ++ˢ render value qs
  unfolding render
  render-append [] qs = sym (nil-append (render value qs))
  render-append (literal c ∷ ps) qs = rw (render-append ps qs, cons-append)
  render-append (variable name ∷ ps) qs = rw (render-append ps qs, append_assoc)

  render-literals : (s : String) → render value (literals s) ≡ s
  unfolding render
  render-literals empty = refl
  render-literals (c ∷ˢ s) = rw (render-literals s)

abbrev pub written : List Piece → String
written = render occurrence

dollar_sign : (c : Char) → eqb (code c) b'$' ≡ true → c ≡ "$"
dollar_sign c h = Char-path c "$" (ground arith)

open_brace : (c : Char) → eqb (code c) b'{' ≡ true → c ≡ "{"
open_brace c h = Char-path c "{" (ground arith)

close_brace : (c : Char) → eqb (code c) b'}' ≡ true → c ≡ "}"
close_brace c h = Char-path c "}" (ground arith)

restart-written :
    (read : String) (c : Char)
    → written (restart read c).0 ++ˢ held (restart read c).1 ≡ read ++ˢ (c ∷ˢ empty)
unfolding restart render
restart-written read c = elim (Bool-cases (eqb (code c) b'$')) [
  | inl e ↦ rw (e, render-literals occurrence read, dollar_sign c e)
  | inr e ↦
      rw (e, render-append occurrence (literals read), render-literals occurrence read, append-nil)
]

step-written :
    (state : Scan) (c : Char)
    → written (step state c).0 ++ˢ held (step state c).1 ≡ held state ++ˢ (c ∷ˢ empty)
unfolding step render
step-written outside c = restart-written "" c
step-written dollar c = elim (Bool-cases (eqb (code c) b'{')) [
  | inl e ↦ rw (e, open_brace c e)
  | inr e ↦ rw e (restart-written "$" c)
]
step-written opened c = elim (Bool-cases (is_start c)) [
  | inl e ↦ rw (e, nil-append)
  | inr e ↦ rw e (restart-written "${" c)
]
step-written (named name) c = elim (Bool-cases (is_part c)) [
  | inl e ↦ rw (e, nil-append, append_assoc)
  | inr e ↦ elim (Bool-cases (eqb (code c) b'}')) [
    | inl f ↦
        rw (e, f, close_brace c f) (append-nil _ ∙ append-nil _ ∙ sym (append_assoc "${" name "}"))
    | inr f ↦ rw (e, f) (restart-written ("${" ++ˢ name) c)
  ]
]

scan-written : (state : Scan) (s : String) → written (scan state s) ≡ held state ++ˢ s
unfolding scan
scan-written state empty = render-literals occurrence (held state) ∙ sym (append-nil (held state))
scan-written state (c ∷ˢ s) =
    render-append occurrence (step state c).0 (scan (step state c).1 s)
    ∙ ap (λ t. written (step state c).0 ++ˢ t) (scan-written (step state c).1 s)
    ∙ sym (append_assoc (written (step state c).0) (held (step state c).1) s)
    ∙ ap (λ t. t ++ˢ s) (step-written state c)
    ∙ append_assoc (held state) (c ∷ˢ empty) s
    ∙ ap (λ t. held state ++ˢ t) (cons-append c empty s ∙ ap (λ t. c ∷ˢ t) (nil-append s))

-- The pieces of a text are the text.
pub pieces-written : (s : String) → written (pieces s) ≡ s
unfolding pieces
pieces-written s = scan-written outside s ∙ nil-append s

abbrev all_parts : String → Bool
all_parts empty = true
all_parts (c ∷ˢ s) = is_part c && all_parts s

-- [A-Za-z_][A-Za-z0-9_]*
abbrev pub is_name : String → Bool
is_name empty = false
is_name (c ∷ˢ s) = is_start c && all_parts s

variables-append : (ps qs : List Piece) → variables (ps ++ qs) ≡ variables ps ++ variables qs
variables-append [] qs = refl
variables-append (literal c ∷ ps) qs = variables-append ps qs
variables-append (variable name ∷ ps) qs = ap (λ ns. name ∷ ns) (variables-append ps qs)

elem-later :
    (k : String) (ps qs : List Piece)
    → elem k (variables qs) ≡ true
    → elem k (variables (ps ++ qs)) ≡ true
unfolding elem
elem-later k ps qs h =
    rw (variables-append ps qs, any-append (λ x. x == k) (variables ps) (variables qs))
      (ground arith)

-- After a dollar sign the machine stands behind it, wherever it was.
step-dollar : (state : Scan) → (step state "$").1 ≡ dollar
unfolding step restart
step-dollar outside = refl
step-dollar dollar = refl
step-dollar opened = refl
step-dollar (named name) = refl

close_text : (s : String) → "}" ++ˢ s ≡ "}" ∷ˢ s
close_text s = cons-append "}" empty s ∙ ap (λ t. "}" ∷ˢ t) (nil-append s)

open_text : (s : String) → "${" ++ˢ s ≡ "$" ∷ˢ ("{" ∷ˢ s)
open_text s =
    cons-append "$" "{" s
    ∙ ap (λ t. "$" ∷ˢ t) (cons-append "{" empty s ∙ ap (λ t. "{" ∷ˢ t) (nil-append s))

scan-name :
    (read rest s : String)
    → all_parts rest ≡ true
    → elem (read ++ˢ rest) (variables (scan (named read) (rest ++ˢ ("}" ∷ˢ s)))) ≡ true
unfolding scan step elem any
scan-name read empty s h = rw (nil-append ("}" ∷ˢ s), append-nil read, ==-self read) refl
scan-name read (c ∷ˢ rest) s h =
    let part : is_part c ≡ true = ground arith in
    let next = read ++ˢ (c ∷ˢ empty) in
    let whole : next ++ˢ rest ≡ read ++ˢ (c ∷ˢ rest) =
      append_assoc read (c ∷ˢ empty) rest
      ∙ ap (λ t. read ++ˢ t) (cons-append c empty rest ∙ ap (λ t. c ∷ˢ t) (nil-append rest)) in
    let went : scan (named read) (c ∷ˢ (rest ++ˢ ("}" ∷ˢ s)))
        ≡ scan (named next) (rest ++ˢ ("}" ∷ˢ s)) =
      rw part refl in
    let more = scan-name next rest s (ground arith) in
    rw (cons-append c rest ("}" ∷ˢ s), went, ← whole) more

-- Right behind "${", a name up to its brace is found.
scan-occurrence :
    (name s : String)
    → is_name name ≡ true
    → elem name (variables (scan dollar ("{" ∷ˢ (name ++ˢ ("}" ∷ˢ s))))) ≡ true
unfolding scan step
scan-occurrence empty s h = absurd (cc)
scan-occurrence (c ∷ˢ rest) s h =
    let start : is_start c ≡ true = ground arith in
    let whole : (c ∷ˢ empty) ++ˢ rest ≡ c ∷ˢ rest =
      cons-append c empty rest ∙ ap (λ t. c ∷ˢ t) (nil-append rest) in
    let went : scan opened (c ∷ˢ (rest ++ˢ ("}" ∷ˢ s)))
        ≡ scan (named (c ∷ˢ empty)) (rest ++ˢ ("}" ∷ˢ s)) =
      rw start refl in
    let more = scan-name (c ∷ˢ empty) rest s (ground arith) in
    rw (cons-append c rest ("}" ∷ˢ s), went, ← whole) more

scan-finds :
    (state : Scan) (before name after : String)
    → is_name name ≡ true
    → elem name (variables (scan state (before ++ˢ (occurrence name ++ˢ after)))) ≡ true
unfolding scan
scan-finds state empty name after h =
    let text : occurrence name ++ˢ after ≡ "$" ∷ˢ ("{" ∷ˢ (name ++ˢ ("}" ∷ˢ after))) =
      append_assoc "${" (name ++ˢ "}") after
      ∙ open_text ((name ++ˢ "}") ++ˢ after)
      ∙ ap (λ t. "$" ∷ˢ ("{" ∷ˢ t))
          (append_assoc name "}" after ∙ ap (λ t. name ++ˢ t) (close_text after)) in
    rw (nil-append (occurrence name ++ˢ after), text)
      (elem-later name (step state "$").0 _ (rw (step-dollar state) (scan-occurrence name after h)))
scan-finds state (c ∷ˢ before) name after h =
    rw (cons-append c before (occurrence name ++ˢ after))
      (elem-later name (step state c).0 _ (scan-finds (step state c).1 before name after h))

elem-written :
    (name : String) (ps : List Piece)
    → elem name (variables ps) ≡ true
    → (before after : String) × (written ps ≡ before ++ˢ (occurrence name ++ˢ after))
unfolding elem any render
elem-written name [] h = absurd (cc)
elem-written name (literal c ∷ ps) h =
    let (a, b, e) = elem-written name ps h in
    (c ∷ˢ a, b, ap (λ t. c ∷ˢ t) e ∙ sym (cons-append c a (occurrence name ++ˢ b)))
elem-written name (variable other ∷ ps) h = elim (Bool-cases (other == name)) [
  | inl e ↦ (
    empty,
    written ps,
    ap (λ n. occurrence n ++ˢ written ps) ((eq_iff other name).0 e)
        ∙ sym (nil-append (occurrence name ++ˢ written ps)),
  )
  | inr e ↦
      let (a, b, eq) = elem-written name ps (ground arith) in
      (
        occurrence other ++ˢ a,
        b,
        ap (λ t. occurrence other ++ˢ t) eq
            ∙ sym (append_assoc (occurrence other) a (occurrence name ++ˢ b)),
      )
]

-- A name is among the variables of a text exactly when the text holds "${", the name and "}".
pub variables_iff :
    (name s : String)
    → is_name name ≡ true
    → (elem name (variables (pieces s)) ≡ true)
      ↔ ((before after : String) × (s ≡ before ++ˢ (occurrence name ++ˢ after)))
unfolding pieces
variables_iff name s h = (
  λ m. let (a, b, e) = elem-written name (pieces s) m in (a, b, sym (pieces-written s) ∙ e),
  λ p. rw p.2 (scan-finds outside p.0 name p.1 h),
)

-- With no value for any variable the text stays as it is.
pub substitute-nothing : (s : String) → substitute [] s ≡ s
unfolding substitute
substitute-nothing s = pieces-written s
