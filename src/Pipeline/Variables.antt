-- ===== src/Pipeline/Variables.antt =====
-- The occurrences of `${name}` in a text: the regular expression _VAR_RE
-- (backend/python-daemon/orchestrator/pipeline/compiler.py), as a machine that reads a character at
-- a time.
use Prim.Native.Char.{Char, code}
use Prim.Native.String.{String, [] as empty, ◌∷◌ as ◌∷ˢ◌, ◌++◌ as ◌++ˢ◌}
use agent_backend.Prelude.{
  Bool, ◌&&◌, ◌||◌, none, some, List, [], ◌∷◌, ◌++◌, leb, eqb, if◌then◌else◌, lookup,
}

-- A character that stands for itself, or an occurrence of a variable.
pub data Piece : Type 0 where
  literal : Char → Piece
  variable : String → Piece

-- What has been read of an occurrence: nothing, "$", "${", or "${" and a name.
pub data Scan : Type 0 where
  outside dollar opened : Scan
  named : String → Scan

-- [A-Za-z_]
abbrev pub is_start : Char → Bool
is_start c =
    (leb b'A' (code c) && leb (code c) b'Z')
    || ((leb b'a' (code c) && leb (code c) b'z') || eqb (code c) b'_')

-- [A-Za-z0-9_]
abbrev pub is_part : Char → Bool
is_part c = is_start c || (leb b'0' (code c) && leb (code c) b'9')

abbrev pub literals : String → List Piece
literals empty = []
literals (c ∷ˢ s) = literal c ∷ literals s

-- What has been read is no occurrence, but the next character may begin one.
unfoldable pub restart : String → Char → List Piece × Scan
restart read c =
    if eqb (code c) b'$'
    then (literals read, dollar)
    else (literals read ++ literal c ∷ [], outside)

-- One character: the pieces that it settles, and what is then open.
unfoldable pub step : Scan → Char → List Piece × Scan
unfolding restart
step outside c = restart "" c
step dollar c = if eqb (code c) b'{' then ([], opened) else restart "$" c
step opened c = if is_start c then ([], named (c ∷ˢ empty)) else restart "${" c
step (named name) c =
    if is_part c
    then ([], named (name ++ˢ (c ∷ˢ empty)))
    else if eqb (code c) b'}'
    then (variable name ∷ [], outside)
    else restart ("${" ++ˢ name) c

-- What is open, as text.
abbrev pub held : Scan → String
held outside = ""
held dollar = "$"
held opened = "${"
held (named name) = "${" ++ˢ name

unfoldable pub scan : Scan → String → List Piece
unfolding step
scan state empty = literals (held state)
scan state (c ∷ˢ s) = let (out, after) = step state c in out ++ scan after s

unfoldable pub pieces : String → List Piece
unfolding scan
pieces s = scan outside s

-- _VAR_RE.finditer: the names that occur, in order.
abbrev pub variables : List Piece → List String
variables [] = []
variables (literal c ∷ ps) = variables ps
variables (variable name ∷ ps) = name ∷ variables ps

-- The pieces as text, with each occurrence replaced.
unfoldable pub render : (String → String) → List Piece → String
render value [] = ""
render value (literal c ∷ ps) = c ∷ˢ render value ps
render value (variable name ∷ ps) = value name ++ˢ render value ps

-- m.group(0)
abbrev pub occurrence : String → String
occurrence name = "${" ++ˢ (name ++ˢ "}")

-- merged.get(m.group(1), m.group(0))
abbrev pub value_of : List (String × String) → String → String
value_of merged name = elim (lookup name merged) [ none ↦ occurrence name | some v ↦ v ]

-- _VAR_RE.sub
unfoldable pub substitute : List (String × String) → String → String
unfolding lookup pieces render
substitute merged s = render (value_of merged) (pieces s)
