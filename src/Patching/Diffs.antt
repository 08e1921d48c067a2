-- ===== src/Patching/Diffs.antt =====
-- The texts of `PatchValidationService`: the lines of a diff, its paths, and the patterns of
-- blocked names (backend/python-daemon/orchestrator/patching/validation.py).
use Prim.Native.Char.{Char, code}
use Prim.Native.String.{[] as empty, ◌∷◌ as ◌∷ˢ◌, ◌++◌ as ◌++ˢ◌}
use text.Mathlib.Text.{starts_with}
use agent_backend.Prelude.{
  ℕ, String, Bool, false, ◌&&◌, ◌||◌, List, [], ◌∷◌, ◌++◌, ◌==◌, elem, leb, eqb, if◌then◌else◌,
  drop_text, strip, replace_char,
}

-- The characters at which str.splitlines breaks a line.
abbrev pub is_break : ℕ → Bool
is_break n =
    (leb 10 n && leb n 13) || ((leb 28 n && leb n 30) || (eqb n 133 || (eqb n 8232 || eqb n 8233)))

abbrev last_line : String → List String
last_line line = if line == "" then [] else line ∷ []

-- str.splitlines: the line read so far, and whether the last character was a carriage return.
unfoldable pub lines : String → Bool → String → List String
lines line after_cr empty = last_line line
lines line after_cr (c ∷ˢ s) =
    let skipped = lines "" false s in
    let broken = lines "" (eqb (code c) 13) s in
    let longer = lines (line ++ˢ (c ∷ˢ empty)) false s in
    if after_cr && eqb (code c) 10
    then skipped
    else if is_break (code c)
    then line ∷ broken
    else longer

-- s.split("\t", 1)[0]
unfoldable pub before_tab : String → String
before_tab empty = ""
before_tab (c ∷ˢ s) = let rest = before_tab s in if eqb (code c) 9 then "" else c ∷ˢ rest

-- line[4:].strip().split("\t", 1)[0]
unfoldable pub raw_path : String → String
unfolding drop_text strip before_tab
raw_path line = before_tab (strip (drop_text 4 line))

abbrev pub without_side : String → String
without_side raw = if starts_with raw "a/" || starts_with raw "b/" then drop_text 2 raw else raw

-- s.replace("\\", "/")
unfoldable pub slashes : String → String
unfolding replace_char
slashes s = replace_char b'\\' "/" s

unfoldable pub header_paths : List String → List String
unfolding raw_path drop_text slashes
header_paths [] = []
header_paths (line ∷ rest) =
    let paths = header_paths rest in
    if starts_with line "--- " || starts_with line "+++ "
    then if raw_path line == "/dev/null"
      then paths
      else slashes (without_side (raw_path line)) ∷ paths
    else paths

-- The loop that keeps the first of equal paths.
unfoldable pub dedupe : List String → List String → List String
unfolding elem
dedupe seen [] = seen
dedupe seen (path ∷ paths) = dedupe (if elem path seen then seen else seen ++ path ∷ []) paths

unfoldable pub affected_paths : String → List String
unfolding dedupe header_paths lines
affected_paths diff_text = dedupe [] (header_paths (lines "" false diff_text))

-- s.split("/")
unfoldable pub split_slash : String → String → List String
split_slash part empty = part ∷ []
split_slash part (c ∷ˢ s) =
    let next = split_slash "" s in
    let longer = split_slash (part ++ˢ (c ∷ˢ empty)) s in
    if eqb (code c) b'/' then part ∷ next else longer

-- Path(s).parts, for a path that is not absolute.
abbrev pub real_parts : List String → List String
real_parts [] = []
real_parts (part ∷ parts) =
    let rest = real_parts parts in if part == "" || part == "." then rest else part ∷ rest

unfoldable pub parts_of : String → List String
unfolding split_slash
parts_of s = real_parts (split_slash "" s)

-- re.match("^[A-Za-z]:", s)
unfoldable pub has_drive : String → Bool
has_drive empty = false
has_drive (c ∷ˢ s) =
    ((leb b'A' (code c) && leb (code c) b'Z') || (leb b'a' (code c) && leb (code c) b'z'))
    && starts_with s ":"

-- Some suffix of the text passes the test.
abbrev some_suffix : (String → Bool) → String → Bool
some_suffix test empty = test ""
some_suffix test (c ∷ˢ s) = test (c ∷ˢ s) || some_suffix test s

abbrev starts : Char → (String → Bool) → String → Bool
starts c test empty = false
starts c test (d ∷ˢ s) = eqb (code c) (code d) && test s

-- fnmatch.fnmatch, for a pattern whose only special character is the star.
unfoldable pub glob : String → String → Bool
glob empty s = s == ""
glob (c ∷ˢ p) s =
    let star = some_suffix (λ t. glob p t) s in
    let same = starts c (λ t. glob p t) s in if eqb (code c) b'*' then star else same

-- Some substring is the text: `text in s`.
unfoldable pub contains : String → String → Bool
contains text s = some_suffix (λ t. starts_with t text) s

abbrev pub blocked_patterns : List String
blocked_patterns =
    "*_bundle*.py" ∷ "*_bundle*.yaml" ∷ "local_tool_assist_outputs/*"
    ∷ "*/local_tool_assist_outputs/*" ∷ "reports/final_handoff*" ∷ "archive/session*"
    ∷ "sessions/*/intermediate/*" ∷ ".env" ∷ "*.env" ∷ "*secret*" ∷ "*token*" ∷ []
