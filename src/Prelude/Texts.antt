-- ===== src/Prelude/Texts.antt =====
-- Slices of texts, and `str.strip`.
use Prim.Native.Nat.{ℕ, zero, suc, ◌-◌, ◌≤◌}
use Prim.Native.Char.{Char, code}
use Prim.Native.String.{String, [] as empty, ◌∷◌ as ◌∷ˢ◌, ◌++◌ as ◌++ˢ◌}
use mathlib.Core.List.{List, [], ◌∷◌}
use mathlib.Core.Bool.{Bool, ◌&&◌, ◌||◌}
use native.Mathlib.Omega.{arith}
use agent_backend.Prelude.Tests.{leb, eqb, if◌then◌else◌}

-- len(s)
abbrev pub text_length : String → ℕ
text_length empty = 0
text_length (c ∷ˢ s) = suc (text_length s)

-- s[:n]
unfoldable pub take_text : ℕ → String → String
take_text zero s = ""
take_text (suc n) empty = ""
take_text (suc n) (c ∷ˢ s) = c ∷ˢ take_text n s

-- s[n:]
unfoldable pub drop_text : ℕ → String → String
drop_text zero s = s
drop_text (suc n) empty = ""
drop_text (suc n) (c ∷ˢ s) = drop_text n s

-- s[-n:], for n > 0
unfoldable pub last_text : ℕ → String → String
unfolding drop_text
last_text n s = drop_text (text_length s - n) s

-- str.isspace on one character.
abbrev pub is_space : Char → Bool
is_space c =
    let n = code c in
    (leb 9 n && leb n 13)
    || ((leb 28 n && leb n 32)
        || (eqb n 133
            || (eqb n 160
                || (eqb n 5760
                    || ((leb 8192 n && leb n 8202)
                        || (eqb n 8232
                            || (eqb n 8233 || (eqb n 8239 || (eqb n 8287 || eqb n 12288)))))))))

-- s.lstrip()
unfoldable pub lstrip : String → String
lstrip empty = ""
lstrip (c ∷ˢ s) = let rest = lstrip s in if is_space c then rest else c ∷ˢ s

abbrev attach : Char → String → String
attach c empty = if is_space c then "" else c ∷ˢ empty
attach c (d ∷ˢ s) = c ∷ˢ (d ∷ˢ s)

-- s.rstrip()
unfoldable pub rstrip : String → String
rstrip empty = ""
rstrip (c ∷ˢ s) = attach c (rstrip s)

unfoldable pub strip : String → String
unfolding lstrip rstrip
strip s = rstrip (lstrip s)

pub length-take_text : (n : ℕ) (s : String) → text_length (take_text n s) ≤ n
unfolding take_text
length-take_text zero s = omega arith
length-take_text (suc n) empty = omega arith
length-take_text (suc n) (c ∷ˢ s) = omega (arith, length-take_text n s)

-- s.replace(c, t), for a text c of one character.
unfoldable pub replace_char : ℕ → String → String → String
replace_char n t empty = ""
replace_char n t (c ∷ˢ s) =
    let rest = replace_char n t s in if eqb (code c) n then t ++ˢ rest else c ∷ˢ rest

-- sep.join(parts)
unfoldable pub join : String → List String → String
join sep [] = ""
join sep (s ∷ []) = s
join sep (s ∷ t ∷ rest) = s ++ˢ (sep ++ˢ join sep (t ∷ rest))

-- s.partition("."), without the separator.
unfoldable pub partition : String → String × String
partition empty = ("", "")
partition (c ∷ˢ s) =
    let rest = partition s in if eqb (code c) b'.' then ("", s) else (c ∷ˢ rest.0, rest.1)
