-- ===== src/Prelude/Sorting.antt =====
-- `sorted` on texts.
use Prim.Native.String.{String, compare}
use Prim.Native.Nat.{Ordering}
use mathlib.Core.List.{List, [], ◌∷◌}

abbrev pub insert_sorted : String → List String → List String
insert_sorted s [] = s ∷ []
insert_sorted s (t ∷ ts) = elim (compare s t) [
  | Ordering.gt ↦ t ∷ insert_sorted s ts
  | _ ↦ s ∷ t ∷ ts
]

unfoldable pub sorted : List String → List String
sorted [] = []
sorted (s ∷ ts) = insert_sorted s (sorted ts)
