-- ===== src/Sql/Upsert.antt =====
-- INSERT … ON CONFLICT(key) DO UPDATE and INSERT OR REPLACE, and what a key finds after them.
use agent_backend.Prelude.{
  String, ◌≡◌, refl, inl, inr, true, false, ◌≢◌, Option, none, some, List, [], ◌∷◌, ◌++◌, arith,
  ◌==◌, eq_iff, any, if◌then◌else◌, Bool-cases,
}
use agent_backend.Sql.{find, update, delete, find-append}

module _ {A : Type 0} (key : A → String) where
  -- `merge old new` is the row that DO UPDATE leaves.
  unfoldable pub upsert : (A → A → A) → A → List A → List A
  unfolding any update
  upsert merge r rs =
      if any (λ x. key x == key r) rs
      then update (λ x. key x == key r) (λ x. merge x r) rs
      else rs ++ r ∷ []

  unfoldable pub replace : A → List A → List A
  unfolding delete
  replace r rs = delete (λ x. key x == key r) rs ++ r ∷ []

  abbrev pub merged : (A → A → A) → A → Option A → A
  merged merge r none = r
  merged merge r (some x) = merge x r

  find-absent : (k : String) (rs : List A) → any (λ x. key x == k) rs ≡ false → find key k rs ≡ none
  unfolding any find
  find-absent k [] h = refl
  find-absent k (x ∷ rs) h = ground (arith, find-absent k rs)

  pub find-update_key :
      (f : A → A) (j k : String) (rs : List A)
      → ((x : A) → key (f x) ≡ key x)
      → find key k (update (λ x. key x == j) f rs)
        ≡ elim (find key k rs) [ none ↦ none | some x ↦ some (if j == k then f x else x) ]
  unfolding find update
  find-update_key f j k [] keeps = refl
  find-update_key f j k (x ∷ rs) keeps = ground (
    arith,
    keeps x,
    find-update_key f j k rs keeps,
    eq_iff j k,
    eq_iff (key x) j,
    eq_iff (key x) k,
  )

  pub find-delete :
      (j k : String) (rs : List A)
      → find key k (delete (λ x. key x == j) rs) ≡ (if j == k then none else find key k rs)
  unfolding find delete
  find-delete j k [] = ground arith
  find-delete j k (x ∷ rs) =
      ground (arith, find-delete j k rs, eq_iff j k, eq_iff (key x) j, eq_iff (key x) k)

  find-present : (k : String) (rs : List A) → any (λ x. key x == k) rs ≡ true → find key k rs ≢ none
  unfolding any find
  find-present k [] h = ground arith
  find-present k (x ∷ rs) h = ground (arith, find-present k rs)

  -- The row of a key after an upsert: the merged one under its own key, and else the old one.
  pub find-upsert :
      (merge : A → A → A) (r : A) (j : String) (rs : List A)
      → ((x : A) → key (merge x r) ≡ key x)
      → find key j (upsert merge r rs)
        ≡ (if key r == j then some (merged merge r (find key j rs)) else find key j rs)
  unfolding upsert find
  find-upsert merge r j rs keeps = elim (Bool-cases (any (λ x. key x == key r) rs)) [
    | inl e ↦
        rw (e, find-update_key (λ x. merge x r) (key r) j rs keeps)
          (ground (arith, eq_iff (key r) j, find-present j rs))
    | inr e ↦
        rw (e, find-append key j rs (r ∷ [])) (ground (arith, eq_iff (key r) j, find-absent j rs))
  ]

  -- The row of a key after INSERT OR REPLACE.
  pub find-replace :
      (r : A) (j : String) (rs : List A)
      → find key j (replace r rs) ≡ (if key r == j then some r else find key j rs)
  unfolding replace find
  find-replace r j rs =
      rw (find-append key j (delete (λ x. key x == key r) rs) (r ∷ []), find-delete (key r) j rs)
        (ground arith)
