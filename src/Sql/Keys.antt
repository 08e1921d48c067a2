-- ===== src/Sql/Keys.antt =====
-- The keys of the rows that a SELECT returns.
use agent_backend.Prelude.{
  String, ◌≡◌, refl, inl, inr, Bool, false, none, some, List, [], ◌∷◌, map, arith, ◌==◌, eq_iff,
  elem, any, Bool-cases, subst,
}
use agent_backend.Sql.{select, find}
use agent_backend.Sql.Rows.{IsUnique}

-- No text stands twice in the list.
abbrev pub IsDistinct : List String → Type 0
IsDistinct [] = Unit
IsDistinct (k ∷ ks) = (elem k ks ≡ false) × IsDistinct ks

module _ {A : Type 0} (key : A → String) (p : A → Bool) where
  abbrev keys : List A → List String
  keys rs = map key (select p rs)

  pub elem-keys-none : (k : String) (rs : List A) → find key k rs ≡ none → elem k (keys rs) ≡ false
  unfolding find select elem any
  elem-keys-none k [] h = refl
  elem-keys-none k (x ∷ rs) h = ground (arith, λ (e : find key k rs ≡ none). elem-keys-none k rs e)

  pub elem-keys :
      (k : String) (rs : List A) (r : A)
      → IsUnique key rs
      → find key k rs ≡ some r
      → elem k (keys rs) ≡ p r
  unfolding find select elem any
  elem-keys k [] r u h = cc
  elem-keys k (x ∷ rs) r u h = elim (Bool-cases (key x == k)) [
    | inr e ↦ ground (arith, λ (f : find key k rs ≡ some r). elem-keys k rs r u.1 f)
    | inl e ↦
        let gone = elem-keys-none (key x) rs u.0 in
        let named = (eq_iff (key x) k).0 e in
        ground (arith, subst (λ j. elem j (keys rs) ≡ false) named gone)
  ]

  pub keys-IsDistinct : (rs : List A) → IsUnique key rs → IsDistinct (keys rs)
  unfolding select
  keys-IsDistinct [] u = tt
  keys-IsDistinct (x ∷ rs) u = elim (Bool-cases (p x)) [
    | inl e ↦ rw e (elem-keys-none (key x) rs u.0, keys-IsDistinct rs u.1)
    | inr e ↦ rw e (keys-IsDistinct rs u.1)
  ]
