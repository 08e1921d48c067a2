-- ===== src/Sql/Rows.antt =====
-- Which rows the statements read and write.
use agent_backend.Prelude.{
  ℕ, ◌≤◌, ◌+◌, length, String, ◌≡◌, refl, ◌≢◌, ◌⊎◌, inl, inr, Bool, true, false, none, some, List,
  [], ◌∷◌, ◌++◌, arith, ◌==◌, eq_iff, if◌then◌else◌, any, Bool-cases, Option-cases, sym, not,
  is_none, ==-self,
}
use agent_backend.Sql.{select, update, delete, find, earliest, find-update, find-append}

module _ {A : Type 0} where
  -- The row is one of the rows.
  abbrev pub Among : A → List A → Type 0
  Among r [] = ⊥
  Among r (x ∷ xs) = (x ≡ r) ⊎ Among r xs

  pub earliest-Among : (t : A → ℕ) (rs : List A) {r : A} → earliest t rs ≡ some r → Among r rs
  unfolding earliest
  earliest-Among t [] h = cc
  earliest-Among t (s ∷ rs) {r} h = elim (Option-cases (earliest t rs)) [
    | inl e ↦ ground (arith, e)
    | inr (u, e) ↦ ground (arith, e, earliest-Among t rs {r = u} e)
  ]

  pub earliest-none : (t : A → ℕ) (rs : List A) → earliest t rs ≡ none → (s : A) → ¬ Among s rs
  unfolding earliest
  earliest-none t [] h s m = m
  earliest-none t (x ∷ rs) h s m = elim (Option-cases (earliest t rs)) [
    | inl e ↦ ground (arith, e)
    | inr (u, e) ↦ ground (arith, e)
  ]

  pub earliest-le :
      (t : A → ℕ) (rs : List A) {r : A} → earliest t rs ≡ some r → (s : A) → Among s rs → t r ≤ t s
  unfolding earliest
  earliest-le t [] h s m = absurd m
  earliest-le t (x ∷ rs) {r} h s m = elim (Option-cases (earliest t rs)) [
    | inl e ↦ elim m [ inl p ↦ ground (arith, e) | inr p ↦ absurd (earliest-none t rs e s p) ]
    | inr (u, e) ↦ elim m [
      | inl p ↦ ground (arith, e)
      | inr p ↦ ground (arith, e, earliest-le t rs {r = u} e s p)
    ]
  ]

  pub select-Among :
      (p : A → Bool) (rs : List A) {r : A} → Among r (select p rs) → Among r rs × (p r ≡ true)
  unfolding select
  select-Among p [] m = absurd m
  select-Among p (x ∷ rs) {r} m = ground (arith, select-Among p rs {r = r})

  pub Among-select :
      (p : A → Bool) (rs : List A) {r : A} → Among r rs → p r ≡ true → Among r (select p rs)
  unfolding select
  Among-select p [] m h = m
  Among-select p (x ∷ rs) {r} m h = ground (arith, Among-select p rs {r = r})

  -- A search that fails has no row to find.
  pub select-nil :
      (p : A → Bool) (rs : List A) → select p rs ≡ [] → (s : A) → Among s rs → p s ≡ false
  unfolding select
  select-nil p [] h s m = absurd m
  select-nil p (x ∷ rs) h s m = ground (arith, λ (e : select p rs ≡ []). select-nil p rs e s)

module _ {A : Type 0} (key : A → String) where
  -- PRIMARY KEY: no two rows have the same key.
  abbrev pub IsUnique : List A → Type 0
  IsUnique [] = Unit
  IsUnique (r ∷ rs) = (find key (key r) rs ≡ none) × IsUnique rs

  pub Among-find : (k : String) (rs : List A) {r : A} → find key k rs ≡ some r → Among r rs
  unfolding find
  Among-find k [] h = cc
  Among-find k (x ∷ rs) {r} h =
      ground (arith, λ (e : find key k rs ≡ some r). Among-find k rs {r = r} e)

  pub find-none : (k : String) (rs : List A) {r : A} → find key k rs ≡ none → Among r rs → key r ≢ k
  unfolding find
  find-none k [] h m e = m
  find-none k (x ∷ rs) {r} h m e =
      ground (arith, eq_iff (key x) k, λ (p : find key k rs ≡ none). find-none k rs {r = r} p)

  pub find-Among : (rs : List A) {r : A} → IsUnique rs → Among r rs → find key (key r) rs ≡ some r
  unfolding find
  find-Among [] u m = absurd m
  find-Among (x ∷ rs) {r} u m = elim m [
    | inl e ↦ rw (e, ==-self (key r))
    | inr m' ↦ elim (Bool-cases (key x == key r)) [
      | inl e ↦ absurd (find-none (key x) rs u.0 m' (sym ((eq_iff (key x) (key r)).0 e)))
      | inr e ↦ rw e (find-Among rs u.1 m')
    ]
  ]

  pub IsUnique-update :
      (p : A → Bool) (f : A → A) (keeps : (r : A) → key (f r) ≡ key r) (rs : List A)
      → IsUnique rs
      → IsUnique (update p f rs)
  unfolding update
  IsUnique-update p f keeps [] u = tt
  IsUnique-update p f keeps (x ∷ rs) u = (
    elim (Bool-cases (p x)) [
      | inl e ↦ rw (e, keeps x, find-update key p f keeps (key x) rs, u.0)
      | inr e ↦ rw (e, find-update key p f keeps (key x) rs, u.0)
    ],
    IsUnique-update p f keeps rs u.1,
  )

  pub IsUnique-append :
      (rs : List A) (r : A) → IsUnique rs → find key (key r) rs ≡ none → IsUnique (rs ++ r ∷ [])
  unfolding find
  IsUnique-append [] r u h = (refl, tt)
  IsUnique-append (x ∷ rs) r u h = elim (Bool-cases (key x == key r)) [
    | inl e ↦ absurd (ground (arith, e))
    | inr e ↦ (
      rw (find-append key (key x) rs (r ∷ []), u.0)
          (ground (arith, eq_iff (key x) (key r), eq_iff (key r) (key x))),
      IsUnique-append rs r u.1 (ground (arith, e)),
    )
  ]

  -- Membership by key, as the statements test it.
  pub any-find :
      (k : String) (rs : List A) → any (λ r. key r == k) rs ≡ not (is_none (find key k rs))
  unfolding any find
  any-find k [] = refl
  any-find k (x ∷ rs) = ground (arith, any-find k rs)

module _ {A : Type 0} where
  pub any-false :
      (p : A → Bool) (rs : List A) → any p rs ≡ false → (r : A) → Among r rs → p r ≡ false
  unfolding any
  any-false p [] h r m = absurd m
  any-false p (x ∷ rs) h r m = ground (arith, λ (e : any p rs ≡ false). any-false p rs e r)

  pub any-of-none :
      (p : A → Bool) (rs : List A) → ((r : A) → Among r rs → p r ≡ false) → any p rs ≡ false
  unfolding any
  any-of-none p [] h = refl
  any-of-none p (x ∷ rs) h = rw (h x (inl refl), any-of-none p rs (λ r m. h r (inr m)))

  pub Among-update :
      (p : A → Bool) (f : A → A) (rs : List A) {r : A}
      → Among r (update p f rs)
      → (s : A) × Among s rs × ((if p s then f s else s) ≡ r)
  unfolding update
  Among-update p f [] m = absurd m
  Among-update p f (x ∷ rs) m = elim m [
    | inl e ↦ (x, inl refl, e)
    | inr m' ↦ let (s, here, e) = Among-update p f rs m' in (s, inr here, e)
  ]

  pub Among-append : (xs ys : List A) (r : A) → Among r (xs ++ ys) → Among r xs ⊎ Among r ys
  Among-append [] ys r m = inr m
  Among-append (x ∷ xs) ys r m = elim m [
    | inl e ↦ inl (inl e)
    | inr m' ↦ elim (Among-append xs ys r m') [ inl l ↦ inl (inr l) | inr l ↦ inr l ]
  ]

  pub append-Among_left : (xs ys : List A) (r : A) → Among r xs → Among r (xs ++ ys)
  append-Among_left [] ys r m = absurd m
  append-Among_left (x ∷ xs) ys r m = elim m [
    | inl e ↦ inl e
    | inr m' ↦ inr (append-Among_left xs ys r m')
  ]

  pub append-Among_right : (xs ys : List A) (r : A) → Among r ys → Among r (xs ++ ys)
  append-Among_right [] ys r m = m
  append-Among_right (x ∷ xs) ys r m = inr (append-Among_right xs ys r m)

  pub delete-Among : (p : A → Bool) (rs : List A) (r : A) → Among r (delete p rs) → Among r rs
  unfolding delete
  delete-Among p [] r m = m
  delete-Among p (x ∷ rs) r m = ground (arith, delete-Among p rs r)

  pub length-delete :
      (p : A → Bool) (rs : List A) → length (delete p rs) + length (select p rs) ≡ length rs
  unfolding delete select
  length-delete p [] = omega arith
  length-delete p (x ∷ rs) = ground (arith, length-delete p rs)

  -- A row goes to one side or the other.
  pub Among-split :
      (p : A → Bool) (rs : List A) (r : A)
      → Among r rs
      → Among r (select p rs) ⊎ Among r (delete p rs)
  unfolding delete select
  Among-split p [] r m = absurd m
  Among-split p (x ∷ rs) r m = ground (arith, Among-split p rs r)
