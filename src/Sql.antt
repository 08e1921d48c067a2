-- ===== src/Sql.antt =====
-- What the repositories use of SQLite: a table is the list of its rows, a statement a function on
-- it, and a transaction keeps nothing of what it wrote when it raises.
pub mod Rows
pub mod Inversion
pub mod Keys
pub mod Upsert
use mathlib.Core.Option
use agent_backend.Prelude.{
  ℕ, suc, String, ◌≡◌, refl, Bool, Option, none, some, List, [], ◌∷◌, ◌++◌, arith, ◌==◌, eq_iff,
  if◌then◌else◌, Result, ok, err, Error, ltb,
}

module _ {ℓ} {A : Type ℓ} where
  -- SELECT … WHERE p
  unfoldable pub select : (A → Bool) → List A → List A
  select p [] = []
  select p (r ∷ rs) = let rest = select p rs in if p r then r ∷ rest else rest

  -- UPDATE … SET f WHERE p
  unfoldable pub update : (A → Bool) → (A → A) → List A → List A
  update p f [] = []
  update p f (r ∷ rs) = (if p r then f r else r) ∷ update p f rs

  -- DELETE … WHERE p
  unfoldable pub delete : (A → Bool) → List A → List A
  delete p [] = []
  delete p (r ∷ rs) = let rest = delete p rs in if p r then rest else r ∷ rest

  -- The rows that a statement with WHERE p changes (`cursor.rowcount`).
  unfoldable pub rowcount : (A → Bool) → List A → ℕ
  rowcount p [] = 0
  rowcount p (r ∷ rs) = let rest = rowcount p rs in if p r then suc rest else rest

  -- The row with the key.
  unfoldable pub find : (A → String) → String → List A → Option A
  find key k [] = none
  find key k (r ∷ rs) = if key r == k then some r else find key k rs

  -- ORDER BY t ASC LIMIT 1. SQLite leaves the order of equal rows open: here the first one wins.
  unfoldable pub earliest : (A → ℕ) → List A → Option A
  earliest t [] = none
  earliest t (r ∷ rs) = elim (earliest t rs) [
    | none ↦ some r
    | some s ↦ if ltb (t s) (t r) then some s else some r
  ]

-- A transaction: on an exception the connection is closed without a commit.
abbrev pub Txn : Type 0 → Type 0 → Type 0
Txn S A = S → Result (A × S)

infixl 10 ◌>>=◌ ◌>>◌
abbrev pub ◌>>=◌ : {S A B : Type 0} → Txn S A → (A → Txn S B) → Txn S B
◌>>=◌ m f s = elim (m s) [ ok (a, s') ↦ f a s' | err e ↦ err e ]

abbrev pub ◌>>◌ : {S B : Type 0} → Txn S (Unit {0}) → Txn S B → Txn S B
m >> k = m >>= λ _. k

abbrev pub pure : {S A : Type 0} → A → Txn S A
pure a s = ok (a, s)

abbrev pub fail : {S A : Type 0} → Error → Txn S A
fail e s = err e

abbrev pub get : {S : Type 0} → Txn S S
get s = ok (s, s)

abbrev pub modify : {S : Type 0} → (S → S) → Txn S (Unit {0})
modify f s = ok (tt, f s)

-- Raise unless the test holds.
abbrev pub guard : {S : Type 0} → Bool → Error → Txn S (Unit {0})
guard b e s = if b then ok (tt, s) else err e

module _ {A : Type 0} (key : A → String) where
  pub find-update :
      (p : A → Bool) (f : A → A) (keeps : (r : A) → key (f r) ≡ key r) (k : String) (rs : List A)
      → find key k (update p f rs) ≡ Option.map (λ r. if p r then f r else r) (find key k rs)
  unfolding find update
  find-update p f keeps k [] = refl
  find-update p f keeps k (r ∷ rs) = ground (arith, keeps r, find-update p f keeps k rs)

  pub find-append :
      (k : String) (rs ss : List A)
      → find key k (rs ++ ss) ≡ elim (find key k rs) [ none ↦ find key k ss | some r ↦ some r ]
  unfolding find
  find-append k [] ss = refl
  find-append k (r ∷ rs) ss = ground (arith, find-append k rs ss)

  -- The row that is found has the key.
  pub find-key : (k : String) (rs : List A) {r : A} → find key k rs ≡ some r → key r ≡ k
  unfolding find
  find-key k [] h = ground arith
  find-key k (s ∷ rs) {r} h = ground (arith, eq_iff (key s) k, find-key k rs {r = r})
