-- ===== src/Patching/Io.antt =====
-- Code that changes a state and may raise: what it has changed before stays.
use agent_backend.Prelude.{
  ◌≡◌, refl, subst, Attempt, done, raised, String, Bool, true, false, if◌then◌else◌,
}

abbrev pub Io : Type 0 → Type 0 → Type 0
Io S A = S → Attempt A × S

abbrev pub return : {S A : Type 0} → A → Io S A
return a s = (done a, s)

abbrev pub raise : {S A : Type 0} → String → Io S A
raise text s = (raised text, s)

abbrev pub continue : {S A B : Type 0} → Attempt A × S → (A → Io S B) → Attempt B × S
continue (done a, s) f = f a s
continue (raised text, s) f = (raised text, s)

infixl 10 ◌>>=◌ ◌>>◌
abbrev pub ◌>>=◌ : {S A B : Type 0} → Io S A → (A → Io S B) → Io S B
◌>>=◌ m f s = continue (m s) f

abbrev pub ◌>>◌ : {S B : Type 0} → Io S (Unit {0}) → Io S B → Io S B
m >> k = m >>= λ _. k

-- An exception unless the test holds.
unfoldable pub ensure : {S : Type 0} → Bool → String → Io S (Unit {0})
ensure b text s = if b then (done tt, s) else (raised text, s)

abbrev pub After : {S A : Type 0} → (A → S → Type 0) → Attempt A × S → Type 0
After P (done a, s) = P a s
After P (raised text, s) = Unit

-- What holds of the result and of the state, unless an exception is raised.
pub record Post {S A : Type 0} (P : A → S → Type 0) (r : Attempt A × S) : Type 0 where
  pub holds : After P r

After-then :
    {S A B : Type 0} (P : A → S → Type 0) (Q : B → S → Type 0) (r : Attempt A × S) (f : A → Io S B)
    → After P r
    → ((a : A) (s : S) → P a s → Post Q (f a s))
    → After Q (continue r f)
After-then P Q (done a, s) f h g = (g a s h).holds
After-then P Q (raised text, s) f h g = tt

pub Post-then :
    {S A B : Type 0} {P : A → S → Type 0} {Q : B → S → Type 0} (r : Attempt A × S) (f : A → Io S B)
    → Post P r
    → ((a : A) (s : S) → P a s → Post Q (f a s))
    → Post Q (continue r f)
Post-then {P = P} {Q = Q} r f h g = record { holds = After-then P Q r f h.holds g }

After-ensure :
    {S : Type 0} (b : Bool) (text : String) (s : S)
    → After (λ r s'. (b ≡ true) × (s' ≡ s)) (ensure b text s)
unfolding ensure
After-ensure true text s = (refl, refl)
After-ensure false text s = tt

pub Post-ensure :
    {S : Type 0} (b : Bool) (text : String) (s : S)
    → Post (λ r s'. (b ≡ true) × (s' ≡ s)) (ensure b text s)
Post-ensure b text s = record { holds = After-ensure b text s }

pub Post-done :
    {S A : Type 0} {P : A → S → Type 0} (r : Attempt A × S) {a : A} {s : S}
    → Post P r
    → r ≡ (done a, s)
    → P a s
Post-done {P = P} r h e = subst (After P) e h.holds

After-map :
    {S A : Type 0} (P Q : A → S → Type 0) (r : Attempt A × S)
    → After P r
    → ((a : A) (s : S) → P a s → Q a s)
    → After Q r
After-map P Q (done a, s) h g = g a s h
After-map P Q (raised text, s) h g = tt

pub Post-map :
    {S A : Type 0} {P Q : A → S → Type 0} (r : Attempt A × S)
    → Post P r
    → ((a : A) (s : S) → P a s → Q a s)
    → Post Q r
Post-map {P = P} {Q = Q} r h g = record { holds = After-map P Q r h.holds g }
