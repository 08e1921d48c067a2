-- ===== src/Sql/Inversion.antt =====
-- What a transaction that commits tells of its parts.
use agent_backend.Prelude.{◌≡◌, refl, Bool, true, false, Result, ok, err, Error}
use agent_backend.Sql.{Txn, ◌>>=◌, ◌>>◌, guard}

module _ {S A B : Type 0} where
  pub >>=-eq-ok :
      (m : Txn S A) (f : A → Txn S B) (s : S) {b : B × S}
      → (m >>= f) s ≡ ok b
      → (a : A) × (s' : S) × (m s ≡ ok (a, s')) × (f a s' ≡ ok b)
  >>=-eq-ok m f s {b} h = go (m s) refl
    where
      go :
          (r : Result (A × S)) → m s ≡ r → (a : A) × (s' : S) × (m s ≡ ok (a, s')) × (f a s' ≡ ok b)
      go (ok (a, s')) e = (a, s', e, rw (e, ◌>>=◌) at h)
      go (err x) e = absurd (cc (rw (e, ◌>>=◌) at h))

module _ {S B : Type 0} where
  pub guard-eq-ok :
      (b : Bool) (e : Error) (m : Txn S B) (s : S) {r : B × S}
      → (guard b e >> m) s ≡ ok r
      → (b ≡ true) × (m s ≡ ok r)
  guard-eq-ok true e m s h = (refl, h)
  guard-eq-ok false e m s h = absurd (cc)
