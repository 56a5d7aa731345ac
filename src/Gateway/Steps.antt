-- ===== src/Gateway/Steps.antt =====
-- Rules that follow an action of the gateway from one step to the next.
use retail_ops_microservices.Base.{◌≡◌, inl, inr, true, num_eq, arith, ℕ}
use retail_ops_microservices.Base.Exec.{Result, ok, err, Exec, ◌>>=◌, Result-cases}

module _ {S E A B : Type 0} (R : Result E B × S → Type 0) where
  -- What holds after a sequence of two actions, from what holds after the first.
  pub after_bind :
      (m : Exec S E A) (f : A → Exec S E B) (s : S)
      → ((e : E) → (m s).0 ≡ err e → R (err e, (m s).1))
      → ((a : A) → (m s).0 ≡ ok a → R (f a (m s).1))
      → R ((m >>= f) s)
  unfolding ◌>>=◌
  after_bind m f s raised returned = elim (Result-cases (m s).0) [
    | inl (a, e) ↦ rw e (returned a e)
    | inr (x, e) ↦ rw e (raised x e)
  ]

pub num_eq_sound : (a b : ℕ) → num_eq a b ≡ true → a ≡ b
num_eq_sound a b h = ground arith
