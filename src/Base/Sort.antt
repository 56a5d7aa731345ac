-- ===== src/Base/Sort.antt =====
-- ORDER BY: a stable sort of the selected rows by a test `le`, and what a client relies on.
use retail_ops_microservices.Base.Tests.{if◌then◌else◌}
use mathlib.Core.Path.{◌≡◌}
use mathlib.Core.Bool.{Bool, true, false}
use mathlib.Core.Logic.{◌⊎◌}
use mathlib.Core.List.{List, [], ◌∷◌, Perm}
use mathlib.Core.List.Perm
use native.Mathlib.Omega.{arith}
use retail_ops_microservices.Base.Rows.{All}

module _ {A : Type 0} (le : A → A → Bool) where
  unfoldable pub insert_by : A → List A → List A
  insert_by a [] = a ∷ []
  insert_by a (x ∷ xs) = let rest = insert_by a xs in if le a x then a ∷ x ∷ xs else x ∷ rest

  unfoldable pub order_by : List A → List A
  unfolding insert_by
  order_by [] = []
  order_by (x ∷ xs) = insert_by x (order_by xs)

  -- Every element comes before all that stand behind it.
  abbrev pub IsSorted : List A → Type 0
  IsSorted [] = Unit
  IsSorted (x ∷ xs) = All (λ y. le x y ≡ true) xs × IsSorted xs

module _ {A : Type 0} (P : A → Type 0) (le : A → A → Bool) where
  All-insert_by : (a : A) (xs : List A) → P a → All P xs → All P (insert_by le a xs)
  unfolding insert_by
  All-insert_by a [] h p = (h, tt)
  All-insert_by a (x ∷ xs) h p = ground (arith, All-insert_by a xs h p.1)

  pub All-order_by : (xs : List A) → All P xs → All P (order_by le xs)
  unfolding order_by
  All-order_by [] p = tt
  All-order_by (x ∷ xs) p = All-insert_by x (order_by le xs) p.0 (All-order_by xs p.1)

module _ {A : Type 0} (le : A → A → Bool) where
  if-perm :
      (b : Bool) {xs ys zs : List A} → Perm xs zs → Perm ys zs → Perm (if b then xs else ys) zs
  if-perm true p q = p
  if-perm false p q = q

  insert_by-perm : (a : A) (xs : List A) → Perm (insert_by le a xs) (a ∷ xs)
  unfolding insert_by
  insert_by-perm a [] = Perm.refl (a ∷ [])
  insert_by-perm a (x ∷ xs) =
      if-perm (le a x) (Perm.refl (a ∷ x ∷ xs))
        (Perm.trans (Perm.cons x (insert_by-perm a xs)) (Perm.swap a x xs))

  -- Sorting loses and invents nothing.
  pub order_by-perm : (xs : List A) → Perm (order_by le xs) xs
  unfolding order_by
  order_by-perm [] = Perm.refl []
  order_by-perm (x ∷ xs) =
      Perm.trans (insert_by-perm x (order_by le xs)) (Perm.cons x (order_by-perm xs))

module _ {A : Type 0} (le : A → A → Bool) (total : (a b : A) → (le a b ≡ true) ⊎ (le b a ≡ true))
    (trans : (a b c : A) → le a b ≡ true → le b c ≡ true → le a c ≡ true) where
  All-below :
      (a x : A) (xs : List A)
      → le a x ≡ true
      → All (λ y. le x y ≡ true) xs
      → All (λ y. le a y ≡ true) xs
  All-below a x [] h p = tt
  All-below a x (y ∷ ys) h p = (trans a x y h p.0, All-below a x ys h p.1)

  insert_by-IsSorted : (a : A) (xs : List A) → IsSorted le xs → IsSorted le (insert_by le a xs)
  unfolding insert_by
  insert_by-IsSorted a [] s = (tt, tt)
  insert_by-IsSorted a (x ∷ xs) s = ground (
    arith,
    total a x,
    All-below a x xs,
    insert_by-IsSorted a xs s.1,
    All-insert_by (λ y. le x y ≡ true) le a xs,
  )

  pub order_by-IsSorted : (xs : List A) → IsSorted le (order_by le xs)
  unfolding order_by
  order_by-IsSorted [] = tt
  order_by-IsSorted (x ∷ xs) = insert_by-IsSorted x (order_by le xs) (order_by-IsSorted xs)
