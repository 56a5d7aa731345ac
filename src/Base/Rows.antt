-- ===== src/Base/Rows.antt =====
-- A database table as the list of its rows, the newest first, and the queries that the
-- repositories send: SELECT by a text key, UPDATE … WHERE on that key, and SELECT by a condition.
use retail_ops_microservices.Base.Tests.{if◌then◌else◌}
use mathlib.Core.Path.{◌≡◌}
use mathlib.Core.Bool.{Bool, true}
use mathlib.Core.Option.{Option, none, some}
use mathlib.Core.Option
use mathlib.Core.List.{List, [], ◌∷◌}
use Prim.Native.String.{String}
use native.Mathlib.Omega.{arith}
use text.Mathlib.Text.{◌==◌}
use text.Mathlib.TextEquality.{eq_iff}

abbrev pub All {ℓ κ} : {A : Type ℓ} → (A → Type κ) → List A → Type κ
All P [] = Unit
All P (x ∷ xs) = P x × All P xs

module _ {A : Type 0} (test : A → Bool) where
  -- SELECT … WHERE test
  unfoldable pub select : List A → List A
  select [] = []
  select (x ∷ xs) = let rest = select xs in if test x then x ∷ rest else rest

  -- The first row of an unordered SELECT … WHERE test.
  unfoldable pub select_first : List A → Option A
  select_first [] = none
  select_first (x ∷ xs) = if test x then some x else select_first xs

  -- Every selected row passes the test.
  pub All-select : (xs : List A) → All (λ x. test x ≡ true) (select xs)
  unfolding select
  All-select [] = tt
  All-select (x ∷ xs) = ground (arith, All-select xs)

  select_first-passes : (xs : List A) (a : A) → select_first xs ≡ some a → test a ≡ true
  unfolding select_first
  select_first-passes [] a h = ground arith
  select_first-passes (x ∷ xs) a h = ground (arith, select_first-passes xs a)

module _ {A : Type 0} (P : A → Type 0) (test : A → Bool) where
  select_first-All : (xs : List A) (a : A) → All P xs → select_first test xs ≡ some a → P a
  unfolding select_first
  select_first-All [] a h e = ground arith
  select_first-All (x ∷ xs) a h e = ground (arith, select_first-All xs a h.1)

module _ {A : Type 0} (key : A → String) where
  -- SELECT … WHERE key = k on a primary key
  unfoldable pub find_row : String → List A → Option A
  find_row k [] = none
  find_row k (x ∷ xs) = if key x == k then some x else find_row k xs

  -- UPDATE … SET f WHERE key = k
  unfoldable pub update_rows : String → (A → A) → List A → List A
  update_rows k f [] = []
  update_rows k f (x ∷ xs) = (if key x == k then f x else x) ∷ update_rows k f xs

  pub find_row-key : (k : String) (xs : List A) (a : A) → find_row k xs ≡ some a → key a ≡ k
  unfolding find_row
  find_row-key k [] a h = ground arith
  find_row-key k (x ∷ xs) a h = ground (arith, eq_iff (key x) k, find_row-key k xs a)

  -- An update that leaves the keys alone changes what is found under its own key only.
  pub find_row-update_rows :
      (k j : String) (f : A → A) (xs : List A)
      → ((a : A) → key (f a) ≡ key a)
      → find_row j (update_rows k f xs)
        ≡ (if k == j then Option.map f (find_row j xs) else find_row j xs)
  unfolding find_row update_rows
  find_row-update_rows k j f [] h = ground arith
  find_row-update_rows k j f (x ∷ xs) h = ground (
    arith,
    h x,
    find_row-update_rows k j f xs h,
    eq_iff k j,
    eq_iff (key x) k,
    eq_iff (key x) j,
    eq_iff (key (f x)) j,
  )

module _ {A : Type 0} (P : A → Type 0) (key : A → String) where
  pub All-update_rows :
      (k : String) (f : A → A) (xs : List A)
      → ((a : A) → P a → P (f a))
      → All P xs
      → All P (update_rows key k f xs)
  unfolding update_rows
  All-update_rows k f [] h p = tt
  All-update_rows k f (x ∷ xs) h p = ground (arith, h x p.0, All-update_rows k f xs h p.1)

  pub find_row-All :
      (k : String) (xs : List A) (a : A) → All P xs → find_row key k xs ≡ some a → P a
  unfolding find_row
  find_row-All k [] a p e = ground arith
  find_row-All k (x ∷ xs) a p e = ground (arith, find_row-All k xs a p.1)
