-- ===== src/Catalog/Listed.antt =====
-- The list of items against the single items.
use retail_ops_microservices.Base.{
  String, ◌≡◌, ◌≢◌, ◌⊎◌, refl, sym, inl, inr, Bool, true, some, List, [], ◌∷◌, ◌==◌, eq_iff,
  eq_refl, Bool-cases,
}
use mathlib.Core.Path.{subst}
use mathlib.Core.List.{Perm}
use retail_ops_microservices.Http.{server_error}
use retail_ops_microservices.Base.Exec.{ok, err, Result-cases}
use retail_ops_microservices.Base.Rows.{All, All-select, select, select_first}
use retail_ops_microservices.Base.Sort.{All-order_by, IsSorted, order_by-IsSorted, order_by-perm}
use retail_ops_microservices.Catalog.{
  CatalogItem, list_active_items, find_active_item_by_id, item_response, item_responses,
  list_catalog_items, get_catalog_item,
}

-- The primary key.
abbrev DistinctIds : List CatalogItem → Type 0
DistinctIds [] = Unit
DistinctIds (x ∷ xs) = All (λ y. y.id ≢ x.id) xs × DistinctIds xs

Found : List CatalogItem → CatalogItem → Type 0
Found rows x = find_active_item_by_id x.id rows ≡ some x

module _ {A : Type 0} {P Q R : A → Type 0} (both_give : (x : A) → P x → Q x → R x) where
  All-both : (xs : List A) → All P xs → All Q xs → All R xs
  All-both [] p q = tt
  All-both (x ∷ xs) (p, ps) (q, qs) = (both_give x p q, All-both xs ps qs)

module _ {A : Type 0} (P : A → Type 0) (test : A → Bool) where
  select-All : (xs : List A) → All P xs → All P (select test xs)
  unfolding select
  select-All [] p = tt
  select-All (x ∷ xs) (p, ps) = elim (Bool-cases (test x)) [
    | inl b ↦ rw b (p, select-All xs ps)
    | inr b ↦ rw b (select-All xs ps)
  ]

-- An active row is found under its id.
FoundIfActive : List CatalogItem → CatalogItem → Type 0
unfolding Found
FoundIfActive rows x = x.is_active ≡ true → Found rows x

found_head : (x : CatalogItem) (xs : List CatalogItem) → FoundIfActive (x ∷ xs) x
unfolding FoundIfActive Found find_active_item_by_id select_first
found_head x xs a = rw (eq_refl x.id, a) refl

found_tail :
    (x : CatalogItem) (xs : List CatalogItem) (y : CatalogItem)
    → y.id ≢ x.id
    → FoundIfActive xs y
    → FoundIfActive (x ∷ xs) y
unfolding FoundIfActive Found find_active_item_by_id select_first
found_tail x xs y d f a = elim (Bool-cases (x.id == y.id)) [
  | inr b ↦ rw b (f a)
  | inl b ↦ absurd (d (sym ((eq_iff x.id y.id).0 b)))
]

found_rows : (rows : List CatalogItem) → DistinctIds rows → All (FoundIfActive rows) rows
found_rows [] d = tt
found_rows (x ∷ xs) (new, d) =
    (found_head x xs, All-both (found_tail x xs) xs new (found_rows xs d))

Found-active :
    (rows : List CatalogItem)
    → DistinctIds rows
    → All (Found rows) (select (λ item. item.is_active) rows)
unfolding FoundIfActive
Found-active rows d =
    All-both (λ x a f. f a) (select (λ item. item.is_active) rows)
      (All-select (λ item. item.is_active) rows)
      (select-All (FoundIfActive rows) (λ item. item.is_active) rows (found_rows rows d))

got :
    (rows : List CatalogItem) (x : CatalogItem)
    → item_response x ≡ ok x
    → Found rows x
    → get_catalog_item x.id rows ≡ ok x
unfolding Found get_catalog_item
got rows x e f = rw f e

responses :
    (xs items : List CatalogItem)
    → item_responses xs ≡ ok items
    → (xs ≡ items) × All (λ x. item_response x ≡ ok x) xs
responses [] items e = (cc, tt)
responses (x ∷ xs) items e = elim (Bool-cases (x.currency == "RUB")) [
  | inr b ↦ let e' : err server_error ≡ ok items = rw b at e in cc
  | inl b ↦ elim (Result-cases (item_responses xs)) [
    | inr (y, r) ↦ let e' : err y ≡ ok items = rw (b, r) at e in cc
    | inl (ys, r) ↦
        let e' : ok (x ∷ ys) ≡ ok items = rw (b, r) at e in
        let (same_rest, fine) = responses xs ys r in (cc, (rw b refl, fine))
  ]
]

module _ (le : String → String → Bool) (total : (a b : String) → (le a b ≡ true) ⊎ (le b a ≡ true))
    (trans : (a b c : String) → le a b ≡ true → le b c ≡ true → le a c ≡ true) where
  -- If the ids are distinct, the database's order of texts is total and transitive, and the list is
  -- answered: every listed item is what its id is answered with, and the list is sorted by the ids
  -- and holds exactly the active rows.
  pub list_catalog_items-get_catalog_item :
      (rows items : List CatalogItem)
      → DistinctIds rows
      → list_catalog_items le rows ≡ ok items
      → All (λ x. get_catalog_item x.id rows ≡ ok x) items
        × IsSorted (λ (a b : CatalogItem). le a.id b.id) items
        × Perm items (select (λ item. item.is_active) rows)
  unfolding list_catalog_items list_active_items
  list_catalog_items-get_catalog_item rows items d e =
      let by_id : CatalogItem → CatalogItem → Bool = λ a b. le a.id b.id in
      let active = select (λ item. item.is_active) rows in
      let (same_items, fine) = responses (list_active_items le rows) items e in
      subst
        (λ xs. All (λ x. get_catalog_item x.id rows ≡ ok x) xs × IsSorted by_id xs × Perm xs active)
        same_items
        (
          All-both (got rows) (list_active_items le rows) fine
              (All-order_by (Found rows) by_id active (Found-active rows d)),
          order_by-IsSorted by_id (λ a b. total a.id b.id) (λ a b c. trans a.id b.id c.id) active,
          order_by-perm by_id active,
        )
