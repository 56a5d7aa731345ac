-- ===== src/Catalog/Tests.antt =====
-- The catalog at concrete inputs.
use Prim.Native.Char.{code}
use mathlib.Core.List.{Perm}
use retail_ops_microservices.Base.{
  String, ◌≡◌, ◌≢◌, refl, Bool, true, false, List, [], ◌∷◌, ◌==◌, eq_iff, leb, ◌⊎◌, inl, inr, arith,
}
use retail_ops_microservices.Base.Exec.{ok}
use retail_ops_microservices.Base.Rows.{All, select}
use retail_ops_microservices.Base.Sort.{IsSorted, insert_by, order_by}
use retail_ops_microservices.Catalog.{
  CatalogItem, list_active_items, list_catalog_items, get_catalog_item,
}
use retail_ops_microservices.Catalog.Listed.{list_catalog_items-get_catalog_item}

abbrev lamp : CatalogItem
lamp = record {
  id = "b";
  sku = "S";
  name = "Lamp";
  description = "";
  price_kopecks = 100;
  currency = "RUB";
  is_active = true;
}

abbrev chair : CatalogItem
chair = record lamp { id = "a"; name = "Chair" }

abbrev old_chair : CatalogItem
old_chair = record chair { id = "c"; is_active = false }

abbrev rows : List CatalogItem
rows = lamp ∷ old_chair ∷ chair ∷ []

-- The order of the first characters.
abbrev by_first : String → String → Bool
by_first String.[] t = true
by_first (String.◌∷◌ c s) String.[] = false
by_first (String.◌∷◌ c s) (String.◌∷◌ d t) = leb (code c) (code d)

by_first_total : (s t : String) → (by_first s t ≡ true) ⊎ (by_first t s ≡ true)
by_first_total String.[] t = inl refl
by_first_total (String.◌∷◌ c s) String.[] = inr refl
by_first_total (String.◌∷◌ c s) (String.◌∷◌ d t) = ground arith

by_first_trans : (s t u : String) → by_first s t ≡ true → by_first t u ≡ true → by_first s u ≡ true
by_first_trans String.[] t u p q = refl
by_first_trans (String.◌∷◌ c s) String.[] u p q = ground arith
by_first_trans (String.◌∷◌ c s) (String.◌∷◌ d t) String.[] p q = q
by_first_trans (String.◌∷◌ c s) (String.◌∷◌ d t) (String.◌∷◌ e u) p q = ground arith

apart : (s t : String) → (s == t) ≡ false → s ≢ t
apart s t h e = let both_ways : (s == t) ≡ true = (eq_iff s t).1 e in cc

list_catalog_items-get_catalog_item_example :
    All (λ x. get_catalog_item x.id rows ≡ ok x) (chair ∷ lamp ∷ [])
    × IsSorted (λ (a b : CatalogItem). by_first a.id b.id) (chair ∷ lamp ∷ [])
    × Perm (chair ∷ lamp ∷ []) (lamp ∷ chair ∷ [])
unfolding list_catalog_items list_active_items select order_by insert_by
list_catalog_items-get_catalog_item_example =
    list_catalog_items-get_catalog_item by_first by_first_total by_first_trans rows
      (chair ∷ lamp ∷ [])
      ((apart "c" "b" refl, (apart "a" "b" refl, tt)), ((apart "a" "c" refl, tt), (tt, tt))) refl
