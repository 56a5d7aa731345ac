-- ===== src/Catalog.antt =====
-- services/catalog-service/src/catalog_service: the queries on catalog_items and the endpoints.
-- How the database orders texts is a parameter.
pub mod Listed
mod Tests
use retail_ops_microservices.Base.{
  ℕ, String, Bool, true, ◌&&◌, Option, none, some, List, [], ◌∷◌, ◌==◌, if◌then◌else◌,
}
use retail_ops_microservices.Base.Exec.{Result, ok, err}
use retail_ops_microservices.Base.Rows.{select, select_first}
use retail_ops_microservices.Base.Sort.{insert_by, order_by}
use retail_ops_microservices.Http.{HttpError, not_found, server_error}

pub record CatalogItem : Type 0 where
  pub id : String
  pub sku : String
  pub name : String
  pub description : String
  pub price_kopecks : ℕ
  pub currency : String
  pub is_active : Bool

-- The rows that are active, ordered by their ids.
unfoldable pub list_active_items : (String → String → Bool) → List CatalogItem → List CatalogItem
unfolding select order_by
list_active_items le rows = order_by (λ a b. le a.id b.id) (select (λ item. item.is_active) rows)

unfoldable pub find_active_item_by_id : String → List CatalogItem → Option CatalogItem
unfolding select_first
find_active_item_by_id item_id rows =
    select_first (λ item. item.id == item_id && item.is_active) rows

-- The response's `currency` is the literal RUB; another one raises, which is a 500. The response
-- has the item's fields but `is_active`, which is true of every item that is found.
abbrev pub item_response : CatalogItem → Result HttpError CatalogItem
item_response item = if item.currency == "RUB" then ok item else err server_error

abbrev pub both :
    Result HttpError CatalogItem
    → Result HttpError (List CatalogItem)
    → Result HttpError (List CatalogItem)
both (ok item) (ok items) = ok (item ∷ items)
both (ok item) (err e) = err e
both (err e) items = err e

abbrev pub item_responses : List CatalogItem → Result HttpError (List CatalogItem)
item_responses [] = ok []
item_responses (item ∷ items) = both (item_response item) (item_responses items)

unfoldable pub list_catalog_items :
    (String → String → Bool) → List CatalogItem → Result HttpError (List CatalogItem)
unfolding list_active_items
list_catalog_items le rows = item_responses (list_active_items le rows)

abbrev found_item : Option CatalogItem → Result HttpError CatalogItem
found_item none = err (not_found "Catalog item not found")
found_item (some item) = item_response item

unfoldable pub get_catalog_item : String → List CatalogItem → Result HttpError CatalogItem
unfolding find_active_item_by_id
get_catalog_item item_id rows = found_item (find_active_item_by_id item_id rows)
