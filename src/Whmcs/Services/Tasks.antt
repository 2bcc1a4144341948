-- ===== src/Whmcs/Services/Tasks.antt =====
-- apps/whmcs/tasks.py, without the queue: what each task does once it runs.
use whmcstemplate_bridge.Base.{
  pos, runtime, Outcome, returned, raised, Exec, pure, lift, ◌>>=◌, ◌>>◌, ℕ, suc,
}
use whmcstemplate_bridge.Json.{Value, int, list, dict, Items, nil, cons, Fields, end, field}
use whmcstemplate_bridge.Core.Pagination.{PageRequest}
use whmcstemplate_bridge.Orders.Placement.{Basket, Placed}
use whmcstemplate_bridge.Whmcs.Services.{Site, World}
use whmcstemplate_bridge.Whmcs.Services.Billing.{list_invoices}
use whmcstemplate_bridge.Whmcs.Services.Catalogue.{list_products, list_currencies, tld_pricing}
use whmcstemplate_bridge.Whmcs.Services.Hosting.{list_services}
use whmcstemplate_bridge.Whmcs.Services.Orders.{create_order}

count_items : Items → ℕ
count_items nil = 0
count_items (cons v items) = suc (count_items items)

count_fields : Fields → ℕ
count_fields end = 0
count_fields (field k v fields) = suc (count_fields fields)

-- `len(v)`, of a list or a dict
len_of : Value → Outcome ℕ
unfolding count_items count_fields
len_of (list items) = returned (count_items items)
len_of (dict fields) = returned (count_fields fields)
len_of v = raised (runtime "TypeError")

abbrev pub hot_page : PageRequest
hot_page = record { page = 1; page_size = 20 }

module _ (S : Site) where
  unfoldable pub warm_catalogue_cache : Exec World Fields
  unfolding list_products list_currencies tld_pricing len_of
  warm_catalogue_cache = do
    products ← list_products S (pos 0)
    currencies ← list_currencies S
    tlds ← tld_pricing S (pos 0)
    product_count ← lift (len_of products)
    currency_count ← lift (len_of currencies)
    tld_count ← lift (len_of tlds)
    pure (
        field "products" (int (pos product_count))
          (field "currencies" (int (pos currency_count)) (field "tlds" (int (pos tld_count)) end)))

  unfoldable pub refresh_client_cache : (whmcs_client_id : ℕ) → Exec World (Unit {0})
  unfolding list_invoices list_services
  refresh_client_cache whmcs_client_id = do
    list_invoices S whmcs_client_id hot_page ""
    list_services S whmcs_client_id hot_page ""
    pure tt

  -- The payload is a basket, which the serializer has validated.
  unfoldable pub place_order : Basket → Exec World Placed
  unfolding create_order
  place_order payload = create_order S payload
