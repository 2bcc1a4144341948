-- ===== src/Orders/Live.antt =====
-- `OrderListCreateView.post` of apps/orders/views.py over the order service of
-- apps/whmcs/services/orders.py: both use the one cache.
pub mod Apart
pub mod Once
pub mod Posts
mod Tests
use whmcstemplate_bridge.Base.{
  ℤ, Exec, pure, lift, Outcome, ◌>>=◌, ℕ, String, Bool, Option, none, some, List, [], ◌∷◌,
}
use whmcstemplate_bridge.Json.{Value, null, int, str, list, dict, Items, nil, cons, end, field}
use whmcstemplate_bridge.Orders.Idempotency.{Answered, idempotency_key, post_order}
use whmcstemplate_bridge.Orders.Placement.{Basket, Placed}
use whmcstemplate_bridge.Api.Scope.{Http, Framework, for_client}
use whmcstemplate_bridge.Whmcs.Services.{Site, World}
use whmcstemplate_bridge.Whmcs.Services.Orders.{create_order}

abbrev pub ints : List ℤ → Items
ints [] = nil
ints (n ∷ ns) = cons (int n) (ints ns)

abbrev pub url_or_null : Option String → Value
url_or_null none = null
url_or_null (some s) = str s

-- the dict that `create_order` returns
abbrev pub placed_value : Placed → Value
placed_value p = dict (
    field "order_id" (int p.order_id) (
      field "invoice_id" (int p.invoice_id) (
        field "service_ids" (list (ints p.service_ids)) (
          field "domain_ids" (list (ints p.domain_ids)) (
            field "addon_ids" (list (ints p.addon_ids))
              (field "payment_url" (url_or_null p.payment_url) end))))))

module _ (S : Site) where
  -- `OrderService().create_order(…)`, for the caller's own id
  unfoldable pub place : (whmcs_client_id : ℕ) → Basket → Exec World Value
  unfolding create_order
  place whmcs_client_id b = do
    placed ← create_order S (record b { whmcs_client_id = whmcs_client_id })
    pure (placed_value placed)

  -- The basket is validated, and `raw` is the Idempotency-Key header.
  unfoldable pub order_create :
      (is_alnum : ℕ → Bool) → (whmcs_client_id : ℕ) → (raw : String) → Basket → Exec World Answered
  unfolding place post_order idempotency_key
  order_create is_alnum whmcs_client_id raw b =
      post_order (idempotency_key is_alnum whmcs_client_id raw) (place whmcs_client_id b)

  -- `OrderListCreateView.post`, behind its permission; `validated` is what the serializer made of the
  -- body, without the client's id and address
  unfoldable pub order_post :
      Framework
      → (is_alnum : ℕ → Bool) → Http
      → (raw : String) → (validated : Outcome Basket) → Exec World Answered
  unfolding for_client order_create
  order_post F is_alnum q raw validated = for_client F q (λ n. do
    b ← lift validated
    order_create is_alnum n raw (record b { client_ip = q.client_ip }))
