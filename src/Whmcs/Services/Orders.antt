-- ===== src/Whmcs/Services/Orders.antt =====
-- `OrderService` of apps/whmcs/services/orders.py over the client and the cache.
use whmcstemplate_bridge.Base.{or_text, pos, Exec, pure, ◌>>=◌, ℕ, String, some, List, [], ◌∷◌}
use whmcstemplate_bridge.Json.{Value, int, str, list, dict, Items, nil, cons, Fields}
use whmcstemplate_bridge.Core.Pagination.{PageRequest}
use whmcstemplate_bridge.Whmcs.Dates.{dates}
use whmcstemplate_bridge.Orders.Placement
use whmcstemplate_bridge.Orders.Placement.{Services, Setup, Basket, Placed}
use whmcstemplate_bridge.Orders.Withdrawal
use whmcstemplate_bridge.Whmcs.Services.{
  Call, Site, World, upstream, pair, ask, cached_for, invalidate_for,
}
use whmcstemplate_bridge.Whmcs.Services.Catalogue.{payment_modules}

pub dicts : List Fields → Items
dicts [] = nil
dicts (d ∷ rows) = cons (dict d) (dicts rows)

module _ (S : Site) where
  abbrev pub setup : Setup
  setup = record { config = S.config; base64 = S.rules.base64_text; repr = S.repr }

  abbrev pub live_services : Services
  live_services = record {
    State = World;
    payment_modules = payment_modules S;
    call = λ action params. upstream (ask S action params);
    invalidate_for = invalidate_for;
  }

  -- `fetch` of `list_orders`
  unfoldable pub fetch_orders :
      (whmcs_client_id : ℕ) → PageRequest → (status : String) → Exec (List Call) Value
  unfolding Withdrawal.list_params Withdrawal.listed_orders dicts ask
  fetch_orders whmcs_client_id page status = do
    reply ← ask S "GetOrders" (Withdrawal.list_params whmcs_client_id page (some status))
    let (orders, total) = Withdrawal.listed_orders setup (dates S.repr) reply
    pure (pair (list (dicts orders)) (int total))

  -- The empty status stands for none.
  unfoldable pub list_orders :
      (whmcs_client_id : ℕ) → PageRequest → (status : String) → Exec World Value
  unfolding cached_for fetch_orders
  list_orders whmcs_client_id page status =
      cached_for S whmcs_client_id "orders" "invoices" (fetch_orders whmcs_client_id page status) (
        str "list"
        ∷ int (pos page.page)
        ∷ int (pos page.page_size)
        ∷ str (or_text status "all")
        ∷ [])

  unfoldable pub create_order : Basket → Exec World Placed
  unfolding Placement.create_order payment_modules
  create_order b = Placement.create_order setup live_services b

  unfoldable pub get_order : (whmcs_client_id order_id : ℕ) → Exec World Fields
  unfolding Withdrawal.get_order
  get_order whmcs_client_id order_id =
      Withdrawal.get_order setup (dates S.repr) live_services whmcs_client_id order_id

  unfoldable pub cancel_order : (whmcs_client_id order_id : ℕ) → Exec World Fields
  unfolding Withdrawal.cancel_order
  cancel_order whmcs_client_id order_id =
      Withdrawal.cancel_order setup (dates S.repr) live_services whmcs_client_id order_id
