-- ===== src/Orders/Withdrawal.antt =====
-- `get_order`, `cancel_order` and `list_orders` of apps/whmcs/services/orders.py. The converter of
-- dates is a parameter.
pub mod Pending
use whmcstemplate_bridge.Base.{
  if◌then◌else◌, length, one_of, ℤ, pos, int_eq, application_error, resource_not_found, Exn,
  application, Outcome, returned, raised, Exec, pure, raise, lift, ◌>>=◌, ◌>>◌, ℕ, String, Bool,
  false, not, Option, none, some, List, [], ◌∷◌, ◌==◌,
}
use whmcstemplate_bridge.Json.{
  set_field, Value, null, bool, int, str, list, dict, Items, nil, cons, Fields, end, field, get_or,
  str_of,
}
use whmcstemplate_bridge.Whmcs.Normalizers.{
  collection, to_int, as_int, as_text, Dates, column, total_of, text, Column, pick, assert_owned,
}
use whmcstemplate_bridge.Whmcs.Money.{as_money}
use whmcstemplate_bridge.Core.Pagination.{PageRequest, limit_start, limit_num}
use whmcstemplate_bridge.Orders.Placement.{Services, Setup, invoice_payment_url, cache_resources}

-- `x == name`, for a text `name`
abbrev pub is_str : String → Value → Bool
is_str name (str s) = s == name
is_str name _ = false

abbrev pub order_not_found : Exn
order_not_found = application resource_not_found "not_found" "Order not found." []

abbrev pub order_not_cancellable : String → Exn
order_not_cancellable status =
    application application_error "order_not_cancellable"
      "Only a pending order can be cancelled. Open a ticket for this one." (("status", status) ∷ [])

with_status : Option String → Fields → Fields
unfolding set_field
with_status none params = params
with_status (some status) params =
    if one_of status ("Pending" ∷ "Active" ∷ "Fraud" ∷ "Cancelled" ∷ [])
    then set_field "status" (str status) params
    else params

-- the parameters of GetOrders for a list
unfoldable pub list_params : (whmcs_client_id : ℕ) → PageRequest → Option String → Fields
unfolding with_status limit_start limit_num
list_params whmcs_client_id page status = with_status status (
    field "userid" (int (pos whmcs_client_id)) (
      field "limitstart" (int (pos (limit_start page)))
        (field "limitnum" (int (pos (limit_num page))) end)))

module _ (S : Setup) (D : Dates) where
  order_map : List Column
  unfolding to_int text
  order_map =
      column "id" "id" (as_int S.repr)
      ∷ column "order_number" "ordernum" (as_text S.repr)
      ∷ column "invoice_id" "invoiceid" (as_int S.repr)
      ∷ column "date" "date" D.iso
      ∷ column "status" "status" (as_text S.repr)
      ∷ column "payment_status" "paymentstatus" (as_text S.repr)
      ∷ column "amount" "amount" (as_money S.repr)
      ∷ column "payment_method" "paymentmethodname" (as_text S.repr)
      ∷ column "promo_code" "promocode" (as_text S.repr)
      ∷ []

  line_item_map : List Column
  unfolding to_int text
  line_item_map =
      column "type" "type" (as_text S.repr)
      ∷ column "relation_id" "relid" (as_int S.repr)
      ∷ column "product_type" "producttype" (as_text S.repr)
      ∷ column "product" "product" (as_text S.repr)
      ∷ column "domain" "domain" (as_text S.repr)
      ∷ column "billing_cycle" "billingcycle" (as_text S.repr)
      ∷ column "amount" "amount" (as_money S.repr)
      ∷ column "status" "status" (as_text S.repr)
      ∷ []

  line_items : List Fields → Items
  unfolding pick line_item_map
  line_items [] = nil
  line_items (line ∷ lines) = cons (dict (pick line line_item_map)) (line_items lines)

  -- `order["payment_url"]`, when there is an invoice
  unfoldable pub with_payment_url : ℤ → Fields → Fields
  unfolding set_field invoice_payment_url
  with_payment_url invoice_id order =
      if int_eq invoice_id (pos 0)
      then order
      else set_field "payment_url" (str (invoice_payment_url S.config invoice_id)) order

  -- `OrderService._order`
  unfoldable pub order_of : Fields → Fields
  unfolding pick order_map collection line_items set_field with_payment_url get_or to_int
  order_of raw = with_payment_url (to_int S.repr (get_or "invoiceid" null raw) (pos 0)) (
      set_field "items" (list (line_items (collection raw "lineitems" "lineitem")))
        (pick raw order_map))

  orders_of : List Fields → List Fields
  unfolding order_of
  orders_of [] = []
  orders_of (raw ∷ rows) = order_of raw ∷ orders_of rows

  -- the value that `list_orders` reads through the cache, by the answer of GetOrders
  unfoldable pub listed_orders : Fields → List Fields × ℤ
  unfolding orders_of collection total_of
  listed_orders reply =
      let items = orders_of (collection reply "orders" "order") in
      (items, total_of S.repr reply (pos (length items)))

  -- the first order of the answer, once it is the caller's
  unfoldable pub first_owned : ℕ → List Fields → Outcome Fields
  unfolding assert_owned order_of get_or
  first_owned whmcs_client_id [] = raised order_not_found
  first_owned whmcs_client_id (raw ∷ _) =
      elim (assert_owned S.repr (get_or "userid" null raw) whmcs_client_id) [
        | returned _ ↦ returned (order_of raw)
        | raised e ↦ raised e
      ]

  module _ (P : Services) where
    abbrev pub read_order : ℕ → Exec P.State Fields
    read_order order_id = P.call "GetOrders" (field "id" (int (pos order_id)) end)

    unfoldable pub get_order : (whmcs_client_id order_id : ℕ) → Exec P.State Fields
    unfolding first_owned collection
    get_order whmcs_client_id order_id = do
      reply ← read_order order_id
      lift (first_owned whmcs_client_id (collection reply "orders" "order"))

    -- from CancelOrder on; `invalidate_for` of one resource is `invalidate` of its namespace
    unfoldable pub withdraw : (whmcs_client_id order_id : ℕ) → Exec P.State Fields
    unfolding get_order
    withdraw whmcs_client_id order_id = do
      P.call "CancelOrder"
          (field "orderid" (int (pos order_id)) (field "cancelsub" (bool false) end))
      P.invalidate_for whmcs_client_id cache_resources
      P.invalidate_for whmcs_client_id ("orders" ∷ [])
      get_order whmcs_client_id order_id

    -- the test on `order["status"]`
    unfoldable pub withdraw_pending : (whmcs_client_id order_id : ℕ) → Fields → Exec P.State Fields
    unfolding withdraw get_or str_of
    withdraw_pending whmcs_client_id order_id order =
        let status = get_or "status" null order in
        if not (is_str "Pending" status)
        then raise (order_not_cancellable (str_of S.repr status))
        else withdraw whmcs_client_id order_id

    unfoldable pub cancel_order : (whmcs_client_id order_id : ℕ) → Exec P.State Fields
    unfolding get_order withdraw_pending
    cancel_order whmcs_client_id order_id = do
      order ← get_order whmcs_client_id order_id
      withdraw_pending whmcs_client_id order_id order
