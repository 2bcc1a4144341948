-- ===== src/Whmcs/Services/Hosting/Upgrade.antt =====
-- apps/whmcs/services/hosting.py: the upgrades of a service.
use whmcstemplate_bridge.Base.{
  if◌then◌else◌, is_text, ℤ, pos, int_eq, application_error, Exn, application, Outcome, returned,
  raised, Exec, pure, raise, lift, ◌>>=◌, ◌>>◌, ℕ, String, Bool, true, false, not, ◌||◌, Option,
  none, some, [], ◌∷◌,
}
use whmcstemplate_bridge.Json.{
  Value, null, bool, int, str, Items, nil, cons, Fields, end, field, get_or, set_field,
}
use whmcstemplate_bridge.Core.Cache.{invalidate, client_namespace}
use whmcstemplate_bridge.Whmcs.Normalizers.{
  to_int, text, as_int, as_text, to_bool, as_bool, column, pick,
}
use whmcstemplate_bridge.Whmcs.Money.{as_money}
use whmcstemplate_bridge.Whmcs.Services.{Site, World, upstream, subscript, ask, invalidate_for}
use whmcstemplate_bridge.Whmcs.Services.Catalogue.{
  items_of, list_products, list_payment_methods, is_valid_payment_method,
}
use whmcstemplate_bridge.Orders.Placement.{invoice_payment_url}
use whmcstemplate_bridge.Whmcs.Services.Hosting.Reads.{get_service}

-- the keyword arguments of `quote_upgrade`, and of `upgrade` but the gateway
pub record Change : Type 0 where
  pub new_product_id : ℤ
  pub billing_cycle : String
  pub promo_code : String

abbrev pub upgrade_refused : Exn
upgrade_refused =
    application application_error "upgrade_not_allowed"
      "That product is not available as an upgrade for this service." []

abbrev pub no_gateway : Exn
no_gateway =
    application application_error "no_payment_method"
      "No payment gateway is enabled in the billing system." []

abbrev pub unknown_gateway : Exn
unknown_gateway =
    application application_error "invalid_payment_method" "Unknown payment method." []

-- `x == y`, of values that `to_int` made
abbrev pub same_int : Value → Value → Bool
same_int (int n) (int m) = int_eq n m
same_int _ _ = false

abbrev pub int_in : Value → ℤ
int_in (int n) = n
int_in _ = pos 0

-- `next((p for p in products if p["id"] == product_id), None)`
unfoldable pub find_product : (product_id : Value) → Items → Outcome (Option Value)
unfolding subscript
find_product product_id nil = returned none
find_product product_id (cons p products) =
    let rest = find_product product_id products in
    elim (subscript "id" p) [
      | returned id ↦ if same_int id product_id then returned (some p) else rest
      | raised e ↦ raised e
    ]

-- `[product for product in products if product["id"] != product_id]`
unfoldable pub other_products : (product_id : Value) → Items → Outcome Items
unfolding subscript
other_products product_id nil = returned nil
other_products product_id (cons p products) =
    let rest = other_products product_id products in
    elim (subscript "id" p) [
      | returned id ↦
          if same_int id product_id
          then rest
          else elim rest [ returned others ↦ returned (cons p others) | raised e ↦ raised e ]
      | raised e ↦ raised e
    ]

-- `new_product_id in {product["id"] for product in products}`
unfoldable pub offers : (new_product_id : ℤ) → Items → Outcome Bool
unfolding subscript
offers new_product_id nil = returned false
offers new_product_id (cons p products) =
    let rest = offers new_product_id products in
    elim (subscript "id" p) [
      | returned id ↦ elim rest [
        | returned found ↦ returned (same_int id (int new_product_id) || found)
        | raised e ↦ raised e
      ]
      | raised e ↦ raised e
    ]

-- `promo_code or None`
abbrev pub text_or_null : String → Value
text_or_null s = if is_text s then str s else null

upgrade_params : (service_id : ℕ) → (calc_only : Bool) → Change → (payment_method : Value) → Fields
upgrade_params service_id calc_only c payment_method = field "serviceid" (int (pos service_id)) (
    field "calconly" (bool calc_only) (
      field "type" (str "product") (
        field "newproductid" (int c.new_product_id) (
          field "newproductbillingcycle" (str c.billing_cycle) (
            field "promocode" (text_or_null c.promo_code)
              (field "paymentmethod" payment_method end))))))

module _ (S : Site) where
  -- the products of the current one's group, but for itself
  unfoldable pub same_group : (current_pid : Value) → (current : Option Value) → Exec World Items
  unfolding list_products subscript other_products
  same_group current_pid none = pure nil
  same_group current_pid (some current) = do
    group_id ← lift (subscript "group_id" current)
    products ← list_products S (int_in group_id)
    items ← lift (items_of products)
    lift (other_products current_pid items)

  -- Products this service may be moved to.
  unfoldable pub upgrade_options : (whmcs_client_id service_id : ℕ) → Exec World Items
  unfolding get_service list_products subscript find_product same_group
  upgrade_options whmcs_client_id service_id = do
    service ← get_service S whmcs_client_id service_id
    current_pid ← lift (subscript "product_id" service)
    products ← list_products S (pos 0)
    items ← lift (items_of products)
    current ← lift (find_product current_pid items)
    same_group current_pid current

  unfoldable pub refuse_unless : Bool → Exec World (Unit {0})
  refuse_unless true = pure tt
  refuse_unless false = raise upgrade_refused

  unfoldable pub assert_upgrade_allowed :
      (whmcs_client_id service_id : ℕ) → (new_product_id : ℤ) → Exec World (Unit {0})
  unfolding upgrade_options offers refuse_unless
  assert_upgrade_allowed whmcs_client_id service_id new_product_id = do
    options ← upgrade_options whmcs_client_id service_id
    found ← lift (offers new_product_id options)
    refuse_unless found

  -- `_upgrade_result`
  unfoldable pub upgrade_result : Fields → Fields
  unfolding pick to_int text to_bool
  upgrade_result reply = pick reply (
      column "in_progress" "upgradeinprogress" (as_bool S.repr S.lower)
      ∷ column "old_product_id" "oldproductid" (as_int S.repr)
      ∷ column "old_product_name" "oldproductname" (as_text S.repr)
      ∷ column "new_product_id" "newproductid" (as_int S.repr)
      ∷ column "new_product_name" "newproductname" (as_text S.repr)
      ∷ column "billing_cycle" "newproductbillingcycle" (as_text S.repr)
      ∷ column "days_until_renewal" "daysuntilrenewal" (as_int S.repr)
      ∷ column "total_days" "totaldays" (as_int S.repr)
      ∷ column "price" "price" (as_money S.repr)
      ∷ column "order_id" "orderid" (as_int S.repr)
      ∷ column "invoice_id" "invoiceid" (as_int S.repr)
      ∷ column "payment_url" "" (λ _. null)
      ∷ [])

  -- `gateways[0]["module"]`, once there is one
  first_gateway : Items → Outcome Value
  unfolding subscript
  first_gateway nil = raised no_gateway
  first_gateway (cons gateway _) = subscript "module" gateway

  -- Price an upgrade without committing to it.
  unfoldable pub quote_upgrade : (whmcs_client_id service_id : ℕ) → Change → Exec World Fields
  unfolding assert_upgrade_allowed list_payment_methods first_gateway upgrade_params ask
      upgrade_result
  quote_upgrade whmcs_client_id service_id c = do
    assert_upgrade_allowed whmcs_client_id service_id c.new_product_id
    gateways ← list_payment_methods S
    items ← lift (items_of gateways)
    gateway ← lift (first_gateway items)
    reply ← upstream (ask S "UpgradeProduct" (upgrade_params service_id true c gateway))
    pure (upgrade_result reply)

  with_upgrade_url : (invoice_id : ℤ) → Fields → Fields
  unfolding set_field invoice_payment_url
  with_upgrade_url invoice_id result =
      if int_eq invoice_id (pos 0)
      then result
      else set_field "payment_url" (str (invoice_payment_url S.config invoice_id)) result

  -- from UpgradeProduct on
  unfoldable pub place_upgrade :
      (whmcs_client_id service_id : ℕ) → Change → (payment_method : String) → Exec World Fields
  unfolding ask upgrade_params upgrade_result with_upgrade_url invalidate_for invalidate
      client_namespace to_int get_or
  place_upgrade whmcs_client_id service_id c payment_method = do
    reply ←
        upstream (ask S "UpgradeProduct" (upgrade_params service_id false c (str payment_method)))
    invalidate_for whmcs_client_id ("services" ∷ [])
    invalidate (client_namespace whmcs_client_id "invoices")
    invalidate (client_namespace whmcs_client_id "orders")
    pure (
        with_upgrade_url (to_int S.repr (get_or "invoiceid" null reply) (pos 0))
          (upgrade_result reply))

  unfoldable pub upgrade_if :
      (whmcs_client_id service_id : ℕ)
      → Change
      → (payment_method : String) → (enabled : Bool) → Exec World Fields
  unfolding place_upgrade
  upgrade_if whmcs_client_id service_id c payment_method enabled =
      if not enabled
      then raise unknown_gateway
      else place_upgrade whmcs_client_id service_id c payment_method

  -- Perform the upgrade: WHMCS raises an order and an invoice.
  unfoldable pub upgrade :
      (whmcs_client_id service_id : ℕ) → Change → (payment_method : String) → Exec World Fields
  unfolding assert_upgrade_allowed is_valid_payment_method upgrade_if
  upgrade whmcs_client_id service_id c payment_method = do
    assert_upgrade_allowed whmcs_client_id service_id c.new_product_id
    enabled ← is_valid_payment_method S payment_method
    upgrade_if whmcs_client_id service_id c payment_method enabled
