-- ===== src/Orders/Placement.antt =====
-- `OrderService.create_order` of apps/whmcs/services/orders.py: the request and its answer.
pub mod Prices
pub mod Guards
use Prim.Native.Char.{Char, code}
use Prim.Native.String
use whmcstemplate_bridge.Base.{
  ltb, nat_eq, if◌then◌else◌, length, f_string, is_text, one_of, strip, show, show_int, ℤ, pos,
  int_eq, application_error, Exn, application, Exec, pure, raise, ◌>>=◌, ◌>>◌, ℕ, suc, String,
  false, not, Option, none, some, List, [], ◌∷◌, ◌==◌,
}
use whmcstemplate_bridge.Json.{
  Value, null, bool, int, str, dict, Fields, end, field, set_field, get_or, truthy, or_value,
  str_of,
}
use whmcstemplate_bridge.Whmcs.Config.{WhmcsSettings, netloc}
use whmcstemplate_bridge.Whmcs.Normalizers.{to_int}
use whmcstemplate_bridge.Core.Http.{split_commas}
use whmcstemplate_bridge.Orders.Basket.{Item, Indexed, index_lines}

abbrev pub max_items : ℕ
max_items = 20

-- What the order service calls: the enabled gateways by their modules, a WHMCS action, and the
-- invalidation of a customer's cached resources.
pub record Services : Type 1 where
  pub State : Type 0
  pub payment_modules : Exec State (List String)
  pub call : (action : String) → Fields → Exec State Fields
  pub invalidate_for : (whmcs_client_id : ℕ) → (resources : List String) → Exec State (Unit {0})

pub record Setup : Type 0 where
  pub config : WhmcsSettings
  pub base64 : String → String
  pub repr : Value → String

-- the arguments of `create_order`
pub record Basket : Type 0 where
  pub whmcs_client_id : ℕ
  pub items : List Item
  pub payment_method : String
  pub promo_code : String
  pub nameservers : List String
  pub client_ip : String

pub record Placed : Type 0 where
  pub order_id : ℤ
  pub invoice_id : ℤ
  pub service_ids : List ℤ
  pub domain_ids : List ℤ
  pub addon_ids : List ℤ
  pub payment_url : Option String

-- a dict by its index, whose keys the form writes as texts
by_index : List (ℕ × Value) → Fields
unfolding show
by_index [] = end
by_index ((i, v) ∷ d) = field (show i) v (by_index d)

-- `params.update(indexed)`
unfoldable pub set_indexed : Indexed → Fields → Fields
unfolding set_field by_index
set_indexed [] params = params
set_indexed ((name, d) ∷ indexed) params =
    set_indexed indexed (set_field name (dict (by_index d)) params)

-- `for index, host in enumerate(nameservers, start=1)`
unfoldable pub set_nameservers : ℕ → List String → Fields → Fields
unfolding set_field f_string show
set_nameservers index [] params = params
set_nameservers index (host ∷ hosts) params =
    set_nameservers (suc index) hosts
      (set_field (f_string ("nameserver" ∷ show index ∷ [])) (str host) params)

base_params : Basket → Fields
base_params b = field "clientid" (int (pos b.whmcs_client_id)) (
    field "paymentmethod" (str b.payment_method) (
      field "clientip" (str b.client_ip) (
        field "noinvoice" (bool false)
          (field "noinvoiceemail" (bool false) (field "noemail" (bool false) end)))))

with_promo : String → Fields → Fields
unfolding set_field
with_promo promo_code params =
    if is_text promo_code then set_field "promocode" (str promo_code) params else params

-- the parameters of AddOrder
unfoldable pub order_params : (base64 : String → String) → Basket → Fields
unfolding set_indexed set_nameservers with_promo base_params index_lines
order_params base64 b =
    set_indexed (index_lines base64 0 b.items [])
      (set_nameservers 1 b.nameservers (with_promo b.promo_code (base_params b)))

-- the ids of the parts that are not blank
ids_of : (repr : Value → String) → List String → List ℤ
unfolding to_int strip
ids_of repr [] = []
ids_of repr (part ∷ parts) =
    let rest = ids_of repr parts in
    if is_text (strip part) then to_int repr (str part) (pos 0) ∷ rest else rest

-- WHMCS returns created ids as a comma separated string.
unfoldable pub id_list : (repr : Value → String) → Value → List ℤ
unfolding ids_of truthy str_of split_commas
id_list repr value =
    if not (truthy value) then [] else ids_of repr (split_commas (str_of repr value))

unfoldable pub invoice_payment_url : WhmcsSettings → ℤ → String
unfolding netloc f_string show_int
invoice_payment_url c invoice_id =
    f_string (
      c.scheme ∷ "://" ∷ netloc c ∷ c.base_path ∷ "/viewinvoice.php?id=" ∷ show_int invoice_id ∷ [])

placed_from : Setup → Fields → Placed
unfolding to_int get_or id_list truthy invoice_payment_url
placed_from S reply =
    let invoice_id = to_int S.repr (get_or "invoiceid" null reply) (pos 0) in
    record {
      order_id = to_int S.repr (get_or "orderid" null reply) (pos 0);
      invoice_id = invoice_id;
      service_ids =
          id_list S.repr
            (or_value (get_or "productids" null reply) (get_or "serviceids" null reply));
      domain_ids = id_list S.repr (get_or "domainids" null reply);
      addon_ids = id_list S.repr (get_or "addonids" null reply);
      payment_url =
          if int_eq invoice_id (pos 0)
          then none
          else some (invoice_payment_url S.config invoice_id);
    }

abbrev refused : String → String → Exn
refused code message = application application_error code message []

abbrev pub cache_resources : List String
cache_resources = "orders" ∷ "invoices" ∷ "services" ∷ "domains" ∷ []

module _ (S : Setup) (P : Services) where
  -- from AddOrder on
  unfoldable pub add_order : Basket → Exec P.State Placed
  unfolding order_params placed_from
  add_order b = do
    reply ← P.call "AddOrder" (order_params S.base64 b)
    P.invalidate_for b.whmcs_client_id cache_resources
    pure (placed_from S reply)

  -- the test on the gateway, by the modules that are enabled
  unfoldable pub place_with : Basket → List String → Exec P.State Placed
  unfolding add_order
  place_with b modules =
      if one_of b.payment_method modules
      then add_order b
      else raise (refused "invalid_payment_method" "Unknown payment method.")

  -- Turn a validated basket into a WHMCS order plus its invoice.
  unfoldable pub create_order : Basket → Exec P.State Placed
  unfolding place_with f_string show
  create_order b =
      if nat_eq (length b.items) 0
      then raise (refused "empty_basket" "The basket is empty.")
      else if ltb max_items (length b.items)
      then raise (
          refused "basket_too_large"
            (f_string ("An order may contain at most " ∷ show max_items ∷ " items." ∷ [])))
      else do modules ← P.payment_modules; place_with b modules
