-- ===== src/Whmcs/Services/Catalogue/Products.antt =====
-- The products of apps/whmcs/services/catalogue.py.
use whmcstemplate_bridge.Base.{
  if◌then◌else◌, one_of, ℤ, pos, int_eq, runtime, Outcome, returned, raised, Exec, pure, lift,
  ◌>>=◌, String, List, [], ◌∷◌,
}
use whmcstemplate_bridge.Json.{
  Value, null, int, str, list, dict, Items, nil, cons, Fields, end, field, get_or, set_field,
  truthy, or_value, str_of,
}
use whmcstemplate_bridge.Whmcs.Normalizers.{
  collection, to_int, text, as_int, as_text, Column, column, pick,
}
use whmcstemplate_bridge.Whmcs.Money.{to_money}
use whmcstemplate_bridge.Whmcs.Services.{Call, Site, World, ask, cached}

-- the periods by our name and WHMCS'
abbrev pub cycle_fields : List (String × String)
cycle_fields =
    ("monthly", "monthly")
    ∷ ("quarterly", "quarterly")
    ∷ ("semiannually", "semiannually")
    ∷ ("annually", "annually")
    ∷ ("biennially", "biennially")
    ∷ ("triennially", "triennially")
    ∷ ("setup", "msetupfee")
    ∷ []

-- `{**params, name: n}`, where `n` is neither None nor 0
abbrev pub with_number : String → ℤ → Fields → Fields
with_number name n params = if int_eq n (pos 0) then params else field name (int n) params

module _ (S : Site) where
  product_map : List Column
  unfolding to_int text
  product_map =
      column "id" "pid" (as_int S.repr)
      ∷ column "group_id" "gid" (as_int S.repr)
      ∷ column "type" "type" (as_text S.repr)
      ∷ column "name" "name" (as_text S.repr)
      ∷ column "description" "description" (as_text S.repr)
      ∷ column "module" "module" (as_text S.repr)
      ∷ column "payment_type" "paytype" (as_text S.repr)
      ∷ []

  -- the prices that are configured, by our names of the periods
  unfoldable pub cycle_prices : List (String × String) → (values : Fields) → Fields
  unfolding get_or str_of to_money
  cycle_prices [] values = end
  cycle_prices ((ours, theirs) ∷ cycles) values =
      let rest = cycle_prices cycles values in
      if one_of (str_of S.repr (get_or theirs (str "-1") values)) ("-1" ∷ "-1.00" ∷ [])
      then rest
      else field ours (str (to_money S.repr (get_or theirs null values))) rest

  -- `pricing.items()`, by currency
  unfoldable pub pricing_of : Fields → Fields
  unfolding cycle_prices
  pricing_of end = end
  pricing_of (field currency (dict values) pricing) =
      field currency (dict (cycle_prices cycle_fields values)) (pricing_of pricing)
  pricing_of (field currency _ pricing) = pricing_of pricing

  priced : (product : Fields) → (pricing : Value) → Outcome Fields
  unfolding set_field pricing_of
  priced product (dict pricing) = returned (set_field "pricing" (dict (pricing_of pricing)) product)
  priced product _ = raised (runtime "AttributeError")

  -- `CatalogueService._product`
  unfoldable pub product_of : Fields → Outcome Fields
  unfolding priced pick product_map get_or truthy
  product_of raw = priced (pick raw product_map) (or_value (get_or "pricing" null raw) (dict end))

  unfoldable pub products_of : List Fields → Outcome Items
  unfolding product_of
  products_of [] = returned nil
  products_of (raw ∷ rows) =
      let rest = products_of rows in
      elim (product_of raw) [
        | returned p ↦ elim rest [ returned ps ↦ returned (cons (dict p) ps) | raised e ↦ raised e ]
        | raised e ↦ raised e
      ]

  unfoldable pub fetch_products : (group_id : ℤ) → Exec (List Call) Value
  unfolding ask products_of collection
  fetch_products group_id = do
    reply ← ask S "GetProducts" (with_number "gid" group_id end)
    products ← lift (products_of (collection reply "products" "product"))
    pure (list products)

  -- 0 stands for no group.
  unfoldable pub list_products : (group_id : ℤ) → Exec World Value
  unfolding cached fetch_products
  list_products group_id =
      cached S "catalogue:products" "catalogue" (fetch_products group_id) (int group_id ∷ [])
