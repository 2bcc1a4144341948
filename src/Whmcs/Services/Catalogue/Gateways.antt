-- ===== src/Whmcs/Services/Catalogue/Gateways.antt =====
-- The payment methods of apps/whmcs/services/orders.py.
use whmcstemplate_bridge.Base.{
  if◌then◌else◌, one_of, runtime, Outcome, returned, raised, Exec, pure, lift, ◌>>=◌, String, Bool,
  List, [], ◌∷◌,
}
use whmcstemplate_bridge.Json.{
  Value, null, str, list, dict, Items, nil, cons, Fields, end, field, get_or, truthy,
}
use whmcstemplate_bridge.Whmcs.Normalizers.{collection, text, as_text}
use whmcstemplate_bridge.Whmcs.Services.{Call, Site, World, subscript, ask, cached}

-- the module names of `list_payment_methods`
unfoldable pub module_names : Items → Outcome (List String)
unfolding subscript
module_names nil = returned []
module_names (cons method methods) =
    let rest = module_names methods in
    elim (subscript "module" method) [
      | returned (str name) ↦ elim rest [
        | returned names ↦ returned (name ∷ names)
        | raised e ↦ raised e
      ]
      | returned _ ↦ raised (runtime "TypeError")
      | raised e ↦ raised e
    ]

-- the items of a list
abbrev pub items_of : Value → Outcome Items
items_of (list items) = returned items
items_of _ = raised (runtime "TypeError")

module _ (S : Site) where
  -- the gateways whose rows name a module
  unfoldable pub gateways_of : List Fields → Items
  unfolding get_or truthy text
  gateways_of [] = nil
  gateways_of (raw ∷ rows) =
      let rest = gateways_of rows in
      if truthy (get_or "module" null raw)
      then cons
          (dict (
            field "module" (as_text S.repr (get_or "module" null raw))
              (field "name" (as_text S.repr (get_or "displayname" null raw)) end)))
          rest
      else rest

  unfoldable pub fetch_gateways : Exec (List Call) Value
  unfolding ask gateways_of collection
  fetch_gateways = do
    reply ← ask S "GetPaymentMethods" end
    pure (list (gateways_of (collection reply "paymentmethods" "paymentmethod")))

  unfoldable pub list_payment_methods : Exec World Value
  unfolding cached fetch_gateways
  list_payment_methods = cached S "catalogue:gateways" "catalogue" fetch_gateways (str "list" ∷ [])

  unfoldable pub payment_modules : Exec World (List String)
  unfolding list_payment_methods module_names
  payment_modules = do
    methods ← list_payment_methods
    items ← lift (items_of methods)
    lift (module_names items)

  unfoldable pub is_valid_payment_method : (module_name : String) → Exec World Bool
  unfolding payment_modules
  is_valid_payment_method module_name = do
    modules ← payment_modules
    pure (one_of module_name modules)
