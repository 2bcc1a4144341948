-- ===== src/Whmcs/Flatten.antt =====
-- `flatten` of apps/whmcs/transport.py.
pub mod Leaves
pub mod Keys
use whmcstemplate_bridge.Base.{
  if◌then◌else◌, f_string, prefix, is_text, show, ℕ, suc, String, [], ◌∷◌,
}
use whmcstemplate_bridge.Json.{
  Value, null, bool, list, dict, Items, nil, cons, Fields, end, field, str_of,
}
use whmcstemplate_bridge.Whmcs.Form.{Form, put, update}

-- `f"{prefix}[{key}]" if prefix else str(key)`
abbrev pub name_of : String → String → String
name_of prefix key = if is_text prefix then f_string (prefix ∷ "[" ∷ key ∷ "]" ∷ []) else key

-- `f"{field}[{index}]"`
abbrev pub item_name : String → ℕ → String
item_name name index = f_string (name ∷ "[" ∷ show index ∷ "]" ∷ [])

-- The loops of `flatten`, with `flat` as it stands. `repr` is what Python prints of a list.
unfoldable mutual
  unfolding f_string show

  -- `for key, value in params.items()`
  pub flatten_fields : (repr : Value → String) → Form → String → Fields → Form
  flatten_fields repr flat prefix end = flat
  flatten_fields repr flat prefix (field key value params) =
      flatten_fields repr (flatten_value repr flat (name_of prefix key) value) prefix params

  -- the branches on `value`
  pub flatten_value : (repr : Value → String) → Form → String → Value → Form
  flatten_value repr flat name null = flat
  flatten_value repr flat name (dict d) = update flat (flatten_fields repr [] name d)
  flatten_value repr flat name (list items) = flatten_items repr flat name 0 items
  flatten_value repr flat name (bool b) = put name (if b then "1" else "0") flat
  flatten_value repr flat name value = put name (str_of repr value) flat

  -- `for index, item in enumerate(value)`
  pub flatten_items : (repr : Value → String) → Form → String → ℕ → Items → Form
  flatten_items repr flat name index nil = flat
  flatten_items repr flat name index (cons item items) =
      flatten_items repr (flatten_item repr flat (item_name name index) item) name (suc index) items

  pub flatten_item : (repr : Value → String) → Form → String → Value → Form
  flatten_item repr flat name (dict d) = update flat (flatten_fields repr [] name d)
  flatten_item repr flat name item = put name (str_of repr item) flat

unfoldable pub flatten : (repr : Value → String) → Fields → (prefix : String) → Form
unfolding flatten_fields
flatten repr params prefix = flatten_fields repr [] prefix params
