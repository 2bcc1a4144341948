-- ===== src/Whmcs/Normalizers.antt =====
-- apps/whmcs/normalizers.py: collections, numbers, texts and Booleans as WHMCS gives them.
use whmcstemplate_bridge.Base.{
  if◌then◌else◌, Bool-cases, one_of, strip, parse_int, ℤ, pos, int_eq, int_eq→eq,
  resource_not_found, application, Outcome, returned, raised, ℕ, String, ◌≡◌, inl, inr, Bool, not,
  Option, none, some, List, [], ◌∷◌,
}
use whmcstemplate_bridge.Json.{
  Value, null, bool, int, str, list, dict, Items, nil, cons, Fields, end, field, get_or, truthy,
  or_value, str_of,
}

-- `[item for item in node if isinstance(item, dict)]`
unfoldable pub dicts_of : Items → List Fields
dicts_of nil = []
dicts_of (cons (dict d) items) = d ∷ dicts_of items
dicts_of (cons _ items) = dicts_of items

-- the branches on `items`
inner_dicts : Value → List Fields
unfolding dicts_of
inner_dicts (dict d) = d ∷ []
inner_dicts (list items) = dicts_of items
inner_dicts _ = []

-- the branches on `node`
outer_dicts : String → Value → List Fields
unfolding dicts_of inner_dicts get_or
outer_dicts inner (list items) = dicts_of items
outer_dicts inner (dict d) = inner_dicts (get_or inner (list nil) d)
outer_dicts inner _ = []

-- Unwrap `{"invoices": {"invoice": [...]}}` into `[...]`.
unfoldable pub collection : Fields → (outer inner : String) → List Fields
unfolding outer_dicts get_or truthy
collection payload outer inner = outer_dicts inner (or_value (get_or outer null payload) (dict end))

abbrev int_or : ℤ → Option ℤ → ℤ
int_or default none = default
int_or default (some n) = n

module _ (repr : Value → String) where
  unfoldable pub to_int : Value → ℤ → ℤ
  unfolding str_of strip parse_int
  to_int value default = int_or default (parse_int (strip (str_of repr value)))

  unfoldable pub total_of : Fields → ℤ → ℤ
  unfolding to_int get_or
  total_of payload fallback = to_int (get_or "totalresults" null payload) fallback

  unfoldable pub text : Value → String
  unfolding str_of
  text null = ""
  text value = str_of repr value

  abbrev pub as_int : Value → Value
  unfolding to_int
  as_int value = int (to_int value (pos 0))

  abbrev pub as_text : Value → Value
  unfolding text
  as_text value = str (text value)

  -- `lower` is `str.lower`
  unfoldable pub to_bool : (lower : String → String) → Value → Bool
  unfolding str_of strip
  to_bool lower (bool b) = b
  to_bool lower value =
      one_of (lower (strip (str_of repr value)))
        ("1" ∷ "on" ∷ "yes" ∷ "true" ∷ "y" ∷ "enabled" ∷ [])

  abbrev pub as_bool : (lower : String → String) → Value → Value
  unfolding to_bool
  as_bool lower value = bool (to_bool lower value)

-- a row of a mapping: our name, WHMCS' name and the converter
pub record Column : Type 0 where
  pub our_name : String
  pub whmcs_name : String
  pub converter : Value → Value

abbrev pub column : (our_name whmcs_name : String) → (Value → Value) → Column
column our_name whmcs_name converter = record {
  our_name = our_name;
  whmcs_name = whmcs_name;
  converter = converter;
}

-- `iso` and `iso_date`
pub record Dates : Type 0 where
  pub iso : Value → Value
  pub iso_date : Value → Value

-- Project a WHMCS record onto our own field names; a mapping names each of ours once.
unfoldable pub pick : Fields → List Column → Fields
unfolding get_or
pick raw [] = end
pick raw (c ∷ mapping) =
    field c.our_name (c.converter (get_or c.whmcs_name null raw)) (pick raw mapping)

-- `OwnedResourceMixin.assert_owned` of apps/whmcs/services/base.py
unfoldable pub assert_owned : (repr : Value → String) → Value → ℕ → Outcome (Unit {0})
unfolding to_int
assert_owned repr record_client_id whmcs_client_id =
    if not (int_eq (to_int repr record_client_id (pos 0)) (pos whmcs_client_id))
    then raised (application resource_not_found "not_found" "Resource not found." [])
    else returned tt

-- Only a record of the caller passes: an absent, null or unreadable owner passes for none but the
-- client 0.
pub assert_owned-passes :
    (repr : Value → String) (owner : Value) (client : ℕ)
    → assert_owned repr owner client ≡ returned tt
    → to_int repr owner (pos 0) ≡ pos client
unfolding assert_owned
assert_owned-passes repr owner client h =
    elim (Bool-cases (int_eq (to_int repr owner (pos 0)) (pos client))) [
      | inl same ↦ int_eq→eq _ _ same
      | inr other ↦ absurd (cc (rw other at h))
    ]
