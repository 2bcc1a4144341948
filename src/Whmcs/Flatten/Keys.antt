-- ===== src/Whmcs/Flatten/Keys.antt =====
-- No leaf of the parameters is lost.
use whmcstemplate_bridge.Base.{
  if◌then◌else◌, prefix, show_int, ℕ, suc, String, ◌≡◌, refl, ◌∙◌, Bool, true, false, ◌||◌, [],
  ◌==◌, eq_iff,
}
use whmcstemplate_bridge.Json.{
  Value, null, bool, int, real, str, list, dict, Items, nil, cons, Fields, end, field, str_of,
}
use whmcstemplate_bridge.Whmcs.Form.{Form, put, update}
use whmcstemplate_bridge.Whmcs.Form.Laws.{has_key, has_key-put, has_key-update}
use whmcstemplate_bridge.Whmcs.Flatten.{
  name_of, item_name, flatten_fields, flatten_value, flatten_items, flatten_item, flatten,
}
use whmcstemplate_bridge.Whmcs.Flatten.Leaves.{
  is_dict, Leaf, in_value, later, LeafOf, digit, whole, real_text, plain, inside, entry, LeafIn,
  scalar, nested, next_item,
}

or_true : (b : Bool) → (b || true) ≡ true
or_true true = refl
or_true false = refl

put-keeps : (n k v : String) (f : Form) → has_key n f ≡ true → has_key n (put k v f) ≡ true
put-keeps n k v f h = has_key-put n k v f ∙ rw h (or_true (k == n))

put-key : (k v : String) (f : Form) → has_key k (put k v f) ≡ true
put-key k v f = has_key-put k k v f ∙ rw ((eq_iff k k).1 refl) refl

update-keeps : (n : String) (f g : Form) → has_key n f ≡ true → has_key n (update f g) ≡ true
update-keeps n f g h = has_key-update n f g ∙ rw h (or_true (has_key n g))

update-key : (n : String) (f g : Form) → has_key n g ≡ true → has_key n (update f g) ≡ true
update-key n f g h = has_key-update n f g ∙ rw h refl

module _ (repr : Value → String) where
  item-keeps :
      (n name : String) (item : Value) (flat : Form)
      → has_key n flat ≡ true
      → has_key n (flatten_item repr flat name item) ≡ true
  unfolding flatten_fields
  item-keeps n name (dict d) flat h = update-keeps n flat _ h
  item-keeps n name _ flat h = put-keeps n name _ flat h

  scalar-key :
      (name : String) (item : Value) (flat : Form)
      → is_dict item ≡ false
      → has_key name (flatten_item repr flat name item) ≡ true
  unfolding flatten_fields
  scalar-key name (dict d) flat h = cc
  scalar-key name _ flat h = put-key name _ flat

  items-keeps :
      (n name : String) (index : ℕ) (items : Items) (flat : Form)
      → has_key n flat ≡ true
      → has_key n (flatten_items repr flat name index items) ≡ true
  unfolding flatten_fields
  items-keeps n name index nil flat h = h
  items-keeps n name index (cons item items) flat h =
      items-keeps n name (suc index) items _ (item-keeps n (item_name name index) item flat h)

  value-keeps :
      (n name : String) (v : Value) (flat : Form)
      → has_key n flat ≡ true
      → has_key n (flatten_value repr flat name v) ≡ true
  unfolding flatten_fields
  value-keeps n name null flat h = h
  value-keeps n name (dict d) flat h = update-keeps n flat _ h
  value-keeps n name (list items) flat h = items-keeps n name 0 items flat h
  value-keeps n name (bool b) flat h = put-keeps n name _ flat h
  value-keeps n name (int i) flat h = put-keeps n name _ flat h
  value-keeps n name (real i b s) flat h = put-keeps n name _ flat h
  value-keeps n name (str s) flat h = put-keeps n name _ flat h

  fields-keeps :
      (n prefix : String) (d : Fields) (flat : Form)
      → has_key n flat ≡ true
      → has_key n (flatten_fields repr flat prefix d) ≡ true
  unfolding flatten_fields
  fields-keeps n prefix end flat h = h
  fields-keeps n prefix (field key value d) flat h =
      fields-keeps n prefix d _ (value-keeps n (name_of prefix key) value flat h)

  mutual
    unfolding flatten_fields str_of

    fields-key :
        {prefix : String} {d : Fields} {n t : String} (flat : Form)
        → Leaf repr prefix d n t
        → has_key n (flatten_fields repr flat prefix d) ≡ true
    fields-key flat (in_value {prefix = p} {key = k} {value = v} {params = d} {name = n} l) =
        fields-keeps n p d (flatten_value repr flat (name_of p k) v) (value-key flat l)
    fields-key flat (later {prefix = p} {key = k} {value = v} l) =
        fields-key (flatten_value repr flat (name_of p k) v) l

    value-key :
        {name : String} {v : Value} {n t : String} (flat : Form)
        → LeafOf repr name v n t
        → has_key n (flatten_value repr flat name v) ≡ true
    value-key flat (digit {name = m} {b = b}) = put-key m (if b then "1" else "0") flat
    value-key flat (whole {name = m} {n = i}) = put-key m (show_int i) flat
    value-key flat (real_text {name = m} {s = s}) = put-key m s flat
    value-key flat (plain {name = m} {s = s}) = put-key m s flat
    value-key flat (inside {name = m} {d = d} {n = n} l) =
        update-key n flat (flatten_fields repr [] m d) (fields-key [] l)
    value-key flat (entry l) = items-key flat l

    items-key :
        {name : String} {index : ℕ} {items : Items} {n t : String} (flat : Form)
        → LeafIn repr name index items n t
        → has_key n (flatten_items repr flat name index items) ≡ true
    items-key flat (scalar {name = m} {index = i} {item = item} {items = items} h) =
        items-keeps (item_name m i) m (suc i) items (flatten_item repr flat (item_name m i) item)
          (scalar-key (item_name m i) item flat h)
    items-key flat (nested {name = m} {index = i} {d = d} {items = items} {n = n} l) =
        items-keeps n m (suc i) items (update flat (flatten_fields repr [] (item_name m i) d))
          (update-key n flat (flatten_fields repr [] (item_name m i) d) (fields-key [] l))
    items-key flat (next_item {name = m} {index = i} {item = item} l) =
        items-key (flatten_item repr flat (item_name m i) item) l

  -- Every leaf of the parameters has its field in the flattened form.
  pub flatten-has_key :
      {d : Fields} {prefix n t : String}
      → Leaf repr prefix d n t
      → has_key n (flatten repr d prefix) ≡ true
  unfolding flatten
  flatten-has_key l = fields-key [] l
