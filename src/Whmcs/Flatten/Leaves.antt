-- ===== src/Whmcs/Flatten/Leaves.antt =====
-- The fields of a flattened form are the leaves of its parameters.
use whmcstemplate_bridge.Base.{
  if◌then◌else◌, All, prefix, show_int, ℤ, ℕ, suc, String, ◌≡◌, refl, Bool, true, false, [],
}
use whmcstemplate_bridge.Json.{
  Value, null, bool, int, real, str, list, dict, Items, nil, cons, Fields, end, field, str_of,
}
use whmcstemplate_bridge.Whmcs.Form.{Form}
use whmcstemplate_bridge.Whmcs.Form.Laws.{put-All, update-All}
use whmcstemplate_bridge.Whmcs.Flatten.{
  name_of, item_name, flatten_fields, flatten_value, flatten_items, flatten_item, flatten,
}

abbrev pub is_dict : Value → Bool
is_dict (dict d) = true
is_dict _ = false

module _ (repr : Value → String) where
  -- A scalar of the parameters, by the name and the text that the form gives it. In a list a null is
  -- a scalar, and so are a Boolean and a list, by Python's text; elsewhere a null is left out and a
  -- Boolean is a digit.
  mutual
    pub data Leaf : String → Fields → String → String → Type 0 where
      in_value :
          {prefix key : String} {value : Value} {params : Fields} {name text : String}
          → LeafOf (name_of prefix key) value name text
          → Leaf prefix (field key value params) name text
      later :
          {prefix key : String} {value : Value} {params : Fields} {name text : String}
          → Leaf prefix params name text
          → Leaf prefix (field key value params) name text

    pub data LeafOf : String → Value → String → String → Type 0 where
      digit : {name : String} {b : Bool} → LeafOf name (bool b) name (if b then "1" else "0")
      whole : {name : String} {n : ℤ} → LeafOf name (int n) name (show_int n)
      real_text : {name : String} {n : ℤ} {b : Bool} {s : String} → LeafOf name (real n b s) name s
      plain : {name s : String} → LeafOf name (str s) name s
      inside :
          {name : String} {d : Fields} {n t : String} → Leaf name d n t → LeafOf name (dict d) n t
      entry :
          {name : String} {items : Items} {n t : String}
          → LeafIn name 0 items n t
          → LeafOf name (list items) n t

    pub data LeafIn : String → ℕ → Items → String → String → Type 0 where
      scalar :
          {name : String} {index : ℕ} {item : Value} {items : Items}
          → is_dict item ≡ false
          → LeafIn name index (cons item items) (item_name name index) (str_of repr item)
      nested :
          {name : String} {index : ℕ} {d : Fields} {items : Items} {n t : String}
          → Leaf (item_name name index) d n t
          → LeafIn name index (cons (dict d) items) n t
      next_item :
          {name : String} {index : ℕ} {item : Value} {items : Items} {n t : String}
          → LeafIn name (suc index) items n t
          → LeafIn name index (cons item items) n t

module _ (repr : Value → String) where
  mutual
    unfolding flatten_fields str_of

    fields-All :
        (P : String × String → Type 0) (prefix : String) (d : Fields) (flat : Form)
        → ((n t : String) → Leaf repr prefix d n t → P (n, t))
        → All P flat
        → All P (flatten_fields repr flat prefix d)
    fields-All P prefix end flat f h = h
    fields-All P prefix (field key value d) flat f h =
        fields-All P prefix d _ (λ n t l. f n t (later l))
          (value-All P (name_of prefix key) value flat (λ n t l. f n t (in_value l)) h)

    value-All :
        (P : String × String → Type 0) (name : String) (v : Value) (flat : Form)
        → ((n t : String) → LeafOf repr name v n t → P (n, t))
        → All P flat
        → All P (flatten_value repr flat name v)
    value-All P name null flat f h = h
    value-All P name (bool b) flat f h = put-All P name _ flat (f _ _ digit) h
    value-All P name (int n) flat f h = put-All P name _ flat (f _ _ whole) h
    value-All P name (real n b s) flat f h = put-All P name _ flat (f _ _ real_text) h
    value-All P name (str s) flat f h = put-All P name _ flat (f _ _ plain) h
    value-All P name (list items) flat f h =
        items-All P name 0 items flat (λ n t l. f n t (entry l)) h
    value-All P name (dict d) flat f h =
        update-All P flat _ h (fields-All P name d [] (λ n t l. f n t (inside l)) tt)

    items-All :
        (P : String × String → Type 0) (name : String) (index : ℕ) (items : Items) (flat : Form)
        → ((n t : String) → LeafIn repr name index items n t → P (n, t))
        → All P flat
        → All P (flatten_items repr flat name index items)
    items-All P name index nil flat f h = h
    items-All P name index (cons item items) flat f h =
        items-All P name (suc index) items _ (λ n t l. f n t (next_item l))
          (item-All P name index item items flat f h)

    item-All :
        (P : String × String → Type 0) (name : String) (index : ℕ) (item : Value) (items : Items)
        (flat : Form)
        → ((n t : String) → LeafIn repr name index (cons item items) n t → P (n, t))
        → All P flat
        → All P (flatten_item repr flat (item_name name index) item)
    item-All P name index (dict d) items flat f h =
        update-All P flat _ h
          (fields-All P (item_name name index) d [] (λ n t l. f n t (nested l)) tt)
    item-All P name index null items flat f h = put-All P _ _ flat (f _ _ (scalar refl)) h
    item-All P name index (bool b) items flat f h = put-All P _ _ flat (f _ _ (scalar refl)) h
    item-All P name index (int n) items flat f h = put-All P _ _ flat (f _ _ (scalar refl)) h
    item-All P name index (real n b s) items flat f h = put-All P _ _ flat (f _ _ (scalar refl)) h
    item-All P name index (str s) items flat f h = put-All P _ _ flat (f _ _ (scalar refl)) h
    item-All P name index (list l) items flat f h = put-All P _ _ flat (f _ _ (scalar refl)) h

  -- Every field of a flattened form is a leaf of the parameters.
  pub flatten-Leaf :
      (d : Fields) (prefix : String) → All (λ f. Leaf repr prefix d f.0 f.1) (flatten repr d prefix)
  unfolding flatten
  flatten-Leaf d prefix = fields-All (λ f. Leaf repr prefix d f.0 f.1) prefix d [] (λ n t l. l) tt
