-- ===== src/Orders/Placement/Prices.antt =====
-- The client never sends a price: the names of the parameters of AddOrder.
use text.Mathlib.Text.{starts_with}
use text.Mathlib.TextPositions.{starts_with-append}
use whmcstemplate_bridge.Base.{
  Bool-cases, f_string, is_text, one_of, show, ℕ, suc, String, ◌≡◌, refl, ap, ◌∙◌, inl, inr, Bool,
  true, false, ◌||◌, List, [], ◌∷◌, ◌++◌, ◌==◌,
}
use whmcstemplate_bridge.Json.{set_field, Value, str, Fields, end, field}
use whmcstemplate_bridge.Orders.Basket.{
  when_text, when_addons, when_options, Item, product, domain_line, Indexed, put_indexed,
  put_entries, line_entries, index_lines,
}
use whmcstemplate_bridge.Orders.Placement.{
  with_promo, base_params, Basket, set_indexed, set_nameservers, order_params,
}

-- what AddOrder is told: nothing of these is a price, a discount or an override of one
abbrev pub order_fields : List String
order_fields =
    "clientid" ∷ "paymentmethod" ∷ "clientip" ∷ "noinvoice" ∷ "noinvoiceemail" ∷ "noemail"
    ∷ "promocode" ∷ "pid" ∷ "billingcycle" ∷ "qty" ∷ "domain" ∷ "hostname" ∷ "configoptions"
    ∷ "addons" ∷ "customfields" ∷ "domaintype" ∷ "regperiod" ∷ "idprotection" ∷ "dnsmanagement"
    ∷ "emailforwarding" ∷ "eppcode" ∷ []

-- A name that AddOrder may be told.
abbrev pub is_order_field : String → Bool
is_order_field name = one_of name order_fields || starts_with name "nameserver"

abbrev pub NamesPass : Fields → Type 0
NamesPass end = Unit
NamesPass (field k v d) = (is_order_field k ≡ true) × NamesPass d

abbrev EntriesPass : List (String × Value) → Type 0
EntriesPass [] = Unit
EntriesPass ((k, v) ∷ entries) = (is_order_field k ≡ true) × EntriesPass entries

abbrev IndexedPass : Indexed → Type 0
IndexedPass [] = Unit
IndexedPass ((k, d) ∷ indexed) = (is_order_field k ≡ true) × IndexedPass indexed

set_field-NamesPass :
    (k : String) (v : Value) (d : Fields)
    → is_order_field k ≡ true
    → NamesPass d
    → NamesPass (set_field k v d)
unfolding set_field
set_field-NamesPass k v end p h = (p, tt)
set_field-NamesPass k v (field j u d) p h = elim (Bool-cases (j == k)) [
  | inl same ↦ rw same h
  | inr other ↦ rw other (h.0, set_field-NamesPass k v d p h.1)
]

append-EntriesPass :
    (xs ys : List (String × Value)) → EntriesPass xs → EntriesPass ys → EntriesPass (xs ++ ys)
append-EntriesPass [] ys h h' = h'
append-EntriesPass ((k, v) ∷ xs) ys h h' = (h.0, append-EntriesPass xs ys h.1 h')

text-EntriesPass : (k s : String) → is_order_field k ≡ true → EntriesPass (when_text k s)
text-EntriesPass k s p = elim (Bool-cases (is_text s)) [
  | inl given ↦ rw given (p, tt)
  | inr blank ↦ rw blank tt
]

addons-EntriesPass : (addons : List ℕ) → EntriesPass (when_addons addons)
unfolding when_addons
addons-EntriesPass [] = tt
addons-EntriesPass (a ∷ addons) = (refl, tt)

put_indexed-IndexedPass :
    (k : String) (i : ℕ) (v : Value) (indexed : Indexed)
    → is_order_field k ≡ true
    → IndexedPass indexed
    → IndexedPass (put_indexed k i v indexed)
unfolding put_indexed
put_indexed-IndexedPass k i v [] p h = (p, tt)
put_indexed-IndexedPass k i v ((j, d) ∷ indexed) p h = elim (Bool-cases (j == k)) [
  | inl same ↦ rw same h
  | inr other ↦ rw other (h.0, put_indexed-IndexedPass k i v indexed p h.1)
]

put_entries-IndexedPass :
    (i : ℕ) (entries : List (String × Value)) (indexed : Indexed)
    → EntriesPass entries
    → IndexedPass indexed
    → IndexedPass (put_entries i entries indexed)
unfolding put_entries
put_entries-IndexedPass i [] indexed p h = h
put_entries-IndexedPass i ((k, v) ∷ entries) indexed p h =
    put_entries-IndexedPass i entries (put_indexed k i v indexed) p.1
      (put_indexed-IndexedPass k i v indexed p.0 h)

set_indexed-NamesPass :
    (indexed : Indexed) (d : Fields)
    → IndexedPass indexed
    → NamesPass d
    → NamesPass (set_indexed indexed d)
unfolding set_indexed
set_indexed-NamesPass [] d p h = h
set_indexed-NamesPass ((k, i) ∷ indexed) d p h =
    set_indexed-NamesPass indexed _ p.1 (set_field-NamesPass k _ d p.0 h)

or_true : (b : Bool) → (b || true) ≡ true
or_true true = refl
or_true false = refl

nameserver-passes : (index : ℕ) → is_order_field (f_string ("nameserver" ∷ show index ∷ [])) ≡ true
unfolding f_string
nameserver-passes index =
    let name = f_string ("nameserver" ∷ show index ∷ []) in
    ap (λ b. one_of name order_fields || b)
      (starts_with-append "nameserver" (f_string (show index ∷ [])))
    ∙ or_true (one_of name order_fields)

set_nameservers-NamesPass :
    (index : ℕ) (hosts : List String) (d : Fields)
    → NamesPass d
    → NamesPass (set_nameservers index hosts d)
unfolding set_nameservers
set_nameservers-NamesPass index [] d h = h
set_nameservers-NamesPass index (host ∷ hosts) d h =
    set_nameservers-NamesPass (suc index) hosts _
      (set_field-NamesPass _ _ d (nameserver-passes index) h)

promo-NamesPass : (b : Basket) → NamesPass (with_promo b.promo_code (base_params b))
unfolding with_promo base_params
promo-NamesPass b = elim (Bool-cases (is_text b.promo_code)) [
  | inl given ↦ rw given (
      set_field-NamesPass "promocode" (str b.promo_code) (base_params b) refl
        (refl, (refl, (refl, (refl, (refl, (refl, tt)))))))
  | inr blank ↦ rw blank (refl, (refl, (refl, (refl, (refl, (refl, tt))))))
]

module _ (base64 : String → String) where
  options-EntriesPass :
      (k : String) (options : List (ℕ × String))
      → is_order_field k ≡ true
      → EntriesPass (when_options base64 k options)
  unfolding when_options
  options-EntriesPass k [] p = tt
  options-EntriesPass k (o ∷ options) p = (p, tt)

  line-EntriesPass : (item : Item) → EntriesPass (line_entries base64 item)
  unfolding line_entries
  line-EntriesPass (product p) = (
    refl,
    (
      refl,
      (
        refl,
        append-EntriesPass (when_text "domain" p.domain) _ (text-EntriesPass "domain" p.domain refl)
            (append-EntriesPass (when_text "hostname" p.hostname) _
              (text-EntriesPass "hostname" p.hostname refl)
              (append-EntriesPass (when_options base64 "configoptions" p.config_options) _
                (options-EntriesPass "configoptions" p.config_options refl)
                (append-EntriesPass (when_addons p.addons)
                  (when_options base64 "customfields" p.custom_fields) (addons-EntriesPass p.addons)
                  (options-EntriesPass "customfields" p.custom_fields refl)))),
      ),
    ),
  )
  line-EntriesPass (domain_line d) = elim (Bool-cases (d.action == "transfer")) [
    | inl moved ↦
        rw moved
          (refl, (refl, (refl, (refl, (refl, (refl, text-EntriesPass "eppcode" d.epp_code refl))))))
    | inr fresh ↦ rw fresh (refl, (refl, (refl, (refl, (refl, (refl, tt))))))
  ]

  lines-IndexedPass :
      (i : ℕ) (items : List Item) (indexed : Indexed)
      → IndexedPass indexed
      → IndexedPass (index_lines base64 i items indexed)
  unfolding index_lines
  lines-IndexedPass i [] indexed h = h
  lines-IndexedPass i (item ∷ items) indexed h =
      lines-IndexedPass (suc i) items _
        (put_entries-IndexedPass i (line_entries base64 item) indexed (line-EntriesPass item) h)

  -- Whatever the basket says, AddOrder is told fields of the fixed list and nameservers only: no
  -- price, no discount and no override of one.
  pub order_params-NamesPass : (b : Basket) → NamesPass (order_params base64 b)
  unfolding order_params
  order_params-NamesPass b =
      set_indexed-NamesPass (index_lines base64 0 b.items []) _ (lines-IndexedPass 0 b.items [] tt)
        (set_nameservers-NamesPass 1 b.nameservers _ (promo-NamesPass b))
