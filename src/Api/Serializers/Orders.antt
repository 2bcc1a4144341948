-- ===== src/Api/Serializers/Orders.antt =====
-- The checks of apps/orders/serializers.py on a basket, behind the framework's fields. The keys of
-- options and fields are taken as the numbers that `_numeric_keys` makes of them.
use whmcstemplate_bridge.Base.{
  if◌then◌else◌, is_text, Outcome, returned, raised, String, ◌≡◌, refl, false, not, ◌&&◌, List, [],
  ◌∷◌, ◌==◌,
}
use whmcstemplate_bridge.Orders.Basket.{DomainLine, Item, product, domain_line}
use whmcstemplate_bridge.Api.Serializers.{invalid, repeats, validate_domain}

module _ (lower : String → String) where
  -- `ProductItemSerializer.validate_domain`
  unfoldable pub product_domain : String → Outcome String
  unfolding validate_domain
  product_domain value = if is_text value then validate_domain lower value else returned ""

  -- `DomainItemSerializer.validate`: a transfer needs its code, and a registration has none
  unfoldable pub with_epp_code : DomainLine → Outcome DomainLine
  with_epp_code attrs =
      if attrs.action == "transfer" && not (is_text attrs.epp_code)
      then raised invalid
      else if attrs.action == "register"
      then returned (record attrs { epp_code = "" })
      else returned attrs

  unfoldable pub clean_item : Item → Outcome Item
  unfolding product_domain validate_domain with_epp_code
  clean_item (product p) = elim (product_domain p.domain) [
    | returned domain ↦ returned (product (record p { domain = domain }))
    | raised e ↦ raised e
  ]
  clean_item (domain_line d) = elim (validate_domain lower d.domain) [
    | returned domain ↦ elim (with_epp_code (record d { domain = domain })) [
      | returned attrs ↦ returned (domain_line attrs)
      | raised e ↦ raised e
    ]
    | raised e ↦ raised e
  ]

  unfoldable pub clean_items : List Item → Outcome (List Item)
  unfolding clean_item
  clean_items [] = returned []
  clean_items (item ∷ items) =
      let rest = clean_items items in
      elim (clean_item item) [
        | returned first ↦ elim rest [
          | returned others ↦ returned (first ∷ others)
          | raised e ↦ raised e
        ]
        | raised e ↦ raised e
      ]

  -- `[item["domain"] for item in cleaned if item["type"] == "domain"]`
  unfoldable pub domains_of : List Item → List String
  domains_of [] = []
  domains_of (product p ∷ items) = domains_of items
  domains_of (domain_line d ∷ items) = d.domain ∷ domains_of items

  -- `OrderCreateSerializer.validate_items`
  unfoldable pub validate_items : List Item → Outcome (List Item)
  unfolding clean_items domains_of repeats
  validate_items value = elim (clean_items value) [
    | returned items ↦ if repeats lower (domains_of items) then raised invalid else returned items
    | raised e ↦ raised e
  ]

abbrev move : DomainLine
move = record {
  domain = " A.example. ";
  action = "transfer";
  years = 1;
  id_protection = false;
  dns_management = false;
  email_forwarding = false;
  epp_code = "x";
}

basket_tests :
    (validate_items (λ s. s) (domain_line move ∷ [])
      ≡ returned (domain_line (record move { domain = "A.example" }) ∷ []))
    × (validate_items (λ s. s) (domain_line move ∷ domain_line move ∷ []) ≡ raised invalid)
    × (validate_items (λ s. s) (domain_line (record move { epp_code = "" }) ∷ []) ≡ raised invalid)
unfolding validate_items
basket_tests = (refl, refl, refl)
