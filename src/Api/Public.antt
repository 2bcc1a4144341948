-- ===== src/Api/Public.antt =====
-- The public views: the catalogue of apps/hosting/views.py, and the gateways of apps/orders/views.py.
use whmcstemplate_bridge.Base.{
  leb, nat_eq, if◌then◌else◌, is_text, parse_int, ℤ, pos, runtime, Outcome, returned, raised, Exec,
  lift, ◌>>=◌, ℕ, String, ◌≡◌, refl, Bool, ◌&&◌, ◌||◌, Option, none, some,
}
use whmcstemplate_bridge.Whmcs.Services.{Site, World}
use whmcstemplate_bridge.Whmcs.Services.Catalogue.{list_products, tld_pricing, list_payment_methods}
use whmcstemplate_bridge.Whmcs.Services.Domains.{whois}
use whmcstemplate_bridge.Api.Responses.{Response, as_body, respond}
use whmcstemplate_bridge.Api.Serializers.{every_char, validate_domain}

-- `is_digit` is `str.isdigit` of one character, which holds of more than `int` reads.
unfoldable pub group_of : (is_digit : ℕ → Bool) → Option String → Outcome ℤ
unfolding every_char parse_int
group_of is_digit none = returned (pos 0)
group_of is_digit (some group_id) =
    if is_text group_id && every_char is_digit group_id
    then elim (parse_int group_id) [ some n ↦ returned n | none ↦ raised (runtime "ValueError") ]
    else returned (pos 0)

module _ (S : Site) where
  -- `ProductListView.get`; 0 stands for no group
  unfoldable pub product_list :
      (is_digit : ℕ → Bool) → (group_id : Option String) → Exec World Response
  unfolding group_of respond list_products
  product_list is_digit group_id = do
    group ← lift (group_of is_digit group_id)
    respond 200 as_body (list_products S group)

  -- `TldPricingView.get`
  unfoldable pub tld_pricing_view : Exec World Response
  unfolding respond tld_pricing
  tld_pricing_view = respond 200 as_body (tld_pricing S (pos 0))

  -- `DomainLookupView.get`, of the text that the framework's field lets pass
  unfoldable pub domain_lookup : (value : String) → Exec World Response
  unfolding validate_domain respond whois
  domain_lookup value = do
    domain ← lift (validate_domain S.lower value)
    respond 200 as_body (whois S domain)

  -- `PaymentMethodListView.get`
  unfoldable pub payment_method_list : Exec World Response
  unfolding respond list_payment_methods
  payment_method_list = respond 200 as_body (list_payment_methods S)

-- 178 is a superscript two: `isdigit` holds of it, and `int` refuses it.
group_tests :
    (group_of (λ c. leb 48 c && leb c 57) (some "12") ≡ returned (pos 12))
    × (group_of (λ c. leb 48 c && leb c 57) (some "x") ≡ returned (pos 0))
    × (group_of (λ c. (leb 48 c && leb c 57) || nat_eq c 178) (some "²")
        ≡ raised (runtime "ValueError"))
unfolding group_of
group_tests = (refl, refl, refl)
