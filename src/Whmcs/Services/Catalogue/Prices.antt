-- ===== src/Whmcs/Services/Catalogue/Prices.antt =====
-- Currencies, prices of domains and announcements of apps/whmcs/services/catalogue.py.
use whmcstemplate_bridge.Base.{
  ℤ, pos, runtime, Outcome, returned, raised, Exec, pure, lift, ◌>>=◌, ℕ, List, [], ◌∷◌,
}
use whmcstemplate_bridge.Json.{
  Value, null, int, str, list, dict, nil, Fields, end, field, get_or, truthy, or_value,
}
use whmcstemplate_bridge.Whmcs.Dates.{dates}
use whmcstemplate_bridge.Whmcs.Normalizers.{
  collection, to_int, text, as_int, as_text, Column, column,
}
use whmcstemplate_bridge.Whmcs.Money.{to_money, as_money}
use whmcstemplate_bridge.Whmcs.Services.{Call, Site, World, pick_each, ask, cached}
use whmcstemplate_bridge.Whmcs.Services.Catalogue.Products.{with_number}

-- `next(iter(d.values()))`, of a dict that is not empty
abbrev pub first_value : Fields → Value
first_value end = null
first_value (field _ v _) = v

module _ (S : Site) where
  currency_map : List Column
  unfolding to_int text
  currency_map =
      column "id" "id" (as_int S.repr)
      ∷ column "code" "code" (as_text S.repr)
      ∷ column "prefix" "prefix" (as_text S.repr)
      ∷ column "suffix" "suffix" (as_text S.repr)
      ∷ column "rate" "rate" (as_money S.repr)
      ∷ column "is_default" "default" (as_int S.repr)
      ∷ []

  unfoldable pub fetch_currencies : Exec (List Call) Value
  unfolding ask pick_each currency_map collection
  fetch_currencies = do
    reply ← ask S "GetCurrencies" end
    pure (list (pick_each currency_map (collection reply "currencies" "currency")))

  unfoldable pub list_currencies : Exec World Value
  unfolding cached fetch_currencies
  list_currencies = cached S "catalogue:currencies" "catalogue" fetch_currencies (str "list" ∷ [])

  -- the price of one year, where there is one
  unfoldable pub cheapest : Value → Value
  unfolding get_or truthy to_money
  cheapest (dict end) = null
  cheapest (dict periods) =
      as_money S.repr (or_value (get_or "1" null periods) (first_value periods))
  cheapest _ = null

  tld_of : Fields → Fields
  unfolding get_or truthy cheapest
  tld_of values = field "categories" (or_value (get_or "categories" null values) (list nil)) (
      field "register" (cheapest (get_or "register" null values)) (
        field "transfer" (cheapest (get_or "transfer" null values)) (
          field "renew" (cheapest (get_or "renew" null values)) (
            field "grace_period" (get_or "grace_period" null values)
              (field "redemption_period" (get_or "redemption_period" null values) end)))))

  unfoldable pub tlds_of : Fields → Fields
  unfolding tld_of
  tlds_of end = end
  tlds_of (field tld (dict values) pricing) = field tld (dict (tld_of values)) (tlds_of pricing)
  tlds_of (field tld _ pricing) = tlds_of pricing

  tld_rows : Value → Outcome Value
  unfolding tlds_of
  tld_rows (dict pricing) = returned (dict (tlds_of pricing))
  tld_rows _ = raised (runtime "AttributeError")

  unfoldable pub fetch_tlds : (currency_id : ℤ) → Exec (List Call) Value
  unfolding ask tld_rows get_or truthy
  fetch_tlds currency_id = do
    reply ← ask S "GetTLDPricing" (with_number "currencyid" currency_id end)
    lift (tld_rows (or_value (get_or "pricing" null reply) (dict end)))

  -- 0 stands for no currency.
  unfoldable pub tld_pricing : (currency_id : ℤ) → Exec World Value
  unfolding cached fetch_tlds
  tld_pricing currency_id =
      cached S "catalogue:tlds" "catalogue" (fetch_tlds currency_id) (int currency_id ∷ [])

  announcement_map : List Column
  unfolding to_int text
  announcement_map =
      column "id" "id" (as_int S.repr)
      ∷ column "title" "title" (as_text S.repr)
      ∷ column "body" "announcement" (as_text S.repr)
      ∷ column "published_at" "date" (dates S.repr).iso
      ∷ []

  unfoldable pub fetch_announcements : (limit : ℕ) → Exec (List Call) Value
  unfolding ask pick_each announcement_map collection
  fetch_announcements limit = do
    reply ← ask S "GetAnnouncements" (field "limitnum" (int (pos limit)) end)
    pure (list (pick_each announcement_map (collection reply "announcements" "announcement")))

  unfoldable pub list_announcements : (limit : ℕ) → Exec World Value
  unfolding cached fetch_announcements
  list_announcements limit =
      cached S "catalogue:announcements" "catalogue" (fetch_announcements limit)
        (int (pos limit) ∷ [])
