-- ===== src/Whmcs/Services/Hosting/Reads.antt =====
-- apps/whmcs/services/hosting.py: the customer's services.
use whmcstemplate_bridge.Base.{
  if◌then◌else◌, or_text, one_of, pos, resource_not_found, Exn, application, Outcome, returned,
  raised, Exec, pure, lift, ◌>>=◌, ℕ, String, List, [], ◌∷◌,
}
use whmcstemplate_bridge.Json.{Value, int, str, dict, Fields, end, field, get_or, set_field}
use whmcstemplate_bridge.Core.Pagination.{PageRequest}
use whmcstemplate_bridge.Whmcs.Dates.{dates}
use whmcstemplate_bridge.Whmcs.Normalizers.{
  collection, to_int, text, as_int, as_text, Column, column, pick, assert_owned,
}
use whmcstemplate_bridge.Whmcs.Money.{as_money}
use whmcstemplate_bridge.Whmcs.Services.{Call, Site, World, with_page, ask, page_of, cached_for}

abbrev pub service_statuses : List String
service_statuses =
    "Pending" ∷ "Active" ∷ "Suspended" ∷ "Terminated" ∷ "Cancelled" ∷ "Fraud" ∷ "Completed" ∷ []

abbrev pub service_missing : Exn
service_missing = application resource_not_found "not_found" "Service not found." []

module _ (S : Site) where
  pub service_map : List Column
  unfolding to_int text
  service_map =
      column "id" "id" (as_int S.repr)
      ∷ column "product_id" "pid" (as_int S.repr)
      ∷ column "group" "groupname" (as_text S.repr)
      ∷ column "name" "name" (as_text S.repr)
      ∷ column "domain" "domain" (as_text S.repr)
      ∷ column "status" "status" (as_text S.repr)
      ∷ column "billing_cycle" "billingcycle" (as_text S.repr)
      ∷ column "amount" "recurringamount" (as_money S.repr)
      ∷ column "first_payment" "firstpaymentamount" (as_money S.repr)
      ∷ column "registered_at" "regdate" (dates S.repr).iso_date
      ∷ column "next_due_date" "nextduedate" (dates S.repr).iso_date
      ∷ column "server_hostname" "serverhostname" (as_text S.repr)
      ∷ column "dedicated_ip" "dedicatedip" (as_text S.repr)
      ∷ column "username" "username" (as_text S.repr)
      ∷ column "disk_limit" "disklimit" (as_text S.repr)
      ∷ column "bandwidth_limit" "bwlimit" (as_text S.repr)
      ∷ []

  unfoldable pub services_params : (whmcs_client_id : ℕ) → PageRequest → (status : String) → Fields
  unfolding set_field
  services_params whmcs_client_id page status =
      let params = with_page page (field "clientid" (int (pos whmcs_client_id)) end) in
      if one_of status service_statuses then set_field "status" (str status) params else params

  unfoldable pub fetch_services :
      (whmcs_client_id : ℕ) → PageRequest → (status : String) → Exec (List Call) Value
  unfolding ask services_params page_of service_map collection
  fetch_services whmcs_client_id page status = do
    reply ← ask S "GetClientsProducts" (services_params whmcs_client_id page status)
    pure (page_of S service_map reply (collection reply "products" "product"))

  -- The empty status stands for none.
  unfoldable pub list_services :
      (whmcs_client_id : ℕ) → PageRequest → (status : String) → Exec World Value
  unfolding cached_for fetch_services
  list_services whmcs_client_id page status =
      cached_for S whmcs_client_id "services" "client" (fetch_services whmcs_client_id page status)
        (str "list"
          ∷ int (pos page.page)
          ∷ int (pos page.page_size)
          ∷ str (or_text status "all")
          ∷ [])

  -- the first product, once it is the caller's: WHMCS' client id stands in for a missing one
  unfoldable pub first_service : (whmcs_client_id : ℕ) → List Fields → Outcome Value
  unfolding assert_owned pick service_map get_or
  first_service whmcs_client_id [] = raised service_missing
  first_service whmcs_client_id (raw ∷ _) =
      elim (assert_owned S.repr (get_or "clientid" (int (pos whmcs_client_id)) raw)
        whmcs_client_id) [
          | returned _ ↦ returned (dict (pick raw service_map))
          | raised e ↦ raised e
        ]

  unfoldable pub fetch_service : (whmcs_client_id service_id : ℕ) → Exec (List Call) Value
  unfolding ask first_service collection
  fetch_service whmcs_client_id service_id = do
    reply ← ask S "GetClientsProducts" (
        field "clientid" (int (pos whmcs_client_id)) (field "serviceid" (int (pos service_id)) end))
    lift (first_service whmcs_client_id (collection reply "products" "product"))

  unfoldable pub get_service : (whmcs_client_id service_id : ℕ) → Exec World Value
  unfolding cached_for fetch_service
  get_service whmcs_client_id service_id =
      cached_for S whmcs_client_id "services" "client" (fetch_service whmcs_client_id service_id)
        (str "detail" ∷ int (pos service_id) ∷ [])
