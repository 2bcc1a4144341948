-- ===== src/Api/Hosting.antt =====
-- The customer's views of apps/hosting/views.py. Where a view has a serializer, `validated` is what it
-- makes of the request: its validated data, or what it raises.
use whmcstemplate_bridge.Base.{
  Outcome, Exec, lift, ◌>>=◌, ℕ, String, Bool, Option, none, some, List,
}
use whmcstemplate_bridge.Json.{Value, null, bool, str, list, end, field}
use whmcstemplate_bridge.Whmcs.Services.{Site, World}
use whmcstemplate_bridge.Api.Scope.{Http, Framework, page, for_client}
use whmcstemplate_bridge.Api.Responses.{
  Response, paginated, as_body, as_dict, as_list, no_body, or_none, texts, respond,
}
use whmcstemplate_bridge.Whmcs.Services.Hosting
use whmcstemplate_bridge.Whmcs.Services.Hosting.{Change}
use whmcstemplate_bridge.Whmcs.Services.Domains

-- the code, or none where it went to the owner
abbrev pub epp_body : Option String × String → Outcome Value
epp_body (none, delivery) = as_dict (field "epp_code" null (field "delivery" (str delivery) end))
epp_body (some code, delivery) =
    as_dict (field "epp_code" (str code) (field "delivery" (str delivery) end))

abbrev pub nameservers_body : List String → Outcome Value
unfolding texts
nameservers_body hosts = as_dict (field "nameservers" (list (texts hosts)) end)

abbrev pub locked_body : Bool → Outcome Value
locked_body locked = as_dict (field "locked" (bool locked) end)

-- whatever the operation returned
abbrev pub requested_body : Unit {0} → Outcome Value
requested_body _ = as_dict (field "status" (str "requested") end)

module _ (F : Framework) (S : Site) (q : Http) where
  -- `ServiceListView.get`
  unfoldable pub service_list : Exec World Response
  unfolding for_client page respond paginated Hosting.list_services
  service_list = for_client F q (λ client.
      respond 200 (paginated (page F q))
        (Hosting.list_services S client (page F q) (or_none q.status)))

  -- `ServiceDetailView.get`
  unfoldable pub service_detail : (service_id : ℕ) → Exec World Response
  unfolding for_client respond Hosting.get_service
  service_detail service_id =
      for_client F q (λ client. respond 200 as_body (Hosting.get_service S client service_id))

  -- `ServicePasswordView.post`
  unfoldable pub service_password :
      (validated : Outcome String) → (service_id : ℕ) → Exec World Response
  unfolding for_client respond Hosting.change_service_password
  service_password validated service_id = for_client F q (λ client. do
    new_password ← lift validated
    respond 204 no_body (Hosting.change_service_password S client service_id new_password))

  -- `ServiceUpgradeOptionsView.get`
  unfoldable pub service_upgrade_options : (service_id : ℕ) → Exec World Response
  unfolding for_client respond Hosting.upgrade_options
  service_upgrade_options service_id =
      for_client F q (λ client. respond 200 as_list (Hosting.upgrade_options S client service_id))

  -- `ServiceUpgradeQuoteView.post`
  unfoldable pub service_upgrade_quote :
      (validated : Outcome Change) → (service_id : ℕ) → Exec World Response
  unfolding for_client respond Hosting.quote_upgrade
  service_upgrade_quote validated service_id = for_client F q (λ client. do
    change ← lift validated
    respond 200 as_dict (Hosting.quote_upgrade S client service_id change))

  -- `ServiceUpgradeView.post`
  unfoldable pub service_upgrade :
      (validated : Outcome (Change × String)) → (service_id : ℕ) → Exec World Response
  unfolding for_client respond Hosting.upgrade
  service_upgrade validated service_id = for_client F q (λ client. do
    checked ← lift validated
    respond 201 as_dict (Hosting.upgrade S client service_id checked.0 checked.1))

  -- `ServiceCancellationView.post`
  unfoldable pub service_cancellation :
      (validated : Outcome (String × Bool)) → (service_id : ℕ) → Exec World Response
  unfolding for_client respond Hosting.request_cancellation
  service_cancellation validated service_id = for_client F q (λ client. do
    checked ← lift validated
    respond 202 requested_body
        (Hosting.request_cancellation S client service_id checked.0 checked.1))

  -- `DomainListView.get`
  unfoldable pub domain_list : Exec World Response
  unfolding for_client page respond paginated Domains.list_domains
  domain_list =
      for_client F q
        (λ client. respond 200 (paginated (page F q)) (Domains.list_domains S client (page F q)))

  -- `DomainDetailView.get`
  unfoldable pub domain_detail : (domain_id : ℕ) → Exec World Response
  unfolding for_client respond Domains.get_domain
  domain_detail domain_id =
      for_client F q (λ client. respond 200 as_body (Domains.get_domain S client domain_id))

  -- `DomainNameserverView.get`
  unfoldable pub domain_nameservers : (domain_id : ℕ) → Exec World Response
  unfolding for_client respond Domains.get_nameservers
  domain_nameservers domain_id =
      for_client F q
        (λ client. respond 200 nameservers_body (Domains.get_nameservers S client domain_id))

  -- `DomainNameserverView.put`
  unfoldable pub put_nameservers :
      (validated : Outcome (List String)) → (domain_id : ℕ) → Exec World Response
  unfolding for_client respond Domains.update_nameservers
  put_nameservers validated domain_id = for_client F q (λ client. do
    hosts ← lift validated
    respond 200 nameservers_body (Domains.update_nameservers S client domain_id hosts))

  -- `DomainLockView.get`
  unfoldable pub domain_lock : (domain_id : ℕ) → Exec World Response
  unfolding for_client respond Domains.get_lock_status
  domain_lock domain_id =
      for_client F q
        (λ client. respond 200 locked_body (Domains.get_lock_status S client domain_id))

  -- `DomainLockView.put`
  unfoldable pub put_lock : (validated : Outcome Bool) → (domain_id : ℕ) → Exec World Response
  unfolding for_client respond Domains.set_lock_status
  put_lock validated domain_id = for_client F q (λ client. do
    locked ← lift validated
    respond 200 locked_body (Domains.set_lock_status S client domain_id locked))

  -- `DomainEppView.post`
  unfoldable pub domain_epp : (domain_id : ℕ) → Exec World Response
  unfolding for_client respond Domains.request_epp_code
  domain_epp domain_id =
      for_client F q (λ client. respond 200 epp_body (Domains.request_epp_code S client domain_id))
