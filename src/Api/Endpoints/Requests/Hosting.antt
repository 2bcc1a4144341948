-- ===== src/Api/Endpoints/Requests/Hosting.antt =====
-- What the endpoints of apps/hosting/views.py do.
use whmcstemplate_bridge.Base.{Bool, Outcome, returned, ℕ, String, refl, inl, List}
use whmcstemplate_bridge.Whmcs.Services.{Site, World}
use whmcstemplate_bridge.Whmcs.Services.Hosting.{Change}
use whmcstemplate_bridge.Whmcs.Services.Isolation.Requests
use whmcstemplate_bridge.Whmcs.Services.Isolation.Requests.{Request, sent, perform}
use whmcstemplate_bridge.Whmcs.Services.Hosting as HostingService
use whmcstemplate_bridge.Whmcs.Services.Domains as DomainService
use whmcstemplate_bridge.Api.Scope.{Http, Framework, page}
use whmcstemplate_bridge.Api.Responses.{paginated, as_body, as_dict, as_list, no_body, or_none}
use whmcstemplate_bridge.Api.Hosting
use whmcstemplate_bridge.Api.Endpoints
use whmcstemplate_bridge.Api.Endpoints.{Endpoint, serve}
use whmcstemplate_bridge.Api.Endpoints.Customer.{IsOneRequest}
use whmcstemplate_bridge.Api.Endpoints.Answers.{answered}

module _ (F : Framework) (S : Site) (q : Http) where
  pub service_list-IsOneRequest :
      (w : World) → IsOneRequest F S q w (serve F S q Endpoints.service_list w)
  unfolding Hosting.service_list
  service_list-IsOneRequest w =
      answered F S q (returned tt) 200 (paginated (page F q))
        (λ d n. HostingService.list_services S n (page F q) (or_none q.status))
        (λ d n. Requests.list_services n (page F q) (or_none q.status)) (λ d n w'. refl)
        (λ d n. inl refl) w

  pub service_detail-IsOneRequest :
      (service_id : ℕ)
      → (w : World) → IsOneRequest F S q w (serve F S q (Endpoints.service_detail service_id) w)
  unfolding Hosting.service_detail
  service_detail-IsOneRequest service_id w =
      answered F S q (returned tt) 200 as_body (λ d n. HostingService.get_service S n service_id)
        (λ d n. Requests.get_service n service_id) (λ d n w'. refl) (λ d n. inl refl) w

  pub service_password-IsOneRequest :
      (validated : Outcome String) (service_id : ℕ)
      → (w : World)
      → IsOneRequest F S q w (serve F S q (Endpoints.service_password validated service_id) w)
  unfolding Hosting.service_password
  service_password-IsOneRequest validated service_id w =
      answered F S q validated 204 no_body
        (λ d n. HostingService.change_service_password S n service_id d)
        (λ d n. Requests.change_service_password n service_id d) (λ d n w'. refl) (λ d n. inl refl)
        w

  pub service_upgrade_options-IsOneRequest :
      (service_id : ℕ)
      → (w : World)
      → IsOneRequest F S q w (serve F S q (Endpoints.service_upgrade_options service_id) w)
  unfolding Hosting.service_upgrade_options
  service_upgrade_options-IsOneRequest service_id w =
      answered F S q (returned tt) 200 as_list
        (λ d n. HostingService.upgrade_options S n service_id)
        (λ d n. Requests.upgrade_options n service_id) (λ d n w'. refl) (λ d n. inl refl) w

  pub service_upgrade_quote-IsOneRequest :
      (validated : Outcome Change) (service_id : ℕ)
      → (w : World)
      → IsOneRequest F S q w (serve F S q (Endpoints.service_upgrade_quote validated service_id) w)
  unfolding Hosting.service_upgrade_quote
  service_upgrade_quote-IsOneRequest validated service_id w =
      answered F S q validated 200 as_dict (λ d n. HostingService.quote_upgrade S n service_id d)
        (λ d n. Requests.quote_upgrade n service_id d) (λ d n w'. refl) (λ d n. inl refl) w

  pub service_upgrade-IsOneRequest :
      (validated : Outcome (Change × String)) (service_id : ℕ)
      → (w : World)
      → IsOneRequest F S q w (serve F S q (Endpoints.service_upgrade validated service_id) w)
  unfolding Hosting.service_upgrade
  service_upgrade-IsOneRequest validated service_id w =
      answered F S q validated 201 as_dict (λ d n. HostingService.upgrade S n service_id d.0 d.1)
        (λ d n. Requests.upgrade n service_id d.0 d.1) (λ d n w'. refl) (λ d n. inl refl) w

  pub service_cancellation-IsOneRequest :
      (validated : Outcome (String × Bool)) (service_id : ℕ)
      → (w : World)
      → IsOneRequest F S q w (serve F S q (Endpoints.service_cancellation validated service_id) w)
  unfolding Hosting.service_cancellation
  service_cancellation-IsOneRequest validated service_id w =
      answered F S q validated 202 Hosting.requested_body
        (λ d n. HostingService.request_cancellation S n service_id d.0 d.1)
        (λ d n. Requests.request_cancellation n service_id d.0 d.1) (λ d n w'. refl)
        (λ d n. inl refl) w

  pub domain_list-IsOneRequest :
      (w : World) → IsOneRequest F S q w (serve F S q Endpoints.domain_list w)
  unfolding Hosting.domain_list
  domain_list-IsOneRequest w =
      answered F S q (returned tt) 200 (paginated (page F q))
        (λ d n. DomainService.list_domains S n (page F q))
        (λ d n. Requests.list_domains n (page F q)) (λ d n w'. refl) (λ d n. inl refl) w

  pub domain_detail-IsOneRequest :
      (domain_id : ℕ)
      → (w : World) → IsOneRequest F S q w (serve F S q (Endpoints.domain_detail domain_id) w)
  unfolding Hosting.domain_detail
  domain_detail-IsOneRequest domain_id w =
      answered F S q (returned tt) 200 as_body (λ d n. DomainService.get_domain S n domain_id)
        (λ d n. Requests.get_domain n domain_id) (λ d n w'. refl) (λ d n. inl refl) w

  pub domain_nameservers-IsOneRequest :
      (domain_id : ℕ)
      → (w : World) → IsOneRequest F S q w (serve F S q (Endpoints.domain_nameservers domain_id) w)
  unfolding Hosting.domain_nameservers
  domain_nameservers-IsOneRequest domain_id w =
      answered F S q (returned tt) 200 Hosting.nameservers_body
        (λ d n. DomainService.get_nameservers S n domain_id)
        (λ d n. Requests.get_nameservers n domain_id) (λ d n w'. refl) (λ d n. inl refl) w

  pub put_nameservers-IsOneRequest :
      (validated : Outcome (List String)) (domain_id : ℕ)
      → (w : World)
      → IsOneRequest F S q w (serve F S q (Endpoints.put_nameservers validated domain_id) w)
  unfolding Hosting.put_nameservers
  put_nameservers-IsOneRequest validated domain_id w =
      answered F S q validated 200 Hosting.nameservers_body
        (λ d n. DomainService.update_nameservers S n domain_id d)
        (λ d n. Requests.update_nameservers n domain_id d) (λ d n w'. refl) (λ d n. inl refl) w

  pub domain_lock-IsOneRequest :
      (domain_id : ℕ)
      → (w : World) → IsOneRequest F S q w (serve F S q (Endpoints.domain_lock domain_id) w)
  unfolding Hosting.domain_lock
  domain_lock-IsOneRequest domain_id w =
      answered F S q (returned tt) 200 Hosting.locked_body
        (λ d n. DomainService.get_lock_status S n domain_id)
        (λ d n. Requests.get_lock_status n domain_id) (λ d n w'. refl) (λ d n. inl refl) w

  pub put_lock-IsOneRequest :
      (validated : Outcome Bool) (domain_id : ℕ)
      → (w : World) → IsOneRequest F S q w (serve F S q (Endpoints.put_lock validated domain_id) w)
  unfolding Hosting.put_lock
  put_lock-IsOneRequest validated domain_id w =
      answered F S q validated 200 Hosting.locked_body
        (λ d n. DomainService.set_lock_status S n domain_id d)
        (λ d n. Requests.set_lock_status n domain_id d) (λ d n w'. refl) (λ d n. inl refl) w

  pub domain_epp-IsOneRequest :
      (domain_id : ℕ)
      → (w : World) → IsOneRequest F S q w (serve F S q (Endpoints.domain_epp domain_id) w)
  unfolding Hosting.domain_epp
  domain_epp-IsOneRequest domain_id w =
      answered F S q (returned tt) 200 Hosting.epp_body
        (λ d n. DomainService.request_epp_code S n domain_id)
        (λ d n. Requests.request_epp_code n domain_id) (λ d n w'. refl) (λ d n. inl refl) w
