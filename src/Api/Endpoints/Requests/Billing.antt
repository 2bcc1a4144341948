-- ===== src/Api/Endpoints/Requests/Billing.antt =====
-- What the endpoints of apps/billing/views.py, apps/accounts/views.py and apps/orders/views.py do.
use whmcstemplate_bridge.Base.{Outcome, returned, ℕ, String, refl, inl, false, Option}
use whmcstemplate_bridge.Json.{Fields}
use whmcstemplate_bridge.Whmcs.Services.{Site, World, upstream}
use whmcstemplate_bridge.Whmcs.Services.Isolation.Requests
use whmcstemplate_bridge.Whmcs.Services.Isolation.Requests.{Request, sent, perform}
use whmcstemplate_bridge.Whmcs.Services.Billing as BillingService
use whmcstemplate_bridge.Whmcs.Services.Accounts as AccountService
use whmcstemplate_bridge.Whmcs.Services.Orders as OrderService
use whmcstemplate_bridge.Api.Scope.{Http, Framework, page}
use whmcstemplate_bridge.Api.Responses.{paginated, as_body, as_dict, as_list, no_body, or_none}
use whmcstemplate_bridge.Api.Billing
use whmcstemplate_bridge.Api.Endpoints
use whmcstemplate_bridge.Api.Endpoints.{Endpoint, serve}
use whmcstemplate_bridge.Api.Endpoints.Customer.{IsOneRequest}
use whmcstemplate_bridge.Api.Endpoints.Answers.{answered}

module _ (F : Framework) (S : Site) (q : Http) where
  pub invoice_list-IsOneRequest :
      (validated : Outcome (Option String))
      → (w : World) → IsOneRequest F S q w (serve F S q (Endpoints.invoice_list validated) w)
  unfolding Billing.invoice_list
  invoice_list-IsOneRequest validated w =
      answered F S q validated 200 (paginated (page F q))
        (λ d n. BillingService.list_invoices S n (page F q) (or_none d))
        (λ d n. Requests.list_invoices n (page F q) (or_none d)) (λ d n w'. refl) (λ d n. inl refl)
        w

  pub invoice_detail-IsOneRequest :
      (invoice_id : ℕ)
      → (w : World) → IsOneRequest F S q w (serve F S q (Endpoints.invoice_detail invoice_id) w)
  unfolding Billing.invoice_detail
  invoice_detail-IsOneRequest invoice_id w =
      answered F S q (returned tt) 200 (Billing.invoice_body F S q invoice_id)
        (λ d n. BillingService.get_invoice S n invoice_id false)
        (λ d n. Requests.get_invoice n invoice_id false) (λ d n w'. refl) (λ d n. inl refl) w

  pub transaction_list-IsOneRequest :
      (w : World) → IsOneRequest F S q w (serve F S q Endpoints.transaction_list w)
  unfolding Billing.transaction_list
  transaction_list-IsOneRequest w =
      answered F S q (returned tt) 200 (paginated (page F q))
        (λ d n. BillingService.list_transactions S n (page F q))
        (λ d n. Requests.list_transactions n (page F q)) (λ d n w'. refl) (λ d n. inl refl) w

  pub credit_balance-IsOneRequest :
      (w : World) → IsOneRequest F S q w (serve F S q Endpoints.credit_balance w)
  unfolding Billing.credit_balance
  credit_balance-IsOneRequest w =
      answered F S q (returned tt) 200 as_dict (λ d n. BillingService.get_credit_balance S n)
        (λ d n. Requests.get_credit_balance n) (λ d n w'. refl) (λ d n. inl refl) w

  pub pay_method_list-IsOneRequest :
      (w : World) → IsOneRequest F S q w (serve F S q Endpoints.pay_method_list w)
  unfolding Billing.pay_method_list
  pay_method_list-IsOneRequest w =
      answered F S q (returned tt) 200 as_list
        (λ d n. upstream (BillingService.list_pay_methods S n)) (λ d n. Requests.list_pay_methods n)
        (λ d n w'. refl) (λ d n. inl refl) w

  pub profile_detail-IsOneRequest :
      (w : World) → IsOneRequest F S q w (serve F S q Endpoints.profile_detail w)
  unfolding Billing.profile_detail
  profile_detail-IsOneRequest w =
      answered F S q (returned tt) 200 as_body (λ d n. AccountService.get_profile S n)
        (λ d n. Requests.get_profile n) (λ d n w'. refl) (λ d n. inl refl) w

  pub profile_update-IsOneRequest :
      (validated : Outcome Fields)
      → (w : World) → IsOneRequest F S q w (serve F S q (Endpoints.profile_update validated) w)
  unfolding Billing.profile_update
  profile_update-IsOneRequest validated w =
      answered F S q validated 200 as_body (λ d n. AccountService.update_profile S n d)
        (λ d n. Requests.update_profile n d) (λ d n w'. refl) (λ d n. inl refl) w

  pub password_change-IsOneRequest :
      (validated : Outcome (String × String)) (email : String)
      → (w : World)
      → IsOneRequest F S q w (serve F S q (Endpoints.password_change validated email) w)
  unfolding Billing.password_change
  password_change-IsOneRequest validated email w =
      answered F S q validated 204 no_body (λ d n. AccountService.change_password S n email d.0 d.1)
        (λ d n. Requests.change_password n email d.0 d.1) (λ d n w'. refl) (λ d n. inl refl) w

  pub contact_list-IsOneRequest :
      (w : World) → IsOneRequest F S q w (serve F S q Endpoints.contact_list w)
  unfolding Billing.contact_list
  contact_list-IsOneRequest w =
      answered F S q (returned tt) 200 as_list (λ d n. upstream (AccountService.get_contacts S n))
        (λ d n. Requests.get_contacts n) (λ d n w'. refl) (λ d n. inl refl) w

  pub order_list-IsOneRequest :
      (w : World) → IsOneRequest F S q w (serve F S q Endpoints.order_list w)
  unfolding Billing.order_list
  order_list-IsOneRequest w =
      answered F S q (returned tt) 200 (paginated (page F q))
        (λ d n. OrderService.list_orders S n (page F q) (or_none q.status))
        (λ d n. Requests.list_orders n (page F q) (or_none q.status)) (λ d n w'. refl)
        (λ d n. inl refl) w

  pub order_detail-IsOneRequest :
      (order_id : ℕ)
      → (w : World) → IsOneRequest F S q w (serve F S q (Endpoints.order_detail order_id) w)
  unfolding Billing.order_detail
  order_detail-IsOneRequest order_id w =
      answered F S q (returned tt) 200 as_dict (λ d n. OrderService.get_order S n order_id)
        (λ d n. Requests.get_order n order_id) (λ d n w'. refl) (λ d n. inl refl) w

  pub order_cancel-IsOneRequest :
      (order_id : ℕ)
      → (w : World) → IsOneRequest F S q w (serve F S q (Endpoints.order_cancel order_id) w)
  unfolding Billing.order_cancel
  order_cancel-IsOneRequest order_id w =
      answered F S q (returned tt) 200 as_dict (λ d n. OrderService.cancel_order S n order_id)
        (λ d n. Requests.cancel_order n order_id) (λ d n w'. refl) (λ d n. inl refl) w
