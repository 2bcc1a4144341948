-- ===== src/Api/Endpoints/Requests.antt =====
-- An endpoint does what one request of the user's own client does.
mod Hosting
mod Billing
mod Support
use whmcstemplate_bridge.Base.{
  Exn, Outcome, returned, raised, Exec, pure, lift, continue, ◌>>=◌, ℕ, String, ◌≡◌, refl, ◌∙◌, ◌⊎◌,
  inl, inr, false, Option, none, some, List,
}
use whmcstemplate_bridge.Json.{Value}
use whmcstemplate_bridge.Whmcs.Services.{Site, World, upstream}
use whmcstemplate_bridge.Whmcs.Services.Hosting.{Change}
use whmcstemplate_bridge.Whmcs.Services.Isolation.Requests
use whmcstemplate_bridge.Whmcs.Services.Isolation.Requests.{Request, sent, perform}
use whmcstemplate_bridge.Whmcs.Services.Hosting as HostingService
use whmcstemplate_bridge.Whmcs.Services.Domains as DomainService
use whmcstemplate_bridge.Whmcs.Services.Billing as BillingService
use whmcstemplate_bridge.Whmcs.Services.Accounts as AccountService
use whmcstemplate_bridge.Whmcs.Services.Orders as OrderService
use whmcstemplate_bridge.Whmcs.Services.Support as SupportService
use whmcstemplate_bridge.Api.Scope.{Http, Framework, page, for_client, IsLinked, for_client-cases}
use whmcstemplate_bridge.Api.Responses.{
  Response, paginated, as_body, as_dict, as_list, no_body, or_none, respond,
}
use whmcstemplate_bridge.Api.Support.{NewTicket, form_of}
use whmcstemplate_bridge.Api.Endpoints
use whmcstemplate_bridge.Api.Endpoints.{Endpoint, serve}
use whmcstemplate_bridge.Api.Endpoints.Customer.{IsOneRequest}
use whmcstemplate_bridge.Api.Endpoints.Requests.Hosting.{
  service_list-IsOneRequest, service_detail-IsOneRequest, service_password-IsOneRequest,
  service_upgrade_options-IsOneRequest, service_upgrade_quote-IsOneRequest,
  service_upgrade-IsOneRequest, service_cancellation-IsOneRequest, domain_list-IsOneRequest,
  domain_detail-IsOneRequest, domain_nameservers-IsOneRequest, put_nameservers-IsOneRequest,
  domain_lock-IsOneRequest, put_lock-IsOneRequest, domain_epp-IsOneRequest,
}
use whmcstemplate_bridge.Api.Endpoints.Requests.Billing.{
  invoice_list-IsOneRequest, invoice_detail-IsOneRequest, transaction_list-IsOneRequest,
  credit_balance-IsOneRequest, pay_method_list-IsOneRequest, profile_detail-IsOneRequest,
  profile_update-IsOneRequest, password_change-IsOneRequest, contact_list-IsOneRequest,
  order_list-IsOneRequest, order_detail-IsOneRequest, order_cancel-IsOneRequest,
}
use whmcstemplate_bridge.Api.Endpoints.Requests.Support.{
  department_list-IsOneRequest, ticket_list-IsOneRequest, ticket_create-IsOneRequest,
  ticket_detail-IsOneRequest, ticket_delete-IsOneRequest, ticket_reply-IsOneRequest,
  ticket_attachment-IsOneRequest,
}

module _ (F : Framework) (S : Site) (q : Http) where
  -- The endpoints of services, domains, invoices, transactions, credit, pay methods, the profile, the
  -- password, contacts, departments and tickets, and those that list, show and cancel orders: whatever
  -- the request, each either raises with nothing done, or does to the cache and to WHMCS what one request
  -- of the services does, for the client that the authenticated user is linked to. The list of
  -- departments is the one request without a client. The endpoints that place orders and that start or
  -- show payments, and the dashboard, are not among these.
  pub serve-IsOneRequest : (e : Endpoint) (w : World) → IsOneRequest F S q w (serve F S q e w)
  serve-IsOneRequest Endpoints.service_list = service_list-IsOneRequest F S q
  serve-IsOneRequest (Endpoints.service_detail service_id) =
      service_detail-IsOneRequest F S q service_id
  serve-IsOneRequest (Endpoints.service_password validated service_id) =
      service_password-IsOneRequest F S q validated service_id
  serve-IsOneRequest (Endpoints.service_upgrade_options service_id) =
      service_upgrade_options-IsOneRequest F S q service_id
  serve-IsOneRequest (Endpoints.service_upgrade_quote validated service_id) =
      service_upgrade_quote-IsOneRequest F S q validated service_id
  serve-IsOneRequest (Endpoints.service_upgrade validated service_id) =
      service_upgrade-IsOneRequest F S q validated service_id
  serve-IsOneRequest (Endpoints.service_cancellation validated service_id) =
      service_cancellation-IsOneRequest F S q validated service_id
  serve-IsOneRequest Endpoints.domain_list = domain_list-IsOneRequest F S q
  serve-IsOneRequest (Endpoints.domain_detail domain_id) =
      domain_detail-IsOneRequest F S q domain_id
  serve-IsOneRequest (Endpoints.domain_nameservers domain_id) =
      domain_nameservers-IsOneRequest F S q domain_id
  serve-IsOneRequest (Endpoints.put_nameservers validated domain_id) =
      put_nameservers-IsOneRequest F S q validated domain_id
  serve-IsOneRequest (Endpoints.domain_lock domain_id) = domain_lock-IsOneRequest F S q domain_id
  serve-IsOneRequest (Endpoints.put_lock validated domain_id) =
      put_lock-IsOneRequest F S q validated domain_id
  serve-IsOneRequest (Endpoints.domain_epp domain_id) = domain_epp-IsOneRequest F S q domain_id
  serve-IsOneRequest (Endpoints.invoice_list validated) = invoice_list-IsOneRequest F S q validated
  serve-IsOneRequest (Endpoints.invoice_detail invoice_id) =
      invoice_detail-IsOneRequest F S q invoice_id
  serve-IsOneRequest Endpoints.transaction_list = transaction_list-IsOneRequest F S q
  serve-IsOneRequest Endpoints.credit_balance = credit_balance-IsOneRequest F S q
  serve-IsOneRequest Endpoints.pay_method_list = pay_method_list-IsOneRequest F S q
  serve-IsOneRequest Endpoints.profile_detail = profile_detail-IsOneRequest F S q
  serve-IsOneRequest (Endpoints.profile_update validated) =
      profile_update-IsOneRequest F S q validated
  serve-IsOneRequest (Endpoints.password_change validated email) =
      password_change-IsOneRequest F S q validated email
  serve-IsOneRequest Endpoints.contact_list = contact_list-IsOneRequest F S q
  serve-IsOneRequest Endpoints.order_list = order_list-IsOneRequest F S q
  serve-IsOneRequest (Endpoints.order_detail order_id) = order_detail-IsOneRequest F S q order_id
  serve-IsOneRequest (Endpoints.order_cancel order_id) = order_cancel-IsOneRequest F S q order_id
  serve-IsOneRequest Endpoints.department_list = department_list-IsOneRequest F S q
  serve-IsOneRequest (Endpoints.ticket_list validated) = ticket_list-IsOneRequest F S q validated
  serve-IsOneRequest (Endpoints.ticket_create validated) =
      ticket_create-IsOneRequest F S q validated
  serve-IsOneRequest (Endpoints.ticket_detail ticket_id) =
      ticket_detail-IsOneRequest F S q ticket_id
  serve-IsOneRequest (Endpoints.ticket_delete ticket_id) =
      ticket_delete-IsOneRequest F S q ticket_id
  serve-IsOneRequest (Endpoints.ticket_reply validated ticket_id) =
      ticket_reply-IsOneRequest F S q validated ticket_id
  serve-IsOneRequest (Endpoints.ticket_attachment validated ticket_id) =
      ticket_attachment-IsOneRequest F S q validated ticket_id
