-- ===== src/Api/Endpoints.antt =====
-- The customers' endpoints that call one operation of a service, together.
pub mod Customer
mod Answers
pub mod Requests
use whmcstemplate_bridge.Base.{ℤ, Outcome, Exec, ◌>>=◌, ◌>>◌, ℕ, String, Bool, Option, List}
use whmcstemplate_bridge.Json.{Fields}
use whmcstemplate_bridge.Whmcs.Attachments.{File}
use whmcstemplate_bridge.Whmcs.Services.{Site, World}
use whmcstemplate_bridge.Whmcs.Services.Hosting.{Change}
use whmcstemplate_bridge.Whmcs.Services.Isolation.Requests.{sent}
use whmcstemplate_bridge.Api.Scope.{Http, Framework}
use whmcstemplate_bridge.Api.Hosting
use whmcstemplate_bridge.Api.Billing
use whmcstemplate_bridge.Api.Support
use whmcstemplate_bridge.Api.Support.{NewTicket}

-- the views' methods, with the ids of the URL and what the serializer made of the request
pub data Endpoint : Type 0 where
  service_list : Endpoint
  service_detail : (service_id : ℕ) → Endpoint
  service_password : (validated : Outcome String) (service_id : ℕ) → Endpoint
  service_upgrade_options : (service_id : ℕ) → Endpoint
  service_upgrade_quote : (validated : Outcome Change) (service_id : ℕ) → Endpoint
  service_upgrade : (validated : Outcome (Change × String)) (service_id : ℕ) → Endpoint
  service_cancellation : (validated : Outcome (String × Bool)) (service_id : ℕ) → Endpoint
  domain_list : Endpoint
  domain_detail : (domain_id : ℕ) → Endpoint
  domain_nameservers : (domain_id : ℕ) → Endpoint
  put_nameservers : (validated : Outcome (List String)) (domain_id : ℕ) → Endpoint
  domain_lock : (domain_id : ℕ) → Endpoint
  put_lock : (validated : Outcome Bool) (domain_id : ℕ) → Endpoint
  domain_epp : (domain_id : ℕ) → Endpoint
  invoice_list : (validated : Outcome (Option String)) → Endpoint
  invoice_detail : (invoice_id : ℕ) → Endpoint
  transaction_list : Endpoint
  credit_balance : Endpoint
  pay_method_list : Endpoint
  profile_detail : Endpoint
  profile_update : (validated : Outcome Fields) → Endpoint
  password_change : (validated : Outcome (String × String)) (email : String) → Endpoint
  contact_list : Endpoint
  order_list : Endpoint
  order_detail : (order_id : ℕ) → Endpoint
  order_cancel : (order_id : ℕ) → Endpoint
  department_list : Endpoint
  ticket_list : (validated : Outcome (Option String)) → Endpoint
  ticket_create : (validated : Outcome NewTicket) → Endpoint
  ticket_detail : (ticket_id : ℕ) → Endpoint
  ticket_delete : (ticket_id : ℕ) → Endpoint
  ticket_reply : (validated : Outcome (String × List File)) (ticket_id : ℕ) → Endpoint
  ticket_attachment : (validated : Outcome (String × ℤ × ℤ)) (ticket_id : ℕ) → Endpoint

-- `sent` stands for the response on its way to the customer.
abbrev pub serve : Framework → Site → Http → Endpoint → Exec World (Unit {0})
serve F S q service_list = sent (Hosting.service_list F S q)
serve F S q (service_detail service_id) = sent (Hosting.service_detail F S q service_id)
serve F S q (service_password validated service_id) =
    sent (Hosting.service_password F S q validated service_id)
serve F S q (service_upgrade_options service_id) =
    sent (Hosting.service_upgrade_options F S q service_id)
serve F S q (service_upgrade_quote validated service_id) =
    sent (Hosting.service_upgrade_quote F S q validated service_id)
serve F S q (service_upgrade validated service_id) =
    sent (Hosting.service_upgrade F S q validated service_id)
serve F S q (service_cancellation validated service_id) =
    sent (Hosting.service_cancellation F S q validated service_id)
serve F S q domain_list = sent (Hosting.domain_list F S q)
serve F S q (domain_detail domain_id) = sent (Hosting.domain_detail F S q domain_id)
serve F S q (domain_nameservers domain_id) = sent (Hosting.domain_nameservers F S q domain_id)
serve F S q (put_nameservers validated domain_id) =
    sent (Hosting.put_nameservers F S q validated domain_id)
serve F S q (domain_lock domain_id) = sent (Hosting.domain_lock F S q domain_id)
serve F S q (put_lock validated domain_id) = sent (Hosting.put_lock F S q validated domain_id)
serve F S q (domain_epp domain_id) = sent (Hosting.domain_epp F S q domain_id)
serve F S q (invoice_list validated) = sent (Billing.invoice_list F S q validated)
serve F S q (invoice_detail invoice_id) = sent (Billing.invoice_detail F S q invoice_id)
serve F S q transaction_list = sent (Billing.transaction_list F S q)
serve F S q credit_balance = sent (Billing.credit_balance F S q)
serve F S q pay_method_list = sent (Billing.pay_method_list F S q)
serve F S q profile_detail = sent (Billing.profile_detail F S q)
serve F S q (profile_update validated) = sent (Billing.profile_update F S q validated)
serve F S q (password_change validated email) = sent (Billing.password_change F S q validated email)
serve F S q contact_list = sent (Billing.contact_list F S q)
serve F S q order_list = sent (Billing.order_list F S q)
serve F S q (order_detail order_id) = sent (Billing.order_detail F S q order_id)
serve F S q (order_cancel order_id) = sent (Billing.order_cancel F S q order_id)
serve F S q department_list = sent (Support.department_list F S q)
serve F S q (ticket_list validated) = sent (Support.ticket_list F S q validated)
serve F S q (ticket_create validated) = sent (Support.ticket_create F S q validated)
serve F S q (ticket_detail ticket_id) = sent (Support.ticket_detail F S q ticket_id)
serve F S q (ticket_delete ticket_id) = sent (Support.ticket_delete F S q ticket_id)
serve F S q (ticket_reply validated ticket_id) =
    sent (Support.ticket_reply F S q validated ticket_id)
serve F S q (ticket_attachment validated ticket_id) =
    sent (Support.ticket_attachment F S q validated ticket_id)
