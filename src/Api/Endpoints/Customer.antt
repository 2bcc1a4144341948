-- ===== src/Api/Endpoints/Customer.antt =====
-- Whose data a request of the services is about.
use whmcstemplate_bridge.Base.{Exn, Outcome, raised, ℕ, ◌≡◌, ◌⊎◌, Option, none, some}
use whmcstemplate_bridge.Whmcs.Services.{Site, World}
use whmcstemplate_bridge.Whmcs.Services.Isolation.Requests
use whmcstemplate_bridge.Whmcs.Services.Isolation.Requests.{Request, sent, perform}
use whmcstemplate_bridge.Api.Scope.{Http, Framework, IsLinked}

-- the customer that a request is for
abbrev pub customer : Request → Option ℕ
customer (Requests.get_invoice n _ _) = some n
customer (Requests.validate_login _ _) = none
customer (Requests.register _) = none
customer (Requests.find_client_id_by_email _) = none
customer (Requests.get_contacts n) = some n
customer (Requests.list_pay_methods n) = some n
customer (Requests.record_payment n _ _) = some n
customer (Requests.get_profile n) = some n
customer (Requests.list_invoices n _ _) = some n
customer (Requests.list_transactions n _) = some n
customer (Requests.list_tickets n _ _) = some n
customer (Requests.get_ticket n _) = some n
customer (Requests.list_services n _ _) = some n
customer (Requests.get_service n _) = some n
customer (Requests.list_domains n _) = some n
customer (Requests.get_domain n _) = some n
customer (Requests.list_orders n _ _) = some n
customer (Requests.list_products _) = none
customer Requests.list_currencies = none
customer (Requests.tld_pricing _) = none
customer (Requests.list_announcements _) = none
customer Requests.list_payment_methods = none
customer Requests.list_departments = none
customer (Requests.whois _) = none
customer (Requests.update_profile n _) = some n
customer (Requests.change_password n _ _ _) = some n
customer (Requests.get_credit_balance n) = some n
customer (Requests.open_ticket n _) = some n
customer (Requests.reply_to_ticket n _ _ _ _) = some n
customer (Requests.close_ticket n _) = some n
customer (Requests.get_attachment n _ _ _ _) = some n
customer (Requests.upgrade_options n _) = some n
customer (Requests.quote_upgrade n _ _) = some n
customer (Requests.upgrade n _ _ _) = some n
customer (Requests.change_service_password n _ _) = some n
customer (Requests.request_cancellation n _ _ _) = some n
customer (Requests.get_nameservers n _) = some n
customer (Requests.update_nameservers n _ _) = some n
customer (Requests.get_lock_status n _) = some n
customer (Requests.set_lock_status n _ _) = some n
customer (Requests.request_epp_code n _) = some n
customer (Requests.create_order b) = some b.whmcs_client_id
customer (Requests.get_order n _) = some n
customer (Requests.cancel_order n _) = some n

-- a request for the customer, or for the departments, which are nobody's
abbrev pub IsFor : ℕ → Request → Type 0
IsFor n r = (customer r ≡ some n) ⊎ (r ≡ Requests.list_departments)

module _ (F : Framework) (S : Site) (q : Http) where
  -- The run is refused with nothing done; or it does to the world what a request for the client does
  -- that the user is linked to.
  abbrev pub IsOneRequest : World → Outcome (Unit {0}) × World → Type 0
  IsOneRequest w run =
      ((e : Exn) × (run ≡ (raised e, w)))
      ⊎ ((n : ℕ) × IsLinked F q n × ((r : Request) × IsFor n r × (run.1 ≡ (perform S r w).1)))
