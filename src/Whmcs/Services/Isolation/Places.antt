-- ===== src/Whmcs/Services/Isolation/Places.antt =====
-- Where the cache keeps what the customers' reads fetch.
use whmcstemplate_bridge.Base.{or_text, pos, Exec, ℕ, String, ◌≡◌, refl, false, List, [], ◌∷◌}
use whmcstemplate_bridge.Json.{Value, int, str}
use whmcstemplate_bridge.Core.Pagination.{PageRequest}
use whmcstemplate_bridge.Whmcs.Services.{Site, World, cached_for}
use whmcstemplate_bridge.Whmcs.Services.Accounts
use whmcstemplate_bridge.Whmcs.Services.Billing
use whmcstemplate_bridge.Whmcs.Services.Support
use whmcstemplate_bridge.Whmcs.Services.Hosting
use whmcstemplate_bridge.Whmcs.Services.Domains
use whmcstemplate_bridge.Whmcs.Services.Orders
use whmcstemplate_bridge.Whmcs.Services.Isolation.{
  Fetch, profile, invoice, invoices, transactions, ticket, tickets, service, services, domain,
  domains, orders, fetch,
}

-- the operation that reads what a fetch makes, through the cache
abbrev pub read : Site → Fetch → (whmcs_client_id : ℕ) → Exec World Value
read S profile n = Accounts.get_profile S n
read S (invoice id) n = Billing.get_invoice S n id false
read S (invoices page status) n = Billing.list_invoices S n page status
read S (transactions page) n = Billing.list_transactions S n page
read S (ticket id) n = Support.get_ticket S n id
read S (tickets page status) n = Support.list_tickets S n page status
read S (service id) n = Hosting.get_service S n id
read S (services page status) n = Hosting.list_services S n page status
read S (domain id) n = Domains.get_domain S n id
read S (domains page) n = Domains.list_domains S n page
read S (orders page status) n = Orders.list_orders S n page status

-- the resource and the bucket of the cache
abbrev pub place_of : Fetch → String × String
place_of profile = ("profile", "client")
place_of (invoice _) = ("invoices", "invoices")
place_of (invoices _ _) = ("invoices", "invoices")
place_of (transactions _) = ("transactions", "invoices")
place_of (ticket _) = ("tickets", "tickets")
place_of (tickets _ _) = ("tickets", "tickets")
place_of (service _) = ("services", "client")
place_of (services _ _) = ("services", "client")
place_of (domain _) = ("domains", "client")
place_of (domains _) = ("domains", "client")
place_of (orders _ _) = ("orders", "invoices")

abbrev detail : ℕ → List Value
detail id = str "detail" ∷ int (pos id) ∷ []

abbrev paged : PageRequest → List Value → List Value
paged page parts = str "list" ∷ int (pos page.page) ∷ int (pos page.page_size) ∷ parts

abbrev filtered : PageRequest → String → List Value
filtered page status = paged page (str (or_text status "all") ∷ [])

-- the parts of the key
abbrev pub parts_of : Fetch → List Value
parts_of profile = str "detail" ∷ []
parts_of (invoice id) = detail id
parts_of (invoices page status) = filtered page status
parts_of (transactions page) = paged page []
parts_of (ticket id) = detail id
parts_of (tickets page status) = filtered page status
parts_of (service id) = detail id
parts_of (services page status) = filtered page status
parts_of (domain id) = detail id
parts_of (domains page) = paged page []
parts_of (orders page status) = filtered page status

module _ (S : Site) where
  abbrev pub kept_read : Fetch → (whmcs_client_id : ℕ) → Exec World Value
  kept_read f n = cached_for S n (place_of f).0 (place_of f).1 (fetch S f n) (parts_of f)

  pub read-kept_read : (f : Fetch) (n : ℕ) → read S f n ≡ kept_read f n
  unfolding Accounts.get_profile Billing.get_invoice Billing.list_invoices Billing.list_transactions
      Support.get_ticket Support.list_tickets Hosting.get_service Hosting.list_services
      Domains.get_domain Domains.list_domains Orders.list_orders
  read-kept_read profile n = refl
  read-kept_read (invoice id) n = refl
  read-kept_read (invoices page status) n = refl
  read-kept_read (transactions page) n = refl
  read-kept_read (ticket id) n = refl
  read-kept_read (tickets page status) n = refl
  read-kept_read (service id) n = refl
  read-kept_read (services page status) n = refl
  read-kept_read (domain id) n = refl
  read-kept_read (domains page) n = refl
  read-kept_read (orders page status) n = refl
