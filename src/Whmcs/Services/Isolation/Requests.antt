-- ===== src/Whmcs/Services/Isolation/Requests.antt =====
-- The requests of the API that reach the services, in any order, with refreshes in the background.
use whmcstemplate_bridge.Base.{ℤ, Exec, pure, ◌>>◌, ℕ, String, Bool, List}
use whmcstemplate_bridge.Json.{Fields}
use whmcstemplate_bridge.Core.Cache.{client_namespace, run_refresh}
use whmcstemplate_bridge.Core.Cache.Isolated.{IsKeyOf}
use whmcstemplate_bridge.Core.Pagination.{PageRequest}
use whmcstemplate_bridge.Orders.Placement.{Basket}
use whmcstemplate_bridge.Whmcs.Attachments.{File}
use whmcstemplate_bridge.Whmcs.Services.{Site, World, upstream}
use whmcstemplate_bridge.Whmcs.Services.Accounts
use whmcstemplate_bridge.Whmcs.Services.Billing
use whmcstemplate_bridge.Whmcs.Services.Catalogue
use whmcstemplate_bridge.Whmcs.Services.Support
use whmcstemplate_bridge.Whmcs.Services.Hosting
use whmcstemplate_bridge.Whmcs.Services.Domains
use whmcstemplate_bridge.Whmcs.Services.Orders
use whmcstemplate_bridge.Whmcs.Services.Isolation.{ready, Fetch}

-- the operations of the services, with their arguments
pub data Request : Type 0 where
  get_invoice : (whmcs_client_id id : ℕ) (fresh : Bool) → Request
  validate_login : (email password : String) → Request
  register : (payload : Fields) → Request
  find_client_id_by_email : (email : String) → Request
  get_contacts : (whmcs_client_id : ℕ) → Request
  list_pay_methods : (whmcs_client_id : ℕ) → Request
  record_payment : (whmcs_client_id id : ℕ) (receipt : Billing.Receipt) → Request
  get_profile : (whmcs_client_id : ℕ) → Request
  list_invoices : (whmcs_client_id : ℕ) (page : PageRequest) (status : String) → Request
  list_transactions : (whmcs_client_id : ℕ) (page : PageRequest) → Request
  list_tickets : (whmcs_client_id : ℕ) (page : PageRequest) (status : String) → Request
  get_ticket : (whmcs_client_id id : ℕ) → Request
  list_services : (whmcs_client_id : ℕ) (page : PageRequest) (status : String) → Request
  get_service : (whmcs_client_id id : ℕ) → Request
  list_domains : (whmcs_client_id : ℕ) (page : PageRequest) → Request
  get_domain : (whmcs_client_id id : ℕ) → Request
  list_orders : (whmcs_client_id : ℕ) (page : PageRequest) (status : String) → Request
  list_products : (g : ℤ) → Request
  list_currencies : Request
  tld_pricing : (c : ℤ) → Request
  list_announcements : (k : ℕ) → Request
  list_payment_methods : Request
  list_departments : Request
  whois : (d : String) → Request
  update_profile : (whmcs_client_id : ℕ) (changes : Fields) → Request
  change_password : (whmcs_client_id : ℕ) (email old new : String) → Request
  get_credit_balance : (whmcs_client_id : ℕ) → Request
  open_ticket : (whmcs_client_id : ℕ) (form : Support.TicketForm) → Request
  reply_to_ticket : (whmcs_client_id id : ℕ) (message ip : String) (files : List File) → Request
  close_ticket : (whmcs_client_id id : ℕ) → Request
  get_attachment : (whmcs_client_id id : ℕ) (kind : String) (related index : ℤ) → Request
  upgrade_options : (whmcs_client_id id : ℕ) → Request
  quote_upgrade : (whmcs_client_id id : ℕ) (c : Hosting.Change) → Request
  upgrade : (whmcs_client_id id : ℕ) (c : Hosting.Change) (method : String) → Request
  change_service_password : (whmcs_client_id id : ℕ) (password : String) → Request
  request_cancellation : (whmcs_client_id id : ℕ) (reason : String) (immediate : Bool) → Request
  get_nameservers : (whmcs_client_id id : ℕ) → Request
  update_nameservers : (whmcs_client_id id : ℕ) (servers : List String) → Request
  get_lock_status : (whmcs_client_id id : ℕ) → Request
  set_lock_status : (whmcs_client_id id : ℕ) (locked : Bool) → Request
  request_epp_code : (whmcs_client_id id : ℕ) → Request
  create_order : (b : Basket) → Request
  get_order : (whmcs_client_id id : ℕ) → Request
  cancel_order : (whmcs_client_id id : ℕ) → Request

-- a request whose result is sent to the customer
abbrev pub sent : {A : Type 0} → Exec World A → Exec World (Unit {0})
sent m = m >> pure tt

abbrev pub perform : Site → Request → Exec World (Unit {0})
perform S (get_invoice n id fresh) = sent (Billing.get_invoice S n id fresh)
perform S (validate_login email password) =
    sent (upstream (Accounts.validate_login S email password))
perform S (register payload) = sent (upstream (Accounts.register S payload))
perform S (find_client_id_by_email email) =
    sent (upstream (Accounts.find_client_id_by_email S email))
perform S (get_contacts n) = sent (upstream (Accounts.get_contacts S n))
perform S (list_pay_methods n) = sent (upstream (Billing.list_pay_methods S n))
perform S (record_payment n id receipt) = sent (Billing.record_payment S n id receipt)
perform S (get_profile n) = sent (Accounts.get_profile S n)
perform S (list_invoices n page status) = sent (Billing.list_invoices S n page status)
perform S (list_transactions n page) = sent (Billing.list_transactions S n page)
perform S (list_tickets n page status) = sent (Support.list_tickets S n page status)
perform S (get_ticket n id) = sent (Support.get_ticket S n id)
perform S (list_services n page status) = sent (Hosting.list_services S n page status)
perform S (get_service n id) = sent (Hosting.get_service S n id)
perform S (list_domains n page) = sent (Domains.list_domains S n page)
perform S (get_domain n id) = sent (Domains.get_domain S n id)
perform S (list_orders n page status) = sent (Orders.list_orders S n page status)
perform S (list_products g) = sent (Catalogue.list_products S g)
perform S list_currencies = sent (Catalogue.list_currencies S)
perform S (tld_pricing c) = sent (Catalogue.tld_pricing S c)
perform S (list_announcements k) = sent (Catalogue.list_announcements S k)
perform S list_payment_methods = sent (Catalogue.list_payment_methods S)
perform S list_departments = sent (Support.list_departments S)
perform S (whois d) = sent (Domains.whois S d)
perform S (update_profile n changes) = sent (Accounts.update_profile S n changes)
perform S (change_password n email old new) = sent (Accounts.change_password S n email old new)
perform S (get_credit_balance n) = sent (Billing.get_credit_balance S n)
perform S (open_ticket n form) = sent (Support.open_ticket S n form)
perform S (reply_to_ticket n id message ip files) =
    sent (Support.reply_to_ticket S n id message ip files)
perform S (close_ticket n id) = sent (Support.close_ticket S n id)
perform S (get_attachment n id kind related index) =
    sent (Support.get_attachment S n id kind related index)
perform S (upgrade_options n id) = sent (Hosting.upgrade_options S n id)
perform S (quote_upgrade n id c) = sent (Hosting.quote_upgrade S n id c)
perform S (upgrade n id c method) = sent (Hosting.upgrade S n id c method)
perform S (change_service_password n id password) =
    sent (Hosting.change_service_password S n id password)
perform S (request_cancellation n id reason immediate) =
    sent (Hosting.request_cancellation S n id reason immediate)
perform S (get_nameservers n id) = sent (Domains.get_nameservers S n id)
perform S (update_nameservers n id servers) = sent (Domains.update_nameservers S n id servers)
perform S (get_lock_status n id) = sent (Domains.get_lock_status S n id)
perform S (set_lock_status n id locked) = sent (Domains.set_lock_status S n id locked)
perform S (request_epp_code n id) = sent (Domains.request_epp_code S n id)
perform S (create_order b) = sent (Orders.create_order S b)
perform S (get_order n id) = sent (Orders.get_order S n id)
perform S (cancel_order n id) = sent (Orders.cancel_order S n id)

-- What happens to the cache and to WHMCS: a request, or a refresh in the background, which stores
-- what a customer's fetch makes under a key of that customer's.
pub data Step (S : Site) : World → World → Type 0 where
  request : (r : Request) (w : World) → Step S w (perform S r w).1
  refresh :
      (f : Fetch) (whmcs_client_id : ℕ) (resource key : String) (ttl : ℕ) (w : World)
      → IsKeyOf (client_namespace whmcs_client_id resource) key
      → Step S w
          (run_refresh S.runtime (ready S f whmcs_client_id) (record { key = key; ttl = ttl }) w).1
  -- time passes, and the cache server drops what has expired
  tick : (now : ℕ) (w : World) → Step S w (record w { clock = now })

pub data Reach (S : Site) (w : World) : World → Type 0 where
  here : Reach S w w
  next : {u v : World} → Reach S w u → Step S u v → Reach S w v
