-- ===== src/Whmcs/Services/Frames/Reads.antt =====
-- The reads of the services call actions of the allowlist only.
use whmcstemplate_bridge.Base.{
  refl, Allowed, sym, subst, ℤ, pos, Exec, Frame, frame_rules, ℕ, String, Bool, true, false, [],
  ◌∷◌,
}
use whmcstemplate_bridge.Json.{Value, int, str}
use whmcstemplate_bridge.Core.Cache.Namespaces.{clash}
use whmcstemplate_bridge.Whmcs.Services.{Site, World}
use whmcstemplate_bridge.Whmcs.Services.Accounts
use whmcstemplate_bridge.Whmcs.Services.Billing
use whmcstemplate_bridge.Whmcs.Services.Catalogue
use whmcstemplate_bridge.Whmcs.Services.Support
use whmcstemplate_bridge.Whmcs.Services.Hosting
use whmcstemplate_bridge.Whmcs.Services.Domains
use whmcstemplate_bridge.Whmcs.Services.Orders
use whmcstemplate_bridge.Whmcs.Services.Isolation.{
  Fetch, profile, invoice, invoices, transactions, ticket, tickets, service, services, domain,
  domains, orders, fetch,
}
use whmcstemplate_bridge.Whmcs.Services.Isolation.Places.{read, read-kept_read}
use whmcstemplate_bridge.Whmcs.Services.Calls.{permitted, ask-Permitted}
use whmcstemplate_bridge.Whmcs.Services.Frames.{Keeps}

module _ (S : Site) where
  pub fetch-Permitted : (f : Fetch) (n : ℕ) → Frame permitted (fetch S f n)
  unfolding Accounts.fetch_profile Billing.fetch_invoice Billing.fetch_invoices
      Billing.fetch_transactions Support.fetch_ticket Support.fetch_tickets Hosting.fetch_service
      Hosting.fetch_services Domains.fetch_domain Domains.fetch_domains Orders.fetch_orders
  fetch-Permitted profile n = search (frame_rules, ask-Permitted S)
  fetch-Permitted (invoice id) n = search (frame_rules, ask-Permitted S)
  fetch-Permitted (invoices page status) n = search (frame_rules, ask-Permitted S)
  fetch-Permitted (transactions page) n = search (frame_rules, ask-Permitted S)
  fetch-Permitted (ticket id) n = search (frame_rules, ask-Permitted S)
  fetch-Permitted (tickets page status) n = search (frame_rules, ask-Permitted S)
  fetch-Permitted (service id) n = search (frame_rules, ask-Permitted S)
  fetch-Permitted (services page status) n = search (frame_rules, ask-Permitted S)
  fetch-Permitted (domain id) n = search (frame_rules, ask-Permitted S)
  fetch-Permitted (domains page) n = search (frame_rules, ask-Permitted S)
  fetch-Permitted (orders page status) n = search (frame_rules, ask-Permitted S)

module _ (S : Site) {R : Allowed World} (K : Keeps S R) where
  pub read-Frame : (f : Fetch) (n : ℕ) → Frame R (read S f n)
  read-Frame f n =
      subst (λ (m : Exec World Value). Frame R m) (sym (read-kept_read S f n)) (K.fetched f n)

  pub get_invoice-Frame : (n id : ℕ) (fresh : Bool) → Frame R (Billing.get_invoice S n id fresh)
  unfolding Billing.get_invoice
  get_invoice-Frame n id true = K.up _ (fetch-Permitted S (invoice id) n)
  get_invoice-Frame n id false = read-Frame (invoice id) n

  pub list_products-Frame : (g : ℤ) → Frame R (Catalogue.list_products S g)
  unfolding Catalogue.list_products Catalogue.fetch_products clash
  list_products-Frame g =
      K.public "catalogue:products" "catalogue" (Catalogue.fetch_products S g) (int g ∷ []) refl
        refl refl (search (frame_rules, ask-Permitted S))

  pub list_currencies-Frame : Frame R (Catalogue.list_currencies S)
  unfolding Catalogue.list_currencies Catalogue.fetch_currencies clash
  list_currencies-Frame =
      K.public "catalogue:currencies" "catalogue" (Catalogue.fetch_currencies S) (str "list" ∷ [])
        refl refl refl (search (frame_rules, ask-Permitted S))

  pub tld_pricing-Frame : (c : ℤ) → Frame R (Catalogue.tld_pricing S c)
  unfolding Catalogue.tld_pricing Catalogue.fetch_tlds clash
  tld_pricing-Frame c =
      K.public "catalogue:tlds" "catalogue" (Catalogue.fetch_tlds S c) (int c ∷ []) refl refl refl
        (search (frame_rules, ask-Permitted S))

  pub list_announcements-Frame : (k : ℕ) → Frame R (Catalogue.list_announcements S k)
  unfolding Catalogue.list_announcements Catalogue.fetch_announcements clash
  list_announcements-Frame k =
      K.public "catalogue:announcements" "catalogue" (Catalogue.fetch_announcements S k)
        (int (pos k) ∷ []) refl refl refl (search (frame_rules, ask-Permitted S))

  pub list_payment_methods-Frame : Frame R (Catalogue.list_payment_methods S)
  unfolding Catalogue.list_payment_methods Catalogue.fetch_gateways clash
  list_payment_methods-Frame =
      K.public "catalogue:gateways" "catalogue" (Catalogue.fetch_gateways S) (str "list" ∷ []) refl
        refl refl (search (frame_rules, ask-Permitted S))

  pub list_departments-Frame : Frame R (Support.list_departments S)
  unfolding Support.list_departments Support.fetch_departments clash
  list_departments-Frame =
      K.public "catalogue:departments" "catalogue" (Support.fetch_departments S) (str "list" ∷ [])
        refl refl refl (search (frame_rules, ask-Permitted S))

  pub whois-Frame : (d : String) → Frame R (Domains.whois S d)
  unfolding Domains.whois Domains.fetch_whois clash
  whois-Frame d =
      K.public "catalogue:whois" "catalogue" (Domains.fetch_whois S d) (str (S.lower d) ∷ []) refl
        refl refl (search (frame_rules, ask-Permitted S))
