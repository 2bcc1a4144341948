-- ===== src/Whmcs/Services/Frames/Requests.antt =====
-- What every request, and what any run of requests and refreshes, may change.
use whmcstemplate_bridge.Base.{Allowed, Exec, pure, Frame, Frame-pure, Frame-bind}
use whmcstemplate_bridge.Whmcs.Services.{Site, World}
use whmcstemplate_bridge.Whmcs.Services.Isolation.{
  profile, invoices, transactions, ticket, tickets, service, services, domain, domains, orders,
}
use whmcstemplate_bridge.Whmcs.Services.Isolation.Requests.{
  get_invoice, validate_login, register, find_client_id_by_email, get_contacts, list_pay_methods,
  record_payment, get_profile, list_invoices, list_transactions, list_tickets, get_ticket,
  list_services, get_service, list_domains, get_domain, list_orders, list_products, list_currencies,
  tld_pricing, list_announcements, list_payment_methods, list_departments, whois, update_profile,
  change_password, get_credit_balance, open_ticket, reply_to_ticket, close_ticket, get_attachment,
  upgrade_options, quote_upgrade, upgrade, change_service_password, request_cancellation,
  get_nameservers, update_nameservers, get_lock_status, set_lock_status, request_epp_code,
  create_order, get_order, cancel_order, Request, sent, perform, Step, request, refresh, tick,
  Reach, here, next,
}
use whmcstemplate_bridge.Whmcs.Services.Frames.{Keeps}
use whmcstemplate_bridge.Whmcs.Services.Frames.Reads.{
  read-Frame, get_invoice-Frame, list_products-Frame, list_currencies-Frame, tld_pricing-Frame,
  list_announcements-Frame, list_payment_methods-Frame, list_departments-Frame, whois-Frame,
}
use whmcstemplate_bridge.Whmcs.Services.Frames.Accounts.{
  update_profile-Frame, validate_login-Frame, change_password-Frame, get_credit_balance-Frame,
  record_payment-Frame, register-Frame, find_client_id_by_email-Frame, get_contacts-Frame,
  list_pay_methods-Frame,
}
use whmcstemplate_bridge.Whmcs.Services.Frames.Tickets.{
  open_ticket-Frame, reply_to_ticket-Frame, close_ticket-Frame, get_attachment-Frame,
}
use whmcstemplate_bridge.Whmcs.Services.Frames.Orders.{
  create_order-Frame, get_order-Frame, cancel_order-Frame,
}
use whmcstemplate_bridge.Whmcs.Services.Frames.Hosting.{
  upgrade_options-Frame, quote_upgrade-Frame, upgrade-Frame, change_service_password-Frame,
  request_cancellation-Frame, get_nameservers-Frame, update_nameservers-Frame,
  get_lock_status-Frame, set_lock_status-Frame, request_epp_code-Frame,
}

module _ (S : Site) {R : Allowed World} (K : Keeps S R) where
  sent-Frame : {A : Type 0} (m : Exec World A) → Frame R m → Frame R (sent m)
  sent-Frame m k = Frame-bind m (λ _. pure tt) k (λ _. Frame-pure tt)

  perform-Frame : (r : Request) → Frame R (perform S r)
  perform-Frame (get_invoice n id fresh) = sent-Frame _ (get_invoice-Frame S K n id fresh)
  perform-Frame (validate_login email password) =
      sent-Frame _ (K.up _ (validate_login-Frame S K email password))
  perform-Frame (register payload) = sent-Frame _ (K.up _ (register-Frame S K payload))
  perform-Frame (find_client_id_by_email email) =
      sent-Frame _ (K.up _ (find_client_id_by_email-Frame S K email))
  perform-Frame (get_contacts n) = sent-Frame _ (K.up _ (get_contacts-Frame S K n))
  perform-Frame (list_pay_methods n) = sent-Frame _ (K.up _ (list_pay_methods-Frame S K n))
  perform-Frame (record_payment n id receipt) = sent-Frame _ (record_payment-Frame S K n id receipt)
  perform-Frame (get_profile n) = sent-Frame _ (read-Frame S K profile n)
  perform-Frame (list_invoices n page status) =
      sent-Frame _ (read-Frame S K (invoices page status) n)
  perform-Frame (list_transactions n page) = sent-Frame _ (read-Frame S K (transactions page) n)
  perform-Frame (list_tickets n page status) = sent-Frame _ (read-Frame S K (tickets page status) n)
  perform-Frame (get_ticket n id) = sent-Frame _ (read-Frame S K (ticket id) n)
  perform-Frame (list_services n page status) =
      sent-Frame _ (read-Frame S K (services page status) n)
  perform-Frame (get_service n id) = sent-Frame _ (read-Frame S K (service id) n)
  perform-Frame (list_domains n page) = sent-Frame _ (read-Frame S K (domains page) n)
  perform-Frame (get_domain n id) = sent-Frame _ (read-Frame S K (domain id) n)
  perform-Frame (list_orders n page status) = sent-Frame _ (read-Frame S K (orders page status) n)
  perform-Frame (list_products g) = sent-Frame _ (list_products-Frame S K g)
  perform-Frame list_currencies = sent-Frame _ (list_currencies-Frame S K)
  perform-Frame (tld_pricing c) = sent-Frame _ (tld_pricing-Frame S K c)
  perform-Frame (list_announcements k) = sent-Frame _ (list_announcements-Frame S K k)
  perform-Frame list_payment_methods = sent-Frame _ (list_payment_methods-Frame S K)
  perform-Frame list_departments = sent-Frame _ (list_departments-Frame S K)
  perform-Frame (whois d) = sent-Frame _ (whois-Frame S K d)
  perform-Frame (update_profile n changes) = sent-Frame _ (update_profile-Frame S K n changes)
  perform-Frame (change_password n email old new) =
      sent-Frame _ (change_password-Frame S K n email old new)
  perform-Frame (get_credit_balance n) = sent-Frame _ (get_credit_balance-Frame S K n)
  perform-Frame (open_ticket n form) = sent-Frame _ (open_ticket-Frame S K n form)
  perform-Frame (reply_to_ticket n id message ip files) =
      sent-Frame _ (reply_to_ticket-Frame S K n id message ip files)
  perform-Frame (close_ticket n id) = sent-Frame _ (close_ticket-Frame S K n id)
  perform-Frame (get_attachment n id kind related index) =
      sent-Frame _ (get_attachment-Frame S K n id kind related index)
  perform-Frame (upgrade_options n id) = sent-Frame _ (upgrade_options-Frame S K n id)
  perform-Frame (quote_upgrade n id c) = sent-Frame _ (quote_upgrade-Frame S K n id c)
  perform-Frame (upgrade n id c method) = sent-Frame _ (upgrade-Frame S K n id c method)
  perform-Frame (change_service_password n id password) =
      sent-Frame _ (change_service_password-Frame S K n id password)
  perform-Frame (request_cancellation n id reason immediate) =
      sent-Frame _ (request_cancellation-Frame S K n id reason immediate)
  perform-Frame (get_nameservers n id) = sent-Frame _ (get_nameservers-Frame S K n id)
  perform-Frame (update_nameservers n id servers) =
      sent-Frame _ (update_nameservers-Frame S K n id servers)
  perform-Frame (get_lock_status n id) = sent-Frame _ (get_lock_status-Frame S K n id)
  perform-Frame (set_lock_status n id locked) = sent-Frame _ (set_lock_status-Frame S K n id locked)
  perform-Frame (request_epp_code n id) = sent-Frame _ (request_epp_code-Frame S K n id)
  perform-Frame (create_order b) = sent-Frame _ (create_order-Frame S K b)
  perform-Frame (get_order n id) = sent-Frame _ (get_order-Frame S K n id)
  perform-Frame (cancel_order n id) = sent-Frame _ (cancel_order-Frame S K n id)

  Step-May : {u v : World} → Step S u v → R.May u v
  Step-May (request r w) = (perform-Frame r).at w
  Step-May (refresh f n resource key ttl w is) = (K.refreshes f n resource key ttl is).at w
  Step-May (tick now w) = K.ticks now w

  pub Reach-May : {u v : World} → Reach S u v → R.May u v
  Reach-May here = R.stay _
  Reach-May (next {u} {v} r step) = R.then_may _ u v (Reach-May r) (Step-May step)
