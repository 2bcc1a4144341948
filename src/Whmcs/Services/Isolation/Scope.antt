-- ===== src/Whmcs/Services/Isolation/Scope.antt =====
-- What a fetch for a customer is about: the call names the customer, or the record's owner is the
-- customer.
use whmcstemplate_bridge.Base.{
  pos, Outcome, returned, raised, lift, continue, ◌>>=◌, ℕ, String, ◌≡◌, refl, sym, ap, subst, ◌⊎◌,
  inl, inr, false, some, List, ◌∷◌,
}
use whmcstemplate_bridge.Json.{
  Value, null, bool, int, str, list, dict, Fields, end, field, get, get_or, or_value,
}
use whmcstemplate_bridge.Core.Pagination.{limit_start, limit_num}
use whmcstemplate_bridge.Orders.Withdrawal
use whmcstemplate_bridge.Whmcs.Dates.{dates}
use whmcstemplate_bridge.Whmcs.Normalizers.{collection, to_int}
use whmcstemplate_bridge.Whmcs.Services.{Call, Site, with_page, pair, ask, page_of}
use whmcstemplate_bridge.Whmcs.Services.Accounts
use whmcstemplate_bridge.Whmcs.Services.Billing
use whmcstemplate_bridge.Whmcs.Services.Support
use whmcstemplate_bridge.Whmcs.Services.Tickets
use whmcstemplate_bridge.Whmcs.Services.Hosting
use whmcstemplate_bridge.Whmcs.Services.Domains
use whmcstemplate_bridge.Whmcs.Services.Orders
use whmcstemplate_bridge.Whmcs.Services.Isolation.{
  Fetch, profile, invoice, invoices, transactions, ticket, tickets, service, services, domain,
  domains, orders, fetch,
}
use whmcstemplate_bridge.Whmcs.Services.Isolation.About.{
  owned-about, invoices-about, tickets-about, services-about, orders-about,
}

module _ (S : Site) where
  -- The call and its reply are about the customer.
  abbrev pub IsAbout : (whmcs_client_id : ℕ) → (params reply : Fields) → Type 0
  IsAbout n params reply =
      (get "clientid" params ≡ some (int (pos n)))
      ⊎ (get "userid" params ≡ some (int (pos n)))
      ⊎ (to_int S.repr (get_or "userid" null reply) (pos 0) ≡ pos n)

  -- A value made of the one reply to the one call of a fetch, which are about the customer.
  pub record IsScoped (whmcs_client_id : ℕ) (f : Fetch) (calls : List Call) (v : Value)
      : Type 0 where
    pub call : Call
    pub reply : Fields
    pub answered : S.answer (call ∷ calls) ≡ returned reply
    pub ran : fetch S f whmcs_client_id calls ≡ (returned v, call ∷ calls)
    pub about : IsAbout whmcs_client_id call.params reply

  -- a call, and code behind it that calls no more
  record IsAsked (action : String) (params : Fields) (k : Fields → Outcome Value)
      (calls : List Call) (v : Value) : Type 0 where
    reply : Fields
    answered : S.answer (record { action = action; params = params } ∷ calls) ≡ returned reply
    ran :
        (ask S action params >>= λ reply. lift (k reply)) calls
        ≡ (returned v, record { action = action; params = params } ∷ calls)
    made : k reply ≡ returned v

  asked :
      (action : String) (params : Fields) (k : Fields → Outcome Value) (calls : List Call)
      (v : Value)
      → ((ask S action params >>= λ reply. lift (k reply)) calls).0 ≡ returned v
      → IsAsked action params k calls v
  unfolding ask
  asked action params k calls v h =
      go (S.answer (record { action = action; params = params } ∷ calls)) refl h
    where
      go :
          (o : Outcome Fields)
          → S.answer (record { action = action; params = params } ∷ calls) ≡ o
          → (continue
              (λ (reply : Fields). lift {W = List Call} (k reply))
              o
              (record { action = action; params = params } ∷ calls)).0
            ≡ returned v
          → IsAsked action params k calls v
      go (returned reply) e h' = record {
        reply = reply;
        answered = e;
        ran = rw e (
            ap (λ (x : Outcome Value). (x, record { action = action; params = params } ∷ calls))
              h');
        made = h';
      }
      go (raised x) e h' = absurd (cc h')

  orders_value : Fields → Value
  orders_value reply =
      let (found, total) = Withdrawal.listed_orders (Orders.setup S) (dates S.repr) reply in
      pair (list (Orders.dicts found)) (int total)

  scoped :
      (n : ℕ) (f : Fetch) (action : String) (params : Fields) (k : Fields → Outcome Value)
      (calls : List Call) (v : Value)
      → fetch S f n ≡ (ask S action params >>= λ reply. lift (k reply))
      → ((reply : Fields) → k reply ≡ returned v → IsAbout n params reply)
      → (fetch S f n calls).0 ≡ returned v
      → IsScoped n f calls v
  scoped n f action params k calls v is about h =
      let a = asked action params k calls v (subst (λ m. (m calls).0 ≡ returned v) is h) in
      record {
        call = record { action = action; params = params };
        reply = a.reply;
        answered = a.answered;
        ran =
            subst (λ m. m calls ≡ (returned v, record { action = action; params = params } ∷ calls))
              (sym is) a.ran;
        about = about a.reply a.made;
      }

  -- A fetch for a customer that returns a value makes one call: the call names the customer, by
  -- clientid or userid, or the owner that WHMCS gives in the reply is the customer.
  pub fetch-IsScoped :
      (f : Fetch) (n : ℕ) (calls : List Call) (v : Value)
      → (fetch S f n calls).0 ≡ returned v
      → IsScoped n f calls v
  unfolding orders_value Accounts.fetch_profile Billing.fetch_invoice Billing.fetch_invoices
      Billing.fetch_transactions Support.fetch_ticket Support.fetch_tickets Hosting.fetch_service
      Hosting.fetch_services Domains.fetch_domain Domains.fetch_domains Orders.fetch_orders get
      limit_start limit_num
  fetch-IsScoped profile n calls v h =
      scoped n profile "GetClientsDetails"
        (field "clientid" (int (pos n)) (field "stats" (bool false) end))
        (λ reply. Accounts.profile_of S (or_value (get_or "client" null reply) (dict reply))) calls
        v refl (λ reply made. inl refl) h
  fetch-IsScoped (invoice id) n calls v h =
      scoped n (invoice id) "GetInvoice" (field "invoiceid" (int (pos id)) end)
        (λ reply. Billing.owned_invoice S n reply) calls v refl
        (λ reply made. inr (inr (owned-about S n reply _ v made))) h
  fetch-IsScoped (invoices page status) n calls v h =
      scoped n (invoices page status) "GetInvoices" (Billing.invoices_params S n page status)
        (λ reply.
          returned
            (page_of S (Billing.invoice_list_map S) reply (collection reply "invoices" "invoice")))
        calls v refl (λ reply made. inr (inl (invoices-about S n page status))) h
  fetch-IsScoped (transactions page) n calls v h =
      scoped n (transactions page) "GetTransactions"
        (with_page page (field "clientid" (int (pos n)) end))
        (λ reply. returned (
          page_of S (Billing.transaction_map S) reply
            (collection reply "transactions" "transaction")))
        calls v refl (λ reply made. inl refl) h
  fetch-IsScoped (ticket id) n calls v h =
      scoped n (ticket id) "GetTicket"
        (field "ticketid" (int (pos id)) (field "repliessort" (str "ASC") end))
        (λ reply. Support.owned_ticket S n reply) calls v refl
        (λ reply made. inr (inr (owned-about S n reply _ v made))) h
  fetch-IsScoped (tickets page status) n calls v h =
      scoped n (tickets page status) "GetTickets" (Support.tickets_params S n page status)
        (λ reply.
          returned (page_of S (Tickets.ticket_map S) reply (collection reply "tickets" "ticket")))
        calls v refl (λ reply made. inl (tickets-about S n page status)) h
  fetch-IsScoped (service id) n calls v h =
      scoped n (service id) "GetClientsProducts"
        (field "clientid" (int (pos n)) (field "serviceid" (int (pos id)) end))
        (λ reply. Hosting.first_service S n (collection reply "products" "product")) calls v refl
        (λ reply made. inl refl) h
  fetch-IsScoped (services page status) n calls v h =
      scoped n (services page status) "GetClientsProducts" (Hosting.services_params S n page status)
        (λ reply.
          returned
            (page_of S (Hosting.service_map S) reply (collection reply "products" "product")))
        calls v refl (λ reply made. inl (services-about S n page status)) h
  fetch-IsScoped (domain id) n calls v h =
      scoped n (domain id) "GetClientsDomains"
        (field "clientid" (int (pos n)) (field "domainid" (int (pos id)) end))
        (λ reply. Domains.first_domain S (collection reply "domains" "domain")) calls v refl
        (λ reply made. inl refl) h
  fetch-IsScoped (domains page) n calls v h =
      scoped n (domains page) "GetClientsDomains"
        (with_page page (field "clientid" (int (pos n)) end))
        (λ reply.
          returned (page_of S (Domains.domain_map S) reply (collection reply "domains" "domain")))
        calls v refl (λ reply made. inl refl) h
  fetch-IsScoped (orders page status) n calls v h =
      scoped n (orders page status) "GetOrders" (Withdrawal.list_params n page (some status))
        (λ reply. returned (orders_value reply)) calls v refl
        (λ reply made. inr (inl (orders-about S n page status))) h
