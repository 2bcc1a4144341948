-- ===== src/Api/Billing.antt =====
-- The views of apps/billing/views.py, and the customer's views of apps/accounts/views.py and
-- apps/orders/views.py but for the placing of orders. `validated` is what a serializer makes of the
-- request.
use whmcstemplate_bridge.Base.{
  if◌then◌else◌, one_of, pos, Outcome, returned, raised, Exec, lift, ◌>>=◌, ℕ, String, Bool, false,
  Option, List, [], ◌∷◌,
}
use whmcstemplate_bridge.Json.{Value, str, dict, Fields, set_field}
use whmcstemplate_bridge.Whmcs.Services.{Site, World, upstream}
use whmcstemplate_bridge.Api.Scope.{Http, Framework, page, for_client}
use whmcstemplate_bridge.Api.Responses.{
  Response, paginated, as_body, as_dict, as_list, no_body, or_none, respond,
}
use whmcstemplate_bridge.Whmcs.Services.{subscript}
use whmcstemplate_bridge.Whmcs.Services.Accounts
use whmcstemplate_bridge.Whmcs.Services.Billing
use whmcstemplate_bridge.Whmcs.Services.Orders

-- `v in (…)`, for texts
abbrev pub is_in : Value → List String → Bool
is_in (str s) names = one_of s names
is_in v names = false

module _ (F : Framework) (S : Site) (q : Http) where
  -- `InvoiceListView.get`
  unfoldable pub invoice_list : (validated : Outcome (Option String)) → Exec World Response
  unfolding for_client page respond paginated Billing.list_invoices
  invoice_list validated = for_client F q (λ client. do
    status ← lift validated
    respond 200 (paginated (page F q)) (Billing.list_invoices S client (page F q) (or_none status)))

  -- payment happens on WHMCS' hosted page
  linked_invoice : (invoice_id : ℕ) → (status invoice : Value) → Outcome Value
  unfolding set_field Billing.invoice_payment_url
  linked_invoice invoice_id status (dict invoice) =
      if is_in status ("Unpaid" ∷ "Overdue" ∷ [])
      then as_dict
          (set_field "payment_url" (str (Billing.invoice_payment_url S (pos invoice_id))) invoice)
      else as_dict invoice
  linked_invoice invoice_id status invoice = as_body invoice

  pub invoice_body : (invoice_id : ℕ) → Value → Outcome Value
  unfolding subscript linked_invoice
  invoice_body invoice_id invoice = elim (subscript "status" invoice) [
    | raised e ↦ raised e
    | returned status ↦ linked_invoice invoice_id status invoice
  ]

  -- `InvoiceDetailView.get`
  unfoldable pub invoice_detail : (invoice_id : ℕ) → Exec World Response
  unfolding for_client respond invoice_body Billing.get_invoice
  invoice_detail invoice_id = for_client F q (λ client.
      respond 200 (invoice_body invoice_id) (Billing.get_invoice S client invoice_id false))

  -- `TransactionListView.get`
  unfoldable pub transaction_list : Exec World Response
  unfolding for_client page respond paginated Billing.list_transactions
  transaction_list =
      for_client F q (λ client.
        respond 200 (paginated (page F q)) (Billing.list_transactions S client (page F q)))

  -- `CreditBalanceView.get`
  unfoldable pub credit_balance : Exec World Response
  unfolding for_client respond Billing.get_credit_balance
  credit_balance =
      for_client F q (λ client. respond 200 as_dict (Billing.get_credit_balance S client))

  -- `PayMethodListView.get`
  unfoldable pub pay_method_list : Exec World Response
  unfolding for_client respond Billing.list_pay_methods
  pay_method_list =
      for_client F q (λ client. respond 200 as_list (upstream (Billing.list_pay_methods S client)))

  -- `ProfileView.get`
  unfoldable pub profile_detail : Exec World Response
  unfolding for_client respond Accounts.get_profile
  profile_detail = for_client F q (λ client. respond 200 as_body (Accounts.get_profile S client))

  -- `ProfileView.patch`
  unfoldable pub profile_update : (validated : Outcome Fields) → Exec World Response
  unfolding for_client respond Accounts.update_profile
  profile_update validated = for_client F q (λ client. do
    changes ← lift validated
    respond 200 as_body (Accounts.update_profile S client changes))

  -- `PasswordChangeView.post`; the e-mail is the user's own
  unfoldable pub password_change :
      (validated : Outcome (String × String)) → (email : String) → Exec World Response
  unfolding for_client respond Accounts.change_password
  password_change validated email = for_client F q (λ client. do
    passwords ← lift validated
    respond 204 no_body (Accounts.change_password S client email passwords.0 passwords.1))

  -- `ContactsView.get`
  unfoldable pub contact_list : Exec World Response
  unfolding for_client respond Accounts.get_contacts
  contact_list =
      for_client F q (λ client. respond 200 as_list (upstream (Accounts.get_contacts S client)))

  -- `OrderListCreateView.get`
  unfoldable pub order_list : Exec World Response
  unfolding for_client page respond paginated Orders.list_orders
  order_list = for_client F q (λ client.
      respond 200 (paginated (page F q))
        (Orders.list_orders S client (page F q) (or_none q.status)))

  -- `OrderDetailView.get`
  unfoldable pub order_detail : (order_id : ℕ) → Exec World Response
  unfolding for_client respond Orders.get_order
  order_detail order_id =
      for_client F q (λ client. respond 200 as_dict (Orders.get_order S client order_id))

  -- `OrderCancelView.post`
  unfoldable pub order_cancel : (order_id : ℕ) → Exec World Response
  unfolding for_client respond Orders.cancel_order
  order_cancel order_id =
      for_client F q (λ client. respond 200 as_dict (Orders.cancel_order S client order_id))
