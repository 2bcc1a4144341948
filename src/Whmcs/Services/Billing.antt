-- ===== src/Whmcs/Services/Billing.antt =====
-- apps/whmcs/services/billing.py, without its log lines.
pub mod Posted
use whmcstemplate_bridge.Base.{
  if◌then◌else◌, f_string, or_text, one_of, show_int, ℤ, pos, Outcome, returned, raised, Exec, pure,
  lift, ◌>>=◌, ◌>>◌, ℕ, String, Bool, List, [], ◌∷◌,
}
use whmcstemplate_bridge.Json.{
  Value, null, int, str, list, dict, Items, Fields, end, field, get_or, set_field, truthy, or_value,
}
use whmcstemplate_bridge.Core.Cache.{invalidate, time, client_namespace}
use whmcstemplate_bridge.Core.Pagination.{PageRequest}
use whmcstemplate_bridge.Whmcs.Config.{netloc}
use whmcstemplate_bridge.Whmcs.Dates.{dates}
use whmcstemplate_bridge.Whmcs.Normalizers.{
  collection, to_int, text, as_int, as_text, Column, column, pick, assert_owned,
}
use whmcstemplate_bridge.Whmcs.Money.{as_money, to_money}
use whmcstemplate_bridge.Whmcs.Services.{
  Call, Site, World, upstream, with_page, get_of, pick_each, ask, page_of, cached_for,
  invalidate_for,
}
use whmcstemplate_bridge.Whmcs.Services.Accounts.{get_profile}

abbrev pub invoice_statuses : List String
invoice_statuses =
    "Draft" ∷ "Unpaid" ∷ "Paid" ∷ "Overdue" ∷ "Cancelled" ∷ "Refunded" ∷ "Collections" ∷ []

-- the keyword arguments of `record_payment`
pub record Receipt : Type 0 where
  pub transaction_id : String
  pub gateway : String
  pub amount : String
  pub fees : String
  pub paid_at : String

module _ (S : Site) where
  pub invoice_list_map : List Column
  unfolding to_int text
  invoice_list_map =
      column "id" "id" (as_int S.repr)
      ∷ column "number" "invoicenum" (as_text S.repr)
      ∷ column "status" "status" (as_text S.repr)
      ∷ column "date" "date" (dates S.repr).iso_date
      ∷ column "due_date" "duedate" (dates S.repr).iso_date
      ∷ column "date_paid" "datepaid" (dates S.repr).iso_date
      ∷ column "subtotal" "subtotal" (as_money S.repr)
      ∷ column "tax" "tax" (as_money S.repr)
      ∷ column "credit" "credit" (as_money S.repr)
      ∷ column "total" "total" (as_money S.repr)
      ∷ column "currency_code" "currencycode" (as_text S.repr)
      ∷ column "payment_method" "paymentmethod" (as_text S.repr)
      ∷ []

  pub transaction_map : List Column
  unfolding to_int text
  transaction_map =
      column "id" "id" (as_int S.repr)
      ∷ column "invoice_id" "invoiceid" (as_int S.repr)
      ∷ column "date" "date" (dates S.repr).iso_date
      ∷ column "gateway" "gateway" (as_text S.repr)
      ∷ column "description" "description" (as_text S.repr)
      ∷ column "amount_in" "amountin" (as_money S.repr)
      ∷ column "amount_out" "amountout" (as_money S.repr)
      ∷ column "fees" "fees" (as_money S.repr)
      ∷ column "currency" "currency" (as_text S.repr)
      ∷ column "transaction_id" "transid" (as_text S.repr)
      ∷ []

  item_map : List Column
  unfolding to_int text
  item_map =
      column "id" "id" (as_int S.repr)
      ∷ column "type" "type" (as_text S.repr)
      ∷ column "relation_id" "relid" (as_int S.repr)
      ∷ column "description" "description" (as_text S.repr)
      ∷ column "amount" "amount" (as_money S.repr)
      ∷ column "taxed" "taxed" (as_int S.repr)
      ∷ []

  unfoldable pub invoices_params : (whmcs_client_id : ℕ) → PageRequest → (status : String) → Fields
  unfolding set_field
  invoices_params whmcs_client_id page status =
      let params = with_page page (
        field "userid" (int (pos whmcs_client_id))
          (field "orderby" (str "id") (field "order" (str "desc") end))) in
      if one_of status invoice_statuses then set_field "status" (str status) params else params

  unfoldable pub fetch_invoices :
      (whmcs_client_id : ℕ) → PageRequest → (status : String) → Exec (List Call) Value
  unfolding ask invoices_params page_of invoice_list_map collection
  fetch_invoices whmcs_client_id page status = do
    reply ← ask S "GetInvoices" (invoices_params whmcs_client_id page status)
    pure (page_of S invoice_list_map reply (collection reply "invoices" "invoice"))

  -- The empty status stands for none.
  unfoldable pub list_invoices :
      (whmcs_client_id : ℕ) → PageRequest → (status : String) → Exec World Value
  unfolding cached_for fetch_invoices
  list_invoices whmcs_client_id page status =
      cached_for S whmcs_client_id "invoices" "invoices"
        (fetch_invoices whmcs_client_id page status)
        (str "list"
          ∷ int (pos page.page)
          ∷ int (pos page.page_size)
          ∷ str (or_text status "all")
          ∷ [])

  -- what `_fetch_invoice` makes of the reply
  unfoldable pub invoice_of : Fields → Fields
  unfolding pick set_field get_or truthy to_money pick_each collection text invoice_list_map
      item_map transaction_map
  invoice_of reply =
      let invoice = pick reply invoice_list_map in
      set_field "notes" (as_text S.repr (get_or "notes" null reply)) (
        set_field "transactions"
          (list (pick_each transaction_map (collection reply "transactions" "transaction")))
          (set_field "items" (list (pick_each item_map (collection reply "items" "item"))) (
            set_field "balance"
              (as_money S.repr
                (or_value (get_or "balance" null reply) (get_or "total" null invoice)))
              invoice)))

  -- the invoice, once it is the caller's
  unfoldable pub owned_invoice : (whmcs_client_id : ℕ) → (reply : Fields) → Outcome Value
  unfolding assert_owned invoice_of get_or
  owned_invoice whmcs_client_id reply =
      elim (assert_owned S.repr (get_or "userid" null reply) whmcs_client_id) [
        | returned _ ↦ returned (dict (invoice_of reply))
        | raised e ↦ raised e
      ]

  unfoldable pub fetch_invoice : (whmcs_client_id invoice_id : ℕ) → Exec (List Call) Value
  unfolding ask owned_invoice
  fetch_invoice whmcs_client_id invoice_id = do
    reply ← ask S "GetInvoice" (field "invoiceid" (int (pos invoice_id)) end)
    lift (owned_invoice whmcs_client_id reply)

  unfoldable pub get_invoice : (whmcs_client_id invoice_id : ℕ) → (fresh : Bool) → Exec World Value
  unfolding fetch_invoice cached_for
  get_invoice whmcs_client_id invoice_id fresh =
      if fresh
      then upstream (fetch_invoice whmcs_client_id invoice_id)
      else cached_for S whmcs_client_id "invoices" "invoices"
          (fetch_invoice whmcs_client_id invoice_id) (str "detail" ∷ int (pos invoice_id) ∷ [])

  pub payment_params : (invoice_id : ℕ) → Receipt → (date : String) → Fields
  payment_params invoice_id receipt date = field "invoiceid" (int (pos invoice_id)) (
      field "transid" (str receipt.transaction_id) (
        field "gateway" (str receipt.gateway) (
          field "amount" (str receipt.amount)
            (field "fees" (str receipt.fees) (field "date" (str date) end)))))

  -- `paid_at or timezone.now().strftime(…)`; the empty text stands for none
  unfoldable pub paid_date : (paid_at : String) → Exec World String
  unfolding time
  paid_date String.[] = do now ← time S.runtime; pure (S.strftime now)
  paid_date paid_at = pure paid_at

  -- Mark an invoice as paid.
  unfoldable pub record_payment : (whmcs_client_id invoice_id : ℕ) → Receipt → Exec World (Unit {0})
  unfolding paid_date payment_params ask invalidate_for invalidate client_namespace
  record_payment whmcs_client_id invoice_id receipt = do
    date ← paid_date receipt.paid_at
    upstream (ask S "AddInvoicePayment" (payment_params invoice_id receipt date))
    invalidate_for whmcs_client_id ("invoices" ∷ "transactions" ∷ [])
    invalidate (client_namespace whmcs_client_id "services")
    invalidate (client_namespace whmcs_client_id "orders")

  unfoldable pub invoice_payment_url : (invoice_id : ℤ) → String
  unfolding netloc f_string show_int
  invoice_payment_url invoice_id = f_string (
      S.config.scheme
      ∷ "://"
      ∷ netloc S.config
      ∷ S.config.base_path
      ∷ "/viewinvoice.php?id="
      ∷ show_int invoice_id
      ∷ [])

  unfoldable pub fetch_transactions : (whmcs_client_id : ℕ) → PageRequest → Exec (List Call) Value
  unfolding ask page_of transaction_map collection
  fetch_transactions whmcs_client_id page = do
    reply ←
        ask S "GetTransactions" (with_page page (field "clientid" (int (pos whmcs_client_id)) end))
    pure (page_of S transaction_map reply (collection reply "transactions" "transaction"))

  unfoldable pub list_transactions : (whmcs_client_id : ℕ) → PageRequest → Exec World Value
  unfolding cached_for fetch_transactions
  list_transactions whmcs_client_id page =
      cached_for S whmcs_client_id "transactions" "invoices"
        (fetch_transactions whmcs_client_id page)
        (str "list" ∷ int (pos page.page) ∷ int (pos page.page_size) ∷ [])

  credit_map : List Column
  unfolding to_int text
  credit_map =
      column "id" "id" (as_int S.repr)
      ∷ column "date" "date" (dates S.repr).iso_date
      ∷ column "description" "description" (as_text S.repr)
      ∷ column "amount" "amount" (as_money S.repr)
      ∷ []

  unfoldable pub get_credit_balance : (whmcs_client_id : ℕ) → Exec World Fields
  unfolding get_profile ask get_of text to_money pick_each credit_map collection
  get_credit_balance whmcs_client_id = do
    profile ← get_profile S whmcs_client_id
    log ← upstream (
        ask S "GetCredits"
          (field "clientid" (int (pos whmcs_client_id)) (field "limitnum" (int (pos 10)) end)))
    credit ← lift (get_of "credit" profile)
    currency ← lift (get_of "currency_code" profile)
    pure (
        field "balance" (as_money S.repr credit) (
          field "currency_code" (as_text S.repr currency) (
            field "entries" (list (pick_each credit_map (collection log "credits" "credit"))) end)))

  pay_method_map : List Column
  unfolding to_int text
  pay_method_map =
      column "id" "id" (as_int S.repr)
      ∷ column "type" "payment_method_type" (as_text S.repr)
      ∷ column "description" "description" (as_text S.repr)
      ∷ column "is_default" "is_default" (as_int S.repr)
      ∷ []

  unfoldable pub list_pay_methods : (whmcs_client_id : ℕ) → Exec (List Call) Items
  unfolding ask pick_each pay_method_map collection
  list_pay_methods whmcs_client_id = do
    reply ← ask S "GetPayMethods" (field "clientid" (int (pos whmcs_client_id)) end)
    pure (pick_each pay_method_map (collection reply "paymethods" "paymethod"))
