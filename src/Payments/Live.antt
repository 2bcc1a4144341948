-- ===== src/Payments/Live.antt =====
-- The payments of apps/payments/services.py over the billing service of
-- apps/whmcs/services/billing.py, as `PaymentService` builds it.
pub mod Credited
pub mod Checkout
mod Tests
use whmcstemplate_bridge.Base.{Outcome, returned, raised, Exec, lift, ◌>>=◌, ◌>>◌, ℕ, true}
use whmcstemplate_bridge.Json.{Value, str_of}
use whmcstemplate_bridge.Payments.World.{Invoice, Payment}
use whmcstemplate_bridge.Payments.World as Payment_world
use whmcstemplate_bridge.Whmcs.Services.{Site, World, subscript}
use whmcstemplate_bridge.Whmcs.Services.Billing.{Receipt, get_invoice, record_payment}

-- `fees` has its default
abbrev pub receipt_of : Payment → Receipt
receipt_of p = record {
  transaction_id = p.transaction_id;
  gateway = p.gateway;
  amount = p.amount;
  fees = "0";
  paid_at = p.paid_at;
}

module _ (S : Site) where
  -- `invoice["status"]` and `invoice["balance"]`, which `get_invoice` always sets
  unfoldable pub invoice_read : Value → Outcome Invoice
  unfolding subscript str_of
  invoice_read invoice = elim (subscript "status" invoice) [
    | raised e ↦ raised e
    | returned status ↦ elim (subscript "balance" invoice) [
      | raised e ↦ raised e
      | returned balance ↦
          returned (record { status = str_of S.repr status; balance = str_of S.repr balance })
    ]
  ]

  unfoldable pub read_fresh : (whmcs_client_id invoice_id : ℕ) → Exec World Invoice
  unfolding get_invoice invoice_read
  read_fresh whmcs_client_id invoice_id = do
    invoice ← get_invoice S whmcs_client_id invoice_id true
    lift (invoice_read invoice)

  abbrev pub live_billing : Payment_world.Billing
  live_billing = record {
    State = World;
    get_invoice = read_fresh;
    record_payment = λ p. record_payment S p.whmcs_client_id p.invoice_id (receipt_of p);
  }
