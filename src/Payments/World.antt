-- ===== src/Payments/World.antt =====
-- What the payment code runs in: the table, the gateway at the other end of HTTP, the billing
-- service, the clock and the settings. All but the table are parameters.
use whmcstemplate_bridge.Base.{ℕ, Option, List, String, Exec}
use whmcstemplate_bridge.Json.{Value, Fields}
use whmcstemplate_bridge.Payments.Models.{PaymentAttempt}

-- a POST to Zibal, by its path and its JSON body
pub record GatewayCall : Type 0 where
  pub path : String
  pub body : Fields

-- What httpx makes of it: an `httpx.HTTPError` or a `ValueError` with its text, or a JSON value.
pub data Reply : Type 0 where
  http_failed : (exc : String) → Reply
  json : Value → Reply

-- `datetime.fromisoformat`: wall-clock time without an offset, or a moment
pub data IsoTime : Type 0 where
  naive : ℕ → IsoTime
  aware : ℕ → IsoTime

pub record Invoice : Type 0 where
  pub status : String
  pub balance : String

pub record Payment : Type 0 where
  pub whmcs_client_id : ℕ
  pub invoice_id : ℕ
  pub transaction_id : String
  pub gateway : String
  pub amount : String
  pub paid_at : String

-- What the payment service uses of `BillingService`: an invoice read with `fresh=True`, and
-- `record_payment`.
pub record Billing : Type 1 where
  pub State : Type 0
  pub get_invoice : (whmcs_client_id invoice_id : ℕ) → Exec State Invoice
  pub record_payment : Payment → Exec State (Unit {0})

pub record World (B : Billing) : Type 0 where
  pub attempts : List PaymentAttempt
  -- the POSTs to the gateway, the last one first
  pub calls : List GatewayCall
  pub billing : B.State
  pub clock : ℕ

-- Settings and runtime. `zibal` answers a POST by all POSTs so far, this one at the head; the clock
-- has advanced by `elapsed` whenever it is read.
pub record Env : Type 0 where
  pub merchant : String
  pub verify_retries : ℕ
  pub callback_base_url : String
  pub result_url : String
  pub amount_multiplier : String
  -- `reverse("v1:payments:zibal-callback")`
  pub callback_path : String
  pub zibal : List GatewayCall → Reply
  pub elapsed : ℕ → ℕ
  pub uuid4 : List PaymentAttempt → String
  pub repr : Value → String
  pub fromisoformat : String → Option IsoTime
  pub make_aware : ℕ → ℕ
  pub strftime : ℕ → String
