-- ===== src/Payments/Start.antt =====
-- `PaymentService.start` of apps/payments/services.py.
pub mod Rows
pub mod Charged
pub mod Priced
use whmcstemplate_bridge.Base.{
  nat_eq, if◌then◌else◌, f_string, prefix, is_text, one_of, rstrip, show, ℤ, pos, leb_ℤ,
  application_error, Exn, application, zibal, runtime, Outcome, returned, raised, Exec, pure, raise,
  lift, catch, ◌>>=◌, ◌>>◌, ℕ, String, Bool, not, Option, none, some, [], ◌∷◌,
}
use whmcstemplate_bridge.Payments.Models.{
  pending, redirected, failed, PaymentAttempt, has_track, has_id,
}
use whmcstemplate_bridge.Payments.World.{Invoice, Billing, World, Env}
use whmcstemplate_bridge.Payments.Zibal.{gateway, request_payment, start_url}
use whmcstemplate_bridge.Payments.Amount.{to_rial}
use whmcstemplate_bridge.Payments.Table.{on_billing, rows, write, unless_taken, now, save_fields}

-- what the service reads of the authenticated user
pub record User : Type 0 where
  pub pk : ℕ
  pub whmcs_client_id : Option ℕ

pub record StartResult : Type 0 where
  pub payment_id : String
  pub redirect_url : String
  pub amount_rial : ℤ
  pub invoice_id : ℕ

-- `int(user.whmcs_client_id)`
abbrev pub client_of : User → Outcome ℕ
client_of user = elim user.whmcs_client_id [
  | none ↦ raised (runtime "TypeError")
  | some n ↦ returned n
]

-- `status in PAYABLE_STATUSES`
abbrev pub is_payable : String → Bool
is_payable status = one_of status ("Unpaid" ∷ "Overdue" ∷ [])

abbrev pub text_or_none : String → Option String
text_or_none s = if is_text s then some s else none

-- the row that `objects.create` inserts
abbrev new_attempt : String → User → ℕ → ℕ → ℤ → Invoice → String → ℕ → ℕ → PaymentAttempt
new_attempt id user whmcs_client_id invoice_id amount_rial invoice client_ip created updated =
    record {
      id = id;
      user = user.pk;
      whmcs_client_id = whmcs_client_id;
      invoice_id = invoice_id;
      gateway = "zibal";
      amount_rial = amount_rial;
      amount_whmcs = invoice.balance;
      status = pending;
      track_id = none;
      ref_number = "";
      card_mask = "";
      gateway_result = none;
      gateway_message = "";
      paid_at = none;
      recorded_at = none;
      client_ip = text_or_none client_ip;
      created_at = created;
      updated_at = updated;
    }

abbrev request_failed : String → Option ℤ → PaymentAttempt → PaymentAttempt
request_failed message result a = record a {
  status = failed;
  gateway_result = result;
  gateway_message = prefix 255 message;
}

abbrev gateway_unavailable : Exn
gateway_unavailable =
    application application_error "gateway_unavailable"
      "The payment gateway is not accepting payments right now." []

module _ (E : Env) {B : Billing} where
  unfoldable pub callback_url : Exec (World B) String
  callback_url =
      let base = rstrip (λ c. nat_eq c b'/') E.callback_base_url in
      if not (is_text base)
      then raise (
          application application_error "misconfigured"
            "PAYMENT_CALLBACK_BASE_URL is not configured." [])
      else pure (f_string (base ∷ E.callback_path ∷ []))

  create : User → ℕ → ℕ → ℤ → Invoice → String → Exec (World B) PaymentAttempt
  unfolding now rows write unless_taken
  create user whmcs_client_id invoice_id amount_rial invoice client_ip = do
    table ← rows
    let id = E.uuid4 table
    created ← now E
    updated ← now E
    let attempt =
        new_attempt id user whmcs_client_id invoice_id amount_rial invoice client_ip created updated
    unless_taken (has_id id)
    write (λ table. attempt ∷ table)
    pure attempt

  -- the `except ZibalError` of `start`
  request_error : PaymentAttempt → Exn → Exec (World B) String
  unfolding save_fields
  request_error attempt (zibal message result) = do
    save_fields E (request_failed message result) attempt
    raise gateway_unavailable
  request_error attempt other = raise other

  open_session : PaymentAttempt → ℕ → ℤ → String → Exec (World B) String
  unfolding callback_url request_payment
  open_session attempt invoice_id amount_rial mobile = do
    url ← callback_url
    request_payment E amount_rial url attempt.id (f_string ("Invoice #" ∷ show invoice_id ∷ []))
        mobile

  -- the row goes to the gateway: its trackId is saved, unless another row has it
  redirect_to : String → PaymentAttempt → Exec (World B) PaymentAttempt
  unfolding unless_taken save_fields
  redirect_to track_id attempt = do
    unless_taken (has_track track_id)
    save_fields E (λ a. record a { track_id = some track_id; status = redirected }) attempt

  -- the gateway session of a row that has just been created, and the answer to the customer
  enroll : ℕ → ℤ → String → PaymentAttempt → Exec (World B) StartResult
  unfolding open_session request_error redirect_to
  enroll invoice_id amount_rial mobile attempt = do
    track_id ← catch (open_session attempt invoice_id amount_rial mobile) (request_error attempt)
    redirect_to track_id attempt
    pure (record {
      payment_id = attempt.id;
      redirect_url = start_url track_id;
      amount_rial = amount_rial;
      invoice_id = invoice_id;
    })

  -- from the insertion of the row on
  pub charge : User → ℕ → ℕ → ℤ → Invoice → String → String → Exec (World B) StartResult
  unfolding create enroll
  charge user whmcs_client_id invoice_id amount_rial invoice client_ip mobile = do
    attempt ← create user whmcs_client_id invoice_id amount_rial invoice client_ip
    enroll invoice_id amount_rial mobile attempt

  -- from the invoice on: what is due is charged
  collect : User → ℕ → ℕ → String → String → Invoice → Exec (World B) StartResult
  unfolding gateway charge
  collect user whmcs_client_id invoice_id client_ip mobile invoice =
      if not (is_payable invoice.status)
      then raise (
          application application_error "invoice_not_payable" "This invoice is not payable."
            (("status", invoice.status) ∷ []))
      else do
        amount_rial ← lift (to_rial E.amount_multiplier invoice.balance)
        if leb_ℤ amount_rial (pos 0)
            then raise (
                application application_error "nothing_due" "This invoice has nothing left to pay."
                  [])
            else do
              gateway E
              charge user whmcs_client_id invoice_id amount_rial invoice client_ip mobile

  unfoldable pub start : User → ℕ → String → String → Exec (World B) StartResult
  unfolding on_billing collect
  start user invoice_id client_ip mobile = do
    whmcs_client_id ← lift (client_of user)
    invoice ← on_billing (B.get_invoice whmcs_client_id invoice_id)
    collect user whmcs_client_id invoice_id client_ip mobile invoice
