-- ===== src/Payments/Views.antt =====
-- apps/payments/views.py: the gateway's callback and the customer's own views of a payment.
pub mod Redirects
use whmcstemplate_bridge.Base.{
  nat_eq, if◌then◌else◌, length, take, drop, prefix, is_text, ℤ, resource_not_found, Exn,
  application, returned, Exec, pure, raise, lift, Outcome, catch, ◌>>=◌, ◌>>◌, ℕ, String, Bool, not,
  ◌&&◌, Option, none, some, List, [], ◌∷◌,
}
use whmcstemplate_bridge.Core.Pagination.{
  PageRequest, limit_start, limit_num, Page, paginated_response,
}
use whmcstemplate_bridge.Payments.Models.{PaymentStatus, PaymentAttempt, has_track, has_id, find}
use whmcstemplate_bridge.Payments.World.{Billing, World, Env}
use whmcstemplate_bridge.Payments.Table.{found, rows, one}
use whmcstemplate_bridge.Payments.Start.{User, StartResult, start}
use whmcstemplate_bridge.Api.Scope.{Account, Http, Framework, has_permission}
use whmcstemplate_bridge.Payments.Settle.{settle}
use whmcstemplate_bridge.Payments.Urls.{result_url, outcome_by_status}

-- `PaymentAttemptSerializer.data`: the fields of the row that the storefront sees
pub record Serialized : Type 0 where
  pub id : String
  pub invoice_id : ℕ
  pub gateway : String
  pub amount_rial : ℤ
  pub amount_whmcs : String
  pub status : PaymentStatus
  pub ref_number : String
  pub card_mask : String
  pub paid_at : Option ℕ
  pub created_at : ℕ

abbrev pub serialize : PaymentAttempt → Serialized
serialize a = record {
  id = a.id;
  invoice_id = a.invoice_id;
  gateway = a.gateway;
  amount_rial = a.amount_rial;
  amount_whmcs = a.amount_whmcs;
  status = a.status;
  ref_number = a.ref_number;
  card_mask = a.card_mask;
  paid_at = a.paid_at;
  created_at = a.created_at;
}

-- `.filter(whmcs_client_id=…)`
abbrev pub owned_by : ℕ → PaymentAttempt → Bool
owned_by client a = nat_eq a.whmcs_client_id client

unfoldable pub filter_rows : (PaymentAttempt → Bool) → List PaymentAttempt → List PaymentAttempt
filter_rows test [] = []
filter_rows test (a ∷ rows) = let rest = filter_rows test rows in if test a then a ∷ rest else rest

abbrev pub serialize_all : List PaymentAttempt → List Serialized
serialize_all [] = []
serialize_all (a ∷ rows) = serialize a ∷ serialize_all rows

-- `request.user`, where `pk` is its key
abbrev pub user_of : (pk : ℕ) → Option Account → User
user_of pk none = record { pk = pk; whmcs_client_id = none }
user_of pk (some account) = record { pk = pk; whmcs_client_id = account.whmcs_client_id }

abbrev payment_missing : Exn
payment_missing = application resource_not_found "not_found" "Payment not found." []

redirect_after : Env → PaymentAttempt → String
redirect_after E attempt = result_url E (some attempt) (outcome_by_status attempt.status)

module _ (E : Env) {B : Billing} where
  -- `InvoicePaymentStartView.post`, behind its permission; `validated` is the serializer's phone number
  unfoldable pub start_view :
      Framework
      → Http
      → (pk : ℕ) → (validated : Outcome String) → (invoice_id : ℕ) → Exec (World B) StartResult
  unfolding has_permission start
  start_view F q pk validated invoice_id =
      if not (has_permission q.user)
      then raise F.denied
      else do mobile ← lift validated; start E (user_of pk q.user) invoice_id q.client_ip mobile

  -- `except Exception:` the row is read again, without a verdict
  redirect_pending : String → Exec (World B) String
  redirect_pending track_id w =
      (returned (result_url E (find (has_track track_id) w.attempts) "pending"), w)

  -- `ZibalCallbackView.get`: the URL of the redirect
  pub callback : (track_param : String) → Exec (World B) String
  unfolding settle redirect_after redirect_pending
  callback track_param =
      let track_id = prefix 64 track_param in
      if not (is_text track_id)
      then pure (result_url E none "invalid")
      else catch (do attempt ← settle E track_id; pure (redirect_after E attempt))
          (λ _. redirect_pending track_id)

module _ {B : Billing} where
  -- `PaymentStatusView.get`
  unfoldable pub payment_status :
      (whmcs_client_id : ℕ) → (payment_id : String) → Exec (World B) Serialized
  unfolding one
  payment_status whmcs_client_id payment_id = do
    attempt ← one payment_missing (λ a. has_id payment_id a && owned_by whmcs_client_id a)
    pure (serialize attempt)

  -- `PaymentListView.get`
  pub payment_list : (whmcs_client_id : ℕ) → PageRequest → Exec (World B) (Page Serialized)
  unfolding rows filter_rows
  payment_list whmcs_client_id page = do
    table ← rows
    let queryset = filter_rows (owned_by whmcs_client_id) table
    let window = take (limit_num page) (drop (limit_start page) queryset)
    pure (paginated_response (serialize_all window) (length queryset) page)
