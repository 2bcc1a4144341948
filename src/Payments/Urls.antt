-- ===== src/Payments/Urls.antt =====
-- Where the browser is sent: `result_url` and `OUTCOME_BY_STATUS` of apps/payments/services.py.
use whmcstemplate_bridge.Base.{
  nat_eq, if◌then◌else◌, f_string, is_text, rstrip, contains, show, String, not, Option, none, some,
  [], ◌∷◌,
}
use whmcstemplate_bridge.Payments.Models.{
  PaymentStatus, paid, recorded, failed, cancelled, mismatch, PaymentAttempt,
}
use whmcstemplate_bridge.Payments.World.{Env}

-- Where the browser is sent afterwards.
unfoldable pub result_params : Option PaymentAttempt → String → String
result_params none outcome = f_string ("status=" ∷ outcome ∷ [])
result_params (some a) outcome =
    f_string
      ("status=" ∷ outcome ∷ "&" ∷ "invoice=" ∷ show a.invoice_id ∷ "&" ∷ "payment=" ∷ a.id ∷ [])

unfoldable pub result_url : Env → Option PaymentAttempt → String → String
unfolding result_params
result_url E attempt outcome =
    let base = rstrip (λ c. nat_eq c b'/') E.result_url in
    if not (is_text base)
    then "/"
    else f_string
        (base ∷ (if contains "?" base then "&" else "?") ∷ result_params attempt outcome ∷ [])

-- `OUTCOME_BY_STATUS.get(status, "pending")`
unfoldable pub outcome_by_status : PaymentStatus → String
outcome_by_status recorded = "success"
outcome_by_status paid = "pending"
outcome_by_status mismatch = "mismatch"
outcome_by_status failed = "failed"
outcome_by_status cancelled = "cancelled"
outcome_by_status _ = "pending"
