-- ===== src/Whmcs/Services/Billing/Posted.antt =====
-- What `record_payment` of apps/whmcs/services/billing.py sends to WHMCS.
use whmcstemplate_bridge.Base.{
  pos, Outcome, returned, raised, Exec, continue, Allowed, Frame, Frame-pure, Frame-bind,
  frame_rules, ℕ, String, ◌≡◌, refl, ap, ◌∙◌, List, [], ◌∷◌,
}
use whmcstemplate_bridge.Json.{int, str, end, field}
use whmcstemplate_bridge.Core.Cache.{time, client_namespace}
use whmcstemplate_bridge.Core.Cache.Upstream.{along, invalidate-Along}
use whmcstemplate_bridge.Whmcs.Services.{Call, Site, World, ask, invalidate_for}
use whmcstemplate_bridge.Whmcs.Services.Billing.{Receipt, payment_params, paid_date, record_payment}

-- WHMCS is not called.
abbrev pub no_calls : Allowed (List Call)
no_calls = record {
  May = λ before after. after ≡ before;
  stay = λ calls. refl;
  then_may = λ u v w p q. q ∙ p;
}

pub invalidate_for-NoCalls :
    (n : ℕ) (resources : List String) → Frame (along no_calls) (invalidate_for n resources)
unfolding invalidate_for
invalidate_for-NoCalls n [] = Frame-pure tt
invalidate_for-NoCalls n (resource ∷ resources) =
    Frame-bind _ _ (invalidate-Along no_calls (client_namespace n resource))
      (λ _. invalidate_for-NoCalls n resources)

-- the call that adds a payment to an invoice
abbrev pub add_payment : (invoice_id : ℕ) → Receipt → (date : String) → Call
add_payment invoice_id receipt date = record {
  action = "AddInvoicePayment";
  params = field "invoiceid" (int (pos invoice_id)) (
      field "transid" (str receipt.transaction_id) (
        field "gateway" (str receipt.gateway) (
          field "amount" (str receipt.amount)
            (field "fees" (str receipt.fees) (field "date" (str date) end)))));
}

module _ (S : Site) where
  after-NoCalls :
      {A : Type 0} (o : Outcome A) (rest : Exec World (Unit {0})) (w : World)
      → Frame (along no_calls) rest
      → (continue (λ (_ : A). rest) o w).1.upstream ≡ w.upstream
  after-NoCalls (returned a) rest w same = same.at w
  after-NoCalls (raised e) rest w same = refl

  dated :
      (paid_at : String) (w : World)
      → (date : String) × (w' : World) × (w'.upstream ≡ w.upstream)
        × (paid_date S paid_at w ≡ (returned date, w'))
  unfolding paid_date time
  dated String.[] w = (_, _, refl, refl)
  dated (String.◌∷◌ c s) w = (_, w, refl, refl)

  -- It is one call, whether WHMCS takes the payment or not.
  pub record_payment-posts :
      (n invoice_id : ℕ) (receipt : Receipt) (w : World)
      → (date : String) × ((record_payment S n invoice_id receipt w).1.upstream
          ≡ add_payment invoice_id receipt date ∷ w.upstream)
  unfolding record_payment payment_params ask
  record_payment-posts n invoice_id receipt w =
      let (date, w', same, is) = dated receipt.paid_at w in
      (
        date,
        rw is (
            after-NoCalls (S.answer (add_payment invoice_id receipt date ∷ w'.upstream)) _ _
              (search (frame_rules, invalidate_for-NoCalls, invalidate-Along no_calls))
            ∙ ap (λ calls. add_payment invoice_id receipt date ∷ calls) same),
      )
