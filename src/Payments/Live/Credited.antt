-- ===== src/Payments/Live/Credited.antt =====
-- What `PaymentService.settle` makes WHMCS do.
use whmcstemplate_bridge.Base.{String, ◌≡◌, ap, ◌∙◌, ◌⊎◌, inl, inr, ◌∷◌}
use whmcstemplate_bridge.Payments.World as Payment_world
use whmcstemplate_bridge.Payments.World.{Env}
use whmcstemplate_bridge.Payments.Settle.{settle}
use whmcstemplate_bridge.Payments.Settle.Credit.{IsEarned, earned_payment, settle-credit}
use whmcstemplate_bridge.Payments.Live.{receipt_of, live_billing}
use whmcstemplate_bridge.Whmcs.Services.{Site, World}
use whmcstemplate_bridge.Whmcs.Services.Billing.Posted.{add_payment, record_payment-posts}

module _ (E : Env) (S : Site) (track_id : String) where
  -- One call adds to the row's invoice the payment that was earned.
  pub record IsCredited (w : Payment_world.World (live_billing S)) (after : World) : Type 0 where
    pub earned : IsEarned E track_id w after
    pub date : String
    pub posted :
        after.upstream
        ≡ add_payment earned.row.invoice_id
            (receipt_of (earned_payment E track_id earned.row earned.verification earned.time))
            date
          ∷ w.billing.upstream

  -- `settle` makes no call of WHMCS; or it makes one, which adds a payment of the amount that the row
  -- names to the row's invoice, under the gateway's reference, and the gateway has confirmed just now
  -- that it took that amount for a row that was not recorded yet.
  pub settle-IsCredited :
      (w : Payment_world.World (live_billing S))
      → ((settle E track_id w).1.billing.upstream ≡ w.billing.upstream)
        ⊎ IsCredited w (settle E track_id w).1.billing
  settle-IsCredited w = elim (settle-credit E track_id w) [
    | inl untouched ↦ inl (ap (λ (b : World). b.upstream) untouched)
    | inr earned ↦
        let payment = earned_payment E track_id earned.row earned.verification earned.time in
        let (date, is) =
          record_payment-posts S payment.whmcs_client_id payment.invoice_id (receipt_of payment)
            w.billing in
        inr (record {
          earned = earned;
          date = date;
          posted = ap (λ (b : World). b.upstream) earned.credited ∙ is;
        })
  ]
