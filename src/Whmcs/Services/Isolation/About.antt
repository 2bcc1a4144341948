-- ===== src/Whmcs/Services/Isolation/About.antt =====
-- Whom the parameters of a call, or an owner in a reply, name.
use whmcstemplate_bridge.Base.{
  Bool-cases, is_text, one_of, pos, Outcome, returned, raised, ℕ, String, ◌≡◌, refl, inl, inr, some,
  [], ◌∷◌,
}
use whmcstemplate_bridge.Json.{Value, null, int, Fields, get, get_or}
use whmcstemplate_bridge.Core.Pagination.{PageRequest, limit_start, limit_num}
use whmcstemplate_bridge.Orders.Withdrawal
use whmcstemplate_bridge.Whmcs.Normalizers.{to_int, assert_owned, assert_owned-passes}
use whmcstemplate_bridge.Whmcs.Services.{Site}
use whmcstemplate_bridge.Whmcs.Services.Billing
use whmcstemplate_bridge.Whmcs.Services.Support
use whmcstemplate_bridge.Whmcs.Services.Hosting

module _ (S : Site) where
  pub owned-about :
      (n : ℕ) (reply : Fields) (made v : Value)
      → elim (assert_owned S.repr (get_or "userid" null reply) n) [
        | returned _ ↦ returned made
        | raised e ↦ raised e
      ]
        ≡ returned v
      → to_int S.repr (get_or "userid" null reply) (pos 0) ≡ pos n
  owned-about n reply made v h = go (assert_owned S.repr (get_or "userid" null reply) n) refl h
    where
      go :
          (o : Outcome (Unit {0}))
          → assert_owned S.repr (get_or "userid" null reply) n ≡ o
          → elim o [ returned _ ↦ returned made | raised e ↦ raised e ] ≡ returned v
          → to_int S.repr (get_or "userid" null reply) (pos 0) ≡ pos n
      go (returned _) passed h' = assert_owned-passes S.repr (get_or "userid" null reply) n passed
      go (raised e) refused h' = absurd (cc h')

  pub invoices-about :
      (n : ℕ) (page : PageRequest) (status : String)
      → get "userid" (Billing.invoices_params S n page status) ≡ some (int (pos n))
  unfolding Billing.invoices_params get limit_start limit_num
  invoices-about n page status = elim (Bool-cases (one_of status Billing.invoice_statuses)) [
    | inl one ↦ rw one refl
    | inr none_of ↦ rw none_of refl
  ]

  pub tickets-about :
      (n : ℕ) (page : PageRequest) (status : String)
      → get "clientid" (Support.tickets_params S n page status) ≡ some (int (pos n))
  unfolding Support.tickets_params get limit_start limit_num
  tickets-about n page status = elim (Bool-cases (is_text status)) [
    | inl one ↦ rw one refl
    | inr none_of ↦ rw none_of refl
  ]

  pub services-about :
      (n : ℕ) (page : PageRequest) (status : String)
      → get "clientid" (Hosting.services_params S n page status) ≡ some (int (pos n))
  unfolding Hosting.services_params get limit_start limit_num
  services-about n page status = elim (Bool-cases (one_of status Hosting.service_statuses)) [
    | inl one ↦ rw one refl
    | inr none_of ↦ rw none_of refl
  ]

  pub orders-about :
      (n : ℕ) (page : PageRequest) (status : String)
      → get "userid" (Withdrawal.list_params n page (some status)) ≡ some (int (pos n))
  unfolding Withdrawal.list_params get limit_start limit_num
  orders-about n page status =
      elim (Bool-cases (one_of status ("Pending" ∷ "Active" ∷ "Fraud" ∷ "Cancelled" ∷ []))) [
        | inl one ↦ rw one refl
        | inr none_of ↦ rw none_of refl
      ]
