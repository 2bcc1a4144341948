-- ===== src/Payments/Start/Priced.antt =====
-- A payment that `start` opened is for what the billing service says is due.
use whmcstemplate_bridge.Base.{
  Bool-cases, Outcome, returned, raised, ℤ, pos, leb_ℤ, bind-returned, ℕ, String, ◌≡◌, refl, sym,
  subst, ap, ◌∙◌, inl, inr, true, false, some, lift, runtime, Option, none, ◌>>◌,
}
use whmcstemplate_bridge.Payments.Models.{redirected, PaymentAttempt, has_id, find}
use whmcstemplate_bridge.Payments.World.{Invoice, Billing, World, Env}
use whmcstemplate_bridge.Payments.Amount.{to_rial}
use whmcstemplate_bridge.Payments.Zibal.{gateway}
use whmcstemplate_bridge.Payments.Zibal.Posts.{gateway-Frame}
use whmcstemplate_bridge.Payments.Table.{on_billing}
use whmcstemplate_bridge.Payments.Start.{
  User, StartResult, client_of, is_payable, start, new_attempt, charge, collect,
}
use whmcstemplate_bridge.Payments.Start.Charged.{sent_row, IsCharged, charge-IsCharged}

client_of-is :
    (user : User) (client : ℕ)
    → client_of user ≡ returned client
    → user.whmcs_client_id ≡ some client
client_of-is user client h = go user.whmcs_client_id refl h
  where
    go :
        (id : Option ℕ)
        → user.whmcs_client_id ≡ id
        → elim id [ none ↦ raised (runtime "TypeError") | some n ↦ returned n ] ≡ returned client
        → user.whmcs_client_id ≡ some client
    go none is h' = absurd (cc h')
    go (some n) is h' = is ∙ cc h'

module _ (E : Env) {B : Billing} where
  -- The invoice was read of the billing service, whose state is as the read left it; it is payable, and
  -- the amount is what is due of it, which is more than nothing. The row has this amount, the client
  -- and the invoice, and waits for the customer to come back.
  pub record IsPriced (user : User) (invoice_id : ℕ) (w w' : World B) (r : StartResult)
      : Type 0 where
    pub client : ℕ
    pub is_client : user.whmcs_client_id ≡ some client
    pub invoice : Invoice
    pub read : B.get_invoice client invoice_id w.billing ≡ (returned invoice, w'.billing)
    pub payable : is_payable invoice.status ≡ true
    pub priced : to_rial E.amount_multiplier invoice.balance ≡ returned r.amount_rial
    pub due : leb_ℤ r.amount_rial (pos 0) ≡ false
    pub row : PaymentAttempt
    pub listed : find (has_id r.payment_id) w'.attempts ≡ some row
    pub row_status : row.status ≡ redirected
    pub row_amount : row.amount_rial ≡ r.amount_rial
    pub row_client : row.whmcs_client_id ≡ client
    pub row_invoice : row.invoice_id ≡ invoice_id

  -- the invoice is payable, and what is due is charged
  record IsCollected (user : User) (client n : ℕ) (ip mobile : String) (invoice : Invoice)
      (w w' : World B) (r : StartResult) : Type 0 where
    payable : is_payable invoice.status ≡ true
    amount : ℤ
    priced : to_rial E.amount_multiplier invoice.balance ≡ returned amount
    due : leb_ℤ amount (pos 0) ≡ false
    billing : w'.billing ≡ w.billing
    charged : (u : World B) × IsCharged E user client n amount invoice ip u w' r

  due-IsCollected :
      (user : User) (client n : ℕ) (ip mobile : String) (invoice : Invoice) (amount : ℤ)
      (w w' : World B) (r : StartResult)
      → is_payable invoice.status ≡ true
      → to_rial E.amount_multiplier invoice.balance ≡ returned amount
      → leb_ℤ amount (pos 0) ≡ false
      → (gateway E >> charge E user client n amount invoice ip mobile) w ≡ (returned r, w')
      → IsCollected user client n ip mobile invoice w w' r
  due-IsCollected user client n ip mobile invoice amount w w' r payable priced due h =
      let (_, u, configured, rest) = bind-returned (gateway E) _ w h in
      let charged = charge-IsCharged E user client n amount invoice ip mobile u w' r rest in
      record {
        payable = payable;
        amount = amount;
        priced = priced;
        due = due;
        billing =
            charged.enrolled.billing
            ∙ ap (λ (x : Outcome (Unit {0}) × World B). x.1.billing) (sym configured)
            ∙ ((gateway-Frame E).at w).billing;
        charged = (u, charged);
      }

  collect-IsCollected :
      (user : User) (client n : ℕ) (ip mobile : String) (invoice : Invoice) (w w' : World B)
      (r : StartResult)
      → collect E user client n ip mobile invoice w ≡ (returned r, w')
      → IsCollected user client n ip mobile invoice w w' r
  unfolding collect
  collect-IsCollected user client n ip mobile invoice w w' r h =
      elim (Bool-cases (is_payable invoice.status)) [
        | inr unpayable ↦ absurd (cc (rw unpayable at h))
        | inl payable ↦
            let (amount, u, priced, rest) =
              bind-returned (lift (to_rial E.amount_multiplier invoice.balance)) _ w
                (rw payable at h) in
            let worth : to_rial E.amount_multiplier invoice.balance ≡ returned amount =
              ap (λ (x : Outcome ℤ × World B). x.0) priced in
            let same : w ≡ u = ap (λ (x : Outcome ℤ × World B). x.1) priced in
            elim (Bool-cases (leb_ℤ amount (pos 0))) [
              | inl nothing ↦ absurd (cc (rw nothing at rest))
              | inr due ↦
                  due-IsCollected user client n ip mobile invoice amount w w' r payable worth due (
                    subst
                      (λ x.
                        (gateway E >> charge E user client n amount invoice ip mobile) x
                        ≡ (returned r, w'))
                      (sym same) (rw due at rest))
            ]
      ]

  read-is :
      (client n : ℕ) (u v w' : World B) (invoice : Invoice)
      → on_billing (B.get_invoice client n) u ≡ (returned invoice, v)
      → w'.billing ≡ v.billing
      → B.get_invoice client n u.billing ≡ (returned invoice, w'.billing)
  unfolding on_billing
  read-is client n u v w' invoice read billed =
      let answer : (B.get_invoice client n u.billing).0 ≡ returned invoice =
        ap (λ (x : Outcome Invoice × World B). x.0) read in
      let state : (B.get_invoice client n u.billing).1 ≡ v.billing =
        ap (λ (x : Outcome Invoice × World B). x.1.billing) read in
      cc (answer, state, billed)

  collected-IsPriced :
      (user : User) (client n : ℕ) (ip mobile : String) (invoice : Invoice) (u v w' : World B)
      (r : StartResult)
      → user.whmcs_client_id ≡ some client
      → on_billing (B.get_invoice client n) u ≡ (returned invoice, v)
      → IsCollected user client n ip mobile invoice v w' r
      → IsPriced user n u w' r
  collected-IsPriced user client n ip mobile invoice u v w' r is_client read c =
      let e = c.charged.1.enrolled in
      record {
        client = client;
        is_client = is_client;
        invoice = invoice;
        read = read-is client n u v w' invoice read c.billing;
        payable = c.payable;
        priced = c.priced ∙ ap returned (sym e.answer_amount);
        due = ap (λ k. leb_ℤ k (pos 0)) e.answer_amount ∙ c.due;
        row = sent_row e.track_id e.time (
            new_attempt c.charged.1.id user client n c.amount invoice ip c.charged.1.created
              c.charged.1.updated);
        listed = ap (λ k. find (has_id k) w'.attempts) e.answer_id ∙ e.listed;
        row_status = refl;
        row_amount = sym e.answer_amount;
        row_client = refl;
        row_invoice = refl;
      }

  -- What `start` returns is a payment of what is due of a payable invoice of the user's own client, by
  -- the billing service's fresh read of it.
  pub start-IsPriced :
      (user : User) (invoice_id : ℕ) (client_ip mobile : String) (w w' : World B) (r : StartResult)
      → start E user invoice_id client_ip mobile w ≡ (returned r, w')
      → IsPriced user invoice_id w w' r
  unfolding start on_billing
  start-IsPriced user invoice_id client_ip mobile w w' r h =
      let (client, u, is, rest) = bind-returned (lift (client_of user)) _ w h in
      let same : u ≡ w = sym (ap (λ (x : Outcome ℕ × World B). x.1) is) in
      let (invoice, v, read, taken) =
        bind-returned (on_billing (B.get_invoice client invoice_id)) _ u rest in
      subst (λ x. IsPriced user invoice_id x w' r) same
        (collected-IsPriced user client invoice_id client_ip mobile invoice u v w' r
          (client_of-is user client (ap (λ (x : Outcome ℕ × World B). x.0) is)) read
          (collect-IsCollected user client invoice_id client_ip mobile invoice v w' r taken))
