-- ===== src/Payments/Live/Checkout.antt =====
-- What a customer may start to pay, by apps/payments/views.py over WHMCS.
use whmcstemplate_bridge.Base.{
  Bool-cases, Outcome, returned, bind-returned, lift, Option, none, some, true, ℕ, String, ◌≡◌,
  refl, sym, subst, ap, ◌∙◌, inl, inr, ◌∷◌, List, arith,
}
use whmcstemplate_bridge.Json.{Value}
use whmcstemplate_bridge.Payments.World as Payment_world
use whmcstemplate_bridge.Payments.World.{Env, Invoice}
use whmcstemplate_bridge.Payments.Start.{StartResult, start}
use whmcstemplate_bridge.Payments.Start.Priced.{IsPriced, start-IsPriced}
use whmcstemplate_bridge.Payments.Views.{user_of, start_view}
use whmcstemplate_bridge.Payments.Live.{invoice_read, read_fresh, live_billing}
use whmcstemplate_bridge.Whmcs.Services.{Call, Site, World, upstream}
use whmcstemplate_bridge.Whmcs.Services.Billing
use whmcstemplate_bridge.Whmcs.Services.Isolation.{invoice}
use whmcstemplate_bridge.Whmcs.Services.Isolation.Scope.{IsScoped, fetch-IsScoped}
use whmcstemplate_bridge.Api.Scope.{Account, Http, Framework, has_permission, IsLinked}

module _ (S : Site) where
  -- The invoice was made of one reply of WHMCS to one call, about the client.
  pub record IsReadFresh (client n : ℕ) (i : Invoice) (w w' : World) : Type 0 where
    pub value : Value
    pub scoped : IsScoped S client (invoice n) w.upstream value
    pub is_read : invoice_read S value ≡ returned i
    pub asked : w'.upstream ≡ scoped.call ∷ w.upstream

  read_fresh-IsReadFresh :
      (client n : ℕ) (i : Invoice) (w w' : World)
      → read_fresh S client n w ≡ (returned i, w')
      → IsReadFresh client n i w w'
  unfolding read_fresh Billing.get_invoice
  read_fresh-IsReadFresh client n i w w' h =
      let (value, u, got, rest) =
        bind-returned (upstream (Billing.fetch_invoice S client n)) _ w h in
      let scoped =
        fetch-IsScoped S (invoice n) client w.upstream value
          (ap (λ (x : Outcome Value × World). x.0) got) in
      record {
        value = value;
        scoped = scoped;
        is_read = ap (λ (x : Outcome Invoice × World). x.0) rest;
        asked =
            sym (ap (λ (x : Outcome Invoice × World). x.1.upstream) rest)
            ∙ sym (ap (λ (x : Outcome Value × World). x.1.upstream) got)
            ∙ ap (λ (x : Outcome Value × List Call). x.1) scoped.ran;
      }

module _ (E : Env) (F : Framework) (S : Site) (q : Http) (pk : ℕ) (validated : Outcome String)
    (invoice_id : ℕ) where
  -- The payment that was opened is of an invoice that WHMCS was just asked for, for the client that the
  -- authenticated user is linked to.
  pub record IsOwed (w w' : Payment_world.World (live_billing S)) (r : StartResult) : Type 0 where
    pub priced : IsPriced E (user_of pk q.user) invoice_id w w' r
    pub linked : IsLinked F q priced.client
    pub fresh : IsReadFresh S priced.client invoice_id priced.invoice w.billing w'.billing

  has_permission-IsLinked :
      (user : Option Account) (client : ℕ)
      → q.user ≡ user
      → has_permission user ≡ true
      → (user_of pk user).whmcs_client_id ≡ some client
      → IsLinked F q client
  unfolding has_permission
  has_permission-IsLinked none client is h linked = absurd (cc h)
  has_permission-IsLinked (some user) client is h linked = record {
    user = user;
    is_user = is;
    authenticated = ground arith;
    linked = linked;
  }

  -- Where the view that starts a payment answers, the authenticated user is linked to a client, and
  -- WHMCS was asked once, for the invoice: it is about that client, payable, and the amount of the new
  -- row is what is due of it, whatever the request says.
  pub start_view-IsOwed :
      (w w' : Payment_world.World (live_billing S)) (r : StartResult)
      → start_view E F q pk validated invoice_id w ≡ (returned r, w')
      → IsOwed w w' r
  unfolding start_view
  start_view-IsOwed w w' r h = elim (Bool-cases (has_permission q.user)) [
    | inr refused ↦ absurd (cc (rw refused at h))
    | inl may ↦
        let (mobile, u, is, rest) = bind-returned (lift validated) _ w (rw may at h) in
        let same : u ≡ w =
          sym (ap (λ (x : Outcome String × Payment_world.World (live_billing S)). x.1) is) in
        let priced = start-IsPriced E (user_of pk q.user) invoice_id q.client_ip mobile w w' r (
          subst
            (λ x. start E (user_of pk q.user) invoice_id q.client_ip mobile x ≡ (returned r, w'))
            same rest) in
        record {
          priced = priced;
          linked = has_permission-IsLinked q.user priced.client refl may priced.is_client;
          fresh =
              read_fresh-IsReadFresh S priced.client invoice_id priced.invoice w.billing w'.billing
                priced.read;
        }
  ]
