-- ===== src/Whmcs/Services/Gates/Upgrades.antt =====
-- What stands before an upgrade of a service is ordered: `ServiceService.upgrade` of
-- apps/whmcs/services/hosting.py.
use whmcstemplate_bridge.Base.{
  ℤ, Exn, Outcome, returned, raised, lift, continue, ◌>>=◌, Frame, Frame-pure, Frame-lift,
  Frame-bind, frame_rules, ℕ, String, ◌≡◌, refl, ◌⊎◌, inl, inr, Bool, true, false, Option, none,
  some, [], ◌∷◌,
}
use whmcstemplate_bridge.Json.{Value, int, str, Items, Fields, end}
use whmcstemplate_bridge.Core.Cache.Upstream.{along}
use whmcstemplate_bridge.Whmcs.Services.{Site, World}
use whmcstemplate_bridge.Whmcs.Services.Catalogue
use whmcstemplate_bridge.Whmcs.Services.Hosting
use whmcstemplate_bridge.Whmcs.Services.Hosting.{
  Change, offers, upgrade_options, assert_upgrade_allowed, refuse_unless, upgrade_if, upgrade,
  place_upgrade,
}
use whmcstemplate_bridge.Whmcs.Services.Along.{cached-Along}
use whmcstemplate_bridge.Whmcs.Services.Gates.{ReadsMore, reading, ask-Reads, service-Reads}

module _ (S : Site) where
  list_products-Reads : (group_id : ℤ) → Frame (along reading) (Catalogue.list_products S group_id)
  unfolding Catalogue.list_products Catalogue.fetch_products
  list_products-Reads group_id =
      cached-Along reading S (Catalogue.fetch_products S group_id)
        (Frame-bind _ _ (ask-Reads S "GetProducts" _ refl)
          (λ v. Frame-bind _ _ (Frame-lift _) (λ products. Frame-pure _)))
        "catalogue:products" "catalogue" (int group_id ∷ [])

  list_methods-Reads : Frame (along reading) (Catalogue.list_payment_methods S)
  unfolding Catalogue.list_payment_methods Catalogue.fetch_gateways
  list_methods-Reads =
      cached-Along reading S (Catalogue.fetch_gateways S)
        (Frame-bind _ _ (ask-Reads S "GetPaymentMethods" end refl) (λ v. Frame-pure _))
        "catalogue:gateways" "catalogue" (str "list" ∷ [])

  is_valid-Reads :
      (name : String) → Frame (along reading) (Catalogue.is_valid_payment_method S name)
  unfolding Catalogue.is_valid_payment_method Catalogue.payment_modules
  is_valid-Reads name = search (frame_rules, list_methods-Reads) depth 12

  same_group-Reads :
      (pid : Value) (current : Option Value)
      → Frame (along reading) (Hosting.same_group S pid current)
  unfolding Hosting.same_group
  same_group-Reads pid none = search frame_rules
  same_group-Reads pid (some current) = search (frame_rules, list_products-Reads)

  upgrade_options-Reads : (n id : ℕ) → Frame (along reading) (upgrade_options S n id)
  unfolding Hosting.upgrade_options
  upgrade_options-Reads n id =
      search (frame_rules, service-Reads S, list_products-Reads, same_group-Reads) depth 12

  module _ (n id : ℕ) (c : Change) (method : String) (w : World) where
    -- The new product is among the service's options, and the payment method is enabled.
    pub record IsOffered : Type 0 where
      pub options : Items
      pub read : (upgrade_options S n id w).0 ≡ returned options
      pub offered : offers c.new_product_id options ≡ returned true
      pub enabled :
          (Catalogue.is_valid_payment_method S method (upgrade_options S n id w).1).0
          ≡ returned true

    -- It only read; then it raised, or it went on to place the upgrade that is offered.
    abbrev pub Ends : Outcome Fields × World → Type 0
    Ends run =
        ((e : Exn) × (run.0 ≡ raised e) × ReadsMore w.upstream run.1.upstream)
        ⊎ ((w' : World) × ReadsMore w.upstream w'.upstream
            × IsOffered
            × (run ≡ place_upgrade S n id c method w'))

    read_on :
        (w₁ w₂ : World)
        → ReadsMore w.upstream w₁.upstream
        → ReadsMore w₁.upstream w₂.upstream
        → ReadsMore w.upstream w₂.upstream
    read_on w₁ w₂ = reading.then_may w.upstream w₁.upstream w₂.upstream

    enabled-Ends :
        (options : Items)
        → (upgrade_options S n id w).0 ≡ returned options
        → offers c.new_product_id options ≡ returned true
        → (o : Outcome Bool) (w₂ : World)
        → (Catalogue.is_valid_payment_method S method (upgrade_options S n id w).1).0 ≡ o
        → ReadsMore w.upstream w₂.upstream
        → Ends (continue (upgrade_if S n id c method) o w₂)
    unfolding Hosting.upgrade_if
    enabled-Ends options read offered (raised e) w₂ is reads = inl (e, refl, reads)
    enabled-Ends options read offered (returned false) w₂ is reads = inl (_, refl, reads)
    enabled-Ends options read offered (returned true) w₂ is reads = inr (
      w₂,
      reads,
      record { options = options; read = read; offered = offered; enabled = is },
      refl,
    )

    offers-Ends :
        (options : Items)
        → (upgrade_options S n id w).0 ≡ returned options
        → (o : Outcome Bool) → offers c.new_product_id options ≡ o
        → Ends (
            ((lift o >>= refuse_unless S) >>= λ _.
            Catalogue.is_valid_payment_method S method >>= upgrade_if S n id c method)
              (upgrade_options S n id w).1)
    unfolding Hosting.refuse_unless
    offers-Ends options read (raised e) is = inl (e, refl, (upgrade_options-Reads n id).at w)
    offers-Ends options read (returned false) is = inl (_, refl, (upgrade_options-Reads n id).at w)
    offers-Ends options read (returned true) is =
        let w₁ = (upgrade_options S n id w).1 in
        let run = Catalogue.is_valid_payment_method S method w₁ in
        enabled-Ends options read is run.0 run.1 refl
          (read_on w₁ run.1 ((upgrade_options-Reads n id).at w) ((is_valid-Reads method).at w₁))

    options-Ends :
        (o : Outcome Items)
        → (upgrade_options S n id w).0 ≡ o
        → Ends (
            (((λ (_ : World). (o, (upgrade_options S n id w).1)) >>= λ options.
            lift (offers c.new_product_id options) >>= refuse_unless S)
                >>= λ _. Catalogue.is_valid_payment_method S method >>= upgrade_if S n id c method)
              w)
    options-Ends (raised e) is = inl (e, refl, (upgrade_options-Reads n id).at w)
    options-Ends (returned options) is =
        offers-Ends options is (offers c.new_product_id options) refl

    -- An upgrade is ordered only if the new product is among the options that the service has, and the
    -- payment method is one of the enabled gateways. Before that, WHMCS is only called with actions that
    -- begin with Get; and otherwise it raises, with no other calls made.
    pub upgrade-IsOffered : Ends (upgrade S n id c method w)
    unfolding Hosting.upgrade Hosting.assert_upgrade_allowed
    upgrade-IsOffered = options-Ends (upgrade_options S n id w).0 refl
