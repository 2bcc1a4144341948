-- ===== src/Whmcs/Services/Frames/Orders.antt =====
-- The order service and the gateways call actions of the allowlist only.
use whmcstemplate_bridge.Base.{Allowed, Frame, Frame-bind, frame_rules, ℕ, String}
use whmcstemplate_bridge.Orders.Placement.{Basket}
use whmcstemplate_bridge.Whmcs.Services.{World, Site}
use whmcstemplate_bridge.Whmcs.Services.Catalogue
use whmcstemplate_bridge.Whmcs.Services.Orders
use whmcstemplate_bridge.Whmcs.Services.Calls.{ask-Permitted}
use whmcstemplate_bridge.Whmcs.Services.Frames.{Keeps, asked, forget}
use whmcstemplate_bridge.Whmcs.Services.Frames.Reads.{list_payment_methods-Frame}

module _ (S : Site) {R : Allowed World} (K : Keeps S R) where
  pub payment_modules-Frame : Frame R (Catalogue.payment_modules S)
  unfolding Catalogue.payment_modules
  payment_modules-Frame =
      Frame-bind (Catalogue.list_payment_methods S) _ (list_payment_methods-Frame S K)
        (λ methods. search frame_rules)

  pub is_valid_payment_method-Frame :
      (name : String) → Frame R (Catalogue.is_valid_payment_method S name)
  unfolding Catalogue.is_valid_payment_method
  is_valid_payment_method-Frame name = search (frame_rules, payment_modules-Frame)

  pub create_order-Frame : (b : Basket) → Frame R (Orders.create_order S b)
  unfolding Orders.create_order
  create_order-Frame b =
      search (frame_rules, ask-Permitted S, asked S K, forget S K, payment_modules-Frame) depth 12

  pub get_order-Frame : (n id : ℕ) → Frame R (Orders.get_order S n id)
  unfolding Orders.get_order
  get_order-Frame n id = search (frame_rules, ask-Permitted S, asked S K)

  pub cancel_order-Frame : (n id : ℕ) → Frame R (Orders.cancel_order S n id)
  unfolding Orders.cancel_order
  cancel_order-Frame n id = search (frame_rules, ask-Permitted S, asked S K, forget S K) depth 12
