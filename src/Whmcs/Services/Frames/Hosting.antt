-- ===== src/Whmcs/Services/Frames/Hosting.antt =====
-- The services and domains of customers are read and changed by actions of the allowlist only.
use whmcstemplate_bridge.Base.{
  Allowed, ℤ, Frame, Frame-bind, frame_rules, ℕ, String, Bool, true, false, Option, none, some,
  List,
}
use whmcstemplate_bridge.Json.{Value}
use whmcstemplate_bridge.Whmcs.Services.{World, Site, upstream}
use whmcstemplate_bridge.Whmcs.Services.Catalogue
use whmcstemplate_bridge.Whmcs.Services.Hosting
use whmcstemplate_bridge.Whmcs.Services.Domains
use whmcstemplate_bridge.Whmcs.Services.Isolation.{service, domain}
use whmcstemplate_bridge.Whmcs.Services.Calls.{ask-Permitted}
use whmcstemplate_bridge.Whmcs.Services.Frames.{Keeps, asked, forget}
use whmcstemplate_bridge.Whmcs.Services.Frames.Reads.{
  read-Frame, list_products-Frame, list_payment_methods-Frame,
}
use whmcstemplate_bridge.Whmcs.Services.Frames.Orders.{is_valid_payment_method-Frame}

module _ (S : Site) {R : Allowed World} (K : Keeps S R) where
  same_group-Frame :
      (pid : Value) (current : Option Value) → Frame R (Hosting.same_group S pid current)
  unfolding Hosting.same_group
  same_group-Frame pid none = search frame_rules
  same_group-Frame pid (some current) = search (frame_rules, list_products-Frame S K)

  refuse_unless-Frame : (found : Bool) → Frame R (Hosting.refuse_unless S found)
  unfolding Hosting.refuse_unless
  refuse_unless-Frame true = search frame_rules
  refuse_unless-Frame false = search frame_rules

  pub upgrade_options-Frame : (n id : ℕ) → Frame R (Hosting.upgrade_options S n id)
  unfolding Hosting.upgrade_options
  upgrade_options-Frame n id =
      search (frame_rules, read-Frame S K (service id), list_products-Frame S K, same_group-Frame)
        depth 12

  pub assert_upgrade_allowed-Frame :
      (n id : ℕ) (new : ℤ) → Frame R (Hosting.assert_upgrade_allowed S n id new)
  unfolding Hosting.assert_upgrade_allowed
  assert_upgrade_allowed-Frame n id new =
      search (frame_rules, upgrade_options-Frame, refuse_unless-Frame)

  pub quote_upgrade-Frame :
      (n id : ℕ) (c : Hosting.Change) → Frame R (Hosting.quote_upgrade S n id c)
  unfolding Hosting.quote_upgrade
  quote_upgrade-Frame n id c =
      Frame-bind (Hosting.assert_upgrade_allowed S n id c.new_product_id) _
        (assert_upgrade_allowed-Frame n id c.new_product_id)
        (λ _.
          Frame-bind (Catalogue.list_payment_methods S) _ (list_payment_methods-Frame S K)
            (λ gateways. search (frame_rules, ask-Permitted S, asked S K) depth 12))

  pub place_upgrade-Frame :
      (n id : ℕ) (c : Hosting.Change) (method : String)
      → Frame R (Hosting.place_upgrade S n id c method)
  unfolding Hosting.place_upgrade
  place_upgrade-Frame n id c method =
      search (frame_rules, ask-Permitted S, asked S K, forget S K, K.invalidates)

  pub upgrade-Frame :
      (n id : ℕ) (c : Hosting.Change) (method : String) → Frame R (Hosting.upgrade S n id c method)
  unfolding Hosting.upgrade
  upgrade-Frame n id c method = search (
    frame_rules,
    assert_upgrade_allowed-Frame,
    is_valid_payment_method-Frame S K,
    place_upgrade-Frame,
  )

  pub change_service_password-Frame :
      (n id : ℕ) (password : String) → Frame R (Hosting.change_service_password S n id password)
  unfolding Hosting.change_service_password
  change_service_password-Frame n id password =
      search (frame_rules, ask-Permitted S, asked S K, forget S K, read-Frame S K (service id))

  pub request_cancellation-Frame :
      (n id : ℕ) (reason : String) (immediate : Bool)
      → Frame R (Hosting.request_cancellation S n id reason immediate)
  unfolding Hosting.request_cancellation
  request_cancellation-Frame n id reason immediate =
      search (frame_rules, ask-Permitted S, asked S K, forget S K, read-Frame S K (service id))

  nameservers-Frame : (id : ℕ) → Frame R (upstream (Domains.fetch_nameservers S id))
  unfolding Domains.fetch_nameservers
  nameservers-Frame id =
      K.up (Domains.fetch_nameservers S id) (search (frame_rules, ask-Permitted S))

  pub get_nameservers-Frame : (n id : ℕ) → Frame R (Domains.get_nameservers S n id)
  unfolding Domains.get_nameservers
  get_nameservers-Frame n id = search (frame_rules, read-Frame S K (domain id), nameservers-Frame)

  pub update_nameservers-Frame :
      (n id : ℕ) (servers : List String) → Frame R (Domains.update_nameservers S n id servers)
  unfolding Domains.update_nameservers
  update_nameservers-Frame n id servers = search (
    frame_rules,
    ask-Permitted S,
    asked S K,
    forget S K,
    read-Frame S K (domain id),
    nameservers-Frame,
  )

  pub get_lock_status-Frame : (n id : ℕ) → Frame R (Domains.get_lock_status S n id)
  unfolding Domains.get_lock_status
  get_lock_status-Frame n id =
      search (frame_rules, ask-Permitted S, asked S K, read-Frame S K (domain id))

  pub set_lock_status-Frame :
      (n id : ℕ) (locked : Bool) → Frame R (Domains.set_lock_status S n id locked)
  unfolding Domains.set_lock_status
  set_lock_status-Frame n id locked =
      search (frame_rules, ask-Permitted S, asked S K, forget S K, read-Frame S K (domain id))

  pub request_epp_code-Frame : (n id : ℕ) → Frame R (Domains.request_epp_code S n id)
  unfolding Domains.request_epp_code
  request_epp_code-Frame n id =
      search (frame_rules, ask-Permitted S, asked S K, read-Frame S K (domain id))
