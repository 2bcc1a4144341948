-- ===== src/Whmcs/Services/Hosting/Changes.antt =====
-- apps/whmcs/services/hosting.py: a service's password and its cancellation.
use whmcstemplate_bridge.Base.{if◌then◌else◌, pos, Exec, ◌>>◌, ℕ, String, Bool, [], ◌∷◌}
use whmcstemplate_bridge.Json.{int, str, end, field}
use whmcstemplate_bridge.Whmcs.Services.{Site, World, upstream, ask, invalidate_for}
use whmcstemplate_bridge.Whmcs.Services.Hosting.Reads.{get_service}

module _ (S : Site) where
  -- behind the read of the service
  unfoldable pub send_password :
      (whmcs_client_id service_id : ℕ) → (new_password : String) → Exec World (Unit {0})
  unfolding ask invalidate_for
  send_password whmcs_client_id service_id new_password = do
    upstream (
        ask S "ModuleChangePw" (
          field "serviceid" (int (pos service_id))
            (field "servicepassword" (str new_password) end)))
    invalidate_for whmcs_client_id ("services" ∷ [])

  unfoldable pub change_service_password :
      (whmcs_client_id service_id : ℕ) → (new_password : String) → Exec World (Unit {0})
  unfolding get_service send_password
  change_service_password whmcs_client_id service_id new_password = do
    get_service S whmcs_client_id service_id
    send_password whmcs_client_id service_id new_password

  -- behind the read of the service
  unfoldable pub send_cancellation :
      (whmcs_client_id service_id : ℕ)
      → (reason : String) → (immediate : Bool) → Exec World (Unit {0})
  unfolding ask invalidate_for
  send_cancellation whmcs_client_id service_id reason immediate = do
    upstream (
        ask S "AddCancelRequest" (
          field "serviceid" (int (pos service_id)) (
            field "type" (str (if immediate then "Immediate" else "End of Billing Period"))
              (field "reason" (str reason) end))))
    invalidate_for whmcs_client_id ("services" ∷ [])

  unfoldable pub request_cancellation :
      (whmcs_client_id service_id : ℕ)
      → (reason : String) → (immediate : Bool) → Exec World (Unit {0})
  unfolding get_service send_cancellation
  request_cancellation whmcs_client_id service_id reason immediate = do
    get_service S whmcs_client_id service_id
    send_cancellation whmcs_client_id service_id reason immediate
