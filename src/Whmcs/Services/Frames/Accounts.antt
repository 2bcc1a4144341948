-- ===== src/Whmcs/Services/Frames/Accounts.antt =====
-- The account and billing services call actions of the allowlist only.
use whmcstemplate_bridge.Base.{
  Allowed, Exn, application, whmcs_config, whmcs_transport, whmcs_api, validation_error, zibal,
  http_404, permission_denied, runtime, Frame-raise, pure, Frame, Frame-pure, Frame-bind,
  frame_rules, ℕ, String, none,
}
use whmcstemplate_bridge.Json.{Fields}
use whmcstemplate_bridge.Core.Cache.{time}
use whmcstemplate_bridge.Whmcs.Services.{World, Site}
use whmcstemplate_bridge.Whmcs.Services.Accounts
use whmcstemplate_bridge.Whmcs.Services.Billing
use whmcstemplate_bridge.Whmcs.Services.Isolation.{profile}
use whmcstemplate_bridge.Whmcs.Services.Calls.{permitted, ask-Permitted}
use whmcstemplate_bridge.Whmcs.Services.Frames.{Keeps, asked, forget}
use whmcstemplate_bridge.Whmcs.Services.Frames.Reads.{read-Frame}

module _ (S : Site) {R : Allowed World} (K : Keeps S R) where
  pub update_profile-Frame :
      (n : ℕ) (changes : Fields) → Frame R (Accounts.update_profile S n changes)
  unfolding Accounts.update_profile
  update_profile-Frame n changes =
      search (frame_rules, ask-Permitted S, asked S K, forget S K, read-Frame S K profile)

  login_failure-Frame : {A : Type 0} (e : Exn) → Frame {A = A} permitted (Accounts.login_failure e)
  unfolding Accounts.login_failure
  login_failure-Frame (whmcs_api validation_error _) = Frame-raise _
  login_failure-Frame (whmcs_api _ _) = Frame-raise _
  login_failure-Frame (application _ _ _ _) = Frame-raise _
  login_failure-Frame (whmcs_config _) = Frame-raise _
  login_failure-Frame (whmcs_transport _) = Frame-raise _
  login_failure-Frame (zibal _ _) = Frame-raise _
  login_failure-Frame http_404 = Frame-raise _
  login_failure-Frame permission_denied = Frame-raise _
  login_failure-Frame (runtime _) = Frame-raise _

  pub validate_login-Frame :
      (email password : String) → Frame permitted (Accounts.validate_login S email password)
  unfolding Accounts.validate_login
  validate_login-Frame email password = search (frame_rules, ask-Permitted S, login_failure-Frame)

  pub change_password-Frame :
      (n : ℕ) (email old new : String) → Frame R (Accounts.change_password S n email old new)
  unfolding Accounts.change_password
  change_password-Frame n email old new =
      search (frame_rules, ask-Permitted S, asked S K, forget S K, K.up, validate_login-Frame)

  pub get_credit_balance-Frame : (n : ℕ) → Frame R (Billing.get_credit_balance S n)
  unfolding Billing.get_credit_balance
  get_credit_balance-Frame n =
      search (frame_rules, ask-Permitted S, asked S K, read-Frame S K profile)

  paid_date : (paid_at : String) → Frame R (Billing.paid_date S paid_at)
  unfolding Billing.paid_date time
  paid_date String.[] =
      Frame-bind (time S.runtime) (λ now. pure (S.strftime now)) K.times
        (λ now. Frame-pure (S.strftime now))
  paid_date (String.◌∷◌ c s) = Frame-pure (String.◌∷◌ c s)

  pub record_payment-Frame :
      (n id : ℕ) (receipt : Billing.Receipt) → Frame R (Billing.record_payment S n id receipt)
  unfolding Billing.record_payment
  record_payment-Frame n id receipt =
      search (frame_rules, ask-Permitted S, asked S K, forget S K, paid_date, K.invalidates)

  pub register-Frame : (payload : Fields) → Frame permitted (Accounts.register S payload)
  unfolding Accounts.register
  register-Frame payload = search (frame_rules, ask-Permitted S)

  pub get_contacts-Frame : (n : ℕ) → Frame permitted (Accounts.get_contacts S n)
  unfolding Accounts.get_contacts
  get_contacts-Frame n = search (frame_rules, ask-Permitted S)

  pub list_pay_methods-Frame : (n : ℕ) → Frame permitted (Billing.list_pay_methods S n)
  unfolding Billing.list_pay_methods
  list_pay_methods-Frame n = search (frame_rules, ask-Permitted S)

  api_error_only-Frame : (e : Exn) → Frame permitted (Accounts.api_error_only e)
  unfolding Accounts.api_error_only
  api_error_only-Frame (whmcs_api _ _) = Frame-pure none
  api_error_only-Frame (application _ _ _ _) = Frame-raise _
  api_error_only-Frame (whmcs_config _) = Frame-raise _
  api_error_only-Frame (whmcs_transport _) = Frame-raise _
  api_error_only-Frame (zibal _ _) = Frame-raise _
  api_error_only-Frame http_404 = Frame-raise _
  api_error_only-Frame permission_denied = Frame-raise _
  api_error_only-Frame (runtime _) = Frame-raise _

  pub find_client_id_by_email-Frame :
      (email : String) → Frame permitted (Accounts.find_client_id_by_email S email)
  unfolding Accounts.find_client_id_by_email
  find_client_id_by_email-Frame email = search (frame_rules, ask-Permitted S, api_error_only-Frame)
