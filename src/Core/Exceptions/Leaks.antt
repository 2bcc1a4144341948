-- ===== src/Core/Exceptions/Leaks.antt =====
-- What of an exception reaches the client.
use whmcstemplate_bridge.Base.{
  prefix, AppKind, application_error, resource_not_found, resource_forbidden, upstream_unavailable,
  invalid_credentials, ApiKind, api_error, auth_error, not_found_error, validation_error,
  rate_limited, Exn, application, whmcs_config, whmcs_transport, whmcs_api, zibal, http_404,
  permission_denied, runtime, ℕ, ◌≤◌, ◌<◌, String, ◌≡◌, refl, ap, Option, none, some, [], arith,
}
use whmcstemplate_bridge.Core.Exceptions.{
  envelope, mapped, from_framework, FrameworkData, with_detail, field_errors, error_list,
  other_data, Handling, status_code, whmcs_map, api_exception_handler,
}

-- Two exceptions of one class, which differ in their texts at most; texts of the bridge's own errors
-- and of WHMCS' validation errors, cut to 200 characters, are meant for the client.
pub data SameClass : Exn → Exn → Type 0 where
  transport_texts : (m m' : String) → SameClass (whmcs_transport m) (whmcs_transport m')
  api_texts :
      (kind : ApiKind) (m m' : String)
      → (kind ≡ validation_error → prefix 200 m ≡ prefix 200 m')
      → SameClass (whmcs_api kind m) (whmcs_api kind m')

module _ (H : Handling) where
  -- The client is shown nothing of the text of a transport error or of WHMCS' refusals, but the first
  -- 200 characters of a validation error: exceptions that agree on these give the same response.
  pub handler-SameClass :
      {e e' : Exn} → SameClass e e' → api_exception_handler H e ≡ api_exception_handler H e'
  unfolding api_exception_handler
  handler-SameClass (transport_texts m m') = refl
  handler-SameClass (api_texts validation_error m m' same) =
      ap (λ text. envelope H 400 "invalid_request" text []) (same refl)
  handler-SameClass (api_texts api_error m m' same) = refl
  handler-SameClass (api_texts auth_error m m' same) = refl
  handler-SameClass (api_texts not_found_error m m' same) = refl
  handler-SameClass (api_texts rate_limited m m' same) = refl

  abbrev IsErrorStatus : ℕ → Type 0
  IsErrorStatus status = (400 ≤ status) × (status < 600)

  framework-IsErrorStatus :
      (o : Option (ℕ × FrameworkData))
      → ((status : ℕ) (shape : FrameworkData) → o ≡ some (status, shape) → IsErrorStatus status)
      → IsErrorStatus (from_framework H o).status
  unfolding from_framework
  framework-IsErrorStatus none h = (omega arith, omega arith)
  framework-IsErrorStatus (some (status, with_detail m c)) h = h status _ refl
  framework-IsErrorStatus (some (status, field_errors d)) h = h status _ refl
  framework-IsErrorStatus (some (status, error_list l)) h = h status _ refl
  framework-IsErrorStatus (some (status, other_data)) h = h status _ refl

  api-IsErrorStatus :
      (kind : ApiKind) (m : String) → IsErrorStatus (mapped H m (whmcs_map kind)).status
  unfolding mapped
  api-IsErrorStatus api_error m = (omega arith, omega arith)
  api-IsErrorStatus auth_error m = (omega arith, omega arith)
  api-IsErrorStatus not_found_error m = (omega arith, omega arith)
  api-IsErrorStatus validation_error m = (omega arith, omega arith)
  api-IsErrorStatus rate_limited m = (omega arith, omega arith)

  application-IsErrorStatus : (kind : AppKind) → IsErrorStatus (status_code kind)
  application-IsErrorStatus application_error = (omega arith, omega arith)
  application-IsErrorStatus resource_not_found = (omega arith, omega arith)
  application-IsErrorStatus resource_forbidden = (omega arith, omega arith)
  application-IsErrorStatus upstream_unavailable = (omega arith, omega arith)
  application-IsErrorStatus invalid_credentials = (omega arith, omega arith)

  -- Every exception is answered with an error status, from 400 to 599, if the framework's own handler
  -- answers with one where it answers.
  pub handler-status :
      (e : Exn)
      → ((status : ℕ) (shape : FrameworkData)
          → H.framework e ≡ some (status, shape)
          → (400 ≤ status) × (status < 600))
      → (400 ≤ (api_exception_handler H e).status) × ((api_exception_handler H e).status < 600)
  unfolding api_exception_handler
  handler-status (application kind code m d) h = application-IsErrorStatus kind
  handler-status (whmcs_api kind m) h = api-IsErrorStatus kind m
  handler-status (whmcs_transport m) h = (omega arith, omega arith)
  handler-status http_404 h = (omega arith, omega arith)
  handler-status permission_denied h = (omega arith, omega arith)
  handler-status (whmcs_config m) h = framework-IsErrorStatus (H.framework (whmcs_config m)) h
  handler-status (zibal m r) h = framework-IsErrorStatus (H.framework (zibal m r)) h
  handler-status (runtime c) h = framework-IsErrorStatus (H.framework (runtime c)) h
