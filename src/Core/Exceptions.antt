-- ===== src/Core/Exceptions.antt =====
-- `api_exception_handler` of apps/core/exceptions.py, without its log lines.
pub mod Leaks
use whmcstemplate_bridge.Base.{
  prefix, or_text, AppKind, application_error, resource_not_found, resource_forbidden,
  upstream_unavailable, invalid_credentials, ApiKind, api_error, auth_error, not_found_error,
  validation_error, rate_limited, Exn, application, whmcs_transport, whmcs_api, http_404,
  permission_denied, returned, ℕ, String, not, Option, none, some, List, [], ◌∷◌,
}

-- the value of an entry of `details`: a text, or a list of texts
pub data Detail : Type 0 where
  one_text : String → Detail
  texts : List String → Detail

-- `{"error": {…}}` with its status
pub record ErrorResponse : Type 0 where
  pub status : ℕ
  pub code : String
  pub message : String
  pub details : List (String × Detail)
  pub request_id : String

-- `response.data` of Django REST framework's own handler, by its shape: with a `detail`, with errors
-- by field, a list of errors, or anything else. The texts are what `str` makes of the values.
pub data FrameworkData : Type 0 where
  with_detail : (message : String) → (code : Option String) → FrameworkData
  field_errors : List (String × Detail) → FrameworkData
  error_list : List String → FrameworkData
  other_data : FrameworkData

-- The request's id, the framework's handler and `str` of an exception of its own.
pub record Handling : Type 0 where
  pub request_id : String
  pub framework : Exn → Option (ℕ × FrameworkData)

-- `status_code` of the classes of application errors
abbrev pub status_code : AppKind → ℕ
status_code application_error = 400
status_code resource_not_found = 404
status_code resource_forbidden = 403
status_code upstream_unavailable = 503
status_code invalid_credentials = 401

abbrev pub plain_details : List (String × String) → List (String × Detail)
plain_details [] = []
plain_details ((k, v) ∷ details) = (k, one_text v) ∷ plain_details details

-- `_WHMCS_MAP`: the status, the code and the public message, none where WHMCS' own is shown
abbrev pub whmcs_map : ApiKind → Option (ℕ × String × Option String)
whmcs_map api_error = none
whmcs_map auth_error =
    some (502, "upstream_auth_failed", some "The billing system rejected our credentials.")
whmcs_map not_found_error = some (404, "not_found", some "Resource not found.")
whmcs_map validation_error = some (400, "invalid_request", none)
whmcs_map rate_limited =
    some (429, "upstream_rate_limited", some "The billing system is busy, try again shortly.")

abbrev or_empty : Option String → String → String
or_empty none s = s
or_empty (some t) s = or_text t s

module _ (H : Handling) where
  -- `Response(_envelope(code, message, details), status=status)`
  abbrev envelope : ℕ → String → String → List (String × Detail) → ErrorResponse
  envelope status code message details = record {
    status = status;
    code = code;
    message = message;
    details = details;
    request_id = H.request_id;
  }

  -- `public_message or str(exc)[:200]`
  mapped : String → Option (ℕ × String × Option String) → ErrorResponse
  unfolding prefix
  mapped message none = envelope 502 "upstream_error" "The billing system returned an error." []
  mapped message (some (status, code, public_message)) =
      envelope status code (or_empty public_message (prefix 200 message)) []

  from_framework : Option (ℕ × FrameworkData) → ErrorResponse
  from_framework none = envelope 500 "internal_error" "Unexpected server error." []
  from_framework (some (status, with_detail message code)) =
      envelope status (or_empty code "invalid_request") message []
  from_framework (some (status, field_errors details)) =
      envelope status "validation_error" "Validation failed." details
  from_framework (some (status, error_list errors)) =
      envelope status "validation_error" "Validation failed."
        (("non_field_errors", texts errors) ∷ [])
  from_framework (some (status, other_data)) =
      envelope status "invalid_request" "The request could not be processed." []

  unfoldable pub api_exception_handler : Exn → ErrorResponse
  unfolding mapped from_framework
  api_exception_handler (application kind code message details) =
      envelope (status_code kind) code message (plain_details details)
  api_exception_handler (whmcs_api kind message) = mapped message (whmcs_map kind)
  api_exception_handler (whmcs_transport message) =
      mapped message
        (some (504, "upstream_unreachable", some "The billing system did not respond in time."))
  api_exception_handler http_404 = envelope 404 "not_found" "Resource not found." []
  api_exception_handler permission_denied = envelope 403 "forbidden" "Permission denied." []
  api_exception_handler e = from_framework (H.framework e)
