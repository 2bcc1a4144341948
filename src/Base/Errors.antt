-- ===== src/Base/Errors.antt =====
-- The exceptions of the program: apps/core/exceptions.py, apps/whmcs/exceptions.py, the gateway's
-- `ZibalError`, and those of the Python runtime that the modelled code may raise.
use Prim.Native.String.{String}
use mathlib.Core.Option.{Option}
use mathlib.Core.List.{List}
use whmcstemplate_bridge.Base.Int.{ℤ}

-- `ApplicationError` and its subclasses
pub data AppKind : Type 0 where
  application_error resource_not_found resource_forbidden upstream_unavailable : AppKind
  -- of apps/whmcs/services/accounts.py
  invalid_credentials : AppKind

-- `WhmcsAPIError` and its subclasses
pub data ApiKind : Type 0 where
  api_error auth_error not_found_error validation_error rate_limited : ApiKind

pub data Exn : Type 0 where
  application :
      AppKind → (code : String) → (message : String) → (details : List (String × String)) → Exn
  whmcs_config : (message : String) → Exn
  whmcs_transport : (message : String) → Exn
  whmcs_api : ApiKind → (message : String) → Exn
  zibal : (message : String) → (result : Option ℤ) → Exn
  http_404 : Exn
  permission_denied : Exn
  runtime : (class : String) → Exn
