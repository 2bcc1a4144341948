-- ===== src/Api/Tests.antt =====
-- The endpoints on concrete requests.
use whmcstemplate_bridge.Base.{
  resource_not_found, Exn, application, permission_denied, raised, ℕ, String, ◌≡◌, refl, ◌⊎◌, Bool,
  true, false, Option, none, some, List, [], ◌∷◌,
}
use whmcstemplate_bridge.Json.{Value}
use whmcstemplate_bridge.Core.Cells.{live, put_cell}
use whmcstemplate_bridge.Whmcs.Services.Tests.{office, morning}
use whmcstemplate_bridge.Whmcs.Services.Isolation.Requests.{Request, perform, here}
use whmcstemplate_bridge.Api.Scope.{Account, Http, Framework, IsLinked}
use whmcstemplate_bridge.Api.Billing
use whmcstemplate_bridge.Api.Endpoints.{invoice_detail, serve}
use whmcstemplate_bridge.Api.Endpoints.Customer.{IsFor}
use whmcstemplate_bridge.Api.Endpoints.Requests.{serve-IsOneRequest}
use whmcstemplate_bridge.Api.Dashboard.{dashboard_body, dashboard}
use whmcstemplate_bridge.Api.Dashboard.Sections.{AreOwn, answer_of, dashboard-AreOwn}

abbrev pub framework : Framework
framework = record { denied = permission_denied; default_size = 20; escape_uri_path = λ s. s }

abbrev pub user_of : Option ℕ → Account
user_of id = record { email = "a@b.example"; is_authenticated = true; whmcs_client_id = id }

abbrev pub from_client : Option ℕ → Http
from_client id = record {
  user = some (user_of id);
  client_ip = "1.2.3.4";
  page = none;
  page_size = none;
  status = none;
}

serve-IsOneRequest_example :
    ((e : Exn) × (serve framework office (from_client (some 42)) (invoice_detail 7) morning
        ≡ (raised e, morning)))
    ⊎ ((n : ℕ) × IsLinked framework (from_client (some 42)) n
        × ((r : Request) × IsFor n r
            × ((serve framework office (from_client (some 42)) (invoice_detail 7) morning).1
                ≡ (perform office r morning).1)))
serve-IsOneRequest_example =
    serve-IsOneRequest framework office (from_client (some 42)) (invoice_detail 7) morning

abbrev schedule : List (String × Bool)
schedule = ("tickets", true) ∷ ("profile", true) ∷ ("services", false) ∷ []

dashboard-AreOwn_example :
    (dashboard framework office (from_client (some 42)) schedule morning
      ≡ (raised permission_denied, morning))
    ⊎ ((n : ℕ) × IsLinked framework (from_client (some 42)) n
        × ((sections : List (String × Option Value)) × AreOwn office n sections
            × ((dashboard framework office (from_client (some 42)) schedule morning).0
                ≡ answer_of office framework (from_client (some 42)) (dashboard_body sections))))
dashboard-AreOwn_example =
    dashboard-AreOwn office framework (from_client (some 42)) schedule morning morning refl here

-- A user without a client is refused before anything is read.
unlinked_refused :
    Billing.invoice_detail framework office (from_client none) 7 morning
    ≡ (raised permission_denied, morning)
unfolding Billing.invoice_detail
unlinked_refused = refl

-- Another client's invoice is not found, in the cache or not.
other_refused :
    (Billing.invoice_detail framework office
      (from_client (some 43))
      7
      (serve framework office (from_client (some 42)) (invoice_detail 7) morning).1).0
    ≡ raised (application resource_not_found "not_found" "Resource not found." [])
unfolding Billing.invoice_detail live put_cell
other_refused = refl
