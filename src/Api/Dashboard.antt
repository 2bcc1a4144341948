-- ===== src/Api/Dashboard.antt =====
-- apps/core/dashboard.py.
pub mod Sections
use whmcstemplate_bridge.Base.{
  if◌then◌else◌, pos, runtime, Outcome, returned, raised, Exec, ◌>>=◌, ◌>>◌, ℕ, String, Bool,
  Option, none, some, List, [], ◌∷◌,
}
use whmcstemplate_bridge.Json.{
  Value, int, str, list, dict, Items, nil, cons, end, field, get_or, truthy, or_value,
}
use whmcstemplate_bridge.Core.Aggregate
use whmcstemplate_bridge.Core.Aggregate.{section, gather}
use whmcstemplate_bridge.Core.Pagination.{PageRequest}
use whmcstemplate_bridge.Whmcs.Services.{Site, World}
use whmcstemplate_bridge.Whmcs.Services.Accounts
use whmcstemplate_bridge.Whmcs.Services.Billing
use whmcstemplate_bridge.Whmcs.Services.Domains
use whmcstemplate_bridge.Whmcs.Services.Hosting
use whmcstemplate_bridge.Whmcs.Services.Support
use whmcstemplate_bridge.Api.Scope.{Http, Framework, for_client}
use whmcstemplate_bridge.Api.Responses.{Response, respond}

abbrev pub first_page : PageRequest
first_page = record { page = 1; page_size = 5 }

-- the reads of the landing page
unfoldable pub tasks : Site → (client_id : ℕ) → List (String × Exec World Value)
unfolding Accounts.get_profile Hosting.list_services Domains.list_domains Billing.list_invoices
    Support.list_tickets
tasks S client_id =
    ("profile", Accounts.get_profile S client_id)
    ∷ ("services", Hosting.list_services S client_id first_page "Active")
    ∷ ("domains", Domains.list_domains S client_id first_page)
    ∷ ("invoices", Billing.list_invoices S client_id first_page "Unpaid")
    ∷ ("tickets", Support.list_tickets S client_id first_page "Open")
    ∷ []

-- `items, count = sections[name] or ([], 0)`
unfoldable pub counted : Option Value → Outcome (Value × Value)
unfolding truthy
counted none = returned (list nil, int (pos 0))
counted (some (list (cons items (cons count nil)))) = returned (items, count)
counted (some v) =
    if truthy v then raised (runtime "ValueError") else returned (list nil, int (pos 0))

-- `sections["profile"] or {}`
abbrev pub or_empty : Option Value → Value
or_empty none = dict end
or_empty (some v) = or_value v (dict end)

-- `profile.get(name, default)`
get_default : (name : String) → (default : Value) → Value → Outcome Value
unfolding get_or
get_default name default (dict d) = returned (get_or name default d)
get_default name default _ = raised (runtime "AttributeError")

-- the names of the sections that are None
unfoldable pub unavailable : Aggregate.Sections → Items
unavailable [] = nil
unavailable ((name, none) ∷ sections) = cons (str name) (unavailable sections)
unavailable ((name, some v) ∷ sections) = unavailable sections

profile_body : Value → Outcome Value
unfolding get_default
profile_body profile = elim (get_default "first_name" (str "") profile) [
  | raised e ↦ raised e
  | returned first_name ↦ elim (get_default "last_name" (str "") profile) [
    | raised e ↦ raised e
    | returned last_name ↦ elim (get_default "email" (str "") profile) [
      | raised e ↦ raised e
      | returned email ↦ elim (get_default "credit" (str "0.00") profile) [
        | raised e ↦ raised e
        | returned credit ↦ elim (get_default "currency_code" (str "") profile) [
          | raised e ↦ raised e
          | returned currency_code ↦ returned (
              dict (
                field "first_name" first_name (
                  field "last_name" last_name (
                    field "email" email
                      (field "credit" credit (field "currency_code" currency_code end))))))
        ]
      ]
    ]
  ]
]

-- the four lists with their counts, and the profile
summary_body :
    (services domains invoices tickets : Value × Value) → (profile missing : Value) → Value
summary_body services domains invoices tickets profile missing = dict (
    field "profile" profile (
      field "summary"
        (dict (
          field "active_services" services.1 (
            field "domains" domains.1
              (field "unpaid_invoices" invoices.1 (field "open_tickets" tickets.1 end)))))
        (field "services" services.0 (
          field "domains" domains.0 (
            field "unpaid_invoices" invoices.0
              (field "open_tickets" tickets.0 (field "unavailable" missing end)))))))

-- the body that is made of the sections
unfoldable pub dashboard_body : Aggregate.Sections → Outcome Value
unfolding section counted profile_body summary_body unavailable
dashboard_body sections = elim (counted (section "services" sections)) [
  | raised e ↦ raised e
  | returned services ↦ elim (counted (section "domains" sections)) [
    | raised e ↦ raised e
    | returned domains ↦ elim (counted (section "invoices" sections)) [
      | raised e ↦ raised e
      | returned invoices ↦ elim (counted (section "tickets" sections)) [
        | raised e ↦ raised e
        | returned tickets ↦ elim (profile_body (or_empty (section "profile" sections))) [
          | raised e ↦ raised e
          | returned profile ↦
              returned (
                summary_body services domains invoices tickets profile
                  (list (unavailable sections)))
        ]
      ]
    ]
  ]
]

module _ (F : Framework) (S : Site) (q : Http) where
  -- `DashboardView.get`, with the order in which the reads end
  unfoldable pub dashboard : (schedule : List (String × Bool)) → Exec World Response
  unfolding for_client respond gather tasks dashboard_body
  dashboard schedule =
      for_client F q (λ client_id. respond 200 dashboard_body (gather (tasks S client_id) schedule))
