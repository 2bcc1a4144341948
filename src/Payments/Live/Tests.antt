-- ===== src/Payments/Live/Tests.antt =====
-- A customer starts to pay over WHMCS.
use whmcstemplate_bridge.Base.{
  resource_not_found, application, pos, Outcome, returned, raised, ◌≡◌, refl, some, [],
}
use whmcstemplate_bridge.Json.{int_of, str, int, field, Fields, end}
use whmcstemplate_bridge.Payments.Start.{StartResult}
use whmcstemplate_bridge.Payments.World as Payment_world
use whmcstemplate_bridge.Payments.Tests.{shop}
use whmcstemplate_bridge.Payments.Amount.{to_rial}
use whmcstemplate_bridge.Payments.Models.{find}
use whmcstemplate_bridge.Payments.Zibal.{post, start_url}
use whmcstemplate_bridge.Payments.Views.{start_view}
use whmcstemplate_bridge.Payments.Live.{live_billing, read_fresh}
use whmcstemplate_bridge.Payments.Live.Checkout.{IsOwed, start_view-IsOwed}
use whmcstemplate_bridge.Whmcs.Services.{Site}
use whmcstemplate_bridge.Whmcs.Services.Tests.{office, morning}
use whmcstemplate_bridge.Api.Tests.{framework, from_client}

abbrev unpaid_7 : Fields
unpaid_7 =
    field "invoiceid" (int (pos 7)) (
      field "userid" (str "42")
        (field "status" (str "Unpaid") (field "balance" (str "125.00") end)))

abbrev site : Site
site = record office { answer = λ calls. returned unpaid_7 }

abbrev noon : Payment_world.World (live_billing site)
noon = record { attempts = []; calls = []; billing = morning; clock = 1000 }

abbrev result : StartResult
result = record {
  payment_id = "p2";
  redirect_url = "https://gateway.zibal.ir/start/t2";
  amount_rial = pos 1250;
  invoice_id = 7;
}

abbrev run : Outcome StartResult × Payment_world.World (live_billing site)
run = start_view shop framework (from_client (some 42)) 1 (returned "") 7 noon

started : run ≡ (returned result, run.1)
unfolding start_view read_fresh to_rial find post int_of start_url
started = refl

start_view-IsOwed_example :
    IsOwed shop framework site (from_client (some 42)) 1 (returned "") 7 noon run.1 result
start_view-IsOwed_example =
    start_view-IsOwed shop framework site (from_client (some 42)) 1 (returned "") 7 noon run.1
      result started

-- Another customer cannot pay the invoice.
refused :
    (start_view shop framework (from_client (some 43)) 1 (returned "") 7 noon).0
    ≡ raised (application resource_not_found "not_found" "Resource not found." [])
unfolding start_view read_fresh
refused = refl
