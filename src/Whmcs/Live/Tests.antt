-- ===== src/Whmcs/Live/Tests.antt =====
-- The services over the client and a network that fails once and then answers.
use whmcstemplate_bridge.Base.{All, length, ◌≤◌, ◌≡◌, refl, true, some, List, [], ◌∷◌, pos}
use whmcstemplate_bridge.Json.{int, dict, end, field}
use whmcstemplate_bridge.Whmcs.Form.{Form}
use whmcstemplate_bridge.Whmcs.Transport.{
  Answer, transport_error, answered, Wire, Net, is_idempotent,
}
use whmcstemplate_bridge.Whmcs.Live.{net_after, answer_of, live_site}
use whmcstemplate_bridge.Whmcs.Live.Lawful.{IsLawful, budget, ArePassed, Reach-ArePassed}
use whmcstemplate_bridge.Whmcs.Services.{Site, World, ask}
use whmcstemplate_bridge.Whmcs.Services.Billing
use whmcstemplate_bridge.Whmcs.Services.Tests.{office, morning}
use whmcstemplate_bridge.Whmcs.Services.Isolation.Requests.{perform, Reach, here, next, request}
use whmcstemplate_bridge.Whmcs.Services.Isolation.Requests

abbrev answers : List Form → Answer
answers [] = transport_error "ConnectError"
answers (body ∷ []) = transport_error "ConnectError"
answers (body ∷ before ∷ bodies) = answered (record {
  status_code = 200;
  text = "{}";
  json = some (dict (field "invoiceid" (int (pos 7)) (field "userid" (int (pos 42)) end)));
})

abbrev flaky : Wire
flaky = record {
  config = office.config;
  md5 = λ s. s;
  lower = λ s. s;
  repr = λ _. "?";
  post = answers;
}

abbrev silent : Net
silent = record { requests = []; pauses = [] }

abbrev live_office : Site
live_office = live_site flaky silent office

abbrev after_invoice : World
after_invoice = (perform live_office (Requests.get_invoice 42 7 true) morning).1

abbrev busy : Reach live_office morning after_invoice
busy = next here (request (Requests.get_invoice 42 7 true) morning)

Reach-ArePassed_example :
    ArePassed flaky silent after_invoice.upstream
    × All IsLawful (net_after flaky silent after_invoice.upstream).requests
    × (length (net_after flaky silent after_invoice.upstream).requests
        ≤ budget flaky after_invoice.upstream)
Reach-ArePassed_example = Reach-ArePassed flaky silent office morning after_invoice refl refl busy

-- One call, which is posted a second time.
posted_twice :
    (length after_invoice.upstream ≡ 1)
    × (length (net_after flaky silent after_invoice.upstream).requests ≡ 2)
unfolding net_after answer_of Billing.get_invoice Billing.fetch_invoice ask is_idempotent
posted_twice = (refl, refl)
