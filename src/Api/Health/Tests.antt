-- ===== src/Api/Health/Tests.antt =====
-- The readiness probe of an installation that is cut off.
use whmcstemplate_bridge.Base.{
  Exn, Outcome, ◌⊎◌, subst, sym, ap, whmcs_transport, returned, raised, ◌≡◌, refl, false, true,
  arith,
}
use whmcstemplate_bridge.Json.{Fields}
use whmcstemplate_bridge.Api.Responses.{Response}
use whmcstemplate_bridge.Core.Cells.{live, put_cell}
use whmcstemplate_bridge.Whmcs.Services.{Site, World}
use whmcstemplate_bridge.Whmcs.Services.Tests.{office, morning}
use whmcstemplate_bridge.Whmcs.Services.Isolation.Requests.{Reach, here, next, tick}
use whmcstemplate_bridge.Api.Health.{readiness, readiness_response}
use whmcstemplate_bridge.Api.Health.Probes.{is_whmcs, asked, with_verdict, readiness-again}

abbrev cut_off : Site
cut_off = record office { answer = λ calls. raised (whmcs_transport "timeout") }

abbrev probed : World
probed = with_verdict false morning

abbrev half_a_minute_later : World
half_a_minute_later = record probed { clock = 1029 }

first_probe : readiness cut_off true morning ≡ (returned (readiness_response true false), probed)
unfolding readiness put_cell live
first_probe = refl

reached : Reach cut_off (readiness cut_off true morning).1 half_a_minute_later
reached =
    subst (λ (s : World). Reach cut_off s half_a_minute_later)
      (sym (ap (λ (r : Outcome Response × World). r.1) first_probe)) (next here (tick 1029 probed))

readiness-again_example :
    ((e : Exn) × (◌≡◌ {A = Outcome Fields} (raised (whmcs_transport "timeout")) (raised e))
      × (is_whmcs e ≡ false)
      × (readiness cut_off true morning ≡ (raised e, asked morning)))
    ⊎ ((readiness cut_off true morning ≡ (returned (readiness_response true false), probed))
        × (readiness cut_off false half_a_minute_later
            ≡ (returned (readiness_response false false), half_a_minute_later)))
unfolding live
readiness-again_example =
    readiness-again cut_off true false morning half_a_minute_later refl reached (omega arith)
