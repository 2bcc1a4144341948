-- ===== src/Payments/Tests.antt =====
-- The payments on concrete data: a shop with one client, whose gateway and billing always answer.
use whmcstemplate_bridge.Base.{
  prefix, if◌then◌else◌, pos, int_eq, Outcome, returned, raised, ℕ, ◌+◌, ◌≤◌, ◌≡◌, refl, sym, ap,
  ◌⊎◌, true, false, not, ◌&&◌, ◌||◌, none, some, List, [], ◌∷◌, ◌==◌,
}
use whmcstemplate_bridge.Json.{dict, int, str, Fields, end, field, get_or, int_of, truthy, str_of}
use whmcstemplate_bridge.Core.Pagination.{PageRequest}
use whmcstemplate_bridge.Payments.Models.{redirected, PaymentAttempt, find, modify}
use whmcstemplate_bridge.Payments.World.{
  GatewayCall, Reply, http_failed, json, Payment, Billing, World, Env,
}
use whmcstemplate_bridge.Payments.Zibal.{ZibalVerification, gateway, post, verify}
use whmcstemplate_bridge.Payments.Zibal.Retries.{payload_of, IsPosts, verify-IsPosts}
use whmcstemplate_bridge.Payments.Models.Lookup.{status_of}
use whmcstemplate_bridge.Payments.Settle.{ask, decide, apply_verification, settle}
use whmcstemplate_bridge.Payments.Settle.Judge.{judged_row, judged_world}
use whmcstemplate_bridge.Payments.Settle.Credit.{earned_payment, IsEarned, settle-credit}
use whmcstemplate_bridge.Payments.Settle.Verdict.{verdict, whmcs_takes, is_returned, settle-verdict}
use whmcstemplate_bridge.Payments.Interleaving.{
  looked, answered, holding, System, advance, Step, enter, move, Reach, here, next,
}
use whmcstemplate_bridge.Payments.Interleaving.Recorded.{StaysRecorded, Reach-stays}
use whmcstemplate_bridge.Payments.Interleaving.Credits.{IsBacked, report-IsBacked}
use whmcstemplate_bridge.Payments.Views.{serialize, callback, payment_status}
use whmcstemplate_bridge.Payments.Views.Redirects.{IsRedirect, callback-IsRedirect}
use whmcstemplate_bridge.Payments.Reconcile.{Options, Summary, handle}
use whmcstemplate_bridge.Payments.Reconcile.Runs.{pending_count, handle-runs}
use whmcstemplate_bridge.Whmcs.Services.Tests.{office, morning}
use whmcstemplate_bridge.Payments.Live.{live_billing}
use whmcstemplate_bridge.Payments.Live.Credited.{IsCredited, settle-IsCredited}

abbrev verify_reply : Fields
verify_reply =
    field "result" (int (pos 100))
      (field "amount" (int (pos 1250)) (field "refNumber" (str "r1") end))

abbrev request_reply : Fields
request_reply = field "result" (int (pos 100)) (field "trackId" (str "t2") end)

abbrev pub answers : List GatewayCall → Reply
answers [] = http_failed "ConnectError"
answers (call ∷ calls) =
    if call.path == "/v1/request" then json (dict request_reply) else json (dict verify_reply)

abbrev pub shop : Env
shop = record {
  merchant = "m";
  verify_retries = 2;
  callback_base_url = "https://api.example/";
  result_url = "https://shop.example/result/";
  amount_multiplier = "10";
  callback_path = "/callback";
  zibal = answers;
  elapsed = λ _. 1;
  uuid4 = λ _. "p2";
  repr = λ _. "?";
  fromisoformat = λ _. none;
  make_aware = λ t. t;
  strftime = λ _. "now";
}

-- A ledger that takes every payment.
abbrev ledger : Billing
ledger = record {
  State = List Payment;
  get_invoice =
      λ client invoice s. (returned (record { status = "Unpaid"; balance = "125.00" }), s);
  record_payment = λ p s. (returned tt, p ∷ s);
}

abbrev visit : PaymentAttempt
visit = record {
  id = "p1";
  user = 1;
  whmcs_client_id = 7;
  invoice_id = 42;
  gateway = "zibal";
  amount_rial = pos 1250;
  amount_whmcs = "125.00";
  status = redirected;
  track_id = some "t1";
  ref_number = "";
  card_mask = "";
  gateway_result = none;
  gateway_message = "";
  paid_at = none;
  recorded_at = none;
  client_ip = none;
  created_at = 1000;
  updated_at = 1000;
}

abbrev today : World ledger
today = record { attempts = visit ∷ []; calls = []; billing = []; clock = 2000 }

abbrev confirmed : ZibalVerification
confirmed = record {
  paid = true;
  amount_rial = pos 1250;
  result = pos 100;
  status = pos 0;
  ref_number = "r1";
  card_number = "";
  paid_at = none;
  already_verified = false;
}

abbrev asked_call : GatewayCall
asked_call = payload_of shop "/v1/verify" (field "trackId" (str "t1") end)

abbrev result_or {ℓ} : {A : Type ℓ} → A → Outcome A → A
result_or a (returned b) = b
result_or a (raised e) = a

ask-confirmed :
    (w : World ledger) (v : ZibalVerification) → (ask shop "t1" w).0 ≡ returned v → v ≡ confirmed
unfolding gateway verify post int_of get_or truthy str_of
ask-confirmed w v h = ap (result_or v) (sym h)

ask-today : ask shop "t1" today ≡ (returned confirmed, record today { calls = asked_call ∷ [] })
unfolding gateway verify post int_of get_or truthy str_of
ask-today = refl

settle-credit_example :
    ((settle shop {B = ledger} "t1" today).1.billing ≡ [])
    ⊎ IsEarned shop {B = ledger} "t1" today (settle shop {B = ledger} "t1" today).1.billing
settle-credit_example = settle-credit shop "t1" today

settle-verdict_example :
    (time : ℕ) × (status_of "p1" (settle shop "t1" today).1.attempts
      ≡ some (
          verdict
            (whmcs_takes shop (earned_payment shop "t1" visit confirmed time) today)
            confirmed
            visit))
    × (is_returned (settle shop "t1" today).0 ≡ (
        not (confirmed.paid && int_eq confirmed.amount_rial visit.amount_rial)
        || whmcs_takes shop (earned_payment shop "t1" visit confirmed time) today))
unfolding find
settle-verdict_example = settle-verdict shop "t1" today _ confirmed visit refl refl refl ask-today

-- the same callback, in pieces
abbrev idle : System ledger
idle = record { world = today; runs = [] }

abbrev entered : System ledger
entered = record { world = today; runs = looked "t1" visit ∷ [] }

abbrev after_ask : System ledger
after_ask = record {
  world = record today { calls = asked_call ∷ [] };
  runs = answered "t1" visit confirmed ∷ [];
}

abbrev judged_visit : PaymentAttempt
judged_visit = judged_row confirmed visit 2001 2002

abbrev after_lock : System ledger
after_lock = record {
  world = judged_world confirmed visit 2001 2002 after_ask.world;
  runs = holding "t1" judged_visit 2001 ∷ [];
}

entering : Step shop idle entered
unfolding find
entering = enter "t1" visit refl refl refl

asking : Step shop entered after_ask
unfolding advance
asking = move [] (looked "t1" visit) [] refl (rw ask-today refl)

locking : Step shop after_ask after_lock
unfolding advance apply_verification find modify decide
locking = move [] (answered "t1" visit confirmed) [] refl refl

reached : Reach shop idle after_lock
reached = next (next (next here entering) asking) locking

report-IsBacked_example : IsBacked shop idle after_lock "t1" judged_visit
report-IsBacked_example = report-IsBacked shop [] [] "t1" judged_visit 2001 refl reached refl

Reach-stays_example : StaysRecorded (visit ∷ []) after_lock.world.attempts
Reach-stays_example = Reach-stays shop reached

verify-IsPosts_example :
    IsPosts shop 2
      (payload_of shop "/v1/verify" (field "trackId" (str "t1") end))
      today
      (verify shop "t1" today).1
verify-IsPosts_example = verify-IsPosts shop "t1" today

callback-IsRedirect_example : IsRedirect shop (prefix 64 "t1") today (callback shop "t1" today)
callback-IsRedirect_example = callback-IsRedirect shop "t1" today

abbrev first_page : PageRequest
first_page = record { page = 1; page_size = 20 }

payment_status_found : (payment_status 7 "p1" today).0 ≡ returned (serialize visit)
unfolding payment_status find
payment_status_found = refl

abbrev nightly : Options
nightly = record { max_age_hours = 24; include_abandoned = true; dry_run = false }

handle-runs_example :
    (s : Summary) × ((handle shop nightly today).0 ≡ returned s)
    × (s.recorded + s.failed ≤ pending_count shop nightly today)
    × StaysRecorded today.attempts (handle shop nightly today).1.attempts
    × (false ≡ true
        → ((handle shop nightly today).1.attempts ≡ today.attempts)
          × ((handle shop nightly today).1.calls ≡ today.calls)
          × ((handle shop nightly today).1.billing ≡ today.billing))
handle-runs_example = handle-runs shop nightly today

-- the shop over WHMCS
abbrev opened : World (live_billing office)
opened = record { attempts = today.attempts; calls = []; billing = morning; clock = 1000 }

settle-IsCredited_example :
    ((settle shop "t1" opened).1.billing.upstream ≡ [])
    ⊎ IsCredited shop office "t1" opened (settle shop "t1" opened).1.billing
settle-IsCredited_example = settle-IsCredited shop office "t1" opened
