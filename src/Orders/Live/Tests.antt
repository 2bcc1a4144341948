-- ===== src/Orders/Live/Tests.antt =====
-- A customer orders over the live service, and sends the request again.
use whmcstemplate_bridge.Base.{
  some, if◌then◌else◌, leb, whmcs_transport, Outcome, returned, raised, ℕ, ◌<◌, ◌+◌, Bool, ◌≡◌,
  refl, ◌&&◌, List, [], ◌∷◌, arith, ◌==◌,
}
use whmcstemplate_bridge.Json.{Value, null, Fields}
use whmcstemplate_bridge.Core.Cells.{live, put_cell}
use whmcstemplate_bridge.Orders.Idempotency.{
  Answered, order_in_progress, idempotency_key, idempotency_ttl,
}
use whmcstemplate_bridge.Orders.Idempotency.Replays.{with_lock}
use whmcstemplate_bridge.Orders.Basket.{product}
use whmcstemplate_bridge.Orders.Placement.{Basket}
use whmcstemplate_bridge.Orders.Live.{place, order_post}
use whmcstemplate_bridge.Orders.Live.Posts.{basket_of, order_post-again, order_post-held}
use whmcstemplate_bridge.Api.Scope.{Http, IsLinked}
use whmcstemplate_bridge.Api.Tests.{framework, user_of, from_client}
use whmcstemplate_bridge.Whmcs.Services.{Call, Site, World, invalidate_for}
use whmcstemplate_bridge.Whmcs.Services.Accounts
use whmcstemplate_bridge.Whmcs.Services.Tests.{office, morning}
use whmcstemplate_bridge.Whmcs.Services.Isolation.Requests
use whmcstemplate_bridge.Whmcs.Services.Isolation.Requests.{perform, Reach, here, next, request}

abbrev basket : Basket
basket = record {
  whmcs_client_id = 0;
  items =
      product (record {
        product_id = 5;
        billing_cycle = "monthly";
        quantity = 1;
        domain = "";
        hostname = "";
        config_options = [];
        addons = [];
        custom_fields = [];
      })
      ∷ [];
  payment_method = "zibal";
  promo_code = "";
  nameservers = [];
  client_ip = "10.0.0.1";
}

abbrev letter : ℕ → Bool
letter c = leb 97 c && leb c 122

-- WHMCS that is cut off while it takes an order
abbrev answers : List Call → Outcome Fields
answers [] = office.answer []
answers (c ∷ calls) =
    if c.action == "AddOrder" then raised (whmcs_transport "timeout") else office.answer (c ∷ calls)

abbrev cut_off : Site
cut_off = record office { answer = answers }

abbrev customer : Http
customer = from_client (some 42)

customer-IsLinked : IsLinked framework customer 42
customer-IsLinked = record {
  user = user_of (some 42);
  is_user = refl;
  authenticated = refl;
  linked = refl;
}

-- `POST /orders` with the basket and a key
abbrev ordered : Site → World → Outcome Answered × World
ordered S = order_post S framework letter customer "abc" (returned basket)

abbrev first : Outcome Answered × World
first = ordered office morning

abbrev body_or_null : Outcome Answered → Value
body_or_null (returned a) = a.body
body_or_null (raised e) = null

-- another customer looks at the profile in between
abbrev later : World
later = (perform office (Requests.get_profile 43) first.1).1

first-placed : first ≡ (returned (record { status = 201; body = body_or_null first.0 }), first.1)
unfolding order_post live put_cell invalidate_for
first-placed = refl

later-soon : later.clock < first.1.clock + idempotency_ttl
unfolding order_post live put_cell Accounts.get_profile invalidate_for
later-soon = omega arith

order_post-again_example :
    ordered office later ≡ (returned (record { status = 200; body = body_or_null first.0 }), later)
unfolding idempotency_key
order_post-again_example =
    order_post-again framework office letter 42 "abc" "idem:order:42:abc" refl customer customer
      basket basket (body_or_null first.0) morning first.1 later customer-IsLinked customer-IsLinked
      first-placed (next here (request (Requests.get_profile 43) first.1)) later-soon

abbrev lost : World
lost = (ordered cut_off morning).1

order_post-held_example : ordered cut_off lost ≡ (raised order_in_progress, lost)
unfolding idempotency_key live place put_cell order_post
order_post-held_example =
    order_post-held framework cut_off letter 42 "abc" "idem:order:42:abc" refl customer customer
      basket basket "timeout" morning
      (place cut_off 42 (basket_of customer basket) (with_lock "idem:order:42:abc" morning)).1 lost
      customer-IsLinked customer-IsLinked refl refl refl refl here (omega arith) (omega arith)
