-- ===== src/Payments/Zibal/Posts.antt =====
-- What the gateway client does to the world: only the log of POSTs grows, by so many.
use whmcstemplate_bridge.Base.{
  length, ℤ, Exec, Allowed, Frame, frame_rules, ℕ, zero, suc, ◌+◌, ◌≤◌, String, ◌≡◌, refl, ◌∙◌, ◌∷◌,
  arith,
}
use whmcstemplate_bridge.Json.{null, dict, Fields}
use whmcstemplate_bridge.Payments.World.{GatewayCall, Reply, http_failed, json, Billing, World, Env}
use whmcstemplate_bridge.Payments.Zibal.{
  gateway, send, on_reply, post_rounds, post, request_payment, verify,
}

module _ {B : Billing} where
  -- At most `n` POSTs, and nothing else.
  pub record Posted (n : ℕ) (w w' : World B) : Type 0 where
    pub attempts : w'.attempts ≡ w.attempts
    pub billing : w'.billing ≡ w.billing
    pub clock : w'.clock ≡ w.clock
    pub fewest : length w.calls ≤ length w'.calls
    pub most : length w'.calls ≤ length w.calls + n

  pub Posted-refl : (n : ℕ) (w : World B) → Posted n w w
  Posted-refl n w = record {
    attempts = refl;
    billing = refl;
    clock = refl;
    fewest = omega arith;
    most = omega arith;
  }

  Posted-suc :
      (n : ℕ) (call : GatewayCall) (w w' : World B)
      → Posted n (record w { calls = call ∷ w.calls }) w'
      → Posted (suc n) w w'
  Posted-suc n call w w' h = record {
    attempts = h.attempts;
    billing = h.billing;
    clock = h.clock;
    fewest = omega (arith, h.fewest);
    most = omega (arith, h.most);
  }

  -- any number of POSTs, and nothing else
  pub record OnlyPosted (w w' : World B) : Type 0 where
    pub attempts : w'.attempts ≡ w.attempts
    pub billing : w'.billing ≡ w.billing
    pub clock : w'.clock ≡ w.clock

  abbrev pub only_posts : Allowed (World B)
  only_posts = record {
    May = OnlyPosted;
    stay = λ w. record { attempts = refl; billing = refl; clock = refl };
    then_may = λ u v w p q. record {
      attempts = q.attempts ∙ p.attempts;
      billing = q.billing ∙ p.billing;
      clock = q.clock ∙ p.clock;
    };
  }

module _ {B : Billing} where
  on_reply-Posted :
      (n : ℕ) (path : String) (next : String → Exec (World B) Fields) (r : Reply) (w : World B)
      → ((exc : String) → Posted n w (next exc w).1)
      → Posted n w (on_reply path next r w).1
  unfolding on_reply
  on_reply-Posted n path next (http_failed exc) w h = h exc
  on_reply-Posted n path next (json (dict d)) w h = Posted-refl n w
  on_reply-Posted n path next (json null) w h = Posted-refl n w
  on_reply-Posted n path next (json _) w h = Posted-refl n w

module _ (E : Env) {B : Billing} where
  post_rounds-Posted :
      (n : ℕ) (call : GatewayCall) (last : String) (w : World B)
      → Posted n w (post_rounds E n call last w).1
  unfolding post_rounds send
  post_rounds-Posted zero call last w = Posted-refl zero w
  post_rounds-Posted (suc n) call last w =
      let w' = record w { calls = call ∷ w.calls } in
      Posted-suc n call w _ (
        on_reply-Posted n call.path (post_rounds E n call) (E.zibal w'.calls) w'
          (λ exc. post_rounds-Posted n call exc w'))

  pub post-Posted :
      (path : String) (payload : Fields) (retries : ℕ) (w : World B)
      → Posted (suc retries) w (post E path payload retries w).1
  unfolding post
  post-Posted path payload retries w = post_rounds-Posted (suc retries) _ "None" w

  post-Frame :
      (path : String) (payload : Fields) (n : ℕ) → Frame only_posts (post E {B = B} path payload n)
  post-Frame path payload n = record {
    at = λ w.
        let h = post-Posted path payload n w in
        record { attempts = h.attempts; billing = h.billing; clock = h.clock };
  }

  pub gateway-Frame : Frame only_posts (gateway E {B = B})
  unfolding gateway
  gateway-Frame = search frame_rules

  -- A verification changes the log of POSTs alone.
  pub verify-Frame : (track_id : String) → Frame only_posts (verify E {B = B} track_id)
  unfolding verify
  verify-Frame track_id = search (frame_rules, post-Frame) depth 12

  pub request_payment-Frame :
      (amount : ℤ) (url order description mobile : String)
      → Frame only_posts (request_payment E {B = B} amount url order description mobile)
  unfolding request_payment
  request_payment-Frame amount url order description mobile =
      search (frame_rules, post-Frame) depth 12
