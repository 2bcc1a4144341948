-- ===== src/Payments/Zibal/Retries.antt =====
-- How often the gateway client asks, and when it takes an answer.
use whmcstemplate_bridge.Base.{
  Outcome, returned, raised, sym, subst, ap, ◌≢◌, ◌⊎◌, inl, inr, Exec, continue, ◌>>=◌, Allowed,
  Frame, frame_rules, ℕ, zero, suc, ◌≤◌, ◌<◌, String, ◌≡◌, refl, ◌∙◌, List, ◌∷◌, arith,
}
use whmcstemplate_bridge.Json.{Value, dict, str, Fields, end, field}
use whmcstemplate_bridge.Payments.World.{GatewayCall, http_failed, json, Reply, Billing, World, Env}
use whmcstemplate_bridge.Payments.Zibal.{send, on_reply, post_rounds, post, verify}

-- nothing changes
abbrev nothing : {W : Type 0} → Allowed W
nothing = record { May = λ w w'. w' ≡ w; stay = λ w. refl; then_may = λ u v w p q. q ∙ p }

-- what follows changes nothing
after-same :
    {W A C : Type 0} (m : Exec W A) (k : A → Exec W C)
    → ((a : A) → Frame nothing (k a))
    → (w : W) → ((m >>= k) w).1 ≡ (m w).1
after-same {W} {A} {C} m k f w = go (m w).0 (m w).1
  where
    go : (o : Outcome A) (w' : W) → (continue k o w').1 ≡ w'
    go (returned a) w' = (f a).at w'
    go (raised e) w' = refl

-- the POST is sent so many times more
abbrev pub resent : ℕ → GatewayCall → List GatewayCall → List GatewayCall
resent zero call calls = calls
resent (suc n) call calls = resent n call (call ∷ calls)

module _ (E : Env) where
  abbrev pub payload_of : String → Fields → GatewayCall
  payload_of path payload = record { path = path; body = field "merchant" (str E.merchant) payload }

  -- the answer to each of the next `n` POSTs is a failure
  abbrev pub AllFail : ℕ → GatewayCall → List GatewayCall → Type 0
  AllFail n call calls =
      (k : ℕ) → k < n → (exc : String) × (E.zibal (resent (suc k) call calls) ≡ http_failed exc)

module _ (E : Env) {B : Billing} where
  -- The same body was posted `n + 1` times, where `n` is at most the number of retries: the first `n`
  -- POSTs failed, and the last one either did not or was the last that is allowed. Nothing else changed.
  pub record IsPosts (retries : ℕ) (call : GatewayCall) (w w' : World B) : Type 0 where
    pub n : ℕ
    pub few : n ≤ retries
    pub calls : w'.calls ≡ resent (suc n) call w.calls
    pub failed : AllFail E n call w.calls
    pub last :
        (n ≡ retries) ⊎ ((exc : String) → E.zibal (resent (suc n) call w.calls) ≢ http_failed exc)
    pub attempts : w'.attempts ≡ w.attempts
    pub billing : w'.billing ≡ w.billing
    pub clock : w'.clock ≡ w.clock

  -- the first POST has not failed
  answered_first :
      (retries : ℕ) (call : GatewayCall) (w : World B) (reply : Value)
      → E.zibal (call ∷ w.calls) ≡ json reply
      → IsPosts retries call w (record w { calls = call ∷ w.calls })
  answered_first retries call w reply is = record {
    n = 0;
    few = omega arith;
    calls = refl;
    failed = λ k lt. absurd (omega (arith, lt));
    last = inr (λ exc fails. absurd (cc (is, fails)));
    attempts = refl;
    billing = refl;
    clock = refl;
  }

  -- the first POST has failed, and the rest is the same with one retry less
  failed_first :
      (retries : ℕ) (call : GatewayCall) (w w' : World B) (exc : String)
      → E.zibal (call ∷ w.calls) ≡ http_failed exc
      → IsPosts retries call (record w { calls = call ∷ w.calls }) w'
      → IsPosts (suc retries) call w w'
  failed_first retries call w w' exc is rest = record {
    n = suc rest.n;
    few = omega (arith, rest.few);
    calls = rest.calls;
    failed = failing;
    last = elim rest.last [ inl all ↦ inl (ap suc all) | inr answered ↦ inr answered ];
    attempts = rest.attempts;
    billing = rest.billing;
    clock = rest.clock;
  }
    where
      failing : AllFail E (suc rest.n) call w.calls
      failing zero lt = (exc, is)
      failing (suc k) lt = rest.failed k (omega (arith, lt))

  rounds-IsPosts :
      (retries : ℕ) (call : GatewayCall) (last : String) (w : World B) (r : Reply)
      → E.zibal (call ∷ w.calls) ≡ r
      → IsPosts retries call w (post_rounds E (suc retries) call last w).1
  unfolding post_rounds send on_reply
  rounds-IsPosts zero call last w (http_failed exc) is = rw is (record {
    n = 0;
    few = omega arith;
    calls = refl;
    failed = λ k lt. absurd (omega (arith, lt));
    last = inl refl;
    attempts = refl;
    billing = refl;
    clock = refl;
  })
  rounds-IsPosts (suc retries) call last w (http_failed exc) is =
      let w' = record w { calls = call ∷ w.calls } in
      rw is (
        failed_first retries call w _ exc is
          (rounds-IsPosts retries call exc w' (E.zibal (call ∷ w'.calls)) refl))
  rounds-IsPosts retries call last w (json (dict d)) is =
      rw is (answered_first retries call w (dict d) is)
  rounds-IsPosts retries call last w (json v) is = rw is (answered_first retries call w v is)

  post-IsPosts :
      (path : String) (payload : Fields) (retries : ℕ) (w : World B)
      → IsPosts retries (payload_of E path payload) w (post E path payload retries w).1
  unfolding post
  post-IsPosts path payload retries w =
      let call = payload_of E path payload in
      rounds-IsPosts retries call "None" w (E.zibal (call ∷ w.calls)) refl

  -- A verification posts one body once at least and `verify_retries + 1` times at most: it posts again
  -- exactly after a failure, as long as it may. Nothing but the log of POSTs changes.
  pub verify-IsPosts :
      (track_id : String) (w : World B)
      → IsPosts E.verify_retries
          (payload_of E "/v1/verify" (field "trackId" (str track_id) end))
          w
          (verify E track_id w).1
  unfolding verify
  verify-IsPosts track_id w =
      let call = payload_of E "/v1/verify" (field "trackId" (str track_id) end) in
      let m = post E {B = B} "/v1/verify" (field "trackId" (str track_id) end) E.verify_retries in
      subst (IsPosts E.verify_retries call w)
        (sym (after-same m _ (λ reply. search frame_rules depth 12) w))
        (post-IsPosts "/v1/verify" (field "trackId" (str track_id) end) E.verify_retries w)

  rounds-answer :
      (n retries : ℕ) (call : GatewayCall) (last : String) (w : World B) (reply : Fields)
      → n ≤ retries
      → AllFail E n call w.calls
      → E.zibal (resent (suc n) call w.calls) ≡ json (dict reply)
      → post_rounds E (suc retries) call last w
        ≡ (returned reply, record w { calls = resent (suc n) call w.calls })
  unfolding post_rounds send on_reply
  rounds-answer zero retries call last w reply h failing good = rw good refl
  rounds-answer (suc n) zero call last w reply h failing good = absurd (omega arith)
  rounds-answer (suc n) (suc retries) call last w reply h failing good =
      let (exc, e) = failing 0 (omega arith) in
      rw e (
        rounds-answer n retries call exc (record w { calls = call ∷ w.calls }) reply (omega arith)
          (λ k lt. failing (suc k) (omega arith)) good)

  -- Where the first `n` POSTs fail, `n` is at most the number of retries and the next answer is a
  -- JSON object, `_post` returns that object, after exactly `n + 1` POSTs of one body.
  pub post-answer :
      (path : String) (payload : Fields) (n retries : ℕ) (w : World B) (reply : Fields)
      → n ≤ retries
      → AllFail E n (payload_of E path payload) w.calls
      → E.zibal (resent (suc n) (payload_of E path payload) w.calls) ≡ json (dict reply)
      → post E path payload retries w
        ≡ (returned reply, record w { calls = resent (suc n) (payload_of E path payload) w.calls })
  unfolding post
  post-answer path payload n retries w reply h failing good =
      rounds-answer n retries _ "None" w reply h failing good
