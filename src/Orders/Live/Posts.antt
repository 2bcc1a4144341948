-- ===== src/Orders/Live/Posts.antt =====
-- Repeated requests of a customer to place an order.
use whmcstemplate_bridge.Base.{
  Bool-cases, whmcs_transport, Outcome, returned, raised, ℕ, ◌+◌, ◌≤◌, ◌<◌, String, ◌≡◌, refl, sym,
  subst, ◌∙◌, Bool, true, false, inl, inr, none, some,
}
use whmcstemplate_bridge.Json.{Value}
use whmcstemplate_bridge.Core.Cells.{live}
use whmcstemplate_bridge.Orders.Idempotency.{
  idempotency_ttl, idempotency_lock_ttl, order_lock, Answered, order_in_progress, idempotency_key,
}
use whmcstemplate_bridge.Orders.Idempotency.Replays.{with_lock}
use whmcstemplate_bridge.Orders.Placement.{Basket}
use whmcstemplate_bridge.Orders.Live.{place, order_create, order_post}
use whmcstemplate_bridge.Orders.Live.Once.{order_create-again, order_create-held}
use whmcstemplate_bridge.Whmcs.Services.{Site, World}
use whmcstemplate_bridge.Whmcs.Services.Isolation.Requests.{Reach}
use whmcstemplate_bridge.Api.Scope.{Http, Framework, is_id, for_client-linked, IsLinked}

-- the basket with the address of its request
abbrev pub basket_of : Http → Basket → Basket
basket_of q b = record b { client_ip = q.client_ip }

module _ (F : Framework) (S : Site) (is_alnum : ℕ → Bool) (n : ℕ) (raw key : String)
    (keyed : idempotency_key is_alnum n raw ≡ some key) where
  order_post-run :
      (q : Http) (b : Basket) (w : World)
      → IsLinked F q n
      → is_id (some n) ≡ true
      → order_post S F is_alnum q raw (returned b) w
        ≡ order_create S is_alnum n raw (basket_of q b) w
  unfolding order_post
  order_post-run q b w linked id = for_client-linked F q _ n w linked ∙ rw id refl

  order_post-denied :
      (q : Http) (b : Basket) (w : World)
      → IsLinked F q n
      → is_id (some n) ≡ false
      → order_post S F is_alnum q raw (returned b) w ≡ (raised F.denied, w)
  unfolding order_post
  order_post-denied q b w linked id = for_client-linked F q _ n w linked ∙ rw id refl

  -- Once a customer has placed an order under an Idempotency-Key, and whatever requests of the
  -- services and refreshes follow, a valid request for the same client with the same key within 24
  -- hours gets the same body, with status 200, whatever its basket is; it calls no WHMCS action and
  -- changes nothing.
  pub order_post-again :
      (q q' : Http) (b again : Basket) (v : Value) (w w' u : World)
      → IsLinked F q n
      → IsLinked F q' n
      → order_post S F is_alnum q raw (returned b) w
        ≡ (returned (record { status = 201; body = v }), w')
      → Reach S w' u
      → u.clock < w'.clock + idempotency_ttl
      → order_post S F is_alnum q' raw (returned again) u
        ≡ (returned (record { status = 200; body = v }), u)
  order_post-again q q' b again v w w' u linked linked' first reached soon =
      elim (Bool-cases (is_id (some n))) [
        | inl id ↦
            order_post-run q' again u linked' id
            ∙ order_create-again S is_alnum n raw key keyed (basket_of q b) (basket_of q' again) v w
                w' u (sym (order_post-run q b w linked id) ∙ first) reached soon
        | inr id ↦ absurd (cc (order_post-denied q b w linked id, first))
      ]

  -- After a customer's order that failed in transport, so that its outcome is unknown, and whatever
  -- requests of the services and refreshes follow, a valid request for the same client with the same
  -- key within the 120 seconds of the lock is refused; it calls no WHMCS action and changes nothing.
  pub order_post-held :
      (q q' : Http) (b again : Basket) (message : String) (w w' u : World)
      → IsLinked F q n
      → IsLinked F q' n
      → is_id (some n) ≡ true
      → live w.clock key w.store ≡ none
      → live w.clock (order_lock key) w.store ≡ none
      → place S n (basket_of q b) (with_lock key w) ≡ (raised (whmcs_transport message), w')
      → Reach S (order_post S F is_alnum q raw (returned b) w).1 u
      → w.clock ≤ u.clock
      → u.clock < w.clock + idempotency_lock_ttl
      → order_post S F is_alnum q' raw (returned again) u ≡ (raised order_in_progress, u)
  order_post-held q q' b again message w w' u linked linked' id free unlocked ran reached later
        soon =
      order_post-run q' again u linked' id
      ∙ order_create-held S is_alnum n raw key keyed (basket_of q b) (basket_of q' again) message w
          w' u free unlocked ran
          (subst (λ (run : Outcome Answered × World). Reach S run.1 u)
            (order_post-run q b w linked id) reached)
          later soon
