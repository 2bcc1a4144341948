-- ===== src/Orders/Live/Once.antt =====
-- An order is placed once for an idempotency key, whatever else is requested in between.
use Prim.Native.String
use text.Mathlib.TextLemmas.{append_assoc}
use whmcstemplate_bridge.Base.{
  if◌then◌else◌, true, false, f_string, whmcs_transport, Outcome, returned, raised, Frame,
  Frame-bind, Frame-pure, ℕ, ◌+◌, ◌≤◌, ◌<◌, String, ◌≡◌, sym, ap, subst, ◌∙◌, Bool, none, some,
}
use whmcstemplate_bridge.Json.{Value, str}
use whmcstemplate_bridge.Core.Cells.{plain, live}
use whmcstemplate_bridge.Core.Cache.Leaves.{leaves}
use whmcstemplate_bridge.Orders.Idempotency.{
  idempotency_ttl, idempotency_lock_ttl, order_lock, Answered, order_in_progress, idempotency_key,
  post_order,
}
use whmcstemplate_bridge.Orders.Idempotency.Replays.{with_lock, unknown-run}
use whmcstemplate_bridge.Orders.Idempotency.Repeats.{
  kept-run, locked-run, post_order-stored, unknown-locked,
}
use whmcstemplate_bridge.Orders.Placement.{Basket}
use whmcstemplate_bridge.Orders.Live.{placed_value, place, order_create}
use whmcstemplate_bridge.Orders.Live.Apart.{IsIdem, lock-IsIdem, idem_kept}
use whmcstemplate_bridge.Whmcs.Services.{Site, World}
use whmcstemplate_bridge.Whmcs.Services.Isolation.Requests.{Reach}
use whmcstemplate_bridge.Whmcs.Services.Frames.Orders.{create_order-Frame}
use whmcstemplate_bridge.Whmcs.Services.Frames.Requests.{Reach-May}

given-IsIdem :
    (blank : Bool) (rest key : String)
    → (if blank then none else some (String.◌++◌ "idem:order:" rest)) ≡ some key
    → IsIdem key
given-IsIdem true rest key h = absurd (cc h)
given-IsIdem false rest key h = record {
  rest = String.◌++◌ "order:" rest;
  is =
      sym (let e : some (String.◌++◌ "idem:order:" rest) ≡ some key = h in cc e)
      ∙ append_assoc "idem:" "order:" rest;
}

idempotency_key-IsIdem :
    (is_alnum : ℕ → Bool) (n : ℕ) (raw key : String)
    → idempotency_key is_alnum n raw ≡ some key
    → IsIdem key
unfolding idempotency_key f_string
idempotency_key-IsIdem is_alnum n raw key h = given-IsIdem _ _ key h

module _ (S : Site) (is_alnum : ℕ → Bool) (n : ℕ) (raw key : String)
    (keyed : idempotency_key is_alnum n raw ≡ some key) where
  create-run :
      (b : Basket) (w : World)
      → order_create S is_alnum n raw b w ≡ post_order (some key) (place S n b) w
  unfolding order_create
  create-run b w = ap (λ k. post_order k (place S n b) w) keyed

  idem : IsIdem key
  idem = idempotency_key-IsIdem is_alnum n raw key keyed

  place-Leaves : (k : String) → IsIdem k → (b : Basket) → Frame (leaves k) (place S n b)
  unfolding place
  place-Leaves k i b =
      Frame-bind _ _ (create_order-Frame S (idem_kept S k i) (record b { whmcs_client_id = n }))
        (λ placed. Frame-pure (placed_value placed))

  untouched :
      (k : String)
      → IsIdem k
      → {u v : World} → Reach S u v
      → live v.clock k v.store ≡ live v.clock k u.store
  untouched k i {v = v} reached = Reach-May S (idem_kept S k i) reached v.clock

  -- Once an order is placed under a key, and whatever requests of the services and refreshes follow, a
  -- request with the same key within 24 hours gets the same body, with status 200, whatever its basket
  -- is; it calls no WHMCS action and changes nothing.
  pub order_create-again :
      (b again : Basket) (v : Value) (w w' u : World)
      → order_create S is_alnum n raw b w ≡ (returned (record { status = 201; body = v }), w')
      → Reach S w' u
      → u.clock < w'.clock + idempotency_ttl
      → order_create S is_alnum n raw again u ≡ (returned (record { status = 200; body = v }), u)
  order_create-again b again v w w' u first reached soon =
      create-run again u
      ∙ kept-run key (place S n again) u (plain v) (
          untouched key idem reached
          ∙ post_order-stored key (place S n b) w w' v u.clock (sym (create-run b w) ∙ first) soon)

  -- After an order that failed in transport, so that its outcome is unknown, and whatever requests of
  -- the services and refreshes follow, a request with the same key within the 120 seconds of the lock
  -- is refused; it calls no WHMCS action and changes nothing.
  pub order_create-held :
      (b again : Basket) (message : String) (w w' u : World)
      → live w.clock key w.store ≡ none
      → live w.clock (order_lock key) w.store ≡ none
      → place S n b (with_lock key w) ≡ (raised (whmcs_transport message), w')
      → Reach S (order_create S is_alnum n raw b w).1 u
      → w.clock ≤ u.clock
      → u.clock < w.clock + idempotency_lock_ttl
      → order_create S is_alnum n raw again u ≡ (raised order_in_progress, u)
  order_create-held b again message w w' u free unlocked ran reached later soon =
      let state : (order_create S is_alnum n raw b w).1 ≡ w' =
        ap (λ (r : Outcome Answered × World). r.1)
          (create-run b w ∙ unknown-run key (place S n b) w w' message free unlocked ran) in
      let left = λ (k : String) (i : IsIdem k).
        untouched k i (subst (λ (s : World). Reach S s u) state reached)
        ∙ ap (λ (r : Outcome Value × World). live u.clock k r.1.store) (sym ran)
        ∙ (place-Leaves k i b).at (with_lock key w) u.clock in
      let (none_kept, locked) =
        unknown-locked key w u u.clock free (left key idem)
          (left (order_lock key) (lock-IsIdem key idem)) later soon in
      create-run again u
      ∙ locked-run key (place S n again) u (plain (str "in-flight")) none_kept locked
