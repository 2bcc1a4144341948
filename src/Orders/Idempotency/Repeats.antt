-- ===== src/Orders/Idempotency/Repeats.antt =====
-- What a second request with the same idempotency key comes to.
use Prim.Native.String.{len}
use text.Mathlib.TextPositions.{len-append}
use whmcstemplate_bridge.Base.{
  ltb, Bool-cases, f_string, Outcome, returned, raised, Exec, ℕ, ◌+◌, ◌≤◌, ◌<◌, String, ◌≡◌, refl,
  sym, ap, ◌∙◌, inl, inr, true, false, none, some, arith, ◌==◌, eq_iff,
}
use whmcstemplate_bridge.Json.{Value, str}
use whmcstemplate_bridge.Core.Cells.{Content, plain, Cache, live, cache_get, add_if, cache_add}
use whmcstemplate_bridge.Core.Cells.Laws.{live-put_cell, live-put_other, live-later}
use whmcstemplate_bridge.Orders.Idempotency.{
  reserve, replay, idempotency_ttl, idempotency_lock_ttl, order_lock, Answered, order_in_progress,
  body_of_content, post_order,
}
use whmcstemplate_bridge.Orders.Idempotency.Replays.{
  with_lock, with_result, IsPosted, replayed, in_flight, placed, unknown, rejected,
  post_order-IsPosted,
}

lock_apart : (key : String) → (order_lock key == key) ≡ false
unfolding f_string
lock_apart key = elim (Bool-cases (order_lock key == key)) [
  | inl same ↦
      let e : len (order_lock key) ≡ len key = ap len ((eq_iff (order_lock key) key).0 same) in
      absurd (omega (arith, e, len-append key ":lock"))
  | inr apart ↦ apart
]

lt→ltb : (a b : ℕ) → a < b → ltb a b ≡ true
lt→ltb a b h = ground arith

abbrev body_or : Value → Outcome Answered → Value
body_or v (returned a) = a.body
body_or v (raised e) = v

abbrev status_or : Outcome Answered → ℕ
status_or (returned a) = a.status
status_or (raised e) = 0

module _ {Orders : Type 0} where
  pub kept-run :
      (key : String) (create : Exec (Cache Value Orders) Value) (w : Cache Value Orders)
      (c : Content Value)
      → live w.clock key w.store ≡ some c
      → post_order (some key) create w
        ≡ (returned (record { status = 200; body = body_of_content c }), w)
  unfolding post_order cache_get replay
  kept-run key create w c kept = rw kept refl

  pub locked-run :
      (key : String) (create : Exec (Cache Value Orders) Value) (w : Cache Value Orders)
      (c : Content Value)
      → live w.clock key w.store ≡ none
      → live w.clock (order_lock key) w.store ≡ some c
      → post_order (some key) create w ≡ (raised order_in_progress, w)
  unfolding post_order cache_get replay reserve cache_add add_if
  locked-run key create w c free locked = rw free (rw locked refl)

  with_result-live :
      (key : String) (v : Value) (w : Cache Value Orders) (t : ℕ)
      → t < w.clock + idempotency_ttl
      → live t key (with_result key v w).store ≡ some (plain v)
  with_result-live key v w t soon =
      live-put_cell t key _ w.store ∙ rw (lt→ltb t (w.clock + idempotency_ttl) soon) refl

  with_lock-live :
      (key : String) (w : Cache Value Orders) (t : ℕ)
      → t < w.clock + idempotency_lock_ttl
      → live t (order_lock key) (with_lock key w).store ≡ some (plain (str "in-flight"))
  with_lock-live key w t soon =
      live-put_cell t (order_lock key) _ w.store
      ∙ rw (lt→ltb t (w.clock + idempotency_lock_ttl) soon) refl

  placed-stored :
      (key : String) (u w' : Cache Value Orders) (v v' : Value) (t : ℕ)
      → ◌≡◌ {A = Outcome Answered × Cache Value Orders}
          (returned (record { status = 201; body = v' }), with_result key v' u)
          (returned (record { status = 201; body = v }), w')
      → t < w'.clock + idempotency_ttl
      → live t key w'.store ≡ some (plain v)
  placed-stored key u w' v v' t e soon =
      let same : v' ≡ v = ap (λ (r : Outcome Answered × Cache Value Orders). body_or v' r.0) e in
      let world : with_result key v' u ≡ w' =
        ap (λ (r : Outcome Answered × Cache Value Orders). r.1) e in
      let clock : u.clock ≡ w'.clock = ap (λ (c : Cache Value Orders). c.clock) world in
      ap (λ (c : Cache Value Orders). live t key c.store) (sym world)
      ∙ with_result-live key v' u t (omega (arith, clock))
      ∙ ap (λ x. some (plain x)) same

  -- Once an order is placed under a key, its result is found there within 24 hours.
  pub post_order-stored :
      (key : String) (create : Exec (Cache Value Orders) Value) (w w' : Cache Value Orders)
      (v : Value) (t : ℕ)
      → post_order (some key) create w ≡ (returned (record { status = 201; body = v }), w')
      → t < w'.clock + idempotency_ttl
      → live t key w'.store ≡ some (plain v)
  post_order-stored key create w w' v t first soon = go (post_order-IsPosted key create w)
    where
      go :
          IsPosted key create w (post_order (some key) create w)
          → live t key w'.store ≡ some (plain v)
      go (replayed c kept e) = absurd (
          omega (
            arith,
            ap (λ (r : Outcome Answered × Cache Value Orders). status_or r.0) (sym e ∙ first),
          ))
      go (in_flight c free locked e) = absurd (cc (first, e))
      go (placed x u free unlocked ran e) = placed-stored key u w' v x t (sym e ∙ first) soon
      go (unknown m u free unlocked ran e) = absurd (cc (first, e))
      go (rejected x u free unlocked certain ran e) = absurd (cc (first, e))

  -- After an order whose outcome is unknown, its lock is found within 120 seconds, and no result, if
  -- the order service leaves the two cells alone.
  pub unknown-locked :
      (key : String) (w u : Cache Value Orders) (t : ℕ)
      → live w.clock key w.store ≡ none
      → live t key u.store ≡ live t key (with_lock key w).store
      → live t (order_lock key) u.store ≡ live t (order_lock key) (with_lock key w).store
      → w.clock ≤ t
      → t < w.clock + idempotency_lock_ttl
      → (live t key u.store ≡ none)
        × (live t (order_lock key) u.store ≡ some (plain (str "in-flight")))
  unknown-locked key w u t free left lock_left later soon = (
    left
        ∙ live-put_other t key (order_lock key) _ w.store (lock_apart key)
        ∙ live-later w.clock t key w.store later free,
    lock_left ∙ with_lock-live key w t soon,
  )
