-- ===== src/Orders/Idempotency/Replays.antt =====
-- What a request with an idempotency key comes to.
use whmcstemplate_bridge.Base.{
  Option-cases, Exn, whmcs_transport, Outcome, returned, raised, Exec, pure, recover, continue,
  ◌>>◌, ℕ, ◌+◌, String, ◌≡◌, refl, sym, ap, ◌∙◌, ◌≢◌, subst, inl, inr, none, some,
}
use whmcstemplate_bridge.Json.{Value, str}
use whmcstemplate_bridge.Core.Cells.{
  Content, plain, Cache, live, put_cell, remove_cell, cache_get, cache_set, add_if, cache_add,
}
use whmcstemplate_bridge.Orders.Idempotency.{
  delete, release, remember, on_failure, reserve, replay, idempotency_ttl, idempotency_lock_ttl,
  order_lock, Answered, order_in_progress, order_outcome_unknown, body_of_content, order,
  post_order,
}

module _ {Orders : Type 0} where
  -- the cache with the request's lock, its result, or its lock taken away
  abbrev pub with_lock : String → Cache Value Orders → Cache Value Orders
  with_lock key w = record w {
    store =
        put_cell (order_lock key)
          (record { content = plain (str "in-flight"); expires = w.clock + idempotency_lock_ttl })
          w.store;
  }

  abbrev pub with_result : String → Value → Cache Value Orders → Cache Value Orders
  with_result key v w = record w {
    store =
        put_cell key (record { content = plain v; expires = w.clock + idempotency_ttl }) w.store;
  }

  abbrev pub without_lock : String → Cache Value Orders → Cache Value Orders
  without_lock key w = record w { store = remove_cell (order_lock key) w.store }

  abbrev pub at_time : ℕ → Cache Value Orders → Cache Value Orders
  at_time t w = record w { clock = t }

  -- The five ways of a request with a key.
  pub data IsPosted (key : String) (create : Exec (Cache Value Orders) Value)
      (w : Cache Value Orders) (r : Outcome Answered × Cache Value Orders) : Type 0 where
    replayed :
        (c : Content Value)
        → live w.clock key w.store ≡ some c
        → r ≡ (returned (record { status = 200; body = body_of_content c }), w)
        → IsPosted key create w r
    in_flight :
        (c : Content Value)
        → live w.clock key w.store ≡ none
        → live w.clock (order_lock key) w.store ≡ some c
        → r ≡ (raised order_in_progress, w)
        → IsPosted key create w r
    placed :
        (v : Value) (u : Cache Value Orders)
        → live w.clock key w.store ≡ none
        → live w.clock (order_lock key) w.store ≡ none
        → create (with_lock key w) ≡ (returned v, u)
        → r ≡ (returned (record { status = 201; body = v }), with_result key v u)
        → IsPosted key create w r
    unknown :
        (message : String) (u : Cache Value Orders)
        → live w.clock key w.store ≡ none
        → live w.clock (order_lock key) w.store ≡ none
        → create (with_lock key w) ≡ (raised (whmcs_transport message), u)
        → r ≡ (raised order_outcome_unknown, u)
        → IsPosted key create w r
    rejected :
        (e : Exn) (u : Cache Value Orders)
        → live w.clock key w.store ≡ none
        → live w.clock (order_lock key) w.store ≡ none
        → ((message : String) → e ≢ whmcs_transport message)
        → create (with_lock key w) ≡ (raised e, u)
        → r ≡ (raised e, without_lock key u)
        → IsPosted key create w r

  abbrev after_place :
      String → Outcome Value → Cache Value Orders → Outcome Answered × Cache Value Orders
  after_place key o w =
      let (o', w') = recover (on_failure (some key)) o w in
      continue
        (λ result. remember (some key) result >> pure (record { status = 201; body = result })) o'
        w'

  after_place-IsPosted :
      (key : String) (create : Exec (Cache Value Orders) Value) (w : Cache Value Orders)
      (o : Outcome Value) (u : Cache Value Orders)
      → live w.clock key w.store ≡ none
      → live w.clock (order_lock key) w.store ≡ none
      → create (with_lock key w) ≡ (o, u)
      → IsPosted key create w (after_place key o u)
  unfolding on_failure release delete remember cache_set
  after_place-IsPosted key create w (returned v) u free unlocked e = placed v u free unlocked e refl
  after_place-IsPosted key create w (raised (whmcs_transport m)) u free unlocked e =
      unknown m u free unlocked e refl
  after_place-IsPosted key create w (raised x) u free unlocked e =
      rejected x u free unlocked (λ m same. absurd (cc same)) e refl

  order-run :
      (key : String) (create : Exec (Cache Value Orders) Value) (w : Cache Value Orders)
      → order (some key) create w ≡ after_place key (create w).0 (create w).1
  unfolding order
  order-run key create w = refl

  free-run :
      (key : String) (create : Exec (Cache Value Orders) Value) (w : Cache Value Orders)
      → live w.clock key w.store ≡ none
      → live w.clock (order_lock key) w.store ≡ none
      → post_order (some key) create w ≡ order (some key) create (with_lock key w)
  unfolding post_order cache_get replay reserve cache_add add_if cache_set
  free-run key create w free unlocked = rw free (rw unlocked refl)

  -- A request with a key either gives back the result kept under it, or, where none is kept, is refused
  -- because the lock is held; or, where neither is there, it takes the lock and runs the order service
  -- once: its result is kept, with status 201; after a transport error the lock stays and the outcome is
  -- called unknown; after an exception that is no transport error the lock goes and it is raised.
  pub post_order-IsPosted :
      (key : String) (create : Exec (Cache Value Orders) Value) (w : Cache Value Orders)
      → IsPosted key create w (post_order (some key) create w)
  unfolding post_order cache_get replay reserve cache_add add_if
  post_order-IsPosted key create w = elim (Option-cases (live w.clock key w.store)) [
    | inr (c, kept) ↦ replayed c kept (rw kept refl)
    | inl free ↦ elim (Option-cases (live w.clock (order_lock key) w.store)) [
      | inr (c, locked) ↦ in_flight c free locked (rw free (rw locked refl))
      | inl unlocked ↦
          subst (IsPosted key create w)
            (sym (free-run key create w free unlocked ∙ order-run key create (with_lock key w)))
            (after_place-IsPosted key create w (create (with_lock key w)).0
              (create (with_lock key w)).1 free unlocked refl)
    ]
  ]

  pub unknown-run :
      (key : String) (create : Exec (Cache Value Orders) Value) (w u : Cache Value Orders)
      (message : String)
      → live w.clock key w.store ≡ none
      → live w.clock (order_lock key) w.store ≡ none
      → create (with_lock key w) ≡ (raised (whmcs_transport message), u)
      → post_order (some key) create w ≡ (raised order_outcome_unknown, u)
  unknown-run key create w u message free unlocked ran =
      free-run key create w free unlocked
      ∙ order-run key create (with_lock key w)
      ∙ ap (λ (r : Outcome Value × Cache Value Orders). after_place key r.0 r.1) ran
      ∙ unfold on_failure in refl
