-- ===== src/Orders/Withdrawal/Pending.antt =====
-- Whose order can be cancelled, and in which state.
use whmcstemplate_bridge.Base.{
  Bool-cases, pos, int_eq, Exn, Outcome, returned, raised, Exec, lift, continue, ◌>>=◌, ℕ, ◌≡◌,
  refl, sym, subst, ◌⊎◌, inl, inr, List, [], ◌∷◌, ◌==◌, eq_iff,
}
use whmcstemplate_bridge.Json.{set_field, null, str, Fields, get, get_or}
use whmcstemplate_bridge.Whmcs.Normalizers.{
  collection, to_int, text, pick, assert_owned, assert_owned-passes, Dates,
}
use whmcstemplate_bridge.Orders.Placement.{Services, Setup}
use whmcstemplate_bridge.Orders.Withdrawal.{
  with_payment_url, order_of, first_owned, read_order, get_order, withdraw, withdraw_pending,
  cancel_order,
}

module _ (S : Setup) (D : Dates) where
  status-order_of :
      (raw : Fields)
      → get_or "status" null (order_of S D raw) ≡ str (text S.repr (get_or "status" null raw))
  unfolding order_of with_payment_url set_field pick get_or get
  status-order_of raw =
      elim (Bool-cases (int_eq (to_int S.repr (get_or "invoiceid" null raw) (pos 0)) (pos 0))) [
        | inl unpaid ↦ rw unpaid refl
        | inr invoiced ↦ rw invoiced refl
      ]

  -- what the first order of an answer comes to for a caller
  data IsFirst (client : ℕ) (rows : List Fields) (o : Outcome Fields) : Type 0 where
    foreign : (e : Exn) → o ≡ raised e → IsFirst client rows o
    own :
        (raw : Fields) (rest : List Fields)
        → rows ≡ raw ∷ rest
        → to_int S.repr (get_or "userid" null raw) (pos 0) ≡ pos client
        → o ≡ returned (order_of S D raw)
        → IsFirst client rows o

  first_owned-IsFirst :
      (client : ℕ) (rows : List Fields) → IsFirst client rows (first_owned S D client rows)
  unfolding first_owned
  first_owned-IsFirst client [] = foreign _ refl
  first_owned-IsFirst client (raw ∷ rest) =
      owner (assert_owned S.repr (get_or "userid" null raw) client) refl
    where
      owner :
          (o : Outcome (Unit {0}))
          → assert_owned S.repr (get_or "userid" null raw) client ≡ o
          → IsFirst client
              (raw ∷ rest)
              (elim o [ returned _ ↦ returned (order_of S D raw) | raised e ↦ raised e ])
      owner (returned _) passed =
          own raw rest refl (assert_owned-passes S.repr (get_or "userid" null raw) client passed)
            refl
      owner (raised e) refused = foreign e refl

  module _ (P : Services) where
    -- An order that WHMCS gives under the id, that is the caller's, and that is pending.
    pub record IsPending (client order_id : ℕ) (w : P.State) : Type 0 where
      pub reply : Fields
      pub state : P.State
      pub read : read_order S D P order_id w ≡ (returned reply, state)
      pub raw : Fields
      pub rest : List Fields
      pub first : collection reply "orders" "order" ≡ raw ∷ rest
      pub owned : to_int S.repr (get_or "userid" null raw) (pos 0) ≡ pos client
      pub pending : text S.repr (get_or "status" null raw) ≡ "Pending"

    module _ (client order_id : ℕ) (w : P.State) where
      -- `run`, from the order that was read in `state` on, refuses or goes on to cancel
      abbrev Ends : P.State → Outcome Fields × P.State → Type 0
      Ends state run =
          ((e : Exn) × (run ≡ (raised e, state)))
          ⊎ ((h : IsPending client order_id w) × (run ≡ withdraw S D P client order_id h.state))

      own-Ends :
          (reply : Fields) (state : P.State) (raw : Fields) (rest : List Fields)
          → read_order S D P order_id w ≡ (returned reply, state)
          → collection reply "orders" "order" ≡ raw ∷ rest
          → to_int S.repr (get_or "userid" null raw) (pos 0) ≡ pos client
          → Ends state (withdraw_pending S D P client order_id (order_of S D raw) state)
      unfolding withdraw_pending
      own-Ends reply state raw rest read first owned =
          rw (status-order_of raw)
            (elim (Bool-cases (text S.repr (get_or "status" null raw) == "Pending")) [
              | inl same ↦ rw same (
                  inr (
                    record {
                      reply = reply;
                      state = state;
                      read = read;
                      raw = raw;
                      rest = rest;
                      first = first;
                      owned = owned;
                      pending = (eq_iff (text S.repr (get_or "status" null raw)) "Pending").0 same;
                    },
                    refl,
                  ))
              | inr other ↦ rw other (inl (_, refl))
            ])

      first-Ends :
          (reply : Fields) (state : P.State)
          → read_order S D P order_id w ≡ (returned reply, state)
          → (o : Outcome Fields) → IsFirst client (collection reply "orders" "order") o
          → Ends state (continue (withdraw_pending S D P client order_id) o state)
      first-Ends reply state read o (foreign e is) =
          subst (λ x. Ends state (continue (withdraw_pending S D P client order_id) x state))
            (sym is) (inl (e, refl))
      first-Ends reply state read o (own raw rest first owned is) =
          subst (λ x. Ends state (continue (withdraw_pending S D P client order_id) x state))
            (sym is) (own-Ends reply state raw rest read first owned)

      judge : Fields → Exec P.State Fields
      judge reply = lift (first_owned S D client (collection reply "orders" "order"))

      read-Ends :
          (o : Outcome Fields) (state : P.State)
          → read_order S D P order_id w ≡ (o, state)
          → Ends state ((continue judge o >>= withdraw_pending S D P client order_id) state)
      unfolding judge
      read-Ends (raised e) state read = inl (e, refl)
      read-Ends (returned reply) state read =
          first-Ends reply state read _
            (first_owned-IsFirst client (collection reply "orders" "order"))

    -- `cancel_order` either raises and has called nothing but the read of the order; or WHMCS gave an
    -- order under the id, it is the caller's and pending, and the cancellation is what follows.
    pub cancel_order-IsPending :
        (client order_id : ℕ) (w : P.State)
        → ((e : Exn) × (cancel_order S D P client order_id w
              ≡ (raised e, (read_order S D P order_id w).1)))
          ⊎ ((h : IsPending client order_id w) × (cancel_order S D P client order_id w
                ≡ withdraw S D P client order_id h.state))
    unfolding cancel_order get_order judge
    cancel_order-IsPending client order_id w =
        read-Ends client order_id w (read_order S D P order_id w).0 (read_order S D P order_id w).1
          refl
