-- ===== src/Orders/Placement/Guards.antt =====
-- When an order is placed at all.
use whmcstemplate_bridge.Base.{
  ltb, nat_eq, ltb→le, nat_eq→ne, tests, Bool-cases, length, one_of, Exn, Outcome, returned, raised,
  continue, ◌≤◌, String, ◌≡◌, refl, ◌⊎◌, inl, inr, true, false, List,
}
use whmcstemplate_bridge.Orders.Placement.{
  place_with, max_items, Services, Setup, Basket, add_order, create_order,
}

module _ (S : Setup) (P : Services) where
  -- A basket of 1 to 20 lines with an enabled gateway.
  pub record IsOrderable (b : Basket) (w : P.State) : Type 0 where
    pub modules : List String
    pub state : P.State
    pub listed : P.payment_modules w ≡ (returned modules, state)
    pub some_line : 1 ≤ length b.items
    pub few_lines : length b.items ≤ max_items
    pub enabled : one_of b.payment_method modules ≡ true

  -- `create_order` either raises and calls no WHMCS action: it has asked for the gateways at most; or
  -- the basket has 1 to 20 lines and names an enabled gateway, and AddOrder is what follows.
  pub create_order-IsOrderable :
      (b : Basket) (w : P.State)
      → (((e : Exn) × ((create_order S P b w).0 ≡ raised e))
          × (((create_order S P b w).1 ≡ w) ⊎ ((create_order S P b w).1 ≡ (P.payment_modules w).1)))
        ⊎ ((h : IsOrderable b w) × (create_order S P b w ≡ add_order S P b h.state))
  unfolding create_order place_with
  create_order-IsOrderable b w = elim (Bool-cases (nat_eq (length b.items) 0)) [
    | inl nothing ↦ rw nothing (inl ((_, refl), inl refl))
    | inr something ↦ elim (Bool-cases (ltb max_items (length b.items))) [
      | inl many ↦ rw something (rw many (inl ((_, refl), inl refl)))
      | inr few ↦
          rw something
            (rw few (listed (P.payment_modules w).0 (P.payment_modules w).1 refl something few))
    ]
  ]
    where
      listed :
          (o : Outcome (List String)) (state : P.State)
          → P.payment_modules w ≡ (o, state)
          → nat_eq (length b.items) 0 ≡ false
          → ltb max_items (length b.items) ≡ false
          → (((e : Exn) × ((continue (place_with S P b) o state).0 ≡ raised e))
              × (((continue (place_with S P b) o state).1 ≡ w)
                  ⊎ ((continue (place_with S P b) o state).1 ≡ state)))
            ⊎ ((h : IsOrderable b w) × (continue (place_with S P b) o state
                  ≡ add_order S P b h.state))
      listed (raised e) state asked something few = inl ((e, refl), inr refl)
      listed (returned modules) state asked something few =
          elim (Bool-cases (one_of b.payment_method modules)) [
            | inl enabled ↦ rw enabled (
                inr (
                  record {
                    modules = modules;
                    state = state;
                    listed = asked;
                    some_line = omega (tests, nat_eq→ne (length b.items) 0 something);
                    few_lines = ltb→le max_items (length b.items) few;
                    enabled = enabled;
                  },
                  refl,
                ))
            | inr unknown ↦ rw unknown (inl ((_, refl), inr refl))
          ]
