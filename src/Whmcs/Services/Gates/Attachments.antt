-- ===== src/Whmcs/Services/Gates/Attachments.antt =====
-- Which stored attachments a customer is given.
use whmcstemplate_bridge.Base.{
  Bool-cases, one_of, ℤ, pos, int_eq→eq, Exn, Outcome, returned, raised, continue, ℕ, String, ◌≡◌,
  refl, ap, subst, ◌⊎◌, inl, inr, Bool, true, false, List, [], ◌∷◌, arith, eq_iff,
}
use whmcstemplate_bridge.Json.{Value}
use whmcstemplate_bridge.Core.Cache.Isolated.{Post}
use whmcstemplate_bridge.Whmcs.Normalizers.{to_int}
use whmcstemplate_bridge.Whmcs.Services.{Site, World, subscript}
use whmcstemplate_bridge.Whmcs.Services.Support.{
  is_among, ids_in, permitted_in, is_permitted, attachment_if, attachment_in, fetch_attachment,
  get_attachment, get_ticket,
}
use whmcstemplate_bridge.Whmcs.Services.Isolation.{ticket}
use whmcstemplate_bridge.Whmcs.Services.Isolation.Requests.{Reach}
use whmcstemplate_bridge.Whmcs.Services.Isolation.Own.{IsOwn, Reach-IsOwn}

module _ (S : Site) where
  -- The attachment is of the ticket, or of one of its replies.
  pub record IsPartOf (kind : String) (related_id : ℤ) (v : Value) : Type 0 where
    pub ticket_id : Value
    pub has_id : subscript "id" v ≡ returned ticket_id
    pub replies : Value
    pub has_replies : subscript "replies" v ≡ returned replies
    pub ids : List ℤ
    pub are_ids : ids_in S replies ≡ returned ids
    pub part :
        ((kind ≡ "ticket") × (related_id ≡ to_int S.repr ticket_id (pos 0)))
        ⊎ ((kind ≡ "reply") × (is_among related_id ids ≡ true))

  module _ (kind : String) (related : ℤ) where
    part_of :
        (ticket_id : Value) (ids : List ℤ)
        → is_permitted S kind related ticket_id ids ≡ true
        → ((kind ≡ "ticket") × (related ≡ to_int S.repr ticket_id (pos 0)))
          ⊎ ((kind ≡ "reply") × (is_among related ids ≡ true))
    part_of ticket_id ids h = ground (
      arith,
      eq_iff kind "ticket",
      eq_iff kind "reply",
      int_eq→eq related (to_int S.repr ticket_id (pos 0)),
    )

    permitted-IsPartOf :
        (v : Value) → permitted_in S kind related v ≡ returned true → IsPartOf kind related v
    unfolding permitted_in
    permitted-IsPartOf v h = with_id (subscript "id" v) refl h
      where
        with_ids :
            (t r : Value) (o : Outcome (List ℤ))
            → subscript "id" v ≡ returned t
            → subscript "replies" v ≡ returned r
            → ids_in S r ≡ o
            → elim o [
              | raised e ↦ raised e
              | returned ids ↦ returned (is_permitted S kind related t ids)
            ]
              ≡ returned true
            → IsPartOf kind related v
        with_ids t r (raised e) i j k h' = absurd (cc h')
        with_ids t r (returned ids) i j k h' = record {
          ticket_id = t;
          has_id = i;
          replies = r;
          has_replies = j;
          ids = ids;
          are_ids = k;
          part = part_of t ids (cc h');
        }

        with_replies :
            (t : Value) (o : Outcome Value)
            → subscript "id" v ≡ returned t
            → subscript "replies" v ≡ o
            → elim o [
              | raised e ↦ raised e
              | returned replies ↦ elim (ids_in S replies) [
                | raised e ↦ raised e
                | returned ids ↦ returned (is_permitted S kind related t ids)
              ]
            ]
              ≡ returned true
            → IsPartOf kind related v
        with_replies t (raised e) i j h' = absurd (cc h')
        with_replies t (returned r) i j h' = with_ids t r (ids_in S r) i j refl h'

        with_id :
            (o : Outcome Value)
            → subscript "id" v ≡ o
            → elim o [
              | raised e ↦ raised e
              | returned ticket_id ↦ elim (subscript "replies" v) [
                | raised e ↦ raised e
                | returned replies ↦ elim (ids_in S replies) [
                  | raised e ↦ raised e
                  | returned ids ↦ returned (is_permitted S kind related ticket_id ids)
                ]
              ]
            ]
              ≡ returned true
            → IsPartOf kind related v
        with_id (raised e) i h' = absurd (cc h')
        with_id (returned t) i h' = with_replies t (subscript "replies" v) i refl h'

    module _ (n id : ℕ) (index : ℤ) where
      -- `run`, from the ticket that was read in `state` on, refuses or goes on to fetch
      abbrev Ends : Outcome Value → World → Outcome (String × List ℕ) × World → Type 0
      Ends o state run =
          ((e : Exn) × (run ≡ (raised e, state)))
          ⊎ ((v : Value) × (o ≡ returned v)
              × IsPartOf kind related v
              × (run ≡ fetch_attachment S kind related index state))

      judged-Ends :
          (v : Value) (state : World) (o : Outcome Bool)
          → permitted_in S kind related v ≡ o
          → Ends (returned v) state (continue (attachment_if S kind related index) o state)
      unfolding attachment_if
      judged-Ends v state (raised e) is = inl (e, refl)
      judged-Ends v state (returned false) is = inl (_, refl)
      judged-Ends v state (returned true) is = inr (v, refl, permitted-IsPartOf v is, refl)

      read-Ends :
          (o : Outcome Value) (state : World)
          → Ends o state (continue (attachment_in S kind related index) o state)
      unfolding attachment_in
      read-Ends (raised e) state = inl (e, refl)
      read-Ends (returned v) state = judged-Ends v state (permitted_in S kind related v) refl

      -- After any requests from an empty cache on, `get_attachment` either raises with nothing fetched
      -- but the ticket, at most; or the read of the ticket returned a value made of one reply to a call
      -- for the customer, the attachment is of that ticket or of one of its replies, and is then fetched.
      pub get_attachment-IsPartOf :
          (u w : World)
          → u.store ≡ []
          → Reach S u w
          → ((e : Exn) × ((get_attachment S n id kind related index w).0 ≡ raised e)
              × (((get_attachment S n id kind related index w).1 ≡ w)
                  ⊎ ((get_attachment S n id kind related index w).1 ≡ (get_ticket S n id w).1)))
            ⊎ ((v : Value) × ((get_ticket S n id w).0 ≡ returned v)
                × IsOwn S n v
                × IsPartOf kind related v
                × (get_attachment S n id kind related index w
                    ≡ fetch_attachment S kind related index (get_ticket S n id w).1))
      unfolding get_attachment
      get_attachment-IsPartOf u w empty reached =
          elim (Bool-cases (one_of kind ("ticket" ∷ "reply" ∷ []))) [
            | inr other ↦ rw other (inl (_, refl, inl refl))
            | inl known ↦
                rw known (elim (read-Ends (get_ticket S n id w).0 (get_ticket S n id w).1) [
                  | inl (e, run) ↦ inl (
                    e,
                    ap (λ (r : Outcome (String × List ℕ) × World). r.0) run,
                    inr (ap (λ (r : Outcome (String × List ℕ) × World). r.1) run),
                  )
                  | inr (v, given, part, run) ↦ inr (
                    v,
                    given,
                    subst (Post (IsOwn S n)) given (Reach-IsOwn S (ticket id) n u w empty reached),
                    part,
                    run,
                  )
                ])
          ]
