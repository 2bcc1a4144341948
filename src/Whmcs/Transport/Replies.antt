-- ===== src/Whmcs/Transport/Replies.antt =====
-- What a response comes to.
use whmcstemplate_bridge.Base.{
  leb, nat_eq, nat_eq→eq, nat_eq→ne, Bool-cases, Option-cases, any, ApiKind, whmcs_transport,
  whmcs_api, Outcome, returned, raised, String, ◌≡◌, refl, sym, ap, ◌∙◌, subst, ◌≢◌, inl, inr, Bool,
  true, false, ◌||◌, none, some,
}
use whmcstemplate_bridge.Json.{null, Fields, get_or}
use whmcstemplate_bridge.Whmcs.Transport.{
  Response, Wire, retryable_status, classify, says_error, object_of, too_fast, no_object,
  read_object, parse,
}

abbrev pub is_refusal : Fields → Bool
is_refusal d = says_error (get_or "result" null d) || says_error (get_or "status" null d)

-- The four ways a response is read.
pub data IsRead (r : Response) (o : Outcome Fields) : Type 0 where
  accepted :
      (d : Fields)
      → object_of r.json ≡ some d
      → r.status_code ≢ 429
      → is_refusal d ≡ false
      → o ≡ returned d
      → IsRead r o
  refused :
      (d : Fields) (kind : ApiKind) (message : String)
      → object_of r.json ≡ some d
      → r.status_code ≢ 429
      → is_refusal d ≡ true
      → o ≡ raised (whmcs_api kind message)
      → IsRead r o
  limited : r.status_code ≡ 429 → o ≡ raised too_fast → IsRead r o
  unreadable :
      (message : String)
      → object_of r.json ≡ none
      → r.status_code ≢ 429
      → o ≡ raised (whmcs_transport message)
      → IsRead r o

module _ (E : Wire) where
  refusal-api :
      (r : Response) (d : Fields)
      → nat_eq r.status_code 429 ≡ false
      → is_refusal d ≡ true
      → (kind : ApiKind) × (message : String) × (read_object E r d
          ≡ raised (whmcs_api kind message))
  unfolding read_object classify
  refusal-api r d slow error = rw slow (rw error (_, _, refl))

  object-IsRead :
      (r : Response) (d : Fields) → object_of r.json ≡ some d → IsRead r (read_object E r d)
  unfolding read_object
  object-IsRead r d h = elim (Bool-cases (nat_eq r.status_code 429)) [
    | inl fast ↦ limited (nat_eq→eq r.status_code 429 fast) (rw fast refl)
    | inr slow ↦ elim (Bool-cases (is_refusal d)) [
      | inl error ↦
          let (kind, message, e) = refusal-api r d slow error in
          refused d kind message h (nat_eq→ne r.status_code 429 slow) error e
      | inr fine ↦ accepted d h (nat_eq→ne r.status_code 429 slow) fine (rw slow (rw fine refl))
    ]
  ]

  no_object-fast :
      (r : Response) (action : String) → r.status_code ≡ 429 → no_object E r action ≡ too_fast
  unfolding no_object
  no_object-fast r action h = rw h refl

  no_object-slow :
      (r : Response) (action : String)
      → nat_eq r.status_code 429 ≡ false
      → (message : String) × (no_object E r action ≡ whmcs_transport message)
  unfolding no_object
  no_object-slow r action h = elim (Bool-cases (any (nat_eq r.status_code) retryable_status)) [
    | inl retry ↦ rw retry (_, refl)
    | inr other ↦ elim (Bool-cases (leb 400 r.status_code)) [
      | inl bad ↦ rw other (rw h (rw bad (_, refl)))
      | inr good ↦ rw other (rw h (rw good (_, refl)))
    ]
  ]

  parse-none :
      (r : Response) (action : String)
      → object_of r.json ≡ none
      → parse E r action ≡ raised (no_object E r action)
  unfolding parse
  parse-none r action h = rw (h, parse) refl

  parse-object :
      (r : Response) (action : String) (d : Fields)
      → object_of r.json ≡ some d
      → parse E r action ≡ read_object E r d
  unfolding parse
  parse-object r action d h = rw (h, parse) refl

  -- A response is read in one of four ways: a JSON object that is no error is the reply; an error
  -- envelope is WHMCS' refusal, whatever the status but 429; 429 says that the bridge is too fast; and
  -- what is no JSON object is a transport failure.
  pub parse-IsRead : (r : Response) (action : String) → IsRead r (parse E r action)
  parse-IsRead r action = elim (Option-cases (object_of r.json)) [
    | inl none_found ↦
        let parsed : parse E r action ≡ raised (no_object E r action) =
          parse-none r action none_found in
        elim (Bool-cases (nat_eq r.status_code 429)) [
          | inl fast ↦
              let e = nat_eq→eq r.status_code 429 fast in
              limited e (parsed ∙ ap raised (no_object-fast r action e))
          | inr slow ↦
              let (message, e) = no_object-slow r action slow in
              unreadable message none_found (nat_eq→ne r.status_code 429 slow)
                (parsed ∙ ap raised e)
        ]
    | inr (d, found_object) ↦
        subst (IsRead r) (sym (parse-object r action d found_object))
          (object-IsRead r d found_object)
  ]
