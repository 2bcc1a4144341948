-- ===== src/Whmcs/Transport/Retries.antt =====
-- How often a call is posted, and which answer it takes.
use native.Mathlib.Decide.{dec_lt}
use whmcstemplate_bridge.Base.{
  Exn, application, whmcs_config, whmcs_transport, whmcs_api, zibal, http_404, permission_denied,
  runtime, Outcome, returned, raised, Outcome-cases, Exec, ℕ, zero, suc, ◌<◌, String, ◌≡◌, refl,
  ◌≢◌, subst, ◌⊎◌, inl, inr, List, ◌∷◌, arith,
}
use whmcstemplate_bridge.Json.{Fields}
use whmcstemplate_bridge.Whmcs.Form.{Form}
use whmcstemplate_bridge.Whmcs.Transport.{
  outcome_of, on_outcome, send, rest_after, Wire, Net, body_of, request_rounds, attempts_for,
  request,
}

-- `body` is posted so many times more
abbrev pub reposted : ℕ → Form → List Form → List Form
reposted zero body requests = requests
reposted (suc n) body requests = reposted n body (body ∷ requests)

-- the caller sleeps after the attempts from `i` on
abbrev pub slept : ℕ → ℕ → List ℕ → List ℕ
slept zero i pauses = pauses
slept (suc n) i pauses = slept n (suc i) (i ∷ pauses)

abbrev pub one_less : ℕ → ℕ
one_less zero = zero
one_less (suc n) = n

abbrev pub IsRetryable : Outcome Fields → Type 0
IsRetryable o = (message : String) × (o ≡ raised (whmcs_transport message))

retry_cases :
    (o : Outcome Fields)
    → IsRetryable o ⊎ ((message : String) → o ≢ raised (whmcs_transport message))
retry_cases (raised (whmcs_transport m)) = inl (m, refl)
retry_cases (raised (application k c m d)) = inr (λ message e. cc)
retry_cases (raised (whmcs_config m)) = inr (λ message e. cc)
retry_cases (raised (whmcs_api k m)) = inr (λ message e. cc)
retry_cases (raised (zibal m r)) = inr (λ message e. cc)
retry_cases (raised http_404) = inr (λ message e. cc)
retry_cases (raised permission_denied) = inr (λ message e. cc)
retry_cases (raised (runtime c)) = inr (λ message e. cc)
retry_cases (returned d) = inr (λ message e. cc)

module _ (E : Wire) where
  -- the outcome of the next attempt but `k`
  abbrev pub nth_outcome : String → Form → Net → ℕ → Outcome Fields
  nth_outcome action body w k = outcome_of E action (E.post (reposted (suc k) body w.requests))

  on_outcome-final :
      (retry : String → Exec Net Fields) (o : Outcome Fields) (w : Net)
      → ((message : String) → o ≢ raised (whmcs_transport message))
      → on_outcome E retry o w ≡ (o, w)
  unfolding on_outcome
  on_outcome-final retry (returned d) w h = refl
  on_outcome-final retry (raised (whmcs_transport m)) w h = absurd (h m refl)
  on_outcome-final retry (raised _) w h = refl

  -- The attempt number `n` of `left` is the first that is not a transport failure.
  pub record IsDecided (left : ℕ) (action : String) (body : Form) (w : Net) (n : ℕ) : Type 0 where
    pub in_time : n < left
    pub failing : (k : ℕ) → k < n → IsRetryable (nth_outcome action body w k)
    pub final : (message : String) → nth_outcome action body w n ≢ raised (whmcs_transport message)

  abbrev pub after_posts : ℕ → ℕ → ℕ → Form → Net → Net
  after_posts posts rests attempt body w = record {
    requests = reposted posts body w.requests;
    pauses = slept rests attempt w.pauses;
  }

  rounds-IsDecided :
      (n left attempt : ℕ) (action : String) (body : Form) (last : String) (w : Net)
      → IsDecided left action body w n
      → request_rounds E left attempt action body last w
        ≡ (nth_outcome action body w n, after_posts (suc n) n attempt body w)
  unfolding request_rounds send rest_after
  rounds-IsDecided n zero attempt action body last w h = absurd (omega (arith, h.in_time))
  rounds-IsDecided zero (suc left) attempt action body last w h = on_outcome-final _ _ _ h.final
  rounds-IsDecided (suc n) (suc zero) attempt action body last w h =
      absurd (omega (arith, h.in_time))
  rounds-IsDecided (suc n) (suc (suc left)) attempt action body last w h =
      let (exc, e) = h.failing 0 (omega arith) in
      rw e (
        unfold on_outcome in
        rounds-IsDecided n (suc left) (suc attempt) action body exc
          (record { requests = body ∷ w.requests; pauses = attempt ∷ w.pauses })
          (record {
            in_time = omega (arith, h.in_time);
            failing = λ k lt. h.failing (suc k) (omega arith);
            final = h.final;
          }))

  rounds-exhausted :
      (left attempt : ℕ) (action : String) (body : Form) (last : String) (w : Net)
      → ((k : ℕ) → k < left → IsRetryable (nth_outcome action body w k))
      → IsRetryable (request_rounds E left attempt action body last w).0
        × ((request_rounds E left attempt action body last w).1
            ≡ after_posts left (one_less left) attempt body w)
  unfolding request_rounds send rest_after
  rounds-exhausted zero attempt action body last w h = ((_, refl), refl)
  rounds-exhausted (suc zero) attempt action body last w h =
      let (exc, e) = h 0 (omega arith) in rw e (unfold on_outcome in ((_, refl), refl))
  rounds-exhausted (suc (suc left)) attempt action body last w h =
      let (exc, e) = h 0 (omega arith) in
      rw e (
        unfold on_outcome in
        rounds-exhausted (suc left) (suc attempt) action body exc
          (record { requests = body ∷ w.requests; pauses = attempt ∷ w.pauses })
          (λ k lt. h (suc k) (omega arith)))

  request-IsDecided :
      (action : String) (params : Fields) (body : Form) (w : Net) (n : ℕ)
      → body_of E action params ≡ returned body
      → IsDecided (attempts_for E action) action body w n
      → request E action params w ≡ (nth_outcome action body w n, after_posts (suc n) n 0 body w)
  unfolding request
  request-IsDecided action params body w n built h =
      rw built (rounds-IsDecided n (attempts_for E action) 0 action body "None" w h)

  request-exhausted :
      (action : String) (params : Fields) (body : Form) (w : Net)
      → body_of E action params ≡ returned body
      → ((k : ℕ) → k < attempts_for E action → IsRetryable (nth_outcome action body w k))
      → IsRetryable (request E action params w).0
        × ((request E action params w).1
            ≡ after_posts (attempts_for E action) (one_less (attempts_for E action)) 0 body w)
  unfolding request
  request-exhausted action params body w built h =
      rw built (rounds-exhausted (attempts_for E action) 0 action body "None" w h)

  request-unbuilt :
      (action : String) (params : Fields) (w : Net) (e : Exn)
      → body_of E action params ≡ raised e
      → request E action params w ≡ (raised e, w)
  unfolding request
  request-unbuilt action params w e refused = rw refused refl

  -- how a call of the transport ends
  pub data IsEnded (action : String) (params : Fields) (w : Net) (r : Outcome Fields × Net)
      : Type 0 where
    unbuilt :
        (e : Exn)
        → body_of E action params ≡ raised e
        → r ≡ (raised e, w)
        → IsEnded action params w r
    decided :
        (body : Form) (n : ℕ)
        → body_of E action params ≡ returned body
        → IsDecided (attempts_for E action) action body w n
        → r ≡ (nth_outcome action body w n, after_posts (suc n) n 0 body w)
        → IsEnded action params w r
    exhausted :
        (body : Form)
        → body_of E action params ≡ returned body
        → ((k : ℕ) → k < attempts_for E action → IsRetryable (nth_outcome action body w k))
        → IsRetryable r.0
        → r.1 ≡ after_posts (attempts_for E action) (one_less (attempts_for E action)) 0 body w
        → IsEnded action params w r

  upto_last :
      (action : String) (body : Form) (w : Net) (left : ℕ)
      → IsRetryable (nth_outcome action body w left)
      → ((k : ℕ) → k < left → IsRetryable (nth_outcome action body w k))
      → (k : ℕ) → k < suc left
      → IsRetryable (nth_outcome action body w k)
  upto_last action body w left again all k lt = elim (dec_lt k left) [
    | yes below ↦ all k below
    | no last ↦
        let same : left ≡ k = omega arith in
        subst (λ i. IsRetryable (nth_outcome action body w i)) same again
  ]

  first_final :
      (left : ℕ) (action : String) (body : Form) (w : Net)
      → ((n : ℕ) × IsDecided left action body w n)
        ⊎ ((k : ℕ) → k < left → IsRetryable (nth_outcome action body w k))
  first_final zero action body w = inr (λ k lt. elim lt [ ])
  first_final (suc left) action body w = elim (first_final left action body w) [
    | inl (n, d) ↦
        inl (n, record { in_time = omega (arith, d.in_time); failing = d.failing; final = d.final })
    | inr all ↦ elim (retry_cases (nth_outcome action body w left)) [
      | inl again ↦ inr (upto_last action body w left again all)
      | inr final ↦ inl (left, record { in_time = omega arith; failing = all; final = final })
    ]
  ]

  -- Whatever the network answers, a call of the transport ends, in one of three ways. Its body cannot
  -- be built, and nothing is posted. Or one of the attempts that its action allows is the first that
  -- does not fail in transport: its outcome, be it the reply or WHMCS' refusal, is the outcome of the
  -- call, after exactly the POSTs up to it, all of one body, with a pause after each failure. Or all
  -- the attempts are made and fail in transport, and it raises a transport error.
  pub request-IsEnded :
      (action : String) (params : Fields) (w : Net)
      → IsEnded action params w (request E action params w)
  request-IsEnded action params w = elim (Outcome-cases (body_of E action params)) [
    | inr (e, refused) ↦ unbuilt e refused (request-unbuilt action params w e refused)
    | inl (body, built) ↦ elim (first_final (attempts_for E action) action body w) [
      | inl (n, d) ↦ decided body n built d (request-IsDecided action params body w n built d)
      | inr all ↦
          let (failed, posts) = request-exhausted action params body w built all in
          exhausted body built all failed posts
    ]
  ]
