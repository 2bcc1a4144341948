-- ===== src/Api/Endpoints/Answers.antt =====
-- What a view does to the world, from what it asks of a service.
use whmcstemplate_bridge.Base.{
  Outcome, returned, raised, Exec, pure, lift, continue, ◌>>=◌, ℕ, String, ◌≡◌, refl, ◌∙◌, inl, inr,
  List,
}
use whmcstemplate_bridge.Json.{Value}
use whmcstemplate_bridge.Whmcs.Services.{Site, World}
use whmcstemplate_bridge.Whmcs.Services.Isolation.Requests.{Request, sent, perform}
use whmcstemplate_bridge.Api.Scope.{Http, Framework, for_client, IsLinked, for_client-cases}
use whmcstemplate_bridge.Api.Responses.{Response, respond}
use whmcstemplate_bridge.Api.Support
use whmcstemplate_bridge.Api.Support.{NewTicket, form_of}
use whmcstemplate_bridge.Api.Endpoints.Customer.{IsFor, IsOneRequest}

module _ (F : Framework) (S : Site) (q : Http) where
  sent-respond :
      {A : Type 0} (status : ℕ) (present : A → Outcome Value) (m : Exec World A) (w : World)
      → (sent (respond status present m) w).1 ≡ (sent m w).1
  unfolding respond
  sent-respond {A} status present m w = go (m w).0 (m w).1
    where
      made : Value → Response
      made body = record { status = status; body = body }

      lifted :
          (o : Outcome Value) (w' : World)
          → (continue
              (λ (_ : Response). pure {W = World} tt)
              (continue (λ (body : Value). pure {W = World} (made body)) o w').0
              (continue (λ (body : Value). pure {W = World} (made body)) o w').1).1
            ≡ w'
      lifted (returned v) w' = refl
      lifted (raised e) w' = refl

      go :
          (o : Outcome A) (w' : World)
          → (sent
              (λ (_ : World).
                continue
                  (λ (a : A). lift {W = World} (present a) >>= λ body. pure (made body))
                  o
                  w')
              w).1
            ≡ (sent (λ (_ : World). (o, w')) w).1
      go (returned a) w' = lifted (present a) w'
      go (raised e) w' = refl

  pub sent-download :
      (m : Exec World (String × List ℕ)) (w : World)
      → (sent (m >>= λ file. pure (Support.download F.escape_uri_path file)) w).1 ≡ (sent m w).1
  sent-download m w = go (m w).0 (m w).1
    where
      go :
          (o : Outcome (String × List ℕ)) (w' : World)
          → (sent
              (λ (_ : World).
                continue
                  (λ (file : String × List ℕ).
                    pure {W = World} (Support.download F.escape_uri_path file))
                  o
                  w')
              w).1
            ≡ (sent (λ (_ : World). (o, w')) w).1
      go (returned file) w' = refl
      go (raised e) w' = refl

  pub served :
      {A D : Type 0} (o : Outcome D) (body : D → ℕ → Exec World A) (r : D → ℕ → Request)
      → ((d : D) (n : ℕ) (w : World) → (sent (body d n) w).1 ≡ (perform S (r d n) w).1)
      → ((d : D) (n : ℕ) → IsFor n (r d n))
      → (w : World) → IsOneRequest F S q w (sent (for_client F q (λ n. lift o >>= λ d. body d n)) w)
  served {A} {D} o body r same is_for w =
      elim (for_client-cases F q (λ n. lift o >>= λ d. body d n) w) [
        | inl denied ↦ rw denied (inl (F.denied, refl))
        | inr (n, linked, runs) ↦ rw runs (checked o n linked)
      ]
    where
      checked :
          (o' : Outcome D) (n : ℕ)
          → IsLinked F q n
          → IsOneRequest F S q w (sent (lift o' >>= λ d. body d n) w)
      checked (returned d) n linked = inr (n, linked, (r d n, is_for d n, same d n w))
      checked (raised e) n linked = inl (e, refl)

  pub answered :
      {B D : Type 0} (o : Outcome D) (status : ℕ) (present : B → Outcome Value)
      (op : D → ℕ → Exec World B) (r : D → ℕ → Request)
      → ((d : D) (n : ℕ) (w : World) → (sent (op d n) w).1 ≡ (perform S (r d n) w).1)
      → ((d : D) (n : ℕ) → IsFor n (r d n))
      → (w : World)
      → IsOneRequest F S q w
          (sent (for_client F q (λ n. lift o >>= λ d. respond status present (op d n))) w)
  answered o status present op r same is_for w =
      served o (λ d n. respond status present (op d n)) r
        (λ d n w'. sent-respond status present (op d n) w' ∙ same d n w') is_for w
