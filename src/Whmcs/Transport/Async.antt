-- ===== src/Whmcs/Transport/Async.antt =====
-- `AsyncTransport.request` of apps/whmcs/transport.py, with `asyncio.sleep` for the pauses.
use mathlib.Core.Path.{fun_ext}
use whmcstemplate_bridge.Base.{
  f_string, whmcs_transport, Exec, raise, lift, ◌>>=◌, ◌>>◌, ℕ, zero, suc, String, ◌≡◌, refl, ap,
  [], ◌∷◌,
}
use whmcstemplate_bridge.Json.{Fields}
use whmcstemplate_bridge.Whmcs.Form.{Form}
use whmcstemplate_bridge.Whmcs.Transport.{
  send, rest_after, on_outcome, Wire, Net, body_of, outcome_of, request_rounds, attempts_for,
  request,
}

module _ (E : Wire) where
  -- the loop, by the attempts that are left and done
  async_rounds : (left attempt : ℕ) → String → Form → (last : String) → Exec Net Fields
  unfolding send rest_after on_outcome outcome_of f_string
  async_rounds zero attempt action body last =
      raise (whmcs_transport (f_string ("WHMCS call " ∷ action ∷ " failed: " ∷ last ∷ [])))
  async_rounds (suc left) attempt action body last = do
    answer ← send E body
    on_outcome E
        (λ exc. rest_after E left attempt >> async_rounds left (suc attempt) action body exc)
        (outcome_of E action answer)

  unfoldable pub request_async : String → Fields → Exec Net Fields
  unfolding async_rounds body_of
  request_async action params = do
    body ← lift (body_of E action params)
    async_rounds (attempts_for E action) 0 action body "None"

  async_rounds-request_rounds :
      (left attempt : ℕ) (action : String) (body : Form) (last : String)
      → async_rounds left attempt action body last ≡ request_rounds E left attempt action body last
  unfolding async_rounds request_rounds
  async_rounds-request_rounds zero attempt action body last = refl
  async_rounds-request_rounds (suc left) attempt action body last =
      ap
        (λ (next : String → Exec Net Fields). send E body >>= λ answer.
          on_outcome E (λ exc. rest_after E left attempt >> next exc) (outcome_of E action answer))
        (fun_ext (λ exc. async_rounds-request_rounds left (suc attempt) action body exc))

  -- The asynchronous transport posts, pauses, answers and raises as the blocking one does.
  pub request_async-request :
      (action : String) (params : Fields) → request_async action params ≡ request E action params
  unfolding request_async request
  request_async-request action params =
      ap (λ (rounds : Form → Exec Net Fields). lift (body_of E action params) >>= rounds)
        (fun_ext (λ body. async_rounds-request_rounds (attempts_for E action) 0 action body "None"))
