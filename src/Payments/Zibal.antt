-- ===== src/Payments/Zibal.antt =====
-- apps/payments/gateways/zibal.py
pub mod Posts
pub mod Retries
use Prim.Native.Char.{code}
use Prim.Native.String
use whmcstemplate_bridge.Base.{
  nat_eq, if◌then◌else◌, f_string, prefix, is_text, show_int, ℤ, pos, int_eq, ltb_ℤ, zibal,
  returned, Exec, pure, raise, lift, ◌>>=◌, ◌>>◌, ℕ, zero, suc, String, Bool, not, ◌||◌, Option,
  none, some, [], ◌∷◌,
}
use whmcstemplate_bridge.Json.{
  Value, null, int, str, dict, Fields, end, field, get_or, truthy, or_value, int_of, str_of,
}
use whmcstemplate_bridge.Payments.World.{
  Billing, World, Env, GatewayCall, Reply, http_failed, json, IsoTime, naive, aware,
}

abbrev pub result_success : ℤ
result_success = pos 100

abbrev pub result_already_verified : ℤ
result_already_verified = pos 201

-- `RESULT_MESSAGES.get(result)`
unfoldable pub result_message : ℤ → Option String
result_message r =
    if int_eq r (pos 100)
    then some "success"
    else if int_eq r (pos 102)
    then some "merchant not found"
    else if int_eq r (pos 103)
    then some "merchant is inactive"
    else if int_eq r (pos 104)
    then some "merchant is invalid"
    else if int_eq r (pos 105)
    then some "amount must be greater than 1000 rial"
    else if int_eq r (pos 106)
    then some "invalid callback url"
    else if int_eq r (pos 113)
    then some "amount exceeds the transaction limit"
    else if int_eq r (pos 201)
    then some "already verified"
    else if int_eq r (pos 202)
    then some "order was not paid or failed"
    else if int_eq r (pos 203)
    then some "invalid track id"
    else none

pub record ZibalVerification : Type 0 where
  pub paid : Bool
  pub amount_rial : ℤ
  pub result : ℤ
  pub status : ℤ
  pub ref_number : String
  pub card_number : String
  pub paid_at : Option ℕ
  pub already_verified : Bool

abbrev pub or_else {ℓ} : {A : Type ℓ} → Option A → A → A
or_else none a = a
or_else (some b) a = b

pub status_message : ZibalVerification → String
status_message v = or_else (result_message v.result) (f_string ("result " ∷ show_int v.result ∷ []))

-- `raw.replace("Z", "+00:00")`
replace_z : String → String
replace_z String.[] = ""
replace_z (String.◌∷◌ c s) =
    if nat_eq (code c) b'Z' then String.◌++◌ "+00:00" (replace_z s) else String.◌∷◌ c (replace_z s)

request_body : ℤ → String → String → String → String → Fields
request_body amount_rial callback_url order_id description mobile =
    field "amount" (int amount_rial) (
      field "callbackUrl" (str callback_url) (
        field "orderId" (str order_id) (
          field "description" (str (prefix 255 description))
            (if is_text mobile then field "mobile" (str mobile) end else end))))

module _ {B : Billing} where
  -- one round of `_post`: an answer that is no JSON object ends the loop, and a failure goes on
  on_reply : String → (String → Exec (World B) Fields) → Reply → Exec (World B) Fields
  on_reply path next (http_failed exc) = next exc
  on_reply path next (json (dict fields)) = pure fields
  on_reply path next (json _) =
      raise (zibal (f_string ("Unexpected response shape from Zibal for " ∷ path ∷ [])) none)

module _ (E : Env) where
  refusal : ℤ → Fields → String
  refusal result reply = f_string (
      "Zibal refused the payment request: "
      ∷ or_else (result_message result) (str_of E.repr (get_or "message" (str "") reply))
      ∷ [])

  moment : IsoTime → ℕ
  moment (naive t) = E.make_aware t
  moment (aware t) = t

  parse_paid_at : Value → Option ℕ
  unfolding replace_z moment
  parse_paid_at value =
      if not (truthy value)
      then none
      else elim (E.fromisoformat (replace_z (str_of E.repr value))) [
        | none ↦ none
        | some t ↦ some (moment t)
      ]

  module _ {B : Billing} where
    -- `ZibalGateway()`
    unfoldable pub gateway : Exec (World B) (Unit {0})
    gateway =
        if is_text E.merchant
        then pure tt
        else raise (zibal "ZIBAL_MERCHANT is not configured." none)

    send : GatewayCall → Exec (World B) Reply
    send call w =
        let calls = call ∷ w.calls in (returned (E.zibal calls), record w { calls = calls })

    -- the loop of `_post`: `rounds` are left, and `last` is the error of the one before
    post_rounds : ℕ → GatewayCall → String → Exec (World B) Fields
    unfolding on_reply send
    post_rounds zero call last =
        raise (zibal (f_string ("Zibal is unreachable (" ∷ last ∷ ")" ∷ [])) none)
    post_rounds (suc rounds) call last = do
      reply ← send call
      on_reply call.path (post_rounds rounds call) reply

    unfoldable pub post : String → Fields → ℕ → Exec (World B) Fields
    unfolding post_rounds
    post path payload retries =
        post_rounds (suc retries)
          (record { path = path; body = field "merchant" (str E.merchant) payload }) "None"

    -- Open a payment and return the trackId.
    unfoldable pub request_payment : ℤ → String → String → String → String → Exec (World B) String
    unfolding request_body refusal
    request_payment amount_rial callback_url order_id description mobile =
        if ltb_ℤ amount_rial (pos 1000)
        then raise (zibal "Zibal requires an amount of at least 1000 rial." none)
        else do
          reply ←
              post "/v1/request" (request_body amount_rial callback_url order_id description mobile)
                0
          result ← lift (int_of (get_or "result" (int (pos 0)) reply))
          if not (int_eq result result_success)
              then raise (zibal (refusal result reply) (some result))
              else do
                let track_id = str_of E.repr (or_value (get_or "trackId" null reply) (str ""))
                if is_text track_id
                    then pure track_id
                    else raise (zibal "Zibal did not return a trackId." (some result))

    -- Ask Zibal what actually happened.
    unfoldable pub verify : String → Exec (World B) ZibalVerification
    unfolding parse_paid_at
    verify track_id = do
      reply ← post "/v1/verify" (field "trackId" (str track_id) end) E.verify_retries
      result ← lift (int_of (get_or "result" (int (pos 0)) reply))
      status ← lift (int_of (get_or "status" (int (pos 0)) reply))
      amount ← lift (int_of (or_value (get_or "amount" null reply) (int (pos 0))))
      pure (record {
        paid = int_eq result result_success || int_eq result result_already_verified;
        amount_rial = amount;
        result = result;
        status = status;
        ref_number = str_of E.repr (or_value (get_or "refNumber" null reply) (str ""));
        card_number = str_of E.repr (or_value (get_or "cardNumber" null reply) (str ""));
        paid_at = parse_paid_at (get_or "paidAt" null reply);
        already_verified = int_eq result result_already_verified;
      })

unfoldable pub start_url : String → String
start_url track_id = f_string ("https://gateway.zibal.ir" ∷ "/start/" ∷ track_id ∷ [])
