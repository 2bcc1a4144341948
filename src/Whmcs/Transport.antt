-- ===== src/Whmcs/Transport.antt =====
-- apps/whmcs/transport.py: the calls of WHMCS over HTTP, without logging and connection pooling.
pub mod Retries
pub mod Async
pub mod Bodies
pub mod Replies
use Prim.Native.Char.{code}
use Prim.Native.String
use text.Mathlib.Text.{starts_with}
use whmcstemplate_bridge.Base.{
  leb, nat_eq, if◌then◌else◌, any, f_string, prefix, contains, show, ApiKind, auth_error,
  not_found_error, validation_error, rate_limited, Exn, whmcs_transport, whmcs_api, Outcome,
  returned, raised, Exec, raise, lift, ◌>>=◌, ◌>>◌, ℕ, zero, suc, ◌+◌, String, Bool, false, not,
  ◌||◌, Option, none, some, List, [], ◌∷◌, ◌==◌,
}
use whmcstemplate_bridge.Json.{Value, null, str, dict, Fields, get_or, or_value, str_of}
use whmcstemplate_bridge.Whmcs.Form.{Form, update}
use whmcstemplate_bridge.Whmcs.Flatten.{flatten}
use whmcstemplate_bridge.Whmcs.Config.{WhmcsSettings, credentials}

-- `json` is what `response.json()` gives, and none where it raises a ValueError.
pub record Response : Type 0 where
  pub status_code : ℕ
  pub text : String
  pub json : Option Value

-- What `client.post` comes to: an `httpx.TransportError` with its text, any other exception, or a
-- response.
pub data Answer : Type 0 where
  transport_error : (exc : String) → Answer
  broken : Exn → Answer
  answered : Response → Answer

-- The configuration, the network and the runtime. `post` answers a request by all requests so far,
-- this one at the head.
pub record Wire : Type 0 where
  pub config : WhmcsSettings
  pub md5 : String → String
  pub lower : String → String
  pub repr : Value → String
  pub post : List Form → Answer

pub record Net : Type 0 where
  -- the bodies posted, the last one first
  pub requests : List Form
  -- the attempts after which the caller slept, the last one first
  pub pauses : List ℕ

abbrev pub idempotent_prefixes : List String
idempotent_prefixes = "Get" ∷ "List" ∷ "Validate" ∷ "Domain Whois" ∷ "Whmcs" ∷ []

abbrev pub retryable_status : List ℕ
retryable_status = 502 ∷ 503 ∷ 504 ∷ 522 ∷ 524 ∷ []

abbrev pub error_signatures : List (String × ApiKind)
error_signatures =
    ("invalid ip", auth_error)
    ∷ ("authentication failed", auth_error)
    ∷ ("invalid credential", auth_error)
    ∷ ("invalid api credential", auth_error)
    ∷ ("access denied", auth_error)
    ∷ ("api access", auth_error)
    ∷ ("not found", not_found_error)
    ∷ ("does not exist", not_found_error)
    ∷ ("no results", not_found_error)
    ∷ ("rate limit", rate_limited)
    ∷ ("too many", rate_limited)
    ∷ []

-- the first signature in a message decides
unfoldable pub kind_of : List (String × ApiKind) → (lowered : String) → ApiKind
unfolding contains
kind_of [] lowered = validation_error
kind_of ((signature, kind) ∷ signatures) lowered =
    let rest = kind_of signatures lowered in if contains signature lowered then kind else rest

unfoldable pub classify : (lower : String → String) → String → Exn
unfolding kind_of
classify lower message = whmcs_api (kind_of error_signatures (lower message)) message

-- `action.startswith(IDEMPOTENT_PREFIXES)`
unfoldable pub is_idempotent : String → Bool
is_idempotent action = any (starts_with action) idempotent_prefixes

-- `value == "error"`
abbrev pub says_error : Value → Bool
says_error (str s) = s == "error"
says_error _ = false

-- `data` of `_parse`: the body as a JSON object
abbrev pub object_of : Option Value → Option Fields
object_of (some (dict d)) = some d
object_of _ = none

-- `s.replace("\n", " ")`
unfoldable pub one_line : String → String
one_line String.[] = ""
one_line (String.◌∷◌ c s) =
    if nat_eq (code c) b'\n' then String.◌++◌ " " (one_line s) else String.◌∷◌ c (one_line s)

abbrev pub too_fast : Exn
too_fast = whmcs_api rate_limited "WHMCS is rate limiting the bridge"

module _ (E : Wire) where
  http_error : ℕ → String → Exn
  unfolding f_string show
  http_error status action =
      whmcs_transport (f_string ("WHMCS returned HTTP " ∷ show status ∷ " for " ∷ action ∷ []))

  -- the body is no JSON object
  unfoldable pub no_object : Response → String → Exn
  unfolding http_error one_line f_string prefix
  no_object r action =
      if any (nat_eq r.status_code) retryable_status
      then http_error r.status_code action
      else if nat_eq r.status_code 429
      then too_fast
      else if leb 400 r.status_code
      then http_error r.status_code action
      else whmcs_transport (
          f_string (
            "Non-JSON response from WHMCS for "
            ∷ action
            ∷ ": "
            ∷ E.repr (str (one_line (prefix 200 r.text)))
            ∷ []))

  -- `str(data.get("message") or data.get("result") or "Unknown WHMCS error")`
  error_message : Fields → String
  unfolding get_or str_of
  error_message reply = str_of E.repr (
      or_value (get_or "message" null reply)
        (or_value (get_or "result" null reply) (str "Unknown WHMCS error")))

  unfoldable pub read_object : Response → Fields → Outcome Fields
  unfolding error_message classify get_or
  read_object r reply =
      if nat_eq r.status_code 429
      then raised too_fast
      else if says_error (get_or "result" null reply) || says_error (get_or "status" null reply)
      then raised (classify E.lower (error_message reply))
      else returned reply

  unfoldable pub parse : Response → String → Outcome Fields
  unfolding no_object read_object
  parse r action = elim (object_of r.json) [
    | none ↦ raised (no_object r action)
    | some reply ↦ read_object r reply
  ]

  with_credentials : Form → Outcome Form → Outcome Form
  unfolding update
  with_credentials body (returned creds) = returned (update body creds)
  with_credentials body (raised e) = raised e

  unfoldable pub body_of : String → Fields → Outcome Form
  unfolding flatten update with_credentials credentials
  body_of action params =
      with_credentials
        (update (flatten E.repr params "") (("action", action) ∷ ("responsetype", "json") ∷ []))
        (credentials E.md5 E.config)

  send : Form → Exec Net Answer
  send body w =
      let requests = body ∷ w.requests in
      (returned (E.post requests), record w { requests = requests })

  -- `time.sleep`, unless the attempt was the last one
  rest_after : (left attempt : ℕ) → Exec Net (Unit {0})
  rest_after zero attempt w = (returned tt, w)
  rest_after (suc left) attempt w = (returned tt, record w { pauses = attempt ∷ w.pauses })

  -- the `except` of the loop: transport errors go on, and all others leave
  on_outcome : (String → Exec Net Fields) → Outcome Fields → Exec Net Fields
  on_outcome retry (raised (whmcs_transport message)) = retry message
  on_outcome retry o = lift o

  -- The outcome of one attempt. The loop treats an `httpx.TransportError` and a `WhmcsTransportError`
  -- alike, by their texts.
  unfoldable pub outcome_of : String → Answer → Outcome Fields
  unfolding parse
  outcome_of action (transport_error exc) = raised (whmcs_transport exc)
  outcome_of action (broken e) = raised e
  outcome_of action (answered r) = parse r action

  -- The loop of `request`: `left` attempts are left, `attempt` are done, and `last` is the last error.
  unfoldable pub request_rounds :
      (left attempt : ℕ) → String → Form → (last : String) → Exec Net Fields
  unfolding send rest_after on_outcome outcome_of f_string
  request_rounds zero attempt action body last =
      raise (whmcs_transport (f_string ("WHMCS call " ∷ action ∷ " failed: " ∷ last ∷ [])))
  request_rounds (suc left) attempt action body last = do
    answer ← send body
    on_outcome (λ exc. rest_after left attempt >> request_rounds left (suc attempt) action body exc)
        (outcome_of action answer)

  abbrev pub attempts_for : String → ℕ
  attempts_for action = if is_idempotent action then E.config.max_retries + 1 else 1

  unfoldable pub request : String → Fields → Exec Net Fields
  unfolding body_of request_rounds
  request action params = do
    body ← lift (body_of action params)
    request_rounds (attempts_for action) 0 action body "None"
