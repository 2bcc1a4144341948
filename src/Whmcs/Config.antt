-- ===== src/Whmcs/Config.antt =====
-- apps/whmcs/config.py
use whmcstemplate_bridge.Base.{
  nat_eq, if◌then◌else◌, Bool-cases, f_string, is_text, one_of, show, whmcs_config, Outcome,
  returned, raised, ℕ, String, ◌≡◌, refl, inl, inr, Bool, true, false, not, ◌&&◌, ◌||◌, Option,
  none, some, List, [], ◌∷◌, ◌++◌, arith, ◌==◌,
}
use text.Mathlib.Text.{starts_with}
use whmcstemplate_bridge.Whmcs.Form.{Form, put}

-- what the modelled code reads of `WhmcsSettings`
pub record WhmcsSettings : Type 0 where
  pub scheme : String
  pub host : String
  pub port : Option ℕ
  pub base_path : String
  pub api_path : String
  pub host_header : String
  pub identifier : String
  pub secret : String
  pub access_key : String
  pub admin_username : String
  pub admin_password : String
  pub max_retries : ℕ

-- `_DEFAULT_PORTS.get(scheme)`
abbrev pub default_port : String → Option ℕ
default_port scheme =
    if scheme == "https" then some 443 else if scheme == "http" then some 80 else none

abbrev same_port : ℕ → Option ℕ → Bool
same_port n none = false
same_port n (some m) = nat_eq n m

unfoldable pub netloc : WhmcsSettings → String
unfolding f_string show
netloc c = elim c.port [
  | none ↦ c.host
  | some n ↦
      if not (nat_eq n 0) && not (same_port n (default_port c.scheme))
      then f_string (c.host ∷ ":" ∷ show n ∷ [])
      else c.host
]

-- `urlunsplit` of a scheme, a host and a path that begins with a slash
unfoldable pub endpoint : WhmcsSettings → String
unfolding netloc f_string
endpoint c =
    let path = f_string (c.base_path ∷ c.api_path ∷ []) in
    f_string (
      c.scheme
      ∷ "://"
      ∷ netloc c
      ∷ (if starts_with path "/" then path else f_string ("/" ∷ path ∷ []))
      ∷ [])

unfoldable pub default_headers : WhmcsSettings → Form
unfolding put
default_headers c =
    let headers = ("User-Agent", "whmcs-bridge/1.0") ∷ ("Accept", "application/json") ∷ [] in
    if is_text c.host_header then put "Host" c.host_header headers else headers

abbrev pub has_api_creds : WhmcsSettings → Bool
has_api_creds c = is_text c.identifier && is_text c.secret

abbrev pub has_admin_creds : WhmcsSettings → Bool
has_admin_creds c = is_text c.admin_username && is_text c.admin_password

abbrev pub with_access_key : String → Form → Form
with_access_key key creds = if is_text key then put "accesskey" key creds else creds

-- Auth fields appended to every request body; `md5` is the hex digest.
unfoldable pub credentials : (md5 : String → String) → WhmcsSettings → Outcome Form
unfolding put
credentials md5 c =
    if has_api_creds c
    then returned
        (with_access_key c.access_key (("identifier", c.identifier) ∷ ("secret", c.secret) ∷ []))
    else if has_admin_creds c
    then returned (
        with_access_key c.access_key
          (("username", c.admin_username) ∷ ("password", md5 c.admin_password) ∷ []))
    else raised (whmcs_config "No WHMCS credentials configured.")

abbrev when : Bool → String → List String
when b s = if b then s ∷ [] else []

-- the problems that `validate` finds
unfoldable pub problems : (debug : Bool) → WhmcsSettings → List String
problems debug c =
    when (not (is_text c.host)) "WHMCS_HOST is empty"
    ++ (when (not (one_of c.scheme ("http" ∷ "https" ∷ []))) "WHMCS_SCHEME must be http or https"
        ++ (when (not (has_api_creds c || has_admin_creds c))
              "set WHMCS_IDENTIFIER/WHMCS_SECRET (or WHMCS_ADMIN_USERNAME/PASSWORD)"
            ++ when (c.scheme == "http" && not debug)
                "refusing plaintext http to WHMCS outside DEBUG"))

-- `"; ".join(problems)`
unfoldable pub join : String → List String → String
unfolding f_string
join sep [] = ""
join sep (s ∷ []) = s
join sep (s ∷ t ∷ rest) = f_string (s ∷ sep ∷ join sep (t ∷ rest) ∷ [])

refuse : List String → Outcome (Unit {0})
unfolding join f_string
refuse [] = returned tt
refuse (p ∷ ps) =
    raised (whmcs_config (f_string ("Invalid WHMCS configuration: " ∷ join "; " (p ∷ ps) ∷ [])))

unfoldable pub validate : (debug : Bool) → WhmcsSettings → Outcome (Unit {0})
unfolding problems refuse
validate debug c = refuse (problems debug c)

abbrev pub sensitive_fields : List String
sensitive_fields =
    "identifier" ∷ "secret" ∷ "accesskey" ∷ "password" ∷ "password2" ∷ "username"
    ∷ "credit_card_number" ∷ "cvv" ∷ []

-- Copy of the form safe to write into a log line; `lower` is `str.lower`.
unfoldable pub redact : (lower : String → String) → Form → Form
redact lower [] = []
redact lower ((k, v) ∷ form) =
    (k, if one_of (lower k) sensitive_fields then "***" else v) ∷ redact lower form

refuse-returned : (ps : List String) → refuse ps ≡ returned tt → ps ≡ []
unfolding refuse
refuse-returned [] h = refl
refuse-returned (p ∷ ps) h = cc

no_problems :
    (host known creds plain : Bool) (p q r t : String)
    → (when (not host) p ++ (when (not known) q ++ (when (not creds) r ++ when plain t))) ≡ []
    → (host ≡ true) × (known ≡ true) × (creds ≡ true) × (plain ≡ false)
no_problems true true true false p q r t h = (refl, refl, refl, refl)
no_problems false known creds plain p q r t h = cc
no_problems true false creds plain p q r t h = cc
no_problems true true false plain p q r t h = cc
no_problems true true true true p q r t h = cc

speaks :
    (http https debug : Bool)
    → (http || (https || false)) ≡ true
    → (http && not debug) ≡ false
    → (https || (http && debug)) ≡ true
speaks http https debug h h' = ground arith

credentials-given :
    (md5 : String → String) (c : WhmcsSettings)
    → (has_api_creds c || has_admin_creds c) ≡ true
    → (creds : Form) × (credentials md5 c ≡ returned creds)
unfolding credentials
credentials-given md5 c h = elim (Bool-cases (has_api_creds c)) [
  | inl api ↦ (
    with_access_key c.access_key (("identifier", c.identifier) ∷ ("secret", c.secret) ∷ []),
    rw api refl,
  )
  | inr no_api ↦ (
    with_access_key c.access_key
        (("username", c.admin_username) ∷ ("password", md5 c.admin_password) ∷ []),
    rw no_api (rw (rw no_api at h) refl),
  )
]

-- A configuration that passes `validate` has credentials to send, so that `credentials` does not
-- raise, and speaks https, or http under DEBUG, to a host that is named.
pub validate-credentials :
    (md5 : String → String) (debug : Bool) (c : WhmcsSettings)
    → validate debug c ≡ returned tt
    → ((creds : Form) × (credentials md5 c ≡ returned creds))
      × (is_text c.host ≡ true)
      × ((c.scheme == "https" || (c.scheme == "http" && debug)) ≡ true)
unfolding validate credentials problems
validate-credentials md5 debug c h =
    let (host, known, creds, plain) =
      no_problems (is_text c.host) (one_of c.scheme ("http" ∷ "https" ∷ []))
        (has_api_creds c || has_admin_creds c) (c.scheme == "http" && not debug) _ _ _ _
        (refuse-returned (problems debug c) h) in
    (credentials-given md5 c creds, host, speaks (c.scheme == "http") _ debug known plain)
