-- ===== src/Whmcs/Transport/Bodies.antt =====
-- What is posted: the caller's parameters below the fields of the bridge.
use whmcstemplate_bridge.Base.{
  is_text, Bool-cases, inl, inr, raised, Outcome, returned, String, ◌≡◌, refl, ap, ◌∙◌, Option,
  none, some, [], ◌∷◌,
}
use whmcstemplate_bridge.Json.{Fields}
use whmcstemplate_bridge.Whmcs.Form.{Form, put, update, lookup}
use whmcstemplate_bridge.Whmcs.Form.Laws.{orelse, latest, lookup-update}
use whmcstemplate_bridge.Whmcs.Flatten.{flatten}
use whmcstemplate_bridge.Whmcs.Config.{has_api_creds, has_admin_creds, with_access_key, credentials}
use whmcstemplate_bridge.Whmcs.Transport.{with_credentials, Wire, body_of}

-- the fields of the bridge, in the order in which they are written
abbrev pub own_fields : String → Form → String → Option String
own_fields action creds key =
    orelse (latest key creds) (latest key (("action", action) ∷ ("responsetype", "json") ∷ []))

module _ (E : Wire) where
  with_credentials-returned :
      (base creds body : Form)
      → with_credentials E base (returned creds) ≡ returned body
      → body ≡ update base creds
  unfolding with_credentials
  with_credentials-returned base creds body h = cc

  orelse_assoc : (o p q : Option String) → orelse o (orelse p q) ≡ orelse (orelse o p) q
  orelse_assoc none p q = refl
  orelse_assoc (some v) p q = refl

  -- Whatever parameters a call has, the body carries the bridge's own fields: the action, the format
  -- of the reply and the credentials. A parameter of the same name is overwritten.
  pub body-own_fields :
      (action : String) (params : Fields) (creds body : Form) (key value : String)
      → credentials E.md5 E.config ≡ returned creds
      → body_of E action params ≡ returned body
      → own_fields action creds key ≡ some value
      → lookup key body ≡ some value
  unfolding body_of
  body-own_fields action params creds body key value given built own =
      let fixed = ("action", action) ∷ ("responsetype", "json") ∷ [] in
      let flat = flatten E.repr params "" in
      let e : body ≡ update (update flat fixed) creds =
        with_credentials-returned (update flat fixed) creds body (rw given at built) in
      ap (lookup key) e
      ∙ lookup-update key (update flat fixed) creds
      ∙ ap (orelse (latest key creds)) (lookup-update key flat fixed)
      ∙ orelse_assoc (latest key creds) (latest key fixed) (lookup key flat)
      ∙ ap (λ o. orelse o (lookup key flat)) own

  -- No credential is called "action".
  keyed-action :
      (access_key v u : String)
      → (latest "action" (with_access_key access_key (("identifier", v) ∷ ("secret", u) ∷ []))
          ≡ none)
        × (latest "action" (with_access_key access_key (("username", v) ∷ ("password", u) ∷ []))
            ≡ none)
  unfolding latest put
  keyed-action access_key v u = elim (Bool-cases (is_text access_key)) [
    | inl given ↦ rw given (refl, refl)
    | inr missing ↦ rw missing (refl, refl)
  ]

  in_returned :
      (form creds : Form)
      → latest "action" form ≡ none
      → returned form ≡ returned creds
      → latest "action" creds ≡ none
  in_returned form creds none_there same = cc

  credentials-action :
      (creds : Form) → credentials E.md5 E.config ≡ returned creds → latest "action" creds ≡ none
  unfolding credentials
  credentials-action creds given = elim (Bool-cases (has_api_creds E.config)) [
    | inl api ↦ in_returned _ creds (keyed-action E.config.access_key _ _).0 (rw api at given)
    | inr no_api ↦ elim (Bool-cases (has_admin_creds E.config)) [
      | inl admin ↦
          in_returned _ creds (keyed-action E.config.access_key _ _).1
            (rw admin at (rw no_api at given))
      | inr no_admin ↦ absurd (cc (rw no_admin at (rw no_api at given)))
    ]
  ]

  built-credentials :
      (base body : Form) (o : Outcome Form)
      → with_credentials E base o ≡ returned body
      → (creds : Form) × (o ≡ returned creds)
  unfolding with_credentials
  built-credentials base body (returned creds) h = (creds, refl)
  built-credentials base body (raised e) h = absurd (cc h)

  -- Whatever parameters a call has, the body names the call's own action.
  pub body-action :
      (action : String) (params : Fields) (body : Form)
      → body_of E action params ≡ returned body
      → lookup "action" body ≡ some action
  unfolding body_of latest
  body-action action params body built =
      let (creds, given) = built-credentials _ body (credentials E.md5 E.config) built in
      body-own_fields action params creds body "action" action given built
        (rw (credentials-action creds given) refl)
