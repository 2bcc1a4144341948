-- ===== src/Users/Login.antt =====
-- Login and registration: `WhmcsTokenObtainPairSerializer` and `RegistrationSerializer` of
-- apps/accounts/serializers.py, and `RegisterView` of apps/accounts/views.py, behind the framework's fields.
pub mod Verified
use whmcstemplate_bridge.Base.{
  if◌then◌else◌, Exn, runtime, Outcome, returned, raised, Exec, pure, raise, lift, ◌>>=◌, ◌>>◌, ℕ,
  String, Bool, not, Option, none, some, List,
}
use whmcstemplate_bridge.Json.{str, dict, Fields, set_field, str_of}
use whmcstemplate_bridge.Whmcs.Services.{Site, World, upstream, subscript}
use whmcstemplate_bridge.Whmcs.Services.Accounts.{Login, validate_login, register}
use whmcstemplate_bridge.Users.{User, find_user, link_to_whmcs}

-- the user table beside the cache and WHMCS
pub record Office : Type 0 where
  pub users : List User
  pub world : World

abbrev pub on_users : {A : Type 0} → Exec (List User) A → Exec Office A
on_users m office = let (o, users) = m office.users in (o, record office { users = users })

abbrev pub on_world : {A : Type 0} → Exec World A → Exec Office A
on_world m office = let (o, world) = m office.world in (o, record office { world = world })

-- What the tokens of `issue_tokens` carry, and what is answered beside them. Registration has no flag.
pub record Session : Type 0 where
  pub email : String
  pub whmcs_client_id : Option ℕ
  pub two_factor_enabled : Option Bool

abbrev pub issue_tokens : User → Option Bool → Session
issue_tokens user two_factor_enabled = record {
  email = user.email;
  whmcs_client_id = user.whmcs_client_id;
  two_factor_enabled = two_factor_enabled;
}

abbrev pub invalid : Exn
invalid = runtime "ValidationError"

-- `normalize` is `normalize_email` and then `lower`.
module _ (S : Site) (normalize : String → String) where
  -- only an active user is let in
  abbrev pub session_of : User → Login → Exec Office Session
  session_of user result =
      if not user.is_active
      then raise invalid
      else pure (issue_tokens user (some result.two_factor_enabled))

  -- the row of the client, whom WHMCS has just confirmed
  unfoldable pub admit : (email : String) → Login → Exec Office Session
  unfolding link_to_whmcs
  admit email result = do
    user ← on_users (link_to_whmcs (normalize email) result.whmcs_client_id)
    session_of user result

  -- `WhmcsTokenObtainPairSerializer.validate`
  unfoldable pub login : (email password : String) → Exec Office Session
  unfolding validate_login admit
  login email password = do
    result ← on_world (upstream (validate_login S email password))
    admit email result

  -- `RegistrationSerializer.validate_email`
  unfoldable pub validate_email : String → Exec Office String
  unfolding find_user
  validate_email value office = elim (find_user (S.lower value) office.users) [
    | some user ↦ (raised invalid, office)
    | none ↦ (returned (S.lower value), office)
  ]

  -- `payload["email"]`
  email_of : Fields → Outcome String
  unfolding subscript str_of
  email_of payload = elim (subscript "email" (dict payload)) [
    | returned email ↦ returned (str_of S.repr email)
    | raised e ↦ raised e
  ]

  -- `RegisterView.post`, of validated data
  unfoldable pub register_view : (client_ip : String) → (payload : Fields) → Exec Office Session
  unfolding register email_of link_to_whmcs set_field
  register_view client_ip payload = do
    whmcs_client_id ←
        on_world (upstream (register S (set_field "client_ip" (str client_ip) payload)))
    email ← lift (email_of payload)
    user ← on_users (link_to_whmcs (normalize email) whmcs_client_id)
    pure (issue_tokens user none)
