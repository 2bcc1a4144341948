-- ===== src/Whmcs/Services/Accounts.antt =====
-- apps/whmcs/services/accounts.py, without its log lines.
pub mod Owner
pub mod Editable
use whmcstemplate_bridge.Base.{
  if◌then◌else◌, ℤ, pos, int_eq, application_error, invalid_credentials, validation_error, Exn,
  application, whmcs_api, runtime, Outcome, returned, raised, Exec, pure, raise, lift, catch, ◌>>=◌,
  ◌>>◌, ℕ, String, Bool, true, false, not, Option, none, some, List, [], ◌∷◌,
}
use whmcstemplate_bridge.Json.{
  Value, null, bool, int, str, dict, Items, Fields, end, field, get, get_or, set_field, truthy,
  or_value,
}
use whmcstemplate_bridge.Whmcs.Dates.{dates}
use whmcstemplate_bridge.Whmcs.Normalizers.{
  collection, to_int, text, as_int, as_text, to_bool, as_bool, Column, column, pick,
}
use whmcstemplate_bridge.Whmcs.Money.{as_money}
use whmcstemplate_bridge.Whmcs.Services.{
  Call, Site, World, upstream, pick_each, ask, cached_for, invalidate_for,
}

-- Profile fields a customer is allowed to change about themselves: ours, and WHMCS' name.
abbrev pub editable_profile_fields : List (String × String)
editable_profile_fields =
    ("first_name", "firstname")
    ∷ ("last_name", "lastname")
    ∷ ("company", "companyname")
    ∷ ("address1", "address1")
    ∷ ("address2", "address2")
    ∷ ("city", "city")
    ∷ ("state", "state")
    ∷ ("postcode", "postcode")
    ∷ ("country", "countrycode")
    ∷ ("phone", "phonenumber")
    ∷ []

abbrev pub invalid_login : Exn
invalid_login =
    application invalid_credentials "invalid_credentials" "Email or password is incorrect." []

-- what `validate_login` makes of an exception of the call
unfoldable pub login_failure : {A : Type 0} → Exn → Exec (List Call) A
login_failure (whmcs_api validation_error _) = raise invalid_login
login_failure e = raise e

-- an entry of the comprehension, if the field changed
abbrev pub with_change : (theirs : String) → Option Value → Fields → Fields
with_change theirs none params = params
with_change theirs (some v) params = field theirs v params

-- the parameters of UpdateClient, by the fields that changed
unfoldable pub changed_fields : List (String × String) → (changes : Fields) → Fields
unfolding get
changed_fields [] changes = end
changed_fields ((ours, theirs) ∷ editable) changes =
    with_change theirs (get ours changes) (changed_fields editable changes)

-- ... with the id
unfoldable pub update_params : (whmcs_client_id : ℕ) → (changes : Fields) → Fields
unfolding changed_fields set_field
update_params whmcs_client_id changes =
    set_field "clientid" (int (pos whmcs_client_id))
      (changed_fields editable_profile_fields changes)

abbrev pub no_fields : Fields → Bool
no_fields end = true
no_fields (field _ _ _) = false

abbrev pub login_params : (email password : String) → Fields
login_params email password = field "email" (str email) (field "password2" (str password) end)

-- the parameters of AddClient; the required fields of the payload are there
registration : Fields → Fields
unfolding get_or
registration p = field "firstname" (get_or "first_name" null p) (
    field "lastname" (get_or "last_name" null p) (
      field "email" (get_or "email" null p) (
        field "password2" (get_or "password" null p) (
          field "address1" (get_or "address1" (str "") p) (
            field "city" (get_or "city" (str "") p) (
              field "state" (get_or "state" (str "") p) (
                field "postcode" (get_or "postcode" (str "") p) (
                  field "country" (get_or "country" (str "") p) (
                    field "phonenumber" (get_or "phone" (str "") p) (
                      field "companyname" (get_or "company" (str "") p) (
                        field "clientip" (get_or "client_ip" (str "") p) (
                          field "noemail" (get_or "skip_welcome_email" (bool false) p)
                            (field "skipvalidation" (bool false) end)))))))))))))

first_id : (repr : Value → String) → List Fields → Option ℤ
unfolding to_int get_or
first_id repr [] = none
first_id repr (client ∷ _) = some (to_int repr (get_or "id" null client) (pos 0))

unfoldable pub api_error_only : Exn → Exec (List Call) (Option ℤ)
api_error_only (whmcs_api _ _) = pure none
api_error_only e = raise e

-- what `validate_login` returns
pub record Login : Type 0 where
  pub whmcs_client_id : ℤ
  pub password_hash : String
  pub two_factor_enabled : Bool

module _ (S : Site) where
  profile_map : List Column
  unfolding to_int text to_bool
  profile_map =
      column "whmcs_client_id" "id" (as_int S.repr)
      ∷ column "first_name" "firstname" (as_text S.repr)
      ∷ column "last_name" "lastname" (as_text S.repr)
      ∷ column "company" "companyname" (as_text S.repr)
      ∷ column "email" "email" (as_text S.repr)
      ∷ column "address1" "address1" (as_text S.repr)
      ∷ column "address2" "address2" (as_text S.repr)
      ∷ column "city" "city" (as_text S.repr)
      ∷ column "state" "state" (as_text S.repr)
      ∷ column "postcode" "postcode" (as_text S.repr)
      ∷ column "country" "countrycode" (as_text S.repr)
      ∷ column "phone" "phonenumber" (as_text S.repr)
      ∷ column "status" "status" (as_text S.repr)
      ∷ column "currency_code" "currency_code" (as_text S.repr)
      ∷ column "credit" "credit" (as_money S.repr)
      ∷ column "email_opt_out" "emailoptout" (as_bool S.repr S.lower)
      ∷ column "two_factor_enabled" "twofaenabled" (as_bool S.repr S.lower)
      ∷ column "created_at" "datecreated" (dates S.repr).iso_date
      ∷ []

  unfoldable pub login_of : Fields → Login
  unfolding to_int text to_bool get_or
  login_of reply = record {
    whmcs_client_id = to_int S.repr (get_or "userid" null reply) (pos 0);
    password_hash = text S.repr (get_or "passwordhash" null reply);
    two_factor_enabled = to_bool S.repr S.lower (get_or "twoFactorEnabled" null reply);
  }

  unfoldable pub validate_login : (email password : String) → Exec (List Call) Login
  unfolding ask login_failure login_of
  validate_login email password = do
    reply ← catch (ask S "ValidateLogin" (login_params email password)) login_failure
    pure (login_of reply)

  -- `pick` of a record that is none raises
  pub profile_of : Value → Outcome Value
  unfolding pick profile_map
  profile_of (dict client) = returned (dict (pick client profile_map))
  profile_of _ = raised (runtime "AttributeError")

  -- `fetch` of `get_profile`
  unfoldable pub fetch_profile : (whmcs_client_id : ℕ) → Exec (List Call) Value
  unfolding ask profile_of get_or truthy
  fetch_profile whmcs_client_id = do
    reply ←
        ask S "GetClientsDetails"
          (field "clientid" (int (pos whmcs_client_id)) (field "stats" (bool false) end))
    lift (profile_of (or_value (get_or "client" null reply) (dict reply)))

  unfoldable pub get_profile : (whmcs_client_id : ℕ) → Exec World Value
  unfolding cached_for fetch_profile
  get_profile whmcs_client_id =
      cached_for S whmcs_client_id "profile" "client" (fetch_profile whmcs_client_id)
        (str "detail" ∷ [])

  unfoldable pub update_profile : (whmcs_client_id : ℕ) → (changes : Fields) → Exec World Value
  unfolding changed_fields update_params ask invalidate_for get_profile
  update_profile whmcs_client_id changes =
      if no_fields (changed_fields editable_profile_fields changes)
      then raise
          (application application_error "nothing_to_update" "No editable fields supplied." [])
      else do
        upstream (ask S "UpdateClient" (update_params whmcs_client_id changes))
        invalidate_for whmcs_client_id ("profile" ∷ [])
        get_profile whmcs_client_id

  -- from UpdateClient on
  unfoldable pub store_password :
      (whmcs_client_id : ℕ) → (new_password : String) → Exec World (Unit {0})
  unfolding ask invalidate_for
  store_password whmcs_client_id new_password = do
    upstream (
        ask S "UpdateClient"
          (field "clientid" (int (pos whmcs_client_id)) (field "password2" (str new_password) end)))
    invalidate_for whmcs_client_id ("profile" ∷ [])

  -- the test on whose credentials these are
  unfoldable pub store_verified :
      (whmcs_client_id : ℕ) → (new_password : String) → Login → Exec World (Unit {0})
  unfolding store_password
  store_verified whmcs_client_id new_password verified =
      if not (int_eq verified.whmcs_client_id (pos whmcs_client_id))
      then raise invalid_login
      else store_password whmcs_client_id new_password

  -- Re-authenticate before writing.
  unfoldable pub change_password :
      (whmcs_client_id : ℕ) → (email current_password new_password : String) → Exec World (Unit {0})
  unfolding validate_login store_verified
  change_password whmcs_client_id email current_password new_password = do
    verified ← upstream (validate_login email current_password)
    store_verified whmcs_client_id new_password verified

  contact_map : List Column
  unfolding to_int text
  contact_map =
      column "id" "id" (as_int S.repr)
      ∷ column "first_name" "firstname" (as_text S.repr)
      ∷ column "last_name" "lastname" (as_text S.repr)
      ∷ column "email" "email" (as_text S.repr)
      ∷ column "phone" "phonenumber" (as_text S.repr)
      ∷ []

  unfoldable pub get_contacts : (whmcs_client_id : ℕ) → Exec (List Call) Items
  unfolding ask pick_each contact_map collection
  get_contacts whmcs_client_id = do
    reply ← ask S "GetContacts" (field "userid" (int (pos whmcs_client_id)) end)
    pure (pick_each contact_map (collection reply "contacts" "contact"))

  -- Create a WHMCS client.
  unfoldable pub register : (payload : Fields) → Exec (List Call) ℤ
  unfolding ask registration to_int get_or
  register payload = do
    reply ← ask S "AddClient" (registration payload)
    pure (to_int S.repr (get_or "clientid" null reply) (pos 0))

  unfoldable pub find_client_id_by_email : (email : String) → Exec (List Call) (Option ℤ)
  unfolding ask api_error_only first_id collection
  find_client_id_by_email email =
      catch
        (do
          reply ←
              ask S "GetClients" (field "search" (str email) (field "limitnum" (int (pos 1)) end))
          pure (first_id S.repr (collection reply "clients" "client")))
        api_error_only
