-- ===== src/Users.antt =====
-- The local user table of apps/accounts/models.py; this file is about `UserManager.link_to_whmcs`.
pub mod Create
pub mod Tables
pub mod Reached
pub mod Linked
pub mod Rows
pub mod Login
mod Tests
use whmcstemplate_bridge.Base.{
  nat_eq, if◌then◌else◌, ℤ, pos, negsuc, Exn, runtime, returned, raised, Exec, gets, ◌>>=◌, ◌>>◌, ℕ,
  String, Bool, true, false, not, ◌&&◌, ◌||◌, Option, none, some, List, [], ◌∷◌, ◌==◌,
}

-- a row, without its date of joining
pub record User : Type 0 where
  pub email : String
  pub whmcs_client_id : Option ℕ
  pub is_active : Bool
  pub is_staff : Bool
  pub is_superuser : Bool
  pub has_usable_password : Bool
  pub last_synced_at : Option ℕ

-- the row of an address; the column is unique
unfoldable pub find_user : String → List User → Option User
find_user email [] = none
find_user email (user ∷ users) = if user.email == email then some user else find_user email users

unfoldable pub change_user : String → (User → User) → List User → List User
change_user email change [] = []
change_user email change (user ∷ users) =
    let rest = change_user email change users in
    if user.email == email then change user ∷ rest else user ∷ rest

abbrev pub is_client : ℕ → Option ℕ → Bool
is_client n none = false
is_client n (some m) = nat_eq m n

-- another row has the client's id; the column is unique, too
unfoldable pub is_taken : String → ℕ → List User → Bool
is_taken email n [] = false
is_taken email n (user ∷ users) =
    (is_client n user.whmcs_client_id && not (user.email == email)) || is_taken email n users

abbrev pub integrity_error : Exn
integrity_error = runtime "IntegrityError"

abbrev pub new_user : String → ℕ → User
new_user email n = record {
  email = email;
  whmcs_client_id = some n;
  is_active = true;
  is_staff = false;
  is_superuser = false;
  has_usable_password = true;
  last_synced_at = none;
}

abbrev pub with_client : ℕ → User → User
with_client n user = record user { whmcs_client_id = some n }

abbrev pub with_unusable_password : User → User
with_unusable_password user = record user { has_usable_password = false }

-- `get_or_create`, and the id that is saved where the row has another; the database refuses an id below
-- 0, and one that another row has
unfoldable pub with_id : String → ℤ → Option User → Exec (List User) User
unfolding change_user is_taken
with_id email (negsuc _) found users = (raised integrity_error, users)
with_id email (pos n) none users =
    if is_taken email n users
    then (raised integrity_error, users)
    else (returned (new_user email n), new_user email n ∷ users)
with_id email (pos n) (some user) users =
    if is_client n user.whmcs_client_id
    then (returned user, users)
    else if is_taken email n users
    then (raised integrity_error, users)
    else (returned (with_client n user), change_user email (with_client n) users)

-- A customer's row keeps no password of its own.
unfoldable pub forget_password : String → User → Exec (List User) User
unfolding change_user
forget_password email user users =
    if user.has_usable_password && not user.is_staff
    then (returned (with_unusable_password user), change_user email with_unusable_password users)
    else (returned user, users)

-- Get or create the local mirror of a WHMCS client; `email` is normalized and in lower case.
unfoldable pub link_to_whmcs : (email : String) → (whmcs_client_id : ℤ) → Exec (List User) User
unfolding find_user with_id forget_password
link_to_whmcs email whmcs_client_id = do
  found ← gets (find_user email)
  user ← with_id email whmcs_client_id found
  forget_password email user
