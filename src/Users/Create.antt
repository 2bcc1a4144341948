-- ===== src/Users/Create.antt =====
-- `UserManager.create_user` and `create_superuser`, and `User.mark_synced`, of apps/accounts/models.py.
use whmcstemplate_bridge.Base.{
  if◌then◌else◌, is_text, ℤ, pos, negsuc, runtime, returned, raised, Exec, raise, ℕ, String, Bool,
  true, false, not, Option, none, some, List, ◌∷◌,
}
use whmcstemplate_bridge.Users.{User, find_user, change_user, is_taken, integrity_error}

-- the fields that `**extra` may set
pub record Extra : Type 0 where
  pub whmcs_client_id : Option ℤ
  pub is_active : Option Bool
  pub is_staff : Option Bool
  pub is_superuser : Option Bool

abbrev pub or_default : Bool → Option Bool → Bool
or_default default none = default
or_default default (some b) = b

-- `self.model(email=…, **extra)`, with its password set or made unusable
abbrev pub model : (email password : String) → Extra → Option ℕ → User
model email password extra whmcs_client_id = record {
  email = email;
  whmcs_client_id = whmcs_client_id;
  is_active = or_default true extra.is_active;
  is_staff = or_default false extra.is_staff;
  is_superuser = or_default false extra.is_superuser;
  has_usable_password = is_text password;
  last_synced_at = none;
}

-- another row has the row's client
unfoldable pub is_taken_by : String → Option ℕ → List User → Bool
unfolding is_taken
is_taken_by email none users = false
is_taken_by email (some n) users = is_taken email n users

-- `save` of a new row: the database refuses an address and a client that another row has
unfoldable pub insert : User → Exec (List User) User
unfolding find_user is_taken_by
insert user users = elim (find_user user.email users) [
  | some _ ↦ (raised integrity_error, users)
  | none ↦
      if is_taken_by user.email user.whmcs_client_id users
      then (raised integrity_error, users)
      else (returned user, user ∷ users)
]

-- a client's id below 0 is refused by the database, too
unfoldable pub insert_with : Option ℤ → (Option ℕ → User) → Exec (List User) User
unfolding insert
insert_with none row = insert (row none)
insert_with (some (pos n)) row = insert (row (some n))
insert_with (some (negsuc n)) row = raise integrity_error

-- `normalize` is `normalize_email` and then `lower`; the empty text stands for no password.
module _ (normalize : String → String) where
  -- `_create`
  unfoldable pub create : (email password : String) → Extra → Exec (List User) User
  unfolding insert_with
  create email password extra =
      if not (is_text email)
      then raise (runtime "ValueError")
      else insert_with extra.whmcs_client_id (model (normalize email) password extra)

  unfoldable pub create_user : (email password : String) → Extra → Exec (List User) User
  unfolding create
  create_user email password extra = create email password (record extra {
    is_staff = some (or_default false extra.is_staff);
    is_superuser = some (or_default false extra.is_superuser);
  })

  unfoldable pub create_superuser : (email password : String) → Extra → Exec (List User) User
  unfolding create
  create_superuser email password extra =
      create email password
        (record extra { is_staff = some true; is_superuser = some true; is_active = some true })

abbrev pub synced_at : (now : ℕ) → User → User
synced_at now user = record user { last_synced_at = some now }

-- a row that is gone is not saved
unfoldable pub mark_synced : User → (now : ℕ) → Exec (List User) (Unit {0})
unfolding find_user change_user
mark_synced user now users = elim (find_user user.email users) [
  | some _ ↦ (returned tt, change_user user.email (synced_at now) users)
  | none ↦ (raised (runtime "DatabaseError"), users)
]
