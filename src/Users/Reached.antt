-- ===== src/Users/Reached.antt =====
-- The tables that the operations of apps/accounts/models.py lead to, from an empty one on.
use whmcstemplate_bridge.Base.{
  Allowed, Frame, Frame-raise, Frame-if, Frame-bind, ◌&&◌, Bool-cases, Option-cases, is_text, ℤ,
  pos, negsuc, runtime, ℕ, String, not, ◌≡◌, refl, inl, inr, Option, none, some, List, [],
}
use whmcstemplate_bridge.Users.{
  User, find_user, change_user, is_taken, is_client, integrity_error, link_to_whmcs, with_id,
  forget_password, with_client, with_unusable_password,
}
use whmcstemplate_bridge.Users.Create.{
  Extra, is_taken_by, insert, insert_with, create, create_user, create_superuser, synced_at,
  mark_synced,
}
use whmcstemplate_bridge.Users.Linked.{Links, link_to_whmcs-IsLinkedTo}
use whmcstemplate_bridge.Users.Tables.{
  AreApart, IsTable, change-AreApart, change-AreUnique, insert-AreUnique,
}

-- what keeps the table one
abbrev table : Allowed (List User)
table = record {
  May = λ before after. IsTable before → IsTable after;
  stay = λ w is. is;
  then_may = λ u v w f g is. g (f is);
}

-- what keeps the addresses apart
abbrev addresses : Allowed (List User)
addresses = record {
  May = λ before after. AreApart before → AreApart after;
  stay = λ w apart. apart;
  then_may = λ u v w f g apart. g (f apart);
}

insert-Frame : (user : User) → Frame table (insert user)
unfolding insert
insert-Frame user = record {
  at = λ users is. elim (Option-cases (find_user user.email users)) [
    | inr (_, found) ↦ rw (found, insert) is
    | inl unknown ↦
        rw (unknown, insert)
          (elim (Bool-cases (is_taken_by user.email user.whmcs_client_id users)) [
            | inl taken ↦ rw taken is
            | inr free ↦ rw free (record {
              apart = (unknown, is.apart);
              unique = insert-AreUnique user users free is.unique;
            })
          ])
  ];
}

insert_with-Frame : (id : Option ℤ) (row : Option ℕ → User) → Frame table (insert_with id row)
unfolding insert_with
insert_with-Frame none row = insert-Frame (row none)
insert_with-Frame (some (pos n)) row = insert-Frame (row (some n))
insert_with-Frame (some (negsuc n)) row = Frame-raise integrity_error

change-Frame :
    (email : String) (change : User → User)
    → ((u : User) → (change u).email ≡ u.email)
    → ((u : User) → (change u).whmcs_client_id ≡ u.whmcs_client_id)
    → (users : List User) → IsTable users
    → IsTable (change_user email change users)
change-Frame email change keep same_id users is = record {
  apart = change-AreApart email change keep users is.apart;
  unique = change-AreUnique email change keep same_id users is.unique;
}

module _ (normalize : String → String) where
  create-Frame :
      (email password : String) (extra : Extra)
      → Frame table (create normalize email password extra)
  unfolding create
  create-Frame email password extra =
      Frame-if (not (is_text email)) _ _ (Frame-raise (runtime "ValueError"))
        (insert_with-Frame extra.whmcs_client_id _)

  create_user-Frame :
      (email password : String) (extra : Extra)
      → Frame table (create_user normalize email password extra)
  unfolding create_user
  create_user-Frame email password extra = search (create-Frame)

  create_superuser-Frame :
      (email password : String) (extra : Extra)
      → Frame table (create_superuser normalize email password extra)
  unfolding create_superuser
  create_superuser-Frame email password extra = search (create-Frame)

mark_synced-Frame : (user : User) (now : ℕ) → Frame table (mark_synced user now)
unfolding mark_synced
mark_synced-Frame user now = record {
  at = λ users is. elim (Option-cases (find_user user.email users)) [
    | inl gone ↦ rw (gone, mark_synced) is
    | inr (_, found) ↦
        rw (found, mark_synced)
          (change-Frame user.email (synced_at now) (λ u. refl) (λ u. refl) users is)
  ];
}

forget_password-Frame :
    (email : String) (user : User) → Frame addresses (forget_password email user)
unfolding forget_password
forget_password-Frame email user = record {
  at = λ users apart. elim (Bool-cases (user.has_usable_password && not user.is_staff)) [
    | inl usable ↦ rw usable (change-AreApart email with_unusable_password (λ u. refl) users apart)
    | inr unusable ↦ rw unusable apart
  ];
}

-- the addresses of the rows after `link_to_whmcs`
with_id-AreApart :
    (email : String) (id : ℤ) (found : Option User) (users : List User)
    → find_user email users ≡ found
    → AreApart users
    → AreApart (with_id email id found users).1
unfolding with_id
with_id-AreApart email (negsuc _) found users is apart = apart
with_id-AreApart email (pos n) none users is apart = elim (Bool-cases (is_taken email n users)) [
  | inl taken ↦ rw taken apart
  | inr free ↦ rw free (is, apart)
]
with_id-AreApart email (pos n) (some user) users is apart =
    elim (Bool-cases (is_client n user.whmcs_client_id)) [
      | inl mine ↦ rw mine apart
      | inr elsewhere ↦ rw elsewhere (elim (Bool-cases (is_taken email n users)) [
        | inl taken ↦ rw taken apart
        | inr free ↦ rw free (change-AreApart email (with_client n) (λ u. refl) users apart)
      ])
    ]

link_to_whmcs-addresses : (email : String) (id : ℤ) → Frame addresses (link_to_whmcs email id)
unfolding link_to_whmcs
link_to_whmcs-addresses email id =
    Frame-bind (λ users. with_id email id (find_user email users) users) (forget_password email)
      (record { at = λ users. with_id-AreApart email id (find_user email users) users refl })
      (forget_password-Frame email)

link_to_whmcs-Frame : (email : String) (id : ℤ) → Frame table (link_to_whmcs email id)
link_to_whmcs-Frame email id = record {
  at = λ users is. record {
    apart = (link_to_whmcs-addresses email id).at users is.apart;
    unique = elim (link_to_whmcs-IsLinkedTo email id users is.unique) [
      | inl (e, stays) ↦ rw stays is.unique
      | inr (user, _, linked) ↦ linked.unique
    ];
  };
}

-- What is run on the table; `normalize` is `normalize_email` and then `lower`.
pub data Step (normalize : String → String) (users : List User) : List User → Type 0 where
  links : (email : String) (id : ℤ) → Step normalize users (link_to_whmcs email id users).1
  creates :
      (email password : String) (extra : Extra)
      → Step normalize users (create_user normalize email password extra users).1
  creates_superuser :
      (email password : String) (extra : Extra)
      → Step normalize users (create_superuser normalize email password extra users).1
  syncs : (user : User) (now : ℕ) → Step normalize users (mark_synced user now users).1

pub data Reach (normalize : String → String) : List User → Type 0 where
  here : Reach normalize []
  next : {u v : List User} → Reach normalize u → Step normalize u v → Reach normalize v

nobody : IsTable []
unfolding find_user
nobody = record { apart = tt; unique = record { same = λ e e' u u' n h h' id id'. absurd (cc h) } }

Reach-IsTable :
    {normalize : String → String} {users : List User} → Reach normalize users → IsTable users
Reach-IsTable here = nobody
Reach-IsTable (next reach (links email id)) =
    (link_to_whmcs-Frame email id).at _ (Reach-IsTable reach)
Reach-IsTable {normalize} (next reach (creates email password extra)) =
    (create_user-Frame normalize email password extra).at _ (Reach-IsTable reach)
Reach-IsTable {normalize} (next reach (creates_superuser email password extra)) =
    (create_superuser-Frame normalize email password extra).at _ (Reach-IsTable reach)
Reach-IsTable (next reach (syncs user now)) =
    (mark_synced-Frame user now).at _ (Reach-IsTable reach)

-- After any creations, links and sync marks from an empty table on: no two rows share an address; and
-- `link_to_whmcs` either raises and leaves the table as it was, or it returns the row of the address,
-- which is now linked to the client, every other row is as it was, no two rows share a client, and a row
-- that is not of the staff has no usable password.
pub link_to_whmcs-reached :
    (normalize : String → String) (users : List User)
    → Reach normalize users
    → (email : String) (id : ℤ)
    → AreApart users × Links email id users (link_to_whmcs email id users)
link_to_whmcs-reached normalize users reach email id =
    let is = Reach-IsTable reach in (is.apart, link_to_whmcs-IsLinkedTo email id users is.unique)
