-- ===== src/Users/Tests.antt =====
-- The user table on concrete rows.
use whmcstemplate_bridge.Base.{
  pos, returned, raised, ◌≡◌, refl, runtime, none, List, false, some, [], ◌∷◌,
}
use whmcstemplate_bridge.Json.{get_or}
use whmcstemplate_bridge.Whmcs.Services.Tests.{office, morning}
use whmcstemplate_bridge.Users.{
  User, find_user, integrity_error, new_user, with_unusable_password, link_to_whmcs,
}
use whmcstemplate_bridge.Users.Rows.{AreUnique}
use whmcstemplate_bridge.Users.Create.{Extra, create_user, create_superuser}
use whmcstemplate_bridge.Users.Linked.{Links}
use whmcstemplate_bridge.Users.Reached.{
  Reach, here, next, links, creates_superuser, link_to_whmcs-reached,
}
use whmcstemplate_bridge.Users.Tables.{AreApart}
use whmcstemplate_bridge.Users.Login.{Office, login}
use whmcstemplate_bridge.Users.Login.Verified.{Verifies, login-Verifies}

nobody : AreUnique []
unfolding find_user
nobody = record { same = λ e e' u u' n h h' id id'. absurd (cc h) }

abbrev plain : Extra
plain = record { whmcs_client_id = none; is_active = none; is_staff = none; is_superuser = none }

-- a superuser, and then a customer of WHMCS
abbrev operator_and_customer : List User
operator_and_customer =
    (link_to_whmcs "a@b.example" (pos 42)
      (create_superuser (λ s. s) "op@b.example" "secret" plain []).1).1

reached : Reach (λ s. s) operator_and_customer
reached =
    next (next here (creates_superuser "op@b.example" "secret" plain))
      (links "a@b.example" (pos 42))

link_to_whmcs-reached_example :
    AreApart operator_and_customer
    × Links "op@b.example"
        (pos 7)
        operator_and_customer
        (link_to_whmcs "op@b.example" (pos 7) operator_and_customer)
link_to_whmcs-reached_example =
    link_to_whmcs-reached (λ s. s) operator_and_customer reached "op@b.example" (pos 7)

-- a user whose client another row has, and one without an address
create_user_tests :
    ((create_user
        (λ s. s)
        "c@b.example"
        ""
        (record plain { whmcs_client_id = some (pos 42) })
        operator_and_customer).0
      ≡ raised integrity_error)
    × ((create_user (λ s. s) "" "" plain operator_and_customer).0 ≡ raised (runtime "ValueError"))
unfolding create_user create_superuser link_to_whmcs find_user
create_user_tests = (refl, refl)

abbrev reception : Office
reception = record { users = []; world = morning }

login-Verifies_example :
    Verifies office
      (λ s. s)
      "a@b.example"
      "old"
      reception
      (login office (λ s. s) "a@b.example" "old" reception)
login-Verifies_example = login-Verifies office (λ s. s) "a@b.example" "old" reception nobody

abbrev customer_42 : User
customer_42 = with_unusable_password (new_user "a@b.example" 42)

first_login : login office (λ s. s) "a@b.example" "old" reception ≡ (
  returned (record {
    email = "a@b.example";
    whmcs_client_id = some 42;
    two_factor_enabled = some false;
  }),
  record {
    users = customer_42 ∷ [];
    world = (login office (λ s. s) "a@b.example" "old" reception).1.world;
  },
)
unfolding login get_or
first_login = refl

-- A customer whose address was changed in WHMCS cannot log in any more.
address_changed :
    (login office
      (λ s. s)
      "new@b.example"
      "old"
      (record { users = customer_42 ∷ []; world = morning })).0
    ≡ raised integrity_error
unfolding login get_or
address_changed = refl
