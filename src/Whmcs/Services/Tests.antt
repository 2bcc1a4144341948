-- ===== src/Whmcs/Services/Tests.antt =====
-- The services of apps/whmcs/services at work: runs on concrete inputs, and the theorems applied.
mod Office
pub use Office.{replies, office, morning}
use whmcstemplate_bridge.Base.{
  if◌then◌else◌, f_string, show, ℤ, pos, resource_not_found, validation_error, Exn, application,
  whmcs_transport, whmcs_api, Outcome, returned, raised, String, ◌≡◌, refl, ◌⊎◌, true, false, none,
  some, List, [], ◌∷◌, ◌==◌,
}
use whmcstemplate_bridge.Json.{
  Value, null, int, str, list, dict, Items, nil, cons, Fields, end, field, get, get_or,
}
use whmcstemplate_bridge.Core.Cells.{live, put_cell}
use whmcstemplate_bridge.Core.Cache.Isolated.{Post}
use whmcstemplate_bridge.Whmcs.Normalizers.{to_int}
use whmcstemplate_bridge.Whmcs.Money.{to_money}
use whmcstemplate_bridge.Whmcs.Money.Again.{to_money-again}
use whmcstemplate_bridge.Whmcs.Services.{Call, Site, World, ask}
use whmcstemplate_bridge.Whmcs.Services.Accounts
use whmcstemplate_bridge.Whmcs.Services.Accounts.Owner.{
  asked_login, login_call, change_password-owner,
}
use whmcstemplate_bridge.Whmcs.Services.Accounts.Editable.{IsChange, update_params-IsChange}
use whmcstemplate_bridge.Whmcs.Services.Billing
use whmcstemplate_bridge.Whmcs.Services.Support
use whmcstemplate_bridge.Whmcs.Services.Gates.Attachments.{IsPartOf, get_attachment-IsPartOf}
use whmcstemplate_bridge.Whmcs.Services.Hosting
use whmcstemplate_bridge.Whmcs.Services.Hosting.{Change}
use whmcstemplate_bridge.Whmcs.Services.Gates.Upgrades.{IsOffered, upgrade-IsOffered}
use whmcstemplate_bridge.Whmcs.Services.Isolation.{invoice, ticket}
use whmcstemplate_bridge.Whmcs.Services.Isolation.Requests
use whmcstemplate_bridge.Whmcs.Services.Isolation.Requests.{
  Request, perform, Reach, here, next, request,
}
use whmcstemplate_bridge.Whmcs.Services.Isolation.Places.{read}
use whmcstemplate_bridge.Whmcs.Services.Isolation.Own.{IsOwn, Reach-IsOwn}
use whmcstemplate_bridge.Whmcs.Services.Gates.{close, write, behind, ReadsMore, write-IsGated}

-- the customer has looked at the invoice, and another one has tried to
abbrev visited : World
visited = (perform office (Requests.get_invoice 42 7 false) morning).1

abbrev evening : World
evening = (perform office (Requests.get_invoice 43 7 false) visited).1

abbrev day : Reach office morning evening
day =
    next (next here (request (Requests.get_invoice 42 7 false) morning))
      (request (Requests.get_invoice 43 7 false) visited)

Reach-IsOwn_example : Post (IsOwn office 42) (read office (invoice 7) 42 evening).0
Reach-IsOwn_example = Reach-IsOwn office (invoice 7) 42 morning evening refl day

write-IsGated_example :
    ReadsMore evening.upstream (read office (ticket 5) 42 evening).1.upstream
    × (((e : Exn) × (write office 42 (close 5) evening
            ≡ (raised e, (read office (ticket 5) 42 evening).1)))
        ⊎ ((v : Value) × ((read office (ticket 5) 42 evening).0 ≡ returned v)
            × IsOwn office 42 v
            × (write office 42 (close 5) evening
                ≡ behind office 42 (close 5) (read office (ticket 5) 42 evening).1)))
write-IsGated_example = write-IsGated office (close 5) 42 morning evening refl day

get_attachment-IsPartOf_example :
    ((e : Exn) × ((Support.get_attachment office 42 5 "reply" (pos 9) (pos 0) evening).0 ≡ raised e)
      × (((Support.get_attachment office 42 5 "reply" (pos 9) (pos 0) evening).1 ≡ evening)
          ⊎ ((Support.get_attachment office 42 5 "reply" (pos 9) (pos 0) evening).1
              ≡ (Support.get_ticket office 42 5 evening).1)))
    ⊎ ((v : Value) × ((Support.get_ticket office 42 5 evening).0 ≡ returned v)
        × IsOwn office 42 v
        × IsPartOf office "reply" (pos 9) v
        × (Support.get_attachment office 42 5 "reply" (pos 9) (pos 0) evening
            ≡ Support.fetch_attachment office "reply"
                (pos 9)
                (pos 0)
                (Support.get_ticket office 42 5 evening).1))
get_attachment-IsPartOf_example =
    get_attachment-IsPartOf office "reply" (pos 9) 42 5 (pos 0) morning evening refl day

change_password-owner_example :
    ((e : Exn) × (Accounts.change_password office 42 "a@b.example" "old" "new" morning
        ≡ (raised e, asked_login office 42 "a@b.example" "old" "new" morning)))
    ⊎ ((reply : Fields) × (replies (login_call office 42 "a@b.example" "old" "new" morning ∷ [])
          ≡ returned reply)
        × (to_int office.repr (get_or "userid" null reply) (pos 0) ≡ pos 42)
        × (Accounts.change_password office 42 "a@b.example" "old" "new" morning
            ≡ Accounts.store_password office 42 "new"
                (asked_login office 42 "a@b.example" "old" "new" morning)))
change_password-owner_example = change_password-owner office 42 "a@b.example" "old" "new" morning

abbrev sneaky : Fields
sneaky = field "first_name" (str "A") (field "clientid" (int (pos 1)) end)

update_params-IsChange_example :
    (get "clientid" (Accounts.update_params 42 sneaky) ≡ some (int (pos 42)))
    × (((◌≡◌ {A = String} "firstname" "clientid") × (str "A" ≡ int (pos 42)))
        ⊎ IsChange Accounts.editable_profile_fields sneaky "firstname" (str "A"))
unfolding Accounts.update_params
update_params-IsChange_example = update_params-IsChange 42 sneaky "firstname" (str "A") refl

to_money-again_example :
    to_money (λ _. "?") (str (to_money (λ _. "?") (str "1,250.555")))
    ≡ to_money (λ _. "?") (str "1,250.555")
to_money-again_example = to_money-again (λ _. "?") (str "1,250.555")

-- Customer 43 is refused customer 42's invoice, though it is in the cache.
other_refused :
    ((Billing.get_invoice office 42 7 false visited).1.upstream ≡ visited.upstream)
    × ((Billing.get_invoice office 43 7 false visited).0
        ≡ raised (application resource_not_found "not_found" "Resource not found." []))
unfolding Billing.get_invoice live put_cell
other_refused = (refl, refl)

-- The attachment of another ticket's reply is not fetched.
attachment_refused :
    ((Support.get_attachment office 42 5 "reply" (pos 9) (pos 0) morning).0
      ≡ returned ("a.txt", 104 ∷ 105 ∷ []))
    × ((Support.get_attachment office 42 5 "reply" (pos 8) (pos 0) morning).0
        ≡ raised Support.attachment_missing)
unfolding Support.get_attachment Support.get_ticket Support.attachment_in Support.fetch_attachment
    live put_cell
attachment_refused = (refl, refl)

wrong_password :
    (Accounts.change_password office 42 "a@b.example" "guess" "new" morning).0
    ≡ raised Accounts.invalid_login
unfolding Accounts.change_password Accounts.validate_login ask get_or
wrong_password = refl

money_tests :
    (to_money (λ _. "?") (str "1,250.555") ≡ "1250.56")
    × (to_money (λ _. "?") (str " $ -3 ") ≡ "-3.00")
    × (to_money (λ _. "?") (str "free") ≡ "0.00")
unfolding to_money
money_tests = (refl, refl, refl)

abbrev to_product : ℤ → Change
to_product id = record { new_product_id = id; billing_cycle = "monthly"; promo_code = "" }

upgrade-IsOffered_example :
    ((e : Exn) × ((Hosting.upgrade office 42 3 (to_product (pos 2)) "zibal" morning).0 ≡ raised e)
      × ReadsMore [] (Hosting.upgrade office 42 3 (to_product (pos 2)) "zibal" morning).1.upstream)
    ⊎ ((w : World) × ReadsMore [] w.upstream
        × IsOffered office 42 3 (to_product (pos 2)) "zibal" morning
        × (Hosting.upgrade office 42 3 (to_product (pos 2)) "zibal" morning
            ≡ Hosting.place_upgrade office 42 3 (to_product (pos 2)) "zibal" w))
upgrade-IsOffered_example = upgrade-IsOffered office 42 3 (to_product (pos 2)) "zibal" morning

abbrev last_action : List Call → String
last_action [] = ""
last_action (c ∷ calls) = c.action

upgrade_tests :
    (last_action (Hosting.upgrade office 42 3 (to_product (pos 2)) "zibal" morning).1.upstream
      ≡ "UpgradeProduct")
    × ((Hosting.upgrade office 42 3 (to_product (pos 2)) "other" morning).0
        ≡ raised Hosting.unknown_gateway)
    × ((Hosting.upgrade office 42 3 (to_product (pos 1)) "zibal" morning).0
        ≡ raised Hosting.upgrade_refused)
unfolding Hosting.upgrade live put_cell
upgrade_tests = (refl, refl, refl)
