-- ===== src/Whmcs/Services/Domains.antt =====
-- `DomainService` of apps/whmcs/services/hosting.py.
use whmcstemplate_bridge.Base.{
  leb, if◌then◌else◌, length, f_string, prefix, is_text, strip, show, pos, application_error,
  resource_not_found, Exn, application, Outcome, returned, raised, Exec, pure, raise, lift, ◌>>=◌,
  ◌>>◌, ℕ, zero, suc, String, Bool, not, ◌&&◌, Option, none, some, List, [], ◌∷◌, ◌==◌,
}
use whmcstemplate_bridge.Json.{
  Value, null, bool, int, str, dict, Fields, end, field, get_or, set_field, truthy,
}
use whmcstemplate_bridge.Core.Pagination.{PageRequest}
use whmcstemplate_bridge.Whmcs.Dates.{dates}
use whmcstemplate_bridge.Whmcs.Normalizers.{
  collection, to_int, text, as_int, as_text, to_bool, as_bool, Column, column, pick,
}
use whmcstemplate_bridge.Whmcs.Money.{as_money}
use whmcstemplate_bridge.Whmcs.Services.{
  Call, Site, World, upstream, with_page, ask, page_of, cached, cached_for, invalidate_for,
}

abbrev pub domain_missing : Exn
domain_missing = application resource_not_found "not_found" "Domain not found." []

-- `ApplicationError`'s own code
abbrev pub wrong_count : Exn
wrong_count =
    application application_error "application_error" "Provide between 2 and 5 nameservers." []

abbrev pub ns_name : ℕ → String
unfolding f_string show
ns_name index = f_string ("ns" ∷ show index ∷ [])

-- `params.update({f"ns{i}": ns for i, ns in enumerate(nameservers, start=index)})`
unfoldable pub add_nameservers : (index : ℕ) → List String → Fields → Fields
unfolding set_field f_string show
add_nameservers index [] params = params
add_nameservers index (ns ∷ nameservers) params =
    add_nameservers (suc index) nameservers (set_field (ns_name index) (str ns) params)

module _ (S : Site) where
  renews : Value → Value
  unfolding to_bool
  renews v = bool (not (to_bool S.repr S.lower v))

  pub domain_map : List Column
  unfolding to_int text renews
  domain_map =
      column "id" "id" (as_int S.repr)
      ∷ column "domain" "domainname" (as_text S.repr)
      ∷ column "status" "status" (as_text S.repr)
      ∷ column "registrar" "registrar" (as_text S.repr)
      ∷ column "registration_period" "regperiod" (as_int S.repr)
      ∷ column "registered_at" "regdate" (dates S.repr).iso_date
      ∷ column "expires_at" "expirydate" (dates S.repr).iso_date
      ∷ column "next_due_date" "nextduedate" (dates S.repr).iso_date
      ∷ column "amount" "recurringamount" (as_money S.repr)
      ∷ column "auto_renew" "donotrenew" renews
      ∷ column "id_protection" "idprotection" (as_bool S.repr S.lower)
      ∷ []

  unfoldable pub fetch_domains : (whmcs_client_id : ℕ) → PageRequest → Exec (List Call) Value
  unfolding ask page_of domain_map collection
  fetch_domains whmcs_client_id page = do
    reply ←
        ask S "GetClientsDomains"
          (with_page page (field "clientid" (int (pos whmcs_client_id)) end))
    pure (page_of S domain_map reply (collection reply "domains" "domain"))

  unfoldable pub list_domains : (whmcs_client_id : ℕ) → PageRequest → Exec World Value
  unfolding cached_for fetch_domains
  list_domains whmcs_client_id page =
      cached_for S whmcs_client_id "domains" "client" (fetch_domains whmcs_client_id page)
        (str "list" ∷ int (pos page.page) ∷ int (pos page.page_size) ∷ [])

  unfoldable pub first_domain : List Fields → Outcome Value
  unfolding pick domain_map
  first_domain [] = raised domain_missing
  first_domain (raw ∷ _) = returned (dict (pick raw domain_map))

  unfoldable pub fetch_domain : (whmcs_client_id domain_id : ℕ) → Exec (List Call) Value
  unfolding ask first_domain collection
  fetch_domain whmcs_client_id domain_id = do
    reply ←
        ask S "GetClientsDomains" (
          field "clientid" (int (pos whmcs_client_id)) (field "domainid" (int (pos domain_id)) end))
    lift (first_domain (collection reply "domains" "domain"))

  unfoldable pub get_domain : (whmcs_client_id domain_id : ℕ) → Exec World Value
  unfolding cached_for fetch_domain
  get_domain whmcs_client_id domain_id =
      cached_for S whmcs_client_id "domains" "client" (fetch_domain whmcs_client_id domain_id)
        (str "detail" ∷ int (pos domain_id) ∷ [])

  abbrev domain_id_field : (domain_id : ℕ) → Fields → Fields
  domain_id_field domain_id = field "domainid" (int (pos domain_id))

  -- the nameservers that are set, of those from `index` on, as many as are left
  set_servers : (left index : ℕ) → Fields → List String
  unfolding get_or truthy text f_string show
  set_servers zero index reply = []
  set_servers (suc left) index reply =
      let rest = set_servers left (suc index) reply in
      if truthy (get_or (ns_name index) null reply)
      then text S.repr (get_or (ns_name index) null reply) ∷ rest
      else rest

  unfoldable pub fetch_nameservers : (domain_id : ℕ) → Exec (List Call) (List String)
  unfolding ask set_servers
  fetch_nameservers domain_id = do
    reply ← ask S "DomainGetNameservers" (domain_id_field domain_id end)
    pure (set_servers 5 1 reply)

  unfoldable pub get_nameservers : (whmcs_client_id domain_id : ℕ) → Exec World (List String)
  unfolding get_domain fetch_nameservers
  get_nameservers whmcs_client_id domain_id = do
    get_domain whmcs_client_id domain_id
    upstream (fetch_nameservers domain_id)

  -- from DomainUpdateNameservers on
  unfoldable pub store_nameservers :
      (whmcs_client_id domain_id : ℕ) → List String → Exec World (List String)
  unfolding ask add_nameservers invalidate_for fetch_nameservers
  store_nameservers whmcs_client_id domain_id nameservers = do
    upstream (
        ask S "DomainUpdateNameservers"
          (add_nameservers 1 nameservers (domain_id_field domain_id end)))
    invalidate_for whmcs_client_id ("domains" ∷ [])
    upstream (fetch_nameservers domain_id)

  unfoldable pub store_counted :
      (whmcs_client_id domain_id : ℕ) → List String → Exec World (List String)
  unfolding store_nameservers
  store_counted whmcs_client_id domain_id nameservers =
      if not (leb 2 (length nameservers) && leb (length nameservers) 5)
      then raise wrong_count
      else store_nameservers whmcs_client_id domain_id nameservers

  unfoldable pub update_nameservers :
      (whmcs_client_id domain_id : ℕ) → List String → Exec World (List String)
  unfolding get_domain store_counted
  update_nameservers whmcs_client_id domain_id nameservers = do
    get_domain whmcs_client_id domain_id
    store_counted whmcs_client_id domain_id nameservers

  unfoldable pub get_lock_status : (whmcs_client_id domain_id : ℕ) → Exec World Bool
  unfolding get_domain ask text strip get_or
  get_lock_status whmcs_client_id domain_id = do
    get_domain whmcs_client_id domain_id
    reply ← upstream (ask S "DomainGetLockingStatus" (domain_id_field domain_id end))
    pure (S.lower (strip (text S.repr (get_or "lockstatus" null reply))) == "locked")

  -- behind the read of the domain
  unfoldable pub store_lock : (whmcs_client_id domain_id : ℕ) → (locked : Bool) → Exec World Bool
  unfolding ask invalidate_for
  store_lock whmcs_client_id domain_id locked = do
    upstream (
        ask S "DomainUpdateLockingStatus"
          (domain_id_field domain_id (field "lockstatus" (bool locked) end)))
    invalidate_for whmcs_client_id ("domains" ∷ [])
    pure locked

  unfoldable pub set_lock_status :
      (whmcs_client_id domain_id : ℕ) → (locked : Bool) → Exec World Bool
  unfolding get_domain store_lock
  set_lock_status whmcs_client_id domain_id locked = do
    get_domain whmcs_client_id domain_id
    store_lock whmcs_client_id domain_id locked

  -- the EPP code, and how it gets to the owner
  unfoldable pub epp_of : Fields → Option String × String
  unfolding strip text get_or
  epp_of reply =
      let epp_code = strip (S.unescape (text S.repr (get_or "eppcode" null reply))) in
      if is_text epp_code then (some epp_code, "inline") else (none, "emailed_to_owner")

  unfoldable pub request_epp_code :
      (whmcs_client_id domain_id : ℕ) → Exec World (Option String × String)
  unfolding get_domain ask epp_of
  request_epp_code whmcs_client_id domain_id = do
    get_domain whmcs_client_id domain_id
    reply ← upstream (ask S "DomainRequestEPP" (domain_id_field domain_id end))
    pure (epp_of reply)

  unfoldable pub fetch_whois : (domain : String) → Exec (List Call) Value
  unfolding ask text prefix get_or
  fetch_whois domain = do
    reply ← ask S "DomainWhois" (field "domain" (str domain) end)
    pure (
        dict (
          field "domain" (str domain) (
            field "available"
              (bool (S.lower (text S.repr (get_or "status" null reply)) == "available"))
              (field "whois" (str (prefix 4000 (text S.repr (get_or "whois" null reply)))) end))))

  unfoldable pub whois : (domain : String) → Exec World Value
  unfolding cached fetch_whois
  whois domain =
      cached S "catalogue:whois" "catalogue" (fetch_whois domain) (str (S.lower domain) ∷ [])
