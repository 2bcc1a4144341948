-- ===== src/Whmcs/Services/Gates.antt =====
-- The reads in front of the writes: apps/whmcs/services/support.py and hosting.py.
pub mod Upgrades
pub mod Attachments
use mathlib.Core.List.{append_assoc}
use text.Mathlib.Text.{starts_with}
use whmcstemplate_bridge.Base.{
  All, pos, Exn, Outcome, returned, raised, Exec, pure, continue, ◌>>=◌, ◌>>◌, Allowed, Frame,
  Frame-pure, Frame-lift, Frame-bind, frame_rules, ℕ, String, ◌≡◌, refl, sym, ap, ◌∙◌, subst, ◌⊎◌,
  inl, inr, Bool, true, some, List, [], ◌∷◌, ◌++◌,
}
use whmcstemplate_bridge.Json.{Value, int, str, Fields, end, field, get}
use whmcstemplate_bridge.Core.Cache.{client_namespace}
use whmcstemplate_bridge.Core.Cache.Isolated.{Post}
use whmcstemplate_bridge.Core.Cache.Upstream.{along, get_or_set-Along}
use whmcstemplate_bridge.Whmcs.Attachments.{File}
use whmcstemplate_bridge.Whmcs.Normalizers.{collection}
use whmcstemplate_bridge.Whmcs.Services.{Call, Site, World, ask, cached, cached_for}
use whmcstemplate_bridge.Whmcs.Services.Along.{cached_for-Along}
use whmcstemplate_bridge.Whmcs.Services.Support
use whmcstemplate_bridge.Whmcs.Services.Hosting
use whmcstemplate_bridge.Whmcs.Services.Domains
use whmcstemplate_bridge.Whmcs.Services.Isolation.{Fetch, ticket, service, domain}
use whmcstemplate_bridge.Whmcs.Services.Isolation.Requests.{Reach, sent}
use whmcstemplate_bridge.Whmcs.Services.Isolation.Places.{read}
use whmcstemplate_bridge.Whmcs.Services.Isolation.Own.{IsOwn, Reach-IsOwn}

-- the writes on a record of the customer's
pub data Write : Type 0 where
  reply : (ticket_id : ℕ) (message client_ip : String) (files : List File) → Write
  close : (ticket_id : ℕ) → Write
  password : (service_id : ℕ) (new_password : String) → Write
  cancellation : (service_id : ℕ) (reason : String) (immediate : Bool) → Write
  nameservers : (domain_id : ℕ) (hosts : List String) → Write
  lock : (domain_id : ℕ) (locked : Bool) → Write

-- the record it writes to
abbrev pub record_of : Write → Fetch
record_of (reply id _ _ _) = ticket id
record_of (close id) = ticket id
record_of (password id _) = service id
record_of (cancellation id _ _) = service id
record_of (nameservers id _) = domain id
record_of (lock id _) = domain id

module _ (S : Site) (n : ℕ) where
  abbrev pub write : Write → Exec World (Unit {0})
  write (reply id message ip files) = sent (Support.reply_to_ticket S n id message ip files)
  write (close id) = sent (Support.close_ticket S n id)
  write (password id new) = sent (Hosting.change_service_password S n id new)
  write (cancellation id reason now) = sent (Hosting.request_cancellation S n id reason now)
  write (nameservers id hosts) = sent (Domains.update_nameservers S n id hosts)
  write (lock id locked) = sent (Domains.set_lock_status S n id locked)

  -- what is left of it once the record is read
  abbrev pub behind : Write → Exec World (Unit {0})
  behind (reply id message ip files) = sent (Support.send_reply S n id message ip files)
  behind (close id) = sent (Support.send_close S n id)
  behind (password id new) = sent (Hosting.send_password S n id new)
  behind (cancellation id reason now) = sent (Hosting.send_cancellation S n id reason now)
  behind (nameservers id hosts) = sent (Domains.store_counted S n id hosts)
  behind (lock id locked) = sent (Domains.store_lock S n id locked)

-- Only calls that read were made in between.
pub record ReadsMore (before after : List Call) : Type 0 where
  pub extra : List Call
  pub is : after ≡ extra ++ before
  pub reads : All (λ (c : Call). starts_with c.action "Get" ≡ true) extra

pub All-append :
    (xs ys : List Call)
    → All (λ (c : Call). starts_with c.action "Get" ≡ true) xs
    → All (λ (c : Call). starts_with c.action "Get" ≡ true) ys
    → All (λ (c : Call). starts_with c.action "Get" ≡ true) (xs ++ ys)
All-append [] ys p q = q
All-append (x ∷ xs) ys p q = (p.0, All-append xs ys p.1 q)

abbrev pub reading : Allowed (List Call)
reading = record {
  May = ReadsMore;
  stay = λ calls. record { extra = []; is = refl; reads = tt };
  then_may = λ u v w p q. record {
    extra = q.extra ++ p.extra;
    is = q.is ∙ ap (λ x. q.extra ++ x) p.is ∙ sym (append_assoc q.extra p.extra u);
    reads = All-append q.extra p.extra q.reads p.reads;
  };
}

module _ (S : Site) where
  pub ask-Reads :
      (action : String) (params : Fields)
      → starts_with action "Get" ≡ true
      → Frame reading (ask S action params)
  unfolding ask
  ask-Reads action params get = record {
    at = λ calls. record {
      extra = record { action = action; params = params } ∷ [];
      is = refl;
      reads = (get, tt);
    };
  }

  ticket-Reads : (n id : ℕ) → Frame (along reading) (Support.get_ticket S n id)
  unfolding Support.get_ticket Support.fetch_ticket
  ticket-Reads n id =
      cached_for-Along reading S (Support.fetch_ticket S n id)
        (Frame-bind _ _
          (ask-Reads "GetTicket"
            (field "ticketid" (int (pos id)) (field "repliessort" (str "ASC") end)) refl)
          (λ v. Frame-lift (Support.owned_ticket S n v)))
        n "tickets" "tickets" (str "detail" ∷ int (pos id) ∷ [])

  pub service-Reads : (n id : ℕ) → Frame (along reading) (Hosting.get_service S n id)
  unfolding Hosting.get_service Hosting.fetch_service
  service-Reads n id =
      cached_for-Along reading S (Hosting.fetch_service S n id)
        (Frame-bind _ _
          (ask-Reads "GetClientsProducts"
            (field "clientid" (int (pos n)) (field "serviceid" (int (pos id)) end)) refl)
          (λ v. Frame-lift (Hosting.first_service S n (collection v "products" "product"))))
        n "services" "client" (str "detail" ∷ int (pos id) ∷ [])

  domain-Reads : (n id : ℕ) → Frame (along reading) (Domains.get_domain S n id)
  unfolding Domains.get_domain Domains.fetch_domain
  domain-Reads n id =
      cached_for-Along reading S (Domains.fetch_domain S n id)
        (Frame-bind _ _
          (ask-Reads "GetClientsDomains"
            (field "clientid" (int (pos n)) (field "domainid" (int (pos id)) end)) refl)
          (λ v. Frame-lift (Domains.first_domain S (collection v "domains" "domain"))))
        n "domains" "client" (str "detail" ∷ int (pos id) ∷ [])

  record-Reads : (r : Write) (n : ℕ) → Frame (along reading) (read S (record_of r) n)
  record-Reads (reply id _ _ _) n = ticket-Reads n id
  record-Reads (close id) n = ticket-Reads n id
  record-Reads (password id _) n = service-Reads n id
  record-Reads (cancellation id _ _) n = service-Reads n id
  record-Reads (nameservers id _) n = domain-Reads n id
  record-Reads (lock id _) n = domain-Reads n id

  gated :
      {A : Type 0} (gate : Exec World Value) (rest : Exec World A) (w : World)
      → ((e : Exn) × (sent (gate >> rest) w ≡ (raised e, (gate w).1)))
        ⊎ ((v : Value) × ((gate w).0 ≡ returned v) × (sent (gate >> rest) w ≡ sent rest (gate w).1))
  gated {A} gate rest w = go (gate w).0 (gate w).1
    where
      go :
          (o : Outcome Value) (w' : World)
          → ((e : Exn) × (sent (λ (_ : World). continue (λ (_ : Value). rest) o w') w
                ≡ (raised e, w')))
            ⊎ ((v : Value) × (o ≡ returned v)
                × (sent (λ (_ : World). continue (λ (_ : Value). rest) o w') w ≡ sent rest w'))
      go (returned v) w' = inr (v, refl, refl)
      go (raised e) w' = inl (e, refl)

  write-gated :
      (r : Write) (n : ℕ) (w : World)
      → ((e : Exn) × (write S n r w ≡ (raised e, (read S (record_of r) n w).1)))
        ⊎ ((v : Value) × ((read S (record_of r) n w).0 ≡ returned v)
            × (write S n r w ≡ behind S n r (read S (record_of r) n w).1))
  unfolding Support.reply_to_ticket Support.close_ticket Hosting.change_service_password
      Hosting.request_cancellation Domains.update_nameservers Domains.set_lock_status
  write-gated (reply id message ip files) n w =
      gated (Support.get_ticket S n id) (Support.send_reply S n id message ip files) w
  write-gated (close id) n w = gated (Support.get_ticket S n id) (Support.send_close S n id) w
  write-gated (password id new) n w =
      gated (Hosting.get_service S n id) (Hosting.send_password S n id new) w
  write-gated (cancellation id reason now) n w =
      gated (Hosting.get_service S n id) (Hosting.send_cancellation S n id reason now) w
  write-gated (nameservers id hosts) n w =
      gated (Domains.get_domain S n id) (Domains.store_counted S n id hosts) w
  write-gated (lock id locked) n w =
      gated (Domains.get_domain S n id) (Domains.store_lock S n id locked) w

  -- After any requests from an empty cache on: a reply to a ticket, the closing of one, a service's new
  -- password or cancellation, or a domain's nameservers or lock, for a customer, first reads the record,
  -- which makes no calls of WHMCS but some that begin with Get. Then either it raises and does no more;
  -- or the read returned a value made of one reply to a call for that customer, and what is left of
  -- the operation follows.
  pub write-IsGated :
      (r : Write) (n : ℕ) (u w : World)
      → u.store ≡ []
      → Reach S u w
      → ReadsMore w.upstream (read S (record_of r) n w).1.upstream
        × (((e : Exn) × (write S n r w ≡ (raised e, (read S (record_of r) n w).1)))
            ⊎ ((v : Value) × ((read S (record_of r) n w).0 ≡ returned v)
                × IsOwn S n v
                × (write S n r w ≡ behind S n r (read S (record_of r) n w).1)))
  write-IsGated r n u w empty reached = (
    (record-Reads r n).at w,
    elim (write-gated r n w) [
      | inl refused ↦ inl refused
      | inr (v, given, follows) ↦ inr (
        v,
        given,
        subst (Post (IsOwn S n)) given (Reach-IsOwn S (record_of r) n u w empty reached),
        follows,
      )
    ],
  )
