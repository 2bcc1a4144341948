-- ===== src/Whmcs/Services/Isolation.antt =====
-- No customer is served what was fetched for another: the cache entries of the services.
pub mod Places
pub mod Requests
pub mod Kept
pub mod About
pub mod Scope
pub mod Own
use whmcstemplate_bridge.Base.{
  runtime, Outcome, returned, raised, Exec, pure, continue, ◌>>=◌, ◌>>◌, Allowed, ℕ, String, ◌≡◌,
  refl, sym, ◌∙◌, subst, true, Option, none, some, List,
}
use whmcstemplate_bridge.Json.{Value}
use whmcstemplate_bridge.Core.Cache.{client_namespace, get_or_set}
use whmcstemplate_bridge.Core.Cache.Keeps.{AllAllowed, allowed_kept}
use whmcstemplate_bridge.Core.Cache.Isolated.{Post, OnSome, IsKeyOf, Served, get_or_set-Served}
use whmcstemplate_bridge.Core.Cache.Namespaces.{owner, owner-client}
use whmcstemplate_bridge.Core.Pagination.{PageRequest}
use whmcstemplate_bridge.Whmcs.Services.{Call, Site, World, value_or_null, cached, cached_for}
use whmcstemplate_bridge.Whmcs.Services.Accounts
use whmcstemplate_bridge.Whmcs.Services.Billing
use whmcstemplate_bridge.Whmcs.Services.Support
use whmcstemplate_bridge.Whmcs.Services.Hosting
use whmcstemplate_bridge.Whmcs.Services.Domains
use whmcstemplate_bridge.Whmcs.Services.Orders

-- the reads of a customer's own data that the cache stands before
pub data Fetch : Type 0 where
  profile : Fetch
  invoice : (invoice_id : ℕ) → Fetch
  invoices : PageRequest → (status : String) → Fetch
  transactions : PageRequest → Fetch
  ticket : (ticket_id : ℕ) → Fetch
  tickets : PageRequest → (status : String) → Fetch
  service : (service_id : ℕ) → Fetch
  services : PageRequest → (status : String) → Fetch
  domain : (domain_id : ℕ) → Fetch
  domains : PageRequest → Fetch
  orders : PageRequest → (status : String) → Fetch

abbrev pub fetch : Site → Fetch → (whmcs_client_id : ℕ) → Exec (List Call) Value
fetch S profile n = Accounts.fetch_profile S n
fetch S (invoice id) n = Billing.fetch_invoice S n id
fetch S (invoices page status) n = Billing.fetch_invoices S n page status
fetch S (transactions page) n = Billing.fetch_transactions S n page
fetch S (ticket id) n = Support.fetch_ticket S n id
fetch S (tickets page status) n = Support.fetch_tickets S n page status
fetch S (service id) n = Hosting.fetch_service S n id
fetch S (services page status) n = Hosting.fetch_services S n page status
fetch S (domain id) n = Domains.fetch_domain S n id
fetch S (domains page) n = Domains.fetch_domains S n page
fetch S (orders page status) n = Orders.fetch_orders S n page status

module _ (S : Site) where
  -- A value that a fetch for the customer returned, at some time.
  pub data IsFetched (whmcs_client_id : ℕ) (v : Value) : Type 0 where
    fetched :
        (f : Fetch) (calls : List Call)
        → (fetch S f whmcs_client_id calls).0 ≡ returned v
        → IsFetched whmcs_client_id v

  -- what may stand under a key: under a customer's, what was fetched for that customer
  abbrev pub MayStand : String → Value → Type 0
  MayStand key v = (n : ℕ) → owner key ≡ some n → IsFetched n v

  -- Every entry under a customer's key was fetched for that customer.
  abbrev pub IsIsolated : World → Type 0
  IsIsolated w = AllAllowed MayStand w.store

  abbrev pub kept : Allowed World
  kept = allowed_kept MayStand

  pub fetched-MayStand :
      (n : ℕ) (resource key : String) (v : Value)
      → IsKeyOf (client_namespace n resource) key
      → IsFetched n v
      → MayStand key v
  fetched-MayStand n resource key v is made m owned =
      let same : some n ≡ some m = sym (owner-client n resource key is) ∙ owned in
      subst (λ k. IsFetched k v) (cc same) made

  module _ (f : Fetch) (n : ℕ) where
    unfoldable pub ready : Exec (List Call) (Option Value)
    ready = do v ← fetch S f n; pure (some v)

    pub ready-makes : (calls : List Call) → Post (OnSome (IsFetched n)) (ready calls).0
    unfolding ready
    ready-makes calls = made (fetch S f n calls).0 (fetch S f n calls).1 refl
      where
        made :
            (o : Outcome Value) (calls' : List Call)
            → (fetch S f n calls).0 ≡ o
            → Post
                (OnSome (IsFetched n))
                (continue (λ (v : Value). pure {W = List Call} (some v)) o calls').0
        made (returned v) calls' e = fetched f calls e
        made (raised x) calls' e = tt

    -- A read of a fetch under the customer's namespace returns what was fetched for the customer.
    pub cached_for-IsFetched :
        (resource bucket : String) (parts : List Value) (w : World)
        → IsIsolated w
        → Served MayStand (IsFetched n) (cached_for S n resource bucket (fetch S f n) parts w)
    unfolding cached_for cached ready
    cached_for-IsFetched resource bucket parts w all =
        opened (get_or_set S.runtime (client_namespace n resource) bucket ready parts true w).0
          (get_or_set S.runtime (client_namespace n resource) bucket ready parts true w).1
          (get_or_set-Served S.runtime MayStand (OnSome (IsFetched n)) ready ready-makes
            (client_namespace n resource) bucket parts true
            (λ key v is made. fetched-MayStand n resource key v is made)
            (λ key v is may. may n (owner-client n resource key is)) w all)
      where
        opened :
            (o : Outcome (Option Value)) (w' : World)
            → Served MayStand (OnSome (IsFetched n)) (o, w')
            → Served MayStand
                (IsFetched n)
                (continue (λ (found : Option Value). pure {W = World} (value_or_null found)) o w')
        opened (returned none) w' (all', made) = absurd made
        opened (returned (some v)) w' (all', made) = (all', made)
        opened (raised e) w' (all', made) = (all', tt)
