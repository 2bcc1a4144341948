-- ===== src/Whmcs/Services/Isolation/Own.antt =====
-- What the reads of the services return, whatever was requested before.
use whmcstemplate_bridge.Base.{Outcome, returned, raised, Exec, ℕ, ◌≡◌, sym, subst, List, []}
use whmcstemplate_bridge.Json.{Value}
use whmcstemplate_bridge.Core.Cache.Keeps.{AllAllowed}
use whmcstemplate_bridge.Core.Cache.Isolated.{Post, Served}
use whmcstemplate_bridge.Whmcs.Services.{Call, Site, World}
use whmcstemplate_bridge.Whmcs.Services.Isolation.{
  Fetch, IsFetched, fetched, MayStand, IsIsolated, cached_for-IsFetched,
}
use whmcstemplate_bridge.Whmcs.Services.Isolation.Places.{read, place_of, parts_of, read-kept_read}
use whmcstemplate_bridge.Whmcs.Services.Isolation.Requests.{Reach}
use whmcstemplate_bridge.Whmcs.Services.Isolation.Kept.{Reach-IsIsolated}
use whmcstemplate_bridge.Whmcs.Services.Isolation.Scope.{IsScoped, fetch-IsScoped}

module _ (S : Site) where
  -- a value of some fetch for the customer, of whatever kind and time
  pub record IsOwn (whmcs_client_id : ℕ) (v : Value) : Type 0 where
    pub f : Fetch
    pub calls : List Call
    pub scoped : IsScoped S whmcs_client_id f calls v

  fetched-IsOwn : (n : ℕ) (v : Value) → IsFetched S n v → IsOwn n v
  fetched-IsOwn n v (fetched f calls e) = record {
    f = f;
    calls = calls;
    scoped = fetch-IsScoped S f n calls v e;
  }

  pub Post-IsOwn : (n : ℕ) (o : Outcome Value) → Post (IsFetched S n) o → Post (IsOwn n) o
  Post-IsOwn n (returned v) made = fetched-IsOwn n v made
  Post-IsOwn n (raised e) made = tt

  pub read-IsFetched :
      (f : Fetch) (n : ℕ) (w : World)
      → IsIsolated S w
      → Served (MayStand S) (IsFetched S n) (read S f n w)
  read-IsFetched f n w all =
      subst (λ (m : Exec World Value). Served (MayStand S) (IsFetched S n) (m w))
        (sym (read-kept_read S f n))
        (cached_for-IsFetched S f n (place_of f).0 (place_of f).1 (parts_of f) w all)

  -- After any requests of any customers and any refreshes in the background, from an empty cache on,
  -- what a cached read gives a customer was made of one reply of WHMCS to a call for that customer: the
  -- call names the customer, or the owner that the reply names is the customer.
  pub Reach-IsOwn :
      (f : Fetch) (n : ℕ) (u w : World)
      → u.store ≡ []
      → Reach S u w
      → Post (IsOwn n) (read S f n w).0
  Reach-IsOwn f n u w empty reached =
      Post-IsOwn n (read S f n w).0
        (read-IsFetched f n w
          (Reach-IsIsolated S reached (subst (AllAllowed (MayStand S)) (sym empty) tt))).1
