-- ===== src/Whmcs/Services/Isolation/Kept.antt =====
-- Whatever is requested, in whatever order, the cache stays isolated.
use whmcstemplate_bridge.Base.{
  Outcome, returned, raised, Exec, pure, ◌>>=◌, Frame, Frame-pure, Frame-bind, ℕ, String, ◌≡◌, true,
  Option, some, List,
}
use whmcstemplate_bridge.Json.{Value}
use whmcstemplate_bridge.Core.Cache.{client_namespace, get_or_set, run_refresh}
use whmcstemplate_bridge.Core.Cache.Keeps.{invalidate-Kept}
use whmcstemplate_bridge.Core.Cache.Isolated.{
  Post, OnSome, IsKeyOf, time-Kept, get_or_set-Served, run_refresh-Kept,
}
use whmcstemplate_bridge.Core.Cache.Namespaces.{clash, owner-other}
use whmcstemplate_bridge.Whmcs.Services.{Call, Site, World, upstream, value_or_null, cached}
use whmcstemplate_bridge.Whmcs.Services.Frames.{Keeps}
use whmcstemplate_bridge.Whmcs.Services.Frames.Requests.{Reach-May}
use whmcstemplate_bridge.Whmcs.Services.Isolation.{
  ready, ready-makes, fetched-MayStand, Fetch, IsFetched, MayStand, IsIsolated, kept,
  cached_for-IsFetched,
}
use whmcstemplate_bridge.Whmcs.Services.Isolation.Places.{place_of, parts_of, kept_read}
use whmcstemplate_bridge.Whmcs.Services.Isolation.Requests.{Reach}

module _ (S : Site) where
  upstream-Kept : {A : Type 0} (m : Exec (List Call) A) → Frame (kept S) (upstream m)
  upstream-Kept m = record { at = λ w all. all }

  fetched-Kept : (f : Fetch) (n : ℕ) → Frame (kept S) (kept_read S f n)
  fetched-Kept f n = record {
    at = λ w all. (cached_for-IsFetched S f n (place_of f).0 (place_of f).1 (parts_of f) w all).0;
  }

  public_value : Exec (List Call) Value → Exec (List Call) (Option Value)
  public_value producer = do v ← producer; pure (some v)

  anything : (o : Outcome (Option Value)) → Post (λ _. Unit {0}) o
  anything (returned v) = tt
  anything (raised e) = tt

  -- a read under a namespace that is no customer's
  public-Kept :
      (namespace bucket : String) (producer : Exec (List Call) Value) (parts : List Value)
      → clash "client:" namespace ≡ true
      → Frame (kept S) (cached S namespace bucket producer parts)
  unfolding cached public_value
  public-Kept namespace bucket producer parts other =
      Frame-bind (get_or_set S.runtime namespace bucket (public_value producer) parts true)
        (λ found. pure (value_or_null found))
        (record {
          at = λ w all.
              (get_or_set-Served S.runtime (MayStand S) (λ _. Unit {0}) (public_value producer)
                (λ u. anything (public_value producer u).0) namespace bucket parts true
                (λ key v is made n owned. absurd (cc (owner-other namespace key other is, owned)))
                (λ key v is may. tt) w all).0;
        })
        (λ found. Frame-pure (value_or_null found))

  refresh-Kept :
      (f : Fetch) (n : ℕ) (resource key : String) (ttl : ℕ)
      → IsKeyOf (client_namespace n resource) key
      → Frame (kept S) (run_refresh S.runtime (ready S f n) (record { key = key; ttl = ttl }))
  refresh-Kept f n resource key ttl is = record {
    at = λ w all.
        run_refresh-Kept S.runtime (MayStand S) (OnSome (IsFetched S n)) (ready S f n)
          (ready-makes S f n) (record { key = key; ttl = ttl }) w
          (λ v made. fetched-MayStand S n resource key v is made) all;
  }

  isolated_kept : Keeps S (kept S)
  isolated_kept = record {
    up = λ m _. upstream-Kept m;
    fetched = fetched-Kept;
    public = λ namespace bucket producer parts other _ _ _.
        public-Kept namespace bucket producer parts other;
    invalidates = λ n resource. invalidate-Kept (MayStand S) (client_namespace n resource);
    times = time-Kept S.runtime (MayStand S) (λ _. Unit {0});
    refreshes = refresh-Kept;
    ticks = λ now w all. all;
  }

  pub Reach-IsIsolated : {u v : World} → Reach S u v → IsIsolated S u → IsIsolated S v
  Reach-IsIsolated reached = Reach-May S isolated_kept reached
