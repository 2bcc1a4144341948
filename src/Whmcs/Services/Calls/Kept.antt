-- ===== src/Whmcs/Services/Calls/Kept.antt =====
-- Whatever is requested, in whatever order, the services call actions of the allowlist only.
use whmcstemplate_bridge.Base.{All, Frame, frame_rules, ℕ}
use whmcstemplate_bridge.Json.{Value}
use whmcstemplate_bridge.Core.Cache.Upstream.{along, invalidate-Along, run_refresh-Along}
use whmcstemplate_bridge.Core.Cache.{client_namespace, time}
use whmcstemplate_bridge.Whmcs.Services.{Site, World}
use whmcstemplate_bridge.Whmcs.Services.Along.{upstream-Along, cached-Along, cached_for-Along}
use whmcstemplate_bridge.Whmcs.Services.Isolation.{Fetch, fetch, ready}
use whmcstemplate_bridge.Whmcs.Services.Isolation.Places.{place_of, parts_of}
use whmcstemplate_bridge.Whmcs.Services.Isolation.Requests.{Reach}
use whmcstemplate_bridge.Whmcs.Services.Calls.{IsPermitted, permitted}
use whmcstemplate_bridge.Whmcs.Services.Frames.{Keeps}
use whmcstemplate_bridge.Whmcs.Services.Frames.Reads.{fetch-Permitted}
use whmcstemplate_bridge.Whmcs.Services.Frames.Requests.{Reach-May}

module _ (S : Site) where
  ready-Permitted : (f : Fetch) (n : ℕ) → Frame permitted (ready S f n)
  unfolding ready
  ready-Permitted f n = search (frame_rules, fetch-Permitted S f)

  time-Permitted : Frame (along {A = Value} permitted) (time S.runtime)
  unfolding time
  time-Permitted = record { at = λ w all. all }

  permitted_kept : Keeps S (along permitted)
  permitted_kept = record {
    up = λ m k. upstream-Along permitted m k;
    fetched = λ f n.
        cached_for-Along permitted S (fetch S f n) (fetch-Permitted S f n) n (place_of f).0
          (place_of f).1 (parts_of f);
    public = λ namespace bucket producer parts _ _ _ k.
        cached-Along permitted S producer k namespace bucket parts;
    invalidates = λ n resource. invalidate-Along permitted (client_namespace n resource);
    times = time-Permitted;
    refreshes = λ f n resource key ttl _.
        run_refresh-Along S.runtime permitted (ready S f n) (ready-Permitted f n)
          (record { key = key; ttl = ttl });
    ticks = λ now w all. all;
  }

  pub Reach-IsPermitted :
      {u v : World} → Reach S u v → All IsPermitted u.upstream → All IsPermitted v.upstream
  Reach-IsPermitted reached = Reach-May S permitted_kept reached
