-- ===== src/Whmcs/Services/Frames.antt =====
-- What every request may change, for a relation on states that each piece of the services keeps:
-- the calls of WHMCS, the cached reads, the invalidations and the clock.
pub mod Reads
pub mod Accounts
pub mod Tickets
pub mod Orders
pub mod Hosting
pub mod Requests
use whmcstemplate_bridge.Base.{
  Exec, Allowed, Frame, Frame-bind, frame_rules, ℕ, String, ◌≡◌, true, List, [], ◌∷◌,
}
use whmcstemplate_bridge.Json.{Value, Fields}
use whmcstemplate_bridge.Core.Cache.{client_namespace, time, invalidate, run_refresh}
use whmcstemplate_bridge.Core.Cache.Isolated.{IsKeyOf}
use whmcstemplate_bridge.Core.Cache.Namespaces.{clash}
use whmcstemplate_bridge.Whmcs.Services.{Call, Site, World, upstream, ask, cached, invalidate_for}
use whmcstemplate_bridge.Whmcs.Services.Isolation.{Fetch, ready}
use whmcstemplate_bridge.Whmcs.Services.Isolation.Places.{kept_read}
use whmcstemplate_bridge.Whmcs.Services.Calls.{permitted}

pub record Keeps (S : Site) (R : Allowed World) : Type 1 where
  -- calls of actions of the allowlist
  pub up : {A : Type 0} (m : Exec (List Call) A) → Frame permitted m → Frame R (upstream m)
  -- a customer's read through the cache
  pub fetched : (f : Fetch) (n : ℕ) → Frame R (kept_read S f n)
  -- a read through the cache under a namespace that is no customer's
  pub public :
      (namespace bucket : String) (producer : Exec (List Call) Value) (parts : List Value)
      → clash "client:" namespace ≡ true
      → clash "idem:" namespace ≡ true
      → clash "health:" namespace ≡ true
      → Frame permitted producer
      → Frame R (cached S namespace bucket producer parts)
  pub invalidates : (n : ℕ) (resource : String) → Frame R (invalidate (client_namespace n resource))
  pub times : Frame R (time S.runtime)
  pub refreshes :
      (f : Fetch) (n : ℕ) (resource key : String) (ttl : ℕ)
      → IsKeyOf (client_namespace n resource) key
      → Frame R (run_refresh S.runtime (ready S f n) (record { key = key; ttl = ttl }))
  pub ticks : (now : ℕ) (w : World) → R.May w (record w { clock = now })

module _ (S : Site) {R : Allowed World} (K : Keeps S R) where
  pub asked :
      (action : String) (params : Fields)
      → Frame permitted (ask S action params)
      → Frame R (upstream (ask S action params))
  asked action params = K.up (ask S action params)

  pub forget : (n : ℕ) (resources : List String) → Frame R (invalidate_for n resources)
  unfolding invalidate_for
  forget n [] = search frame_rules
  forget n (r ∷ resources) =
      Frame-bind (invalidate (client_namespace n r)) (λ _. invalidate_for n resources)
        (K.invalidates n r) (λ _. forget n resources)
