-- ===== src/Whmcs/Services/Along.antt =====
-- The services do to the calls of WHMCS what their producers do, through the cache.
use whmcstemplate_bridge.Base.{
  Exec, pure, ◌>>=◌, Allowed, Frame, Frame-pure, Frame-bind, frame_rules, ℕ, String, some, List, [],
  ◌∷◌,
}
use whmcstemplate_bridge.Json.{Value}
use whmcstemplate_bridge.Core.Cache.{client_namespace, invalidate}
use whmcstemplate_bridge.Core.Cache.Upstream.{along, invalidate-Along, get_or_set-Along}
use whmcstemplate_bridge.Whmcs.Services.{Call, Site, upstream, cached, cached_for, invalidate_for}

module _ (R : Allowed (List Call)) where
  pub upstream-Along :
      {A : Type 0} (m : Exec (List Call) A) → Frame R m → Frame (along R) (upstream m)
  upstream-Along m k = record { at = λ w. k.at w.upstream }

  pub invalidate_for-Along :
      (n : ℕ) (resources : List String) → Frame (along R) (invalidate_for n resources)
  unfolding invalidate_for
  invalidate_for-Along n [] = search frame_rules
  invalidate_for-Along n (r ∷ resources) =
      Frame-bind (invalidate (client_namespace n r)) (λ _. invalidate_for n resources)
        (invalidate-Along R (client_namespace n r)) (λ _. invalidate_for-Along n resources)

module _ (R : Allowed (List Call)) (S : Site) (producer : Exec (List Call) Value)
    (runs : Frame R producer) where
  pub cached-Along :
      (namespace bucket : String) (parts : List Value)
      → Frame (along R) (cached S namespace bucket producer parts)
  unfolding cached
  cached-Along namespace bucket parts = search (
    frame_rules,
    get_or_set-Along S.runtime R (producer >>= λ v. pure (some v))
        (Frame-bind producer (λ v. pure (some v)) runs (λ v. Frame-pure (some v))),
  )

  pub cached_for-Along :
      (n : ℕ) (resource bucket : String) (parts : List Value)
      → Frame (along R) (cached_for S n resource bucket producer parts)
  unfolding cached_for
  cached_for-Along n resource bucket parts = cached-Along (client_namespace n resource) bucket parts
