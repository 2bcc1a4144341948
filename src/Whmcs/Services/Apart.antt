-- ===== src/Whmcs/Services/Apart.antt =====
-- The services do not touch the cells under keys with a prefix of their own.
use Prim.Native.String
use text.Mathlib.TextLemmas.{append_assoc}
use whmcstemplate_bridge.Base.{
  f_string, returned, Exec, Frame, Frame-bind, Frame-pure, ℕ, String, ◌≡◌, refl, sym, subst, true,
  none, List,
}
use whmcstemplate_bridge.Json.{Value}
use whmcstemplate_bridge.Core.Cache.{client_namespace}
use whmcstemplate_bridge.Core.Cache.Namespaces.{clash, clash-apart}
use whmcstemplate_bridge.Core.Cache.Leaves.{
  leaves, Away, Outside, time-Leaves, invalidate-Leaves, get_or_set-Leaves, run_refresh-Leaves,
}
use whmcstemplate_bridge.Whmcs.Services.{Call, Site, cached, cached_for}
use whmcstemplate_bridge.Whmcs.Services.Isolation.{Fetch, fetch, ready}
use whmcstemplate_bridge.Whmcs.Services.Isolation.Places.{place_of, parts_of, kept_read}
use whmcstemplate_bridge.Whmcs.Services.Frames.{Keeps}

-- a key that begins with a prefix
pub record IsUnder (own key : String) : Type 0 where
  pub rest : String
  pub is : key ≡ String.◌++◌ own rest

-- a prefix that no namespace of the services begins with
pub record IsForeign (own : String) : Type 0 where
  pub version : clash own "ver:" ≡ true
  pub client : clash own "client:" ≡ true
  pub public :
      (namespace : String)
      → clash "idem:" namespace ≡ true
      → clash "health:" namespace ≡ true
      → clash own namespace ≡ true

pub idem-IsForeign : IsForeign "idem:"
unfolding clash
idem-IsForeign = record { version = refl; client = refl; public = λ namespace i h. i }

pub health-IsForeign : IsForeign "health:"
unfolding clash
health-IsForeign = record { version = refl; client = refl; public = λ namespace i h. h }

under-Outside :
    (own key namespace : String)
    → IsUnder own key
    → clash own namespace ≡ true
    → Outside key namespace
under-Outside own key namespace i h s =
    subst (λ k. Away k (String.◌++◌ namespace s)) (sym i.is) (clash-apart own namespace i.rest s h)

client-Outside :
    (own key resource : String) (n : ℕ)
    → IsUnder own key
    → IsForeign own
    → Outside key (client_namespace n resource)
unfolding client_namespace f_string
client-Outside own key resource n i f s =
    subst (Away key) (sym (append_assoc "client:" _ s))
      (under-Outside own key "client:" i f.client _)

module _ (S : Site) (own key : String) (i : IsUnder own key) (f : IsForeign own) where
  ver : Outside key "ver:"
  ver = under-Outside own key "ver:" i f.version

  cached-Leaves :
      (namespace bucket : String) (producer : Exec (List Call) Value) (parts : List Value)
      → Outside key namespace
      → Frame (leaves key) (cached S namespace bucket producer parts)
  unfolding cached
  cached-Leaves namespace bucket producer parts out =
      Frame-bind _ _ (get_or_set-Leaves S.runtime key _ ver namespace bucket parts true out)
        (λ found. Frame-pure _)

  fetched-Leaves : (r : Fetch) (n : ℕ) → Frame (leaves key) (kept_read S r n)
  unfolding cached_for
  fetched-Leaves r n =
      cached-Leaves (client_namespace n (place_of r).0) (place_of r).1 (fetch S r n) (parts_of r)
        (client-Outside own key (place_of r).0 n i f)

  pub apart_kept : Keeps S (leaves key)
  apart_kept = record {
    up = λ m _. record { at = λ w t. refl };
    fetched = fetched-Leaves;
    public = λ namespace bucket producer parts _ h h' _.
        cached-Leaves namespace bucket producer parts
          (under-Outside own key namespace i (f.public namespace h h'));
    invalidates = λ n resource. invalidate-Leaves key (client_namespace n resource) ver;
    times = time-Leaves S.runtime key (λ calls. (returned none, calls));
    refreshes = λ r n resource k ttl is.
        run_refresh-Leaves S.runtime key (ready S r n) ver (client_namespace n resource) k ttl
          (client-Outside own key resource n i f) is;
    ticks = λ now w t. refl;
  }
