-- ===== src/Orders/Live/Apart.antt =====
-- The services do not touch the cells under an order's idempotency key.
use Prim.Native.String
use text.Mathlib.TextLemmas.{append_assoc}
use whmcstemplate_bridge.Base.{f_string, String, ap, ◌∙◌}
use whmcstemplate_bridge.Core.Cache.Leaves.{leaves}
use whmcstemplate_bridge.Orders.Idempotency.{order_lock}
use whmcstemplate_bridge.Whmcs.Services.{Site}
use whmcstemplate_bridge.Whmcs.Services.Apart.{IsUnder, idem-IsForeign, apart_kept}
use whmcstemplate_bridge.Whmcs.Services.Frames.{Keeps}

-- a key of the idempotent orders, or its lock
abbrev pub IsIdem : String → Type 0
IsIdem key = IsUnder "idem:" key

pub lock-IsIdem : (key : String) → IsIdem key → IsIdem (order_lock key)
unfolding f_string
lock-IsIdem key i = record {
  rest = String.◌++◌ i.rest ":lock";
  is = ap (λ k. String.◌++◌ k ":lock") i.is ∙ append_assoc "idem:" i.rest ":lock";
}

pub idem_kept : (S : Site) (key : String) → IsIdem key → Keeps S (leaves key)
idem_kept S key i = apart_kept S "idem:" key i idem-IsForeign
