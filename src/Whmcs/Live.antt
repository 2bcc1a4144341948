-- ===== src/Whmcs/Live.antt =====
-- The services over the client and the transport: `BaseService.call` of
-- apps/whmcs/services/base.py with apps/whmcs/client.py behind it.
pub mod Lawful
mod Tests
use whmcstemplate_bridge.Base.{runtime, Outcome, raised, List, [], ◌∷◌}
use whmcstemplate_bridge.Json.{Fields}
use whmcstemplate_bridge.Whmcs.Transport.{Wire, Net}
use whmcstemplate_bridge.Whmcs.Client.{call}
use whmcstemplate_bridge.Whmcs.Services.{Call, Site}

module _ (E : Wire) (start : Net) where
  -- the network after the calls, the last one at the head
  unfoldable pub net_after : List Call → Net
  unfolding call
  net_after [] = start
  net_after (c ∷ calls) = (call E c.action c.params (net_after calls)).1

  -- What the client returns or raises for the last call. It is never asked without one.
  unfoldable pub answer_of : List Call → Outcome Fields
  unfolding call net_after
  answer_of [] = raised (runtime "RuntimeError")
  answer_of (c ∷ calls) = (call E c.action c.params (net_after calls)).0

  -- the services' site, with the client as its WHMCS
  abbrev pub live_site : Site → Site
  live_site S = record S { config = E.config; lower = E.lower; repr = E.repr; answer = answer_of }
