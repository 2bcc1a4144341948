-- ===== src/Whmcs/Services/Calls.antt =====
-- Which actions the services call: apps/whmcs/services/ against apps/whmcs/actions.py.
pub mod Kept
use whmcstemplate_bridge.Base.{All, Allowed, Frame, one_of, String, ◌≡◌, true, false, List}
use whmcstemplate_bridge.Json.{Fields}
use whmcstemplate_bridge.Whmcs.Actions.{allowed_actions, forbidden_actions}
use whmcstemplate_bridge.Whmcs.Services.{Call, Site, ask}

-- The action is on the allowlist and not among the forbidden ones.
abbrev pub IsPermitted : Call → Type 0
IsPermitted c =
    (one_of c.action allowed_actions ≡ true) × (one_of c.action forbidden_actions ≡ false)

abbrev pub permitted : Allowed (List Call)
permitted = record {
  May = λ u v. All IsPermitted u → All IsPermitted v;
  stay = λ u all. all;
  then_may = λ u v w p q all. q (p all);
}

module _ (S : Site) where
  pub ask-Permitted :
      (action : String) (params : Fields)
      → one_of action allowed_actions ≡ true
      → one_of action forbidden_actions ≡ false
      → Frame permitted (ask S action params)
  unfolding ask
  ask-Permitted action params allowed harmless = record {
    at = λ calls all. ((allowed, harmless), all);
  }
