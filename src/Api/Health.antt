-- ===== src/Api/Health.antt =====
-- `ReadinessView` of apps/core/views.py, behind its throttle.
pub mod Probes
mod Tests
use whmcstemplate_bridge.Base.{
  nat_eq, if◌then◌else◌, Exn, whmcs_config, whmcs_transport, whmcs_api, Exec, pure, raise, catch,
  ◌>>=◌, ◌>>◌, ℕ, String, Bool, true, false, not, ◌&&◌, Option, none, some,
}
use whmcstemplate_bridge.Json.{bool, str, dict, end, field, truthy, Value}
use whmcstemplate_bridge.Core.Cells.{Content, number, entry, plain, cache_get, cache_set}
use whmcstemplate_bridge.Whmcs.Services.{Site, World, upstream, ask}
use whmcstemplate_bridge.Api.Responses.{Response}

abbrev pub probe_key : String
probe_key = "health:whmcs-reachable"

abbrev pub probe_ttl : ℕ
probe_ttl = 30

-- `bool(cached)`
abbrev pub as_verdict : Content Value → Bool
unfolding truthy
as_verdict (number n) = not (nat_eq n 0)
as_verdict (entry v fresh_until) = true
as_verdict (plain v) = truthy v

-- `except (WhmcsAPIError, WhmcsError)`
abbrev pub unreachable : Exn → Exec World Bool
unreachable (whmcs_config _) = pure false
unreachable (whmcs_transport _) = pure false
unreachable (whmcs_api _ _) = pure false
unreachable e = raise e

abbrev pub ok_or_error : Bool → Value
ok_or_error fine = str (if fine then "ok" else "error")

-- `database` says whether the database answered.
abbrev pub readiness_response : (database reachable : Bool) → Response
readiness_response database reachable =
    let healthy = database && reachable in
    record {
      status = if healthy then 200 else 503;
      body = dict (
          field "status" (str (if healthy then "ok" else "degraded")) (
            field "checks"
              (dict (
                field "database" (ok_or_error database)
                  (field "whmcs" (ok_or_error reachable) end)))
              end));
    }

module _ (S : Site) where
  -- one call of WHMCS, and its verdict
  unfoldable pub probe : Exec World Bool
  unfolding ask
  probe = catch (do upstream (ask S "WhmcsDetails" end); pure true) unreachable

  unfoldable pub reachable_now : Option (Content Value) → Exec World Bool
  unfolding probe cache_set
  reachable_now (some cached) = pure (as_verdict cached)
  reachable_now none = do
    reachable ← probe
    cache_set probe_key (plain (bool reachable)) probe_ttl
    pure reachable

  -- `_whmcs_reachable`
  unfoldable pub whmcs_reachable : Exec World Bool
  unfolding reachable_now cache_get
  whmcs_reachable = do cached ← cache_get probe_key; reachable_now cached

  -- `get`
  unfoldable pub readiness : (database : Bool) → Exec World Response
  unfolding whmcs_reachable
  readiness database = do reachable ← whmcs_reachable; pure (readiness_response database reachable)
