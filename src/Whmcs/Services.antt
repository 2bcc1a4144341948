-- ===== src/Whmcs/Services.antt =====
-- apps/whmcs/services/base.py: what the services share, over WHMCS behind its client and the cache.
pub mod Accounts
pub mod Catalogue
pub mod Billing
pub mod Tickets
pub mod Support
pub mod Hosting
pub mod Domains
pub mod Orders
pub mod Tasks
pub mod Isolation
pub mod Along
pub mod Calls
pub mod Apart
pub mod Frames
pub mod Gates
pub mod Tests
use whmcstemplate_bridge.Base.{
  length, pos, runtime, Outcome, returned, raised, Exec, pure, ◌>>=◌, ◌>>◌, ℕ, String, true, Option,
  none, some, List, [], ◌∷◌,
}
use whmcstemplate_bridge.Json.{
  Value, null, int, list, dict, Items, nil, cons, Fields, get, get_or, set_field,
}
use whmcstemplate_bridge.Core.Cells.{Cache}
use whmcstemplate_bridge.Core.Cache.{Runtime, get_or_set, invalidate, client_namespace}
use whmcstemplate_bridge.Core.Pagination.{PageRequest, limit_start, limit_num}
use whmcstemplate_bridge.Whmcs.Config.{WhmcsSettings}
use whmcstemplate_bridge.Whmcs.Normalizers.{Column, pick, total_of}
use whmcstemplate_bridge.Whmcs.Attachments.{Rules}

-- a call of the client
pub record Call : Type 0 where
  pub action : String
  pub params : Fields

-- The client, the cache's runtime and Python's. `answer` is what the client returns or raises for a
-- call, by all calls so far, this one at the head.
pub record Site : Type 0 where
  pub config : WhmcsSettings
  pub rules : Rules
  pub repr : Value → String
  pub lower : String → String
  pub unescape : String → String
  pub b64decode : String → Option (List ℕ)
  pub strftime : ℕ → String
  pub runtime : Runtime (List Value)
  pub answer : List Call → Outcome Fields

abbrev pub World : Type 0
World = Cache Value (List Call)

-- a piece of code that only calls WHMCS
abbrev pub upstream : {A : Type 0} → Exec (List Call) A → Exec World A
upstream m w = let (o, calls) = m w.upstream in (o, record w { upstream = calls })

-- `{**params, **self.page_params(page)}`
abbrev pub with_page : PageRequest → Fields → Fields
unfolding limit_start limit_num set_field
with_page page params =
    set_field "limitnum" (int (pos (limit_num page)))
      (set_field "limitstart" (int (pos (limit_start page))) params)

-- `x[k]`, for a text `k`
unfoldable pub subscript : String → Value → Outcome Value
unfolding get
subscript k (dict d) = elim (get k d) [ none ↦ raised (runtime "KeyError") | some v ↦ returned v ]
subscript k _ = raised (runtime "TypeError")

-- `x.get(k)`
unfoldable pub get_of : String → Value → Outcome Value
unfolding get_or
get_of k (dict d) = returned (get_or k null d)
get_of k _ = raised (runtime "AttributeError")

-- `[pick(raw, mapping) for raw in rows]`
unfoldable pub pick_each : List Column → List Fields → Items
unfolding pick
pick_each mapping [] = nil
pick_each mapping (raw ∷ rows) = cons (dict (pick raw mapping)) (pick_each mapping rows)

-- a pair, as the cache keeps it
abbrev pub pair : Value → Value → Value
pair x y = list (cons x (cons y nil))

abbrev pub value_or_null : Option Value → Value
value_or_null none = null
value_or_null (some v) = v

module _ (S : Site) where
  -- `BaseService.call`
  unfoldable pub ask : (action : String) → Fields → Exec (List Call) Fields
  ask action params calls =
      let call : Call = record { action = action; params = params } in
      (S.answer (call ∷ calls), call ∷ calls)

  -- `items, total_of(data, len(items))`
  unfoldable pub page_of : List Column → (reply : Fields) → List Fields → Value
  unfolding pick_each total_of
  page_of mapping reply rows =
      pair (list (pick_each mapping rows)) (int (total_of S.repr reply (pos (length rows))))

  -- `get_or_set`, of a producer that never returns None
  unfoldable pub cached :
      (namespace bucket : String) → Exec (List Call) Value → List Value → Exec World Value
  unfolding get_or_set
  cached namespace bucket producer parts = do
    found ← get_or_set S.runtime namespace bucket (do v ← producer; pure (some v)) parts true
    pure (value_or_null found)

  -- ... under a customer's namespace
  unfoldable pub cached_for :
      (whmcs_client_id : ℕ)
      → (resource bucket : String) → Exec (List Call) Value
      → List Value
      → Exec World Value
  unfolding cached client_namespace
  cached_for whmcs_client_id resource bucket producer parts =
      cached (client_namespace whmcs_client_id resource) bucket producer parts

-- `invalidate_for`, of given resources
unfoldable pub invalidate_for : (whmcs_client_id : ℕ) → List String → Exec World (Unit {0})
unfolding invalidate client_namespace
invalidate_for whmcs_client_id [] = pure tt
invalidate_for whmcs_client_id (resource ∷ resources) = do
  invalidate (client_namespace whmcs_client_id resource)
  invalidate_for whmcs_client_id resources
