-- ===== src/Core/Cache.antt =====
-- apps/core/cache.py: cache-aside reads, stale-while-revalidate. The background pool is a queue of
-- refreshes.
pub mod Keeps
pub mod Isolated
pub mod Namespaces
pub mod Upstream
pub mod Leaves
pub mod Served
pub mod Refreshes
pub mod Versions
use whmcstemplate_bridge.Base.{
  ltb, if◌then◌else◌, f_string, show, ℤ, pos, pos_part, leb_ℤ, runtime, returned, raised, Exec,
  pure, raise, catch, ◌>>=◌, ◌>>◌, ℕ, ◌+◌, ◌*◌, String, Bool, Option, none, some, [], ◌∷◌,
}
use whmcstemplate_bridge.Core.Cells.{
  Content, number, entry, Refresh, Cache, remove_cell, bump_cell, cache_get, cache_set, cache_add,
}

abbrev pub version_ttl : ℕ
version_ttl = 60 * 60 * 24 * 7

abbrev pub stale_multiplier : ℕ
stale_multiplier = 10

abbrev pub lock_key : String → String
lock_key key = f_string (key ∷ ":refreshing" ∷ [])

abbrev pub version_key : String → String
version_key namespace = f_string ("ver:" ∷ namespace ∷ [])

module _ {A Upstream : Type 0} where
  -- `int(version)`
  version_of : String → Option (Content A) → Exec (Cache A Upstream) ℕ
  unfolding cache_set f_string
  version_of namespace none = do cache_set (version_key namespace) (number 1) version_ttl; pure 1
  version_of namespace (some (number n)) = pure n
  version_of namespace (some _) = raise (runtime "TypeError")

  unfoldable pub namespace_version : String → Exec (Cache A Upstream) ℕ
  unfolding cache_get version_of f_string
  namespace_version namespace = do
    version ← cache_get (version_key namespace)
    version_of namespace version

  bump : String → Option (Content A) → Exec (Cache A Upstream) (Unit {0})
  unfolding cache_set bump_cell
  bump key none w = cache_set key (number 2) version_ttl w
  bump key (some (number n)) w = (returned tt, record w { store = bump_cell key w.store })
  bump key (some _) w = (raised (runtime "TypeError"), w)

  -- Bump the namespace version.
  unfoldable pub invalidate : String → Exec (Cache A Upstream) (Unit {0})
  unfolding cache_get bump f_string
  invalidate namespace = do
    counter ← cache_get (version_key namespace)
    bump (version_key namespace) counter

  submit : Refresh → Exec (Cache A Upstream) (Unit {0})
  submit job w = (returned tt, record w { refreshes = job ∷ w.refreshes })

  -- One refresh for a key, unless one is under way.
  unfoldable pub schedule_refresh : String → ℕ → Exec (Cache A Upstream) (Unit {0})
  unfolding cache_add submit
  schedule_refresh key ttl = do
    added ← cache_add (lock_key key) (number 1) (if ltb 60 ttl then 60 else ttl)
    if added then submit (record { key = key; ttl = ttl }) else pure tt

  -- a call of a producer; `none` is Python's None
  produce : Exec Upstream (Option A) → Exec (Cache A Upstream) (Option A)
  produce producer w = let (o, u) = producer w.upstream in (o, record w { upstream = u })

-- The clock has advanced by `elapsed` whenever it is read, `digest` is the hash of a key's arguments,
-- and `cache_ttl` the setting.
pub record Runtime (Parts : Type 0) : Type 0 where
  pub elapsed : ℕ → ℕ
  pub digest : Parts → String
  pub cache_ttl : String → Option ℤ

module _ {Parts : Type 0} (E : Runtime Parts) where
  unfoldable pub ttl_for : String → ℤ
  ttl_for bucket = elim (E.cache_ttl bucket) [ none ↦ pos 0 | some n ↦ n ]

module _ {Parts A Upstream : Type 0} (E : Runtime Parts) where
  -- `time.time()`, in seconds
  unfoldable pub time : Exec (Cache A Upstream) ℕ
  time w = let now = w.clock + E.elapsed w.clock in (returned now, record w { clock = now })

  unfoldable pub build_key : String → Parts → Exec (Cache A Upstream) String
  unfolding namespace_version f_string show
  build_key namespace parts = do
    version ← namespace_version namespace
    pure (f_string (namespace ∷ ":v" ∷ show version ∷ ":" ∷ E.digest parts ∷ []))

  -- `_store`
  unfoldable pub store_value : String → A → ℕ → Exec (Cache A Upstream) (Unit {0})
  unfolding time cache_set
  store_value key value ttl = do
    now ← time
    cache_set key (entry value (now + ttl)) (ttl * stale_multiplier)

  keep : String → ℕ → Option A → Exec (Cache A Upstream) (Option A)
  unfolding store_value
  keep key ttl none = pure none
  keep key ttl (some value) = do store_value key value ttl; pure (some value)

  -- the value is produced, and stored unless it is None
  unfoldable pub fill : String → ℕ → Exec Upstream (Option A) → Exec (Cache A Upstream) (Option A)
  unfolding produce keep
  fill key ttl producer = do value ← produce producer; keep key ttl value

  -- what is done with the entry found under the key
  serve :
      String
      → ℕ
      → Exec Upstream (Option A)
      → (stale_ok : Bool) → (now : ℕ) → Option (Content A)
      → Exec (Cache A Upstream) (Option A)
  unfolding fill schedule_refresh
  serve key ttl producer stale_ok now (some (entry value fresh_until)) =
      if ltb now fresh_until
      then pure (some value)
      else if stale_ok
      then (do schedule_refresh key ttl; pure (some value))
      else fill key ttl producer
  serve key ttl producer stale_ok now _ = fill key ttl producer

  -- behind the test on the TTL
  unfoldable pub read_through :
      String
      → ℕ
      → Exec Upstream (Option A)
      → Parts
      → (stale_ok : Bool) → Exec (Cache A Upstream) (Option A)
  unfolding build_key cache_get time serve
  read_through namespace ttl producer parts stale_ok = do
    key ← build_key namespace parts
    found ← cache_get key
    now ← time
    serve key ttl producer stale_ok now found

  unfoldable pub get_or_set :
      (namespace bucket : String)
      → Exec Upstream (Option A)
      → Parts
      → (stale_ok : Bool) → Exec (Cache A Upstream) (Option A)
  unfolding ttl_for read_through produce
  get_or_set namespace bucket producer parts stale_ok =
      if leb_ℤ (ttl_for E bucket) (pos 0)
      then produce producer
      else read_through namespace (pos_part (ttl_for E bucket)) producer parts stale_ok

  -- `cache.delete(lock_key)`
  unlock : String → Exec (Cache A Upstream) (Unit {0})
  unfolding remove_cell f_string
  unlock key w = (returned tt, record w { store = remove_cell (lock_key key) w.store })

  -- `run`: a refresh in the background; whatever it raises is logged, and the lock goes
  unfoldable pub run_refresh :
      Exec Upstream (Option A) → Refresh → Exec (Cache A Upstream) (Unit {0})
  unfolding fill unlock
  run_refresh producer job = do
    catch (do fill job.key job.ttl producer; pure tt) (λ _. pure tt)
    unlock job.key

unfoldable pub client_namespace : (whmcs_client_id : ℕ) → (resource : String) → String
unfolding f_string show
client_namespace whmcs_client_id resource =
    f_string ("client:" ∷ show whmcs_client_id ∷ ":" ∷ resource ∷ [])
