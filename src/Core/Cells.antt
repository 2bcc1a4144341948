-- ===== src/Core/Cells.antt =====
-- Django's cache as apps/core/cache.py uses it: a table of cells, which their age alone removes.
pub mod Laws
use whmcstemplate_bridge.Base.{
  ltb, if◌then◌else◌, returned, Exec, pure, ◌>>=◌, ◌>>◌, ℕ, ◌+◌, String, Bool, true, false, Option,
  none, some, List, [], ◌∷◌, ◌==◌,
}

-- What a cell holds: a counter or a lock, a value with its freshness deadline, or a value alone.
pub data Content (A : Type 0) : Type 0 where
  number : ℕ → Content A
  entry : A → (fresh_until : ℕ) → Content A
  plain : A → Content A

pub record Cell (A : Type 0) : Type 0 where
  pub content : Content A
  pub expires : ℕ

abbrev pub Store : Type 0 → Type 0
Store A = List (String × Cell A)

-- a call of `_refresher.submit(run)`, by what `run` closes over beside the producer
pub record Refresh : Type 0 where
  pub key : String
  pub ttl : ℕ

-- `Upstream` is the state of the producers.
pub record Cache (A Upstream : Type 0) : Type 0 where
  pub store : Store A
  pub clock : ℕ
  pub refreshes : List Refresh
  pub upstream : Upstream

abbrev pub if_live : {A : Type 0} → ℕ → Cell A → Option (Content A)
if_live now cell = if ltb now cell.expires then some cell.content else none

abbrev pub one_more : {A : Type 0} → Content A → Content A
one_more (number n) = number (n + 1)
one_more c = c

module _ {A : Type 0} where
  -- `cache.get(key)`
  unfoldable pub live : ℕ → String → Store A → Option (Content A)
  live now key [] = none
  live now key ((k, cell) ∷ store) =
      let rest = live now key store in if k == key then if_live now cell else rest

  unfoldable pub put_cell : String → Cell A → Store A → Store A
  put_cell key cell [] = (key, cell) ∷ []
  put_cell key cell ((k, c) ∷ store) =
      let rest = put_cell key cell store in if k == key then (k, cell) ∷ store else (k, c) ∷ rest

  -- `cache.delete(key)`
  unfoldable pub remove_cell : String → Store A → Store A
  remove_cell key [] = []
  remove_cell key ((k, c) ∷ store) =
      let rest = remove_cell key store in if k == key then rest else (k, c) ∷ rest

  -- `cache.incr(key)` of a cell that is there: its expiry stays
  unfoldable pub bump_cell : String → Store A → Store A
  bump_cell key [] = []
  bump_cell key ((k, c) ∷ store) =
      let rest = bump_cell key store in
      if k == key then (k, record c { content = one_more c.content }) ∷ store else (k, c) ∷ rest

module _ {A Upstream : Type 0} where
  unfoldable pub cache_get : String → Exec (Cache A Upstream) (Option (Content A))
  unfolding live
  cache_get key w = (returned (live w.clock key w.store), w)

  -- `cache.set(key, value, timeout)`
  unfoldable pub cache_set : String → Content A → ℕ → Exec (Cache A Upstream) (Unit {0})
  unfolding put_cell
  cache_set key content timeout w = (
    returned tt,
    record w {
      store = put_cell key (record { content = content; expires = w.clock + timeout }) w.store;
    },
  )

  -- `cache.add(key, …)`: whether the key was free
  unfoldable pub add_if : String → Content A → ℕ → Option (Content A) → Exec (Cache A Upstream) Bool
  unfolding cache_set
  add_if key content timeout (some _) = pure false
  add_if key content timeout none = do cache_set key content timeout; pure true

  unfoldable pub cache_add : String → Content A → ℕ → Exec (Cache A Upstream) Bool
  unfolding cache_get add_if
  cache_add key content timeout = do there ← cache_get key; add_if key content timeout there
