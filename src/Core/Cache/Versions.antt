-- ===== src/Core/Cache/Versions.antt =====
-- What an invalidation does to the version of a namespace.
use whmcstemplate_bridge.Base.{
  ltb, returned, ℕ, ◌+◌, ◌<◌, String, ◌≡◌, refl, ap, ◌∙◌, true, Option, none, some, arith,
}
use whmcstemplate_bridge.Core.Cells.{Content, number, Cache, live, bump_cell, cache_get, cache_set}
use whmcstemplate_bridge.Core.Cells.Laws.{bumped, live-put_cell, live-bump_cell}
use whmcstemplate_bridge.Core.Cache.{
  version_of, bump, version_ttl, version_key, namespace_version, invalidate,
}

alive : (now ttl : ℕ) → 0 < ttl → ltb now (now + ttl) ≡ true
alive now ttl h = ground arith

abbrev pub counter : {A : Type 0} → Option ℕ → Option (Content A)
counter none = none
counter (some n) = some (number n)

abbrev pub next_version : Option ℕ → ℕ
next_version none = 2
next_version (some n) = n + 1

module _ {A Upstream : Type 0} (namespace : String) where
  version-live :
      (v : Cache A Upstream) (n : ℕ)
      → live v.clock (version_key namespace) v.store ≡ some (number n)
      → (namespace_version namespace v).0 ≡ returned n
  unfolding namespace_version cache_get version_of
  version-live v n h = rw h refl

  reset-live :
      (w : Cache A Upstream)
      → live w.clock
          (version_key namespace)
          (cache_set (version_key namespace) (number 2) version_ttl w).1.store
        ≡ some (number 2)
  unfolding cache_set
  reset-live w =
      live-put_cell w.clock (version_key namespace) _ w.store
      ∙ rw (alive w.clock version_ttl (omega arith)) refl

  -- An invalidation makes the version of a namespace greater by one while its counter is alive; where
  -- the counter is gone, the version is 2 afterwards.
  pub invalidate-version :
      (w : Cache A Upstream) (c : Option ℕ)
      → live w.clock (version_key namespace) w.store ≡ counter c
      → (namespace_version namespace (invalidate namespace w).1).0 ≡ returned (next_version c)
  unfolding invalidate cache_get bump
  invalidate-version w none h =
      rw h (
        version-live (cache_set (version_key namespace) (number 2) version_ttl w).1 2
          (reset-live w))
  invalidate-version w (some n) h = rw h (
      version-live (record w { store = bump_cell (version_key namespace) w.store }) (n + 1)
        (live-bump_cell w.clock (version_key namespace) w.store ∙ ap bumped h))
