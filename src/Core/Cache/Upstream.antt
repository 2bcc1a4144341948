-- ===== src/Core/Cache/Upstream.antt =====
-- The cache does to its producers' state what the producers do.
use whmcstemplate_bridge.Base.{
  Exec, Allowed, Frame, frame_rules, ℕ, String, Bool, Option, none, some,
}
use whmcstemplate_bridge.Core.Cells.{
  Content, number, entry, plain, Refresh, Cache, cache_get, cache_set, add_if, cache_add,
}
use whmcstemplate_bridge.Core.Cache.{
  version_of, bump, submit, keep, serve, produce, version_ttl, namespace_version, invalidate,
  schedule_refresh, Runtime, time, build_key, store_value, fill, read_through, get_or_set, unlock,
  run_refresh,
}

module _ {A Upstream : Type 0} (R : Allowed Upstream) where
  -- what is allowed of the producers' state
  abbrev pub along : Allowed (Cache A Upstream)
  along = record {
    May = λ w w'. R.May w.upstream w'.upstream;
    stay = λ w. R.stay w.upstream;
    then_may = λ u v w p q. R.then_may u.upstream v.upstream w.upstream p q;
  }

  get-Along : (key : String) → Frame along (cache_get key)
  unfolding cache_get
  get-Along key = record { at = λ w. R.stay w.upstream }

  set-Along : (key : String) (c : Content A) (ttl : ℕ) → Frame along (cache_set key c ttl)
  unfolding cache_set
  set-Along key c ttl = record { at = λ w. R.stay w.upstream }

  submit-Along : (job : Refresh) → Frame along (submit job)
  unfolding submit
  submit-Along job = record { at = λ w. R.stay w.upstream }

  version_of-Along :
      (namespace : String) (c : Option (Content A)) → Frame along (version_of namespace c)
  unfolding version_of
  version_of-Along namespace none = search (frame_rules, set-Along)
  version_of-Along namespace (some (number n)) = search frame_rules
  version_of-Along namespace (some (entry v f)) = search frame_rules
  version_of-Along namespace (some (plain v)) = search frame_rules

  version-Along : (namespace : String) → Frame along (namespace_version namespace)
  unfolding namespace_version
  version-Along namespace = search (frame_rules, get-Along, version_of-Along)

  add_if-Along :
      (key : String) (c : Content A) (ttl : ℕ) (there : Option (Content A))
      → Frame along (add_if key c ttl there)
  unfolding add_if
  add_if-Along key c ttl none = search (frame_rules, set-Along)
  add_if-Along key c ttl (some _) = search frame_rules

  schedule-Along : (key : String) (ttl : ℕ) → Frame along (schedule_refresh key ttl)
  unfolding schedule_refresh cache_add
  schedule-Along key ttl = search (frame_rules, get-Along, add_if-Along, submit-Along)

  bump-Along : (key : String) (c : Option (Content A)) → Frame along (bump key c)
  unfolding bump
  bump-Along key none = set-Along key (number 2) version_ttl
  bump-Along key (some (number n)) = record { at = λ w. R.stay w.upstream }
  bump-Along key (some (entry v f)) = record { at = λ w. R.stay w.upstream }
  bump-Along key (some (plain v)) = record { at = λ w. R.stay w.upstream }

  pub invalidate-Along : (namespace : String) → Frame along (invalidate namespace)
  unfolding invalidate
  invalidate-Along namespace = search (frame_rules, get-Along, bump-Along)

module _ {Parts A Upstream : Type 0} (E : Runtime Parts) (R : Allowed Upstream)
    (producer : Exec Upstream (Option A)) (runs : Frame R producer) where
  time-Along : Frame (along {A = A} R) (time E)
  unfolding time
  time-Along = record { at = λ w. R.stay w.upstream }

  produce-Along : Frame (along {A = A} R) (produce producer)
  unfolding produce
  produce-Along = record { at = λ w. runs.at w.upstream }

  keep-Along : (key : String) (ttl : ℕ) (v : Option A) → Frame (along R) (keep E key ttl v)
  unfolding keep store_value
  keep-Along key ttl none = search frame_rules
  keep-Along key ttl (some v) = search (frame_rules, time-Along, set-Along)

  fill-Along : (key : String) (ttl : ℕ) → Frame (along R) (fill E key ttl producer)
  unfolding fill
  fill-Along key ttl = search (frame_rules, produce-Along, keep-Along)

  serve-Along :
      (key : String) (ttl : ℕ) (stale_ok : Bool) (now : ℕ) (found : Option (Content A))
      → Frame (along R) (serve E key ttl producer stale_ok now found)
  unfolding serve
  serve-Along key ttl stale_ok now none = fill-Along key ttl
  serve-Along key ttl stale_ok now (some (number n)) = fill-Along key ttl
  serve-Along key ttl stale_ok now (some (plain v)) = fill-Along key ttl
  serve-Along key ttl stale_ok now (some (entry v f)) =
      search (frame_rules, fill-Along, schedule-Along)

  build_key-Along :
      (namespace : String) (parts : Parts) → Frame (along {A = A} R) (build_key E namespace parts)
  unfolding build_key
  build_key-Along namespace parts = search (frame_rules, version-Along)

  read_through-Along :
      (namespace : String) (ttl : ℕ) (parts : Parts) (stale_ok : Bool)
      → Frame (along R) (read_through E namespace ttl producer parts stale_ok)
  unfolding read_through
  read_through-Along namespace ttl parts stale_ok =
      search (frame_rules, build_key-Along, get-Along, time-Along, serve-Along)

  pub get_or_set-Along :
      (namespace bucket : String) (parts : Parts) (stale_ok : Bool)
      → Frame (along R) (get_or_set E namespace bucket producer parts stale_ok)
  unfolding get_or_set
  get_or_set-Along namespace bucket parts stale_ok =
      search (frame_rules, produce-Along, read_through-Along)

  unlock-Along : (key : String) → Frame (along {A = A} R) (unlock E key)
  unfolding unlock
  unlock-Along key = record { at = λ w. R.stay w.upstream }

  pub run_refresh-Along : (job : Refresh) → Frame (along R) (run_refresh E producer job)
  unfolding run_refresh
  run_refresh-Along job = search (frame_rules, fill-Along, unlock-Along)
