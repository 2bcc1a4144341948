-- ===== src/Core/Cache/Served.antt =====
-- What a cache-aside read answers.
use whmcstemplate_bridge.Base.{
  ltb, if◌then◌else◌, Bool-cases, Option-cases, pos, pos_part, leb_ℤ, Outcome, returned, raised,
  Exec, pure, continue, ◌>>=◌, ◌>>◌, Allowed, Frame, frame_rules, ℕ, ◌+◌, String, ◌≡◌, refl, sym,
  ap, ◌∙◌, subst, inl, inr, Bool, true, false, ◌||◌, Option, none, some,
}
use whmcstemplate_bridge.Core.Cells.{
  plain, add_if, Content, number, entry, Refresh, Cache, live, cache_get, cache_set, add_if,
  cache_add,
}
use whmcstemplate_bridge.Core.Cache.{
  submit, version_of, keep, serve, time, produce, lock_key, namespace_version, schedule_refresh,
  Runtime, ttl_for, build_key, store_value, fill, read_through, get_or_set,
}

module _ {A Upstream : Type 0} where
  -- the producers' state is left alone
  abbrev upstream_kept : Allowed (Cache A Upstream)
  upstream_kept = record {
    May = λ w w'. w'.upstream ≡ w.upstream;
    stay = λ w. refl;
    then_may = λ u v w p q. q ∙ p;
  }

  get-Frame : (key : String) → Frame upstream_kept (cache_get key)
  unfolding cache_get
  get-Frame key = record { at = λ w. refl }

  set-Frame : (key : String) (c : Content A) (ttl : ℕ) → Frame upstream_kept (cache_set key c ttl)
  unfolding cache_set
  set-Frame key c ttl = record { at = λ w. refl }

  submit-Frame : (job : Refresh) → Frame upstream_kept (submit job)
  unfolding submit
  submit-Frame job = record { at = λ w. refl }

  version_of-Frame :
      (namespace : String) (c : Option (Content A)) → Frame upstream_kept (version_of namespace c)
  unfolding version_of
  version_of-Frame namespace none = search (frame_rules, set-Frame)
  version_of-Frame namespace (some (number n)) = search frame_rules
  version_of-Frame namespace (some _) = search frame_rules

  version-Frame : (namespace : String) → Frame upstream_kept (namespace_version namespace)
  unfolding namespace_version
  version-Frame namespace = search (frame_rules, get-Frame, version_of-Frame)

  add_if-Frame :
      (key : String) (c : Content A) (ttl : ℕ) (there : Option (Content A))
      → Frame upstream_kept (add_if key c ttl there)
  unfolding add_if
  add_if-Frame key c ttl none = search (frame_rules, set-Frame)
  add_if-Frame key c ttl (some _) = search frame_rules

  schedule-Frame : (key : String) (ttl : ℕ) → Frame upstream_kept (schedule_refresh key ttl)
  unfolding schedule_refresh cache_add
  schedule-Frame key ttl = search (frame_rules, get-Frame, add_if-Frame, submit-Frame)

  schedule-returned :
      (key : String) (ttl : ℕ) (w : Cache A Upstream) → (schedule_refresh key ttl w).0 ≡ returned tt
  unfolding schedule_refresh cache_add cache_get add_if cache_set submit
  schedule-returned key ttl w = elim (Option-cases (live w.clock (lock_key key) w.store)) [
    | inl free ↦ rw free refl
    | inr (c, locked) ↦ rw locked refl
  ]

  after-schedule :
      (key : String) (ttl : ℕ) (value : A) (w : Cache A Upstream)
      → (((schedule_refresh key ttl >> pure (some value)) w).0 ≡ returned (some value))
        × (((schedule_refresh key ttl >> pure (some value)) w).1.upstream ≡ w.upstream)
  after-schedule key ttl value w =
      rw (schedule-returned key ttl w) (refl, (schedule-Frame key ttl).at w)

module _ {Parts A Upstream : Type 0} (E : Runtime Parts) (producer : Exec Upstream (Option A)) where
  build_key-Frame :
      (namespace : String) (parts : Parts)
      → Frame (upstream_kept {A = A} {Upstream = Upstream}) (build_key E namespace parts)
  unfolding build_key
  build_key-Frame namespace parts = search (frame_rules, version-Frame)

  -- The two ways a read at a time ends: with an entry of the cache, in its time unless a stale one will
  -- do, and without the producer; or, where there is no such entry, with what the producer returns or
  -- raises, run once.
  pub data IsServed (now : ℕ) (stale_ok : Bool) (found : Option (Content A)) (u : Upstream)
      (r : Outcome (Option A) × Cache A Upstream) : Type 0 where
    cached :
        (value : A) (fresh_until : ℕ)
        → found ≡ some (entry value fresh_until)
        → (ltb now fresh_until || stale_ok) ≡ true
        → r.0 ≡ returned (some value)
        → r.1.upstream ≡ u
        → IsServed now stale_ok found u r
    produced :
        ((value : A) (fresh_until : ℕ)
          → found ≡ some (entry value fresh_until)
          → (ltb now fresh_until || stale_ok) ≡ false)
        → r.0 ≡ (producer u).0
        → r.1.upstream ≡ (producer u).1
        → IsServed now stale_ok found u r

  kept-value :
      (key : String) (ttl : ℕ) (o : Outcome (Option A)) (w : Cache A Upstream)
      → ((continue (keep E key ttl) o w).0 ≡ o)
        × ((continue (keep E key ttl) o w).1.upstream ≡ w.upstream)
  unfolding keep store_value time cache_set
  kept-value key ttl (returned none) w = (refl, refl)
  kept-value key ttl (returned (some a)) w = (refl, refl)
  kept-value key ttl (raised e) w = (refl, refl)

  fill-IsServed :
      (now : ℕ) (stale_ok : Bool) (found : Option (Content A)) (key : String) (ttl : ℕ)
      (w : Cache A Upstream)
      → ((value : A) (fresh_until : ℕ)
          → found ≡ some (entry value fresh_until)
          → (ltb now fresh_until || stale_ok) ≡ false)
      → IsServed now stale_ok found w.upstream (fill E key ttl producer w)
  unfolding fill produce
  fill-IsServed now stale_ok found key ttl w unfit =
      let r = producer w.upstream in
      let (value, same) = kept-value key ttl r.0 (record w { upstream = r.1 }) in
      produced unfit value same

  serve-IsServed :
      (stale_ok : Bool) (found : Option (Content A)) (key : String) (ttl now : ℕ)
      (w : Cache A Upstream)
      → IsServed now stale_ok found w.upstream (serve E key ttl producer stale_ok now found w)
  unfolding serve
  serve-IsServed stale_ok none key ttl now w =
      fill-IsServed now stale_ok none key ttl w (λ v f is. absurd (cc is))
  serve-IsServed stale_ok (some (number n)) key ttl now w =
      fill-IsServed now stale_ok (some (number n)) key ttl w (λ v f is. absurd (cc is))
  serve-IsServed stale_ok (some (plain a)) key ttl now w =
      fill-IsServed now stale_ok (some (plain a)) key ttl w (λ v f is. absurd (cc is))
  serve-IsServed stale_ok (some (entry value fresh_until)) key ttl now w =
      elim (Bool-cases (ltb now fresh_until)) [
        | inl fresh ↦ cached value fresh_until refl (rw fresh refl) (rw fresh refl) (rw fresh refl)
        | inr stale ↦ elim (Bool-cases stale_ok) [
          | inl good ↦
              let (value_back, same) = after-schedule key ttl value w in
              cached value fresh_until refl (rw stale good) (rw stale (rw good value_back))
                (rw stale (rw good same))
          | inr bad ↦
              let unfit : (v : A) (f : ℕ)
                  → some (entry value fresh_until) ≡ some (entry v f)
                  → (ltb now f || false) ≡ false =
                λ v f is. cc (is, stale) in
              rw stale (rw bad (fill-IsServed now false _ key ttl w unfit))
        ]
      ]

  read_through-run :
      (namespace : String) (ttl : ℕ) (parts : Parts) (stale_ok : Bool) (w w' : Cache A Upstream)
      (key : String)
      → build_key E namespace parts w ≡ (returned key, w')
      → read_through E namespace ttl producer parts stale_ok w
        ≡ serve E key ttl producer stale_ok
            (w'.clock + E.elapsed w'.clock)
            (live w'.clock key w'.store)
            (record w' { clock = w'.clock + E.elapsed w'.clock })
  unfolding read_through cache_get time
  read_through-run namespace ttl parts stale_ok w w' key built =
      ap
        (λ (r : Outcome String × Cache A Upstream).
          continue
            (λ key. cache_get key >>= λ found.
              time E >>= λ now. serve E key ttl producer stale_ok now found)
            r.0 r.1)
        built

  enabled-IsServed :
      (namespace : String) (ttl : ℕ) (parts : Parts) (stale_ok : Bool) (w w' : Cache A Upstream)
      (key : String)
      → build_key E namespace parts w ≡ (returned key, w')
      → IsServed
          (w'.clock + E.elapsed w'.clock)
          stale_ok
          (live w'.clock key w'.store)
          w.upstream
          (read_through E namespace ttl producer parts stale_ok w)
  enabled-IsServed namespace ttl parts stale_ok w w' key built =
      let now = w'.clock + E.elapsed w'.clock in
      let same : w'.upstream ≡ w.upstream =
        subst (λ (r : Outcome String × Cache A Upstream). r.1.upstream ≡ w.upstream) built
          ((build_key-Frame namespace parts).at w) in
      subst (IsServed now stale_ok (live w'.clock key w'.store) w.upstream)
        (sym (read_through-run namespace ttl parts stale_ok w w' key built))
        (subst
          (λ u. IsServed now stale_ok (live w'.clock key w'.store) u (
            serve E key ttl producer stale_ok now (live w'.clock key w'.store)
              (record w' { clock = now })))
          same
          (serve-IsServed stale_ok (live w'.clock key w'.store) key ttl now
            (record w' { clock = now })))

  -- The entry that a read finds: none where caching is disabled, and else what lives under its key.
  abbrev pub found_for : String → (key : String) → Cache A Upstream → Option (Content A)
  found_for bucket key w =
      if leb_ℤ (ttl_for E bucket) (pos 0) then none else live w.clock key w.store

  -- A read whose key can be built ends in one of two ways: with the entry that lives under that key,
  -- which is in its time at the moment that the read asks for unless a stale one will do, and without
  -- running the producer; or, where there is no such entry or caching is disabled, with what the
  -- producer, run once, returns or raises.
  pub get_or_set-IsServed :
      (namespace bucket : String) (parts : Parts) (stale_ok : Bool) (w w' : Cache A Upstream)
      (key : String)
      → build_key E namespace parts w ≡ (returned key, w')
      → IsServed
          (w'.clock + E.elapsed w'.clock)
          stale_ok
          (found_for bucket key w')
          w.upstream
          (get_or_set E namespace bucket producer parts stale_ok w)
  unfolding get_or_set produce
  get_or_set-IsServed namespace bucket parts stale_ok w w' key built =
      elim (Bool-cases (leb_ℤ (ttl_for E bucket) (pos 0))) [
        | inl disabled ↦ rw disabled (produced (λ v f is. absurd (cc is)) refl refl)
        | inr enabled ↦
            rw enabled (
              enabled-IsServed namespace (pos_part (ttl_for E bucket)) parts stale_ok w w' key
                built)
      ]
