-- ===== src/Core/Cache/Isolated.antt =====
-- What a cache-aside read returns and stores, where all that its producer makes may stand under the
-- keys of its namespace.
use whmcstemplate_bridge.Base.{
  ltb, Bool-cases, f_string, show, pos, pos_part, leb_ℤ, Outcome, returned, raised, Exec, pure,
  recover, continue, ◌>>=◌, ◌>>◌, Frame, frame_rules, ℕ, ◌+◌, String, ◌≡◌, refl, inl, inr, Bool,
  Option, none, some, [], ◌∷◌,
}
use whmcstemplate_bridge.Core.Cells.{
  Content, number, entry, plain, Refresh, Cache, live, cache_get, cache_set,
}
use whmcstemplate_bridge.Core.Cache.{
  unlock, produce, keep, serve, lock_key, namespace_version, schedule_refresh, Runtime, ttl_for,
  time, build_key, store_value, fill, read_through, get_or_set, run_refresh,
}
use whmcstemplate_bridge.Core.Cache.Keeps.{
  AllAllowed, allowed_kept, put-AllAllowed, live-IsAllowed, version-Kept, schedule-Kept,
  remove-AllAllowed,
}

-- A predicate on what is returned; nothing is said of what raises.
abbrev pub Post : {X : Type 0} → (X → Type 0) → Outcome X → Type 0
Post Q (returned x) = Q x
Post Q (raised e) = Unit

-- A predicate on a value that is there.
abbrev pub OnSome : {X : Type 0} → (X → Type 0) → Option X → Type 0
OnSome Q none = ⊥
OnSome Q (some x) = Q x

-- a key of the namespace
pub record IsKeyOf (namespace key : String) : Type 0 where
  pub version : ℕ
  pub digest : String
  pub is : key ≡ f_string (namespace ∷ ":v" ∷ show version ∷ ":" ∷ digest ∷ [])

module _ {A Upstream : Type 0} (May : String → A → Type 0) where
  -- what a read keeps, and what it returns
  abbrev pub Served : {X : Type 0} → (X → Type 0) → Outcome X × Cache A Upstream → Type 0
  Served Q r = AllAllowed May r.1.store × Post Q r.0

module _ {Parts A Upstream : Type 0} (E : Runtime Parts) (May : String → A → Type 0)
    (Made : Option A → Type 0) where
  pub time-Kept : Frame (allowed_kept {Upstream = Upstream} May) (time E)
  unfolding time
  time-Kept = record { at = λ w all. all }

  unlock-Kept : (key : String) → Frame (allowed_kept {Upstream = Upstream} May) (unlock E key)
  unfolding unlock
  unlock-Kept key = record { at = λ w all. remove-AllAllowed May (lock_key key) w.store all }

  build_key-Kept :
      (namespace : String) (parts : Parts)
      → Frame (allowed_kept {Upstream = Upstream} May) (build_key E namespace parts)
  unfolding build_key
  build_key-Kept namespace parts = search (frame_rules, version-Kept)

  pub build_key-IsKeyOf :
      (namespace : String) (parts : Parts) (w : Cache A Upstream)
      → Post (IsKeyOf namespace) (build_key E namespace parts w).0
  unfolding build_key
  build_key-IsKeyOf namespace parts w =
      built (namespace_version namespace w).0 (namespace_version namespace w).1
    where
      built :
          (o : Outcome ℕ) (w' : Cache A Upstream)
          → Post
              (IsKeyOf namespace)
              (continue
                (λ (version : ℕ).
                  pure {W = Cache A Upstream}
                    (f_string (namespace ∷ ":v" ∷ show version ∷ ":" ∷ E.digest parts ∷ [])))
                o
                w').0
      built (returned version) w' = record { version = version; digest = E.digest parts; is = refl }
      built (raised e) w' = tt

  keep-Served :
      (key : String) (ttl : ℕ)
      → ((v : A) → Made (some v) → May key v)
      → (o : Outcome (Option A)) (w : Cache A Upstream) → AllAllowed May w.store
      → Post Made o
      → Served May Made (continue (keep E key ttl) o w)
  unfolding keep store_value time cache_set
  keep-Served key ttl may (returned none) w all made = (all, made)
  keep-Served key ttl may (returned (some v)) w all made =
      (put-AllAllowed May key _ w.store (may v made) all, made)
  keep-Served key ttl may (raised e) w all made = (all, tt)

  module _ (producer : Exec Upstream (Option A))
      (makes : (u : Upstream) → Post Made (producer u).0) where
    pub fill-Served :
        (key : String) (ttl : ℕ)
        → ((v : A) → Made (some v) → May key v)
        → (w : Cache A Upstream) → AllAllowed May w.store
        → Served May Made (fill E key ttl producer w)
    unfolding fill produce
    fill-Served key ttl may w all =
        let (o, u) = producer w.upstream in
        keep-Served key ttl may o (record w { upstream = u }) all (makes w.upstream)

    stale-Served :
        (key : String) (ttl : ℕ) (v : A) (w : Cache A Upstream)
        → AllAllowed May w.store
        → Made (some v)
        → Served May Made ((schedule_refresh key ttl >> pure (some v)) w)
    stale-Served key ttl v w all made =
        after (schedule_refresh key ttl w).0 (schedule_refresh key ttl w).1
          ((schedule-Kept May key ttl).at w all)
      where
        after :
            (o : Outcome (Unit {0})) (w' : Cache A Upstream)
            → AllAllowed May w'.store
            → Served May Made (continue (λ (_ : Unit {0}). pure (some v)) o w')
        after (returned _) w' all' = (all', made)
        after (raised e) w' all' = (all', tt)

    serve-Served :
        (key : String) (ttl : ℕ) (stale_ok : Bool) (now : ℕ)
        → ((v : A) → Made (some v) → May key v)
        → (found : Option (Content A)) (w : Cache A Upstream) → AllAllowed May w.store
        → ((v : A) (f : ℕ) → found ≡ some (entry v f) → Made (some v))
        → Served May Made (serve E key ttl producer stale_ok now found w)
    unfolding serve
    serve-Served key ttl stale_ok now may none w all found = fill-Served key ttl may w all
    serve-Served key ttl stale_ok now may (some (number n)) w all found =
        fill-Served key ttl may w all
    serve-Served key ttl stale_ok now may (some (plain v)) w all found =
        fill-Served key ttl may w all
    serve-Served key ttl stale_ok now may (some (entry v f)) w all found =
        elim (Bool-cases (ltb now f)) [
          | inl fresh ↦ rw fresh (all, found v f refl)
          | inr old ↦ elim (Bool-cases stale_ok) [
            | inl good ↦ rw old (rw good (stale-Served key ttl v w all (found v f refl)))
            | inr bad ↦ rw old (rw bad (fill-Served key ttl may w all))
          ]
        ]

    read-Served :
        (key : String) (ttl : ℕ) (stale_ok : Bool)
        → ((v : A) → Made (some v) → May key v)
        → ((v : A) → May key v → Made (some v))
        → (w : Cache A Upstream) → AllAllowed May w.store
        → Served May Made (
            (cache_get key >>= λ found.
            time E >>= λ now. serve E key ttl producer stale_ok now found)
              w)
    unfolding cache_get time
    read-Served key ttl stale_ok may made w all =
        let now = w.clock + E.elapsed w.clock in
        serve-Served key ttl stale_ok now may (live w.clock key w.store) (record w { clock = now })
          all (λ v f found. made v (live-IsAllowed May w.clock key w.store v f all found))

    read_through-Served :
        (namespace : String) (ttl : ℕ) (parts : Parts) (stale_ok : Bool)
        → ((key : String) (v : A) → IsKeyOf namespace key → Made (some v) → May key v)
        → ((key : String) (v : A) → IsKeyOf namespace key → May key v → Made (some v))
        → (w : Cache A Upstream) → AllAllowed May w.store
        → Served May Made (read_through E namespace ttl producer parts stale_ok w)
    unfolding read_through
    read_through-Served namespace ttl parts stale_ok may made w all =
        keyed (build_key E namespace parts w).0 (build_key E namespace parts w).1
          ((build_key-Kept namespace parts).at w all) (build_key-IsKeyOf namespace parts w)
      where
        keyed :
            (o : Outcome String) (w' : Cache A Upstream)
            → AllAllowed May w'.store
            → Post (IsKeyOf namespace) o
            → Served May Made (
                continue
                  (λ key. cache_get key >>= λ found.
                    time E >>= λ now. serve E key ttl producer stale_ok now found)
                  o
                  w')
        keyed (returned key) w' all' is =
            read-Served key ttl stale_ok (λ v. may key v is) (λ v. made key v is) w' all'
        keyed (raised e) w' all' is = (all', tt)

    pub get_or_set-Served :
        (namespace bucket : String) (parts : Parts) (stale_ok : Bool)
        → ((key : String) (v : A) → IsKeyOf namespace key → Made (some v) → May key v)
        → ((key : String) (v : A) → IsKeyOf namespace key → May key v → Made (some v))
        → (w : Cache A Upstream) → AllAllowed May w.store
        → Served May Made (get_or_set E namespace bucket producer parts stale_ok w)
    unfolding get_or_set produce
    get_or_set-Served namespace bucket parts stale_ok may made w all =
        elim (Bool-cases (leb_ℤ (ttl_for E bucket) (pos 0))) [
          | inl disabled ↦ rw disabled (all, makes w.upstream)
          | inr enabled ↦ rw enabled (
              read_through-Served namespace (pos_part (ttl_for E bucket)) parts stale_ok may made w
                all)
        ]

    -- a refresh in the background, of a key under which all that is made may stand
    pub run_refresh-Kept :
        (job : Refresh) (w : Cache A Upstream)
        → ((v : A) → Made (some v) → May job.key v)
        → AllAllowed May w.store
        → AllAllowed May (run_refresh E producer job w).1.store
    unfolding run_refresh
    run_refresh-Kept job w may all =
        ended (fill E job.key job.ttl producer w).0 (fill E job.key job.ttl producer w).1
          (fill-Served job.key job.ttl may w all).0
      where
        ended :
            (o : Outcome (Option A)) (w' : Cache A Upstream)
            → AllAllowed May w'.store
            → AllAllowed May
                ((λ (r : Outcome (Unit {0}) × Cache A Upstream).
                    continue
                      (λ (_ : Unit {0}). unlock E job.key)
                      (recover (λ _. pure tt) r.0 r.1).0
                      (recover (λ _. pure tt) r.0 r.1).1)
                  (continue (λ (_ : Option A). pure tt) o w')).1.store
        ended (returned v) w' all' = (unlock-Kept job.key).at w' all'
        ended (raised e) w' all' = (unlock-Kept job.key).at w' all'
