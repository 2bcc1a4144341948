-- ===== src/Core/Cache/Leaves.antt =====
-- The cache leaves the cells of foreign keys alone.
use Prim.Native.String
use text.Mathlib.TextLemmas.{append_assoc}
use whmcstemplate_bridge.Base.{
  f_string, Outcome, returned, raised, Exec, continue, ◌>>=◌, Allowed, leb_ℤ, pos, pos_part, Frame,
  Frame-pure, Frame-if, Frame-catch, Frame-bind, frame_rules, ℕ, String, ◌≡◌, refl, sym, subst, ◌∙◌,
  false, Bool, Option, none, some, ◌==◌,
}
use whmcstemplate_bridge.Core.Cells.{
  Content, number, entry, plain, Refresh, Cache, live, cache_get, cache_set, add_if, cache_add,
}
use whmcstemplate_bridge.Core.Cells.Laws.{live-put_other, live-bump_other, live-remove_other}
use whmcstemplate_bridge.Core.Cache.Isolated.{Post, IsKeyOf, build_key-IsKeyOf}
use whmcstemplate_bridge.Core.Cache.{
  version_of, bump, submit, keep, serve, produce, unlock, lock_key, version_key, version_ttl,
  namespace_version, invalidate, schedule_refresh, Runtime, ttl_for, time, build_key, store_value,
  fill, read_through, get_or_set, run_refresh,
}

-- another key, and one that cannot be continued to it
abbrev pub Away : (key k : String) → Type 0
Away key k = (k == key) ≡ false

abbrev pub Outside : (key namespace : String) → Type 0
Outside key namespace = (s : String) → Away key (String.◌++◌ namespace s)

module _ {A Upstream : Type 0} (key : String) where
  -- the cell under the key is read as before, at any time
  abbrev pub leaves : Allowed (Cache A Upstream)
  leaves = record {
    May = λ w v. (t : ℕ) → live t key v.store ≡ live t key w.store;
    stay = λ w t. refl;
    then_may = λ u v w p q t. q t ∙ p t;
  }

  pub get-Leaves : (k : String) → Frame leaves (cache_get k)
  unfolding cache_get
  get-Leaves k = record { at = λ w t. refl }

  pub set-Leaves :
      (k : String) (c : Content A) (ttl : ℕ) → Away key k → Frame leaves (cache_set k c ttl)
  unfolding cache_set
  set-Leaves k c ttl away = record { at = λ w t. live-put_other t key k _ w.store away }

  submit-Leaves : (job : Refresh) → Frame leaves (submit job)
  unfolding submit
  submit-Leaves job = record { at = λ w t. refl }

  version_of-Leaves :
      (namespace : String) (c : Option (Content A))
      → Outside key "ver:"
      → Frame leaves (version_of namespace c)
  unfolding version_of f_string
  version_of-Leaves namespace none out = search (
    frame_rules,
    set-Leaves (version_key namespace) (number 1) version_ttl (out (String.◌++◌ namespace "")),
  )
  version_of-Leaves namespace (some (number n)) out = search frame_rules
  version_of-Leaves namespace (some (entry v f)) out = search frame_rules
  version_of-Leaves namespace (some (plain v)) out = search frame_rules

  version-Leaves :
      (namespace : String) → Outside key "ver:" → Frame leaves (namespace_version namespace)
  unfolding namespace_version
  version-Leaves namespace out = search (frame_rules, get-Leaves, version_of-Leaves)

  add_if-Leaves :
      (k : String) (c : Content A) (ttl : ℕ) (there : Option (Content A))
      → Away key k
      → Frame leaves (add_if k c ttl there)
  unfolding add_if
  add_if-Leaves k c ttl none away = search (frame_rules, set-Leaves)
  add_if-Leaves k c ttl (some _) away = search frame_rules

  schedule-Leaves :
      (k : String) (ttl : ℕ) → Away key (lock_key k) → Frame leaves (schedule_refresh k ttl)
  unfolding schedule_refresh cache_add
  schedule-Leaves k ttl away = search (frame_rules, get-Leaves, add_if-Leaves, submit-Leaves)

  bump-Leaves : (k : String) (c : Option (Content A)) → Away key k → Frame leaves (bump k c)
  unfolding bump
  bump-Leaves k none away = set-Leaves k (number 2) version_ttl away
  bump-Leaves k (some (number n)) away = record { at = λ w t. live-bump_other t key k w.store away }
  bump-Leaves k (some (entry v f)) away = record { at = λ w t. refl }
  bump-Leaves k (some (plain v)) away = record { at = λ w t. refl }

  pub invalidate-Leaves :
      (namespace : String) → Outside key "ver:" → Frame leaves (invalidate namespace)
  unfolding invalidate f_string
  invalidate-Leaves namespace out =
      Frame-bind (cache_get (version_key namespace)) _ (get-Leaves (version_key namespace))
        (λ counter. bump-Leaves (version_key namespace) counter (out (String.◌++◌ namespace "")))

module _ {Parts A Upstream : Type 0} (E : Runtime Parts) (key : String)
    (producer : Exec Upstream (Option A)) where
  pub time-Leaves : Frame (leaves {A = A} {Upstream = Upstream} key) (time E)
  unfolding time
  time-Leaves = record { at = λ w t. refl }

  produce-Leaves : Frame (leaves {A = A} {Upstream = Upstream} key) (produce producer)
  unfolding produce
  produce-Leaves = record { at = λ w t. refl }

  unlock-Leaves :
      (k : String)
      → Away key (lock_key k)
      → Frame (leaves {A = A} {Upstream = Upstream} key) (unlock E k)
  unfolding unlock
  unlock-Leaves k away = record { at = λ w t. live-remove_other t key (lock_key k) w.store away }

  keep-Leaves :
      (k : String) (ttl : ℕ) (v : Option A)
      → Away key k
      → Frame (leaves {Upstream = Upstream} key) (keep E k ttl v)
  unfolding keep store_value
  keep-Leaves k ttl none away = search frame_rules
  keep-Leaves k ttl (some v) away = search (frame_rules, time-Leaves, set-Leaves key)

  fill-Leaves : (k : String) (ttl : ℕ) → Away key k → Frame (leaves key) (fill E k ttl producer)
  unfolding fill
  fill-Leaves k ttl away = search (frame_rules, produce-Leaves, keep-Leaves)

  serve-Leaves :
      (k : String) (ttl : ℕ) (stale_ok : Bool) (now : ℕ) (found : Option (Content A))
      → Away key k
      → Away key (lock_key k)
      → Frame (leaves key) (serve E k ttl producer stale_ok now found)
  unfolding serve
  serve-Leaves k ttl stale_ok now none away lock = fill-Leaves k ttl away
  serve-Leaves k ttl stale_ok now (some (number n)) away lock = fill-Leaves k ttl away
  serve-Leaves k ttl stale_ok now (some (plain v)) away lock = fill-Leaves k ttl away
  serve-Leaves k ttl stale_ok now (some (entry v f)) away lock =
      search (frame_rules, fill-Leaves, schedule-Leaves key)

-- A block whose first step returns only values of a kind.
Frame-after :
    {W A B : Type 0} {R : Allowed W} (Q : A → Type 0) (m : Exec W A) (f : A → Exec W B)
    → Frame R m
    → ((w : W) → Post Q (m w).0)
    → ((a : A) → Q a → Frame R (f a))
    → Frame R (m >>= f)
Frame-after {W} {A} {B} {R} Q m f k made next = record {
  at = λ w. R.then_may w (m w).1 _ (k.at w) (go (m w).0 (m w).1 (made w));
}
  where
    go : (o : Outcome A) (w : W) → Post Q o → R.May w (continue f o w).1
    go (returned a) w q = (next a q).at w
    go (raised e) w q = R.stay w

-- A key of a namespace, and its lock, begin with the namespace.
key-Away : (key namespace k : String) → Outside key namespace → IsKeyOf namespace k → Away key k
unfolding f_string
key-Away key namespace k out is = subst (Away key) (sym is.is) (out _)

lock-Away :
    (key namespace k : String) → Outside key namespace → IsKeyOf namespace k → Away key (lock_key k)
unfolding f_string
lock-Away key namespace k out is =
    subst (λ (x : String). Away key (String.◌++◌ x ":refreshing")) (sym is.is)
      (subst (Away key) (sym (append_assoc namespace _ ":refreshing")) (out _))

module _ {Parts A Upstream : Type 0} (E : Runtime Parts) (key : String)
    (producer : Exec Upstream (Option A)) (ver : Outside key "ver:") where
  build_key-Leaves :
      (namespace : String) (parts : Parts)
      → Frame (leaves {A = A} {Upstream = Upstream} key) (build_key E namespace parts)
  unfolding build_key
  build_key-Leaves namespace parts = search (frame_rules, version-Leaves key namespace ver)

  read_through-Leaves :
      (namespace : String) (ttl : ℕ) (parts : Parts) (stale_ok : Bool)
      → Outside key namespace
      → Frame (leaves key) (read_through E namespace ttl producer parts stale_ok)
  unfolding read_through
  read_through-Leaves namespace ttl parts stale_ok out =
      Frame-after (IsKeyOf namespace) (build_key E namespace parts) _
        (build_key-Leaves namespace parts)
        (build_key-IsKeyOf E (λ _ _. Unit {0}) (λ _. Unit {0}) namespace parts)
        (λ k is. Frame-bind (cache_get k) _ (get-Leaves key k) (λ found.
          Frame-bind (time E) _ (time-Leaves E key producer) (λ now.
            serve-Leaves E key producer k ttl stale_ok now found (key-Away key namespace k out is)
              (lock-Away key namespace k out is))))

  pub get_or_set-Leaves :
      (namespace bucket : String) (parts : Parts) (stale_ok : Bool)
      → Outside key namespace
      → Frame (leaves key) (get_or_set E namespace bucket producer parts stale_ok)
  unfolding get_or_set
  get_or_set-Leaves namespace bucket parts stale_ok out =
      Frame-if (leb_ℤ (ttl_for E bucket) (pos 0)) _ _ (produce-Leaves E key producer)
        (read_through-Leaves namespace (pos_part (ttl_for E bucket)) parts stale_ok out)

  pub run_refresh-Leaves :
      (namespace k : String) (ttl : ℕ)
      → Outside key namespace
      → IsKeyOf namespace k
      → Frame (leaves key) (run_refresh E producer (record { key = k; ttl = ttl }))
  unfolding run_refresh
  run_refresh-Leaves namespace k ttl out is =
      Frame-bind _ _
        (Frame-catch _ _
          (Frame-bind (fill E k ttl producer) _
            (fill-Leaves E key producer k ttl (key-Away key namespace k out is))
            (λ _. Frame-pure tt))
          (λ _. Frame-pure tt))
        (λ _. unlock-Leaves E key producer k (lock-Away key namespace k out is))
