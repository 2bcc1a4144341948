-- ===== src/Core/Cache/Refreshes.antt =====
-- The background refreshes: one at a time for a key, and its lock goes when it ends.
use whmcstemplate_bridge.Base.{
  ltb, if◌then◌else◌, Option-cases, Outcome, returned, raised, Exec, pure, recover, continue, ℕ,
  ◌+◌, ◌<◌, String, ◌≡◌, refl, ◌∙◌, inl, inr, true, Option, none, some, ◌∷◌, arith,
}
use whmcstemplate_bridge.Core.Cells.{
  add_if, Content, number, Refresh, Cache, live, put_cell, cache_get, cache_set, cache_add,
}
use whmcstemplate_bridge.Core.Cells.Laws.{live-put_cell, live-remove_cell}
use whmcstemplate_bridge.Core.Cache.{
  submit, unlock, lock_key, schedule_refresh, Runtime, fill, run_refresh,
}

alive : (now ttl : ℕ) → 0 < ttl → ltb now (now + (if ltb 60 ttl then 60 else ttl)) ≡ true
alive now ttl h = ground arith

module _ {A Upstream : Type 0} where
  locked-schedule :
      (key : String) (ttl : ℕ) (w : Cache A Upstream) (c : Content A)
      → live w.clock (lock_key key) w.store ≡ some c
      → schedule_refresh key ttl w ≡ (returned tt, w)
  unfolding schedule_refresh cache_add cache_get add_if
  locked-schedule key ttl w c h = rw h refl

  -- the lock as `cache.add` leaves it
  abbrev locked_world : String → ℕ → Cache A Upstream → Cache A Upstream
  locked_world key ttl w = record w {
    store =
        put_cell (lock_key key)
          (record { content = number 1; expires = w.clock + (if ltb 60 ttl then 60 else ttl) })
          w.store;
    refreshes = record { key = key; ttl = ttl } ∷ w.refreshes;
  }

  free-schedule :
      (key : String) (ttl : ℕ) (w : Cache A Upstream)
      → live w.clock (lock_key key) w.store ≡ none
      → schedule_refresh key ttl w ≡ (returned tt, locked_world key ttl w)
  unfolding schedule_refresh cache_add cache_get add_if cache_set submit
  free-schedule key ttl w h = rw h refl

  locked_world-live :
      (key : String) (ttl : ℕ) (w : Cache A Upstream)
      → 0 < ttl
      → live w.clock (lock_key key) (locked_world key ttl w).store ≡ some (number 1)
  locked_world-live key ttl w h =
      live-put_cell w.clock (lock_key key) _ w.store ∙ rw (alive w.clock ttl h) refl

  again :
      (key : String) (ttl : ℕ) (r : Outcome (Unit {0}) × Cache A Upstream) (w : Cache A Upstream)
      (c : Content A)
      → r ≡ (returned tt, w)
      → live w.clock (lock_key key) w.store ≡ some c
      → schedule_refresh key ttl r.1 ≡ (returned tt, r.1)
  again key ttl r w c e h = rw e (locked-schedule key ttl w c h)

  -- Once a refresh of a key is scheduled, the next reader schedules none, and changes nothing.
  pub schedule_refresh-once :
      (key : String) (ttl : ℕ) (w : Cache A Upstream)
      → 0 < ttl
      → schedule_refresh key ttl (schedule_refresh key ttl w).1
        ≡ (returned tt, (schedule_refresh key ttl w).1)
  schedule_refresh-once key ttl w h = elim (Option-cases (live w.clock (lock_key key) w.store)) [
    | inl free ↦
        again key ttl _ (locked_world key ttl w) (number 1) (free-schedule key ttl w free)
          (locked_world-live key ttl w h)
    | inr (c, locked) ↦ again key ttl _ w c (locked-schedule key ttl w c locked) locked
  ]

module _ {Parts A Upstream : Type 0} (E : Runtime Parts) where
  -- A refresh never raises, whatever its producer does, and leaves the key without a lock.
  pub run_refresh-unlocks :
      (producer : Exec Upstream (Option A)) (job : Refresh) (w : Cache A Upstream) (now : ℕ)
      → ((run_refresh E producer job w).0 ≡ returned tt)
        × (live now (lock_key job.key) (run_refresh E producer job w).1.store ≡ none)
  unfolding run_refresh unlock
  run_refresh-unlocks producer job w now =
      go (fill E job.key job.ttl producer w).0 (fill E job.key job.ttl producer w).1
    where
      go :
          (o : Outcome (Option A)) (w' : Cache A Upstream)
          → ((continue
                (λ _. unlock E job.key)
                (recover
                  (λ _. pure tt)
                  (continue (λ _. pure tt) o w').0
                  (continue (λ _. pure tt) o w').1).0
                (recover
                  (λ _. pure tt)
                  (continue (λ _. pure tt) o w').0
                  (continue (λ _. pure tt) o w').1).1).0
              ≡ returned tt)
            × (live now
                  (lock_key job.key)
                  (continue
                    (λ _. unlock E job.key)
                    (recover
                      (λ _. pure tt)
                      (continue (λ _. pure tt) o w').0
                      (continue (λ _. pure tt) o w').1).0
                    (recover
                      (λ _. pure tt)
                      (continue (λ _. pure tt) o w').0
                      (continue (λ _. pure tt) o w').1).1).1.store
                ≡ none)
      go (returned a) w' = (refl, live-remove_cell now (lock_key job.key) w'.store)
      go (raised e) w' = (refl, live-remove_cell now (lock_key job.key) w'.store)
