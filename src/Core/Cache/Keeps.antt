-- ===== src/Core/Cache/Keeps.antt =====
-- What every entry of the cache satisfies, kept by every use of it.
use whmcstemplate_bridge.Base.{
  ltb, Bool-cases, All, Allowed, Frame, frame_rules, ℕ, String, ◌≡◌, sym, subst, inl, inr, Option,
  none, some, [], ◌∷◌, ◌==◌, eq_iff,
}
use whmcstemplate_bridge.Core.Cells.{
  Content, number, entry, plain, Cell, Store, Refresh, Cache, one_more, live, put_cell, remove_cell,
  bump_cell, cache_get, cache_set, add_if, cache_add,
}
use whmcstemplate_bridge.Core.Cache.{
  version_of, bump, submit, version_ttl, namespace_version, invalidate, schedule_refresh,
}

module _ {A : Type 0} (May : String → A → Type 0) where
  abbrev pub IsAllowed : String → Content A → Type 0
  IsAllowed key (number n) = Unit
  IsAllowed key (entry v fresh_until) = May key v
  IsAllowed key (plain v) = Unit

  -- Every entry with a deadline may stand under its key.
  abbrev pub AllAllowed : Store A → Type 0
  AllAllowed store = All (λ (c : String × Cell A). IsAllowed c.0 c.1.content) store

  pub put-AllAllowed :
      (key : String) (cell : Cell A) (store : Store A)
      → IsAllowed key cell.content
      → AllAllowed store
      → AllAllowed (put_cell key cell store)
  unfolding put_cell
  put-AllAllowed key cell [] ok all = (ok, tt)
  put-AllAllowed key cell ((k, c) ∷ store) ok all = elim (Bool-cases (k == key)) [
    | inl same ↦
        rw same (subst (λ x. IsAllowed x cell.content) (sym ((eq_iff k key).0 same)) ok, all.1)
    | inr other ↦ rw other (all.0, put-AllAllowed key cell store ok all.1)
  ]

  one_more-IsAllowed : (key : String) (c : Content A) → IsAllowed key c → IsAllowed key (one_more c)
  one_more-IsAllowed key (number n) ok = tt
  one_more-IsAllowed key (entry v f) ok = ok
  one_more-IsAllowed key (plain v) ok = tt

  bump-AllAllowed :
      (key : String) (store : Store A) → AllAllowed store → AllAllowed (bump_cell key store)
  unfolding bump_cell
  bump-AllAllowed key [] all = tt
  bump-AllAllowed key ((k, c) ∷ store) all = elim (Bool-cases (k == key)) [
    | inl same ↦ rw same (one_more-IsAllowed k c.content all.0, all.1)
    | inr other ↦ rw other (all.0, bump-AllAllowed key store all.1)
  ]

  pub remove-AllAllowed :
      (key : String) (store : Store A) → AllAllowed store → AllAllowed (remove_cell key store)
  unfolding remove_cell
  remove-AllAllowed key [] all = tt
  remove-AllAllowed key ((k, c) ∷ store) all = elim (Bool-cases (k == key)) [
    | inl same ↦ rw same (remove-AllAllowed key store all.1)
    | inr other ↦ rw other (all.0, remove-AllAllowed key store all.1)
  ]

  -- what is found may stand there
  pub live-IsAllowed :
      (now : ℕ) (key : String) (store : Store A) (v : A) (f : ℕ)
      → AllAllowed store
      → live now key store ≡ some (entry v f)
      → May key v
  unfolding live
  live-IsAllowed now key [] v f all found = absurd (cc found)
  live-IsAllowed now key ((k, c) ∷ store) v f all found = elim (Bool-cases (k == key)) [
    | inl same ↦ elim (Bool-cases (ltb now c.expires)) [
      | inl alive ↦
          let is : c.content ≡ entry v f = cc (rw same at (rw alive at found)) in
          subst (λ x. May x v) ((eq_iff k key).0 same) (subst (IsAllowed k) is all.0)
      | inr gone ↦ absurd (cc (rw gone at (rw same at found)))
    ]
    | inr other ↦ live-IsAllowed now key store v f all.1 (rw other at found)
  ]

module _ {A Upstream : Type 0} (May : String → A → Type 0) where
  abbrev pub allowed_kept : Allowed (Cache A Upstream)
  allowed_kept = record {
    May = λ w w'. AllAllowed May w.store → AllAllowed May w'.store;
    stay = λ w all. all;
    then_may = λ u v w p q all. q (p all);
  }

  pub get-Kept : (key : String) → Frame allowed_kept (cache_get key)
  unfolding cache_get
  get-Kept key = record { at = λ w all. all }

  number-Kept : (key : String) (n ttl : ℕ) → Frame allowed_kept (cache_set key (number n) ttl)
  unfolding cache_set
  number-Kept key n ttl = record { at = λ w all. put-AllAllowed May key _ w.store tt all }

  version_of-Kept :
      (namespace : String) (c : Option (Content A)) → Frame allowed_kept (version_of namespace c)
  unfolding version_of
  version_of-Kept namespace none = search (frame_rules, number-Kept)
  version_of-Kept namespace (some (number n)) = search frame_rules
  version_of-Kept namespace (some (entry v f)) = search frame_rules
  version_of-Kept namespace (some (plain v)) = search frame_rules

  pub version-Kept : (namespace : String) → Frame allowed_kept (namespace_version namespace)
  unfolding namespace_version
  version-Kept namespace = search (frame_rules, get-Kept, version_of-Kept)

  bump-Kept : (key : String) (c : Option (Content A)) → Frame allowed_kept (bump key c)
  unfolding bump
  bump-Kept key none = record { at = λ w all. (number-Kept key 2 version_ttl).at w all }
  bump-Kept key (some (number n)) = record { at = λ w all. bump-AllAllowed May key w.store all }
  bump-Kept key (some (entry v f)) = record { at = λ w all. all }
  bump-Kept key (some (plain v)) = record { at = λ w all. all }

  pub invalidate-Kept : (namespace : String) → Frame allowed_kept (invalidate namespace)
  unfolding invalidate
  invalidate-Kept namespace = search (frame_rules, get-Kept, bump-Kept)

  submit-Kept : (job : Refresh) → Frame allowed_kept (submit job)
  unfolding submit
  submit-Kept job = record { at = λ w all. all }

  add_if-Kept :
      (key : String) (n ttl : ℕ) (there : Option (Content A))
      → Frame allowed_kept (add_if key (number n) ttl there)
  unfolding add_if
  add_if-Kept key n ttl none = search (frame_rules, number-Kept)
  add_if-Kept key n ttl (some _) = search frame_rules

  pub schedule-Kept : (key : String) (ttl : ℕ) → Frame allowed_kept (schedule_refresh key ttl)
  unfolding schedule_refresh cache_add
  schedule-Kept key ttl = search (frame_rules, get-Kept, add_if-Kept, submit-Kept)
