-- ===== src/Core/Aggregate/Slots.antt =====
-- What `gather` may return, by what its tasks do.
use whmcstemplate_bridge.Base.{
  Bool-cases, All, Outcome, returned, raised, Exec, String, ◌≡◌, refl, ap, ◌∙◌, inl, inr, Bool,
  true, false, Option, none, some, List, [], ◌∷◌, ◌==◌,
}
use whmcstemplate_bridge.Json.{Value}
use whmcstemplate_bridge.Core.Cache.Isolated.{Post}
use whmcstemplate_bridge.Core.Aggregate.{
  Sections, put_section, taken, from_keys, run_named, run_scheduled, gather,
}

abbrev pub names : Sections → List String
names [] = []
names ((name, o) ∷ sections) = name ∷ names sections

module _ {W : Type 0} (Keeps : W → Type 0) (Made : Value → Type 0) where
  -- a section is None, or a value that a task makes
  abbrev pub IsSlot : String × Option Value → Type 0
  IsSlot (name, none) = Unit
  IsSlot (name, some v) = Made v

  -- A task keeps what holds of the state, and makes such values.
  abbrev pub IsTask : String × Exec W Value → Type 0
  IsTask (name, task) = (w : W) → Keeps w → Keeps (task w).1 × Post Made (task w).0

  -- the sections have these names, and each is a slot
  abbrev pub AreSlots : List String → Sections → Type 0
  AreSlots keys sections = (names sections ≡ keys) × All IsSlot sections

  put-AreSlots :
      (name : String) (v : Value) (sections : Sections)
      → Made v
      → All IsSlot sections
      → AreSlots (names sections) (put_section name v sections)
  unfolding put_section
  put-AreSlots name v [] made all = (refl, tt)
  put-AreSlots name v ((k, o) ∷ sections) made all =
      let (same, rest) = put-AreSlots name v sections made all.1 in
      elim (Bool-cases (k == name)) [
        | inl here ↦ rw here (ap (λ ns. k ∷ ns) same, (made, rest))
        | inr there ↦ rw there (ap (λ ns. k ∷ ns) same, (all.0, rest))
      ]

  taken-AreSlots :
      (name : String) (in_time : Bool) (o : Outcome Value) (sections : Sections)
      → Post Made o
      → All IsSlot sections
      → AreSlots (names sections) (taken name in_time o sections)
  unfolding taken
  taken-AreSlots name true (returned v) sections made all = put-AreSlots name v sections made all
  taken-AreSlots name true (raised e) sections made all = (refl, all)
  taken-AreSlots name false o sections made all = (refl, all)

  run_named-AreSlots :
      (name : String) (in_time : Bool) (tasks : List (String × Exec W Value)) (sections : Sections)
      (w : W)
      → All IsTask tasks
      → Keeps w
      → All IsSlot sections
      → AreSlots (names sections) (run_named name in_time tasks sections w).0
        × Keeps (run_named name in_time tasks sections w).1
  unfolding run_named
  run_named-AreSlots name in_time [] sections w good kept all = ((refl, all), kept)
  run_named-AreSlots name in_time ((k, task) ∷ tasks) sections w good kept all =
      elim (Bool-cases (k == name)) [
        | inl here ↦ rw here (
            let (kept', made) = good.0 w kept in
            (taken-AreSlots name in_time (task w).0 sections made all, kept'))
        | inr there ↦ rw there (run_named-AreSlots name in_time tasks sections w good.1 kept all)
      ]

  run_scheduled-AreSlots :
      (tasks : List (String × Exec W Value)) (schedule : List (String × Bool)) (sections : Sections)
      (w : W)
      → All IsTask tasks
      → Keeps w
      → All IsSlot sections
      → AreSlots (names sections) (run_scheduled tasks schedule sections w).0
  unfolding run_scheduled
  run_scheduled-AreSlots tasks [] sections w good kept all = (refl, all)
  run_scheduled-AreSlots tasks ((name, in_time) ∷ schedule) sections w good kept all =
      let ((same, all'), kept') = run_named-AreSlots name in_time tasks sections w good kept all in
      let (same', all'') =
        run_scheduled-AreSlots tasks schedule (run_named name in_time tasks sections w).0
          (run_named name in_time tasks sections w).1 good kept' all' in
      (same' ∙ same, all'')

  from_keys-AreSlots : (tasks : List (String × Exec W Value)) → All IsSlot (from_keys tasks)
  unfolding from_keys
  from_keys-AreSlots [] = tt
  from_keys-AreSlots ((name, task) ∷ tasks) = (tt, from_keys-AreSlots tasks)

  -- It never raises, whatever the tasks raise and whenever they end, and has a slot for each task.
  pub gather-AreSlots :
      (tasks : List (String × Exec W Value)) (schedule : List (String × Bool)) (w : W)
      → All IsTask tasks
      → Keeps w
      → (sections : Sections) × ((gather tasks schedule w).0 ≡ returned sections)
        × AreSlots (names (from_keys tasks)) sections
  unfolding gather
  gather-AreSlots tasks schedule w good kept = (
    (run_scheduled tasks schedule (from_keys tasks) w).0,
    refl,
    run_scheduled-AreSlots tasks schedule (from_keys tasks) w good kept (from_keys-AreSlots tasks),
  )
