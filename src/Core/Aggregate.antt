-- ===== src/Core/Aggregate.antt =====
-- `gather` of apps/core/aggregate.py, without its log lines. The threads are taken one after the other,
-- in the order in which they end: `schedule` names the tasks in that order, each with whether it ended
-- before the timeout.
pub mod Slots
use whmcstemplate_bridge.Base.{
  if◌then◌else◌, Outcome, returned, Exec, String, Bool, true, Option, none, some, List, [], ◌∷◌,
  ◌==◌,
}
use whmcstemplate_bridge.Json.{Value}

-- `results`: each name with its value, or None
abbrev pub Sections : Type 0
Sections = List (String × Option Value)

-- `results[name] = value`, for a name that is there
unfoldable pub put_section : String → Value → Sections → Sections
put_section name v [] = []
put_section name v ((k, o) ∷ sections) =
    let rest = put_section name v sections in
    if k == name then (k, some v) ∷ rest else (k, o) ∷ rest

-- `results[name]`
unfoldable pub section : String → Sections → Option Value
section name [] = none
section name ((k, o) ∷ sections) = if k == name then o else section name sections

-- the result of a future, which is taken only in time, and not of a task that raised
unfoldable pub taken : (name : String) → (in_time : Bool) → Outcome Value → Sections → Sections
unfolding put_section
taken name true (returned v) sections = put_section name v sections
taken name _ _ sections = sections

module _ {W : Type 0} where
  -- `dict.fromkeys(tasks)`
  unfoldable pub from_keys : List (String × Exec W Value) → Sections
  from_keys [] = []
  from_keys ((name, task) ∷ tasks) = (name, none) ∷ from_keys tasks

  unfoldable pub run_named :
      (name : String)
      → (in_time : Bool) → List (String × Exec W Value)
      → Sections
      → W
      → Sections × W
  unfolding taken
  run_named name in_time [] sections w = (sections, w)
  run_named name in_time ((k, task) ∷ tasks) sections w =
      let rest = run_named name in_time tasks sections w in
      let (o, w') = task w in if k == name then (taken name in_time o sections, w') else rest

  unfoldable pub run_scheduled :
      List (String × Exec W Value) → (schedule : List (String × Bool)) → Sections → W → Sections × W
  unfolding run_named
  run_scheduled tasks [] sections w = (sections, w)
  run_scheduled tasks ((name, in_time) ∷ schedule) sections w =
      let (sections', w') = run_named name in_time tasks sections w in
      run_scheduled tasks schedule sections' w'

  -- Run each callable and return its value by its name.
  unfoldable pub gather :
      List (String × Exec W Value) → (schedule : List (String × Bool)) → Exec W Sections
  unfolding run_scheduled from_keys
  gather tasks schedule w =
      let (sections, w') = run_scheduled tasks schedule (from_keys tasks) w in
      (returned sections, w')
