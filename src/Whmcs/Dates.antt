-- ===== src/Whmcs/Dates.antt =====
-- The dates of apps/whmcs/normalizers.py: `to_datetime`, `to_date`, `iso` and `iso_date`.
pub mod Formats
pub mod Spelled
pub mod Ends
pub mod Texts
pub mod Read
pub mod Calendar
pub mod Again
mod Tests
use Prim.Native.Char.{code}
use Prim.Native.String
use mathlib.Core.Option
use whmcstemplate_bridge.Base.{
  if◌then◌else◌, leb, nat_eq, f_string, is_space, lstrip, one_of, parse_digits, show, strip, Option,
  List, runtime, Outcome, returned, raised, ℕ, zero, suc, ◌+◌, ◌*◌, ◌/◌, ◌%◌, String, Bool, not,
  ◌&&◌, ◌||◌, none, some, [], ◌∷◌, refl, ◌≡◌,
}
use whmcstemplate_bridge.Json.{Value, null, str, list, dict, str_of}
use whmcstemplate_bridge.Whmcs.Normalizers.{Dates}
use whmcstemplate_bridge.Whmcs.Dates.Formats.{
  DateTime, read_text, read_moment, read_dashed, read_slashed, read_day, read_time, split_day,
  split_at, read_number, calendar,
}

abbrev pub empty_dates : List String
empty_dates = "" ∷ "0000-00-00" ∷ "0000-00-00 00:00:00" ∷ []

-- the two and four digits of a number
abbrev pub pad2 : ℕ → String → String
pad2 n rest = String.◌++◌ (show (n / 10)) (String.◌++◌ (show (n % 10)) rest)

abbrev pub pad4 : ℕ → String → String
pad4 n rest = pad2 (n / 100) (pad2 (n % 100) rest)

-- `date.isoformat()`, before what follows it
unfoldable pub date_text : DateTime → String → String
date_text t rest = pad4 t.year (String.◌++◌ "-" (pad2 t.month (String.◌++◌ "-" (pad2 t.day rest))))

-- `%H:%M:%S`
unfoldable pub time_text : DateTime → String
time_text t = pad2 t.hour (String.◌++◌ ":" (pad2 t.minute (String.◌++◌ ":" (pad2 t.second ""))))

abbrev pub text_or_null : Option String → Value
text_or_null none = null
text_or_null (some s) = str s

-- what is converted, as a text
abbrev pub shown_as : (DateTime → String) → Outcome (Option DateTime) → Outcome Value
shown_as text (returned found) = returned (text_or_null (Option.map text found))
shown_as text (raised e) = raised e

module _ (repr : Value → String) where
  -- A list or a dict cannot be looked for in a set.
  unfoldable pub to_datetime : Value → Outcome (Option DateTime)
  unfolding read_text strip str_of
  to_datetime null = returned none
  to_datetime (str s) = returned (if one_of s empty_dates then none else read_text (strip s))
  to_datetime (list _) = raised (runtime "TypeError")
  to_datetime (dict _) = raised (runtime "TypeError")
  to_datetime value = returned (read_text (strip (str_of repr value)))

  shown : (DateTime → String) → Value → Outcome Value
  unfolding to_datetime
  shown text value = shown_as text (to_datetime value)

  unfoldable pub iso : Value → Outcome Value
  unfolding shown date_text time_text
  iso = shown (λ t. date_text t (String.◌++◌ "T" (time_text t)))

  unfoldable pub iso_date : Value → Outcome Value
  unfolding shown date_text
  iso_date = shown (λ t. date_text t "")

  abbrev value_or_null : Outcome Value → Value
  value_or_null (returned v) = v
  value_or_null (raised e) = null

  -- The converters of the services' mappings: a list or a dict, for which they would raise, gives
  -- nothing here.
  unfoldable pub dates : Dates
  unfolding iso iso_date
  dates = record { iso = λ v. value_or_null (iso v); iso_date = λ v. value_or_null (iso_date v) }
