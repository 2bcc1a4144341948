-- ===== src/Whmcs/Dates/Again.antt =====
-- The texts of a moment, read again by `to_datetime` of apps/whmcs/normalizers.py.
use Prim.Native.String
use whmcstemplate_bridge.Base.{
  Bool-cases, strip, one_of, Option, Outcome, returned, raised, String, ◌≡◌, refl, ap, subst, ◌∙◌,
  false, none, some, inl, inr, ◌==◌, eq_iff,
}
use whmcstemplate_bridge.Json.{Value, str}
use whmcstemplate_bridge.Whmcs.Dates.{
  empty_dates, pad2, pad4, date_text, time_text, to_datetime, shown_as, shown, iso_date,
}
use whmcstemplate_bridge.Whmcs.Dates.Calendar.{IsCalendar, to_datetime-IsCalendar}
use whmcstemplate_bridge.Whmcs.Dates.Formats.{
  DateTime, split_at, split_day, read_moment, read_dashed, read_slashed, read_number, read_text,
  day_of,
}
use whmcstemplate_bridge.Whmcs.Dates.Ends.{two-Ends}
use whmcstemplate_bridge.Whmcs.Dates.Read.{read_text-dashed, read_text-moment, read_text-slashed}
use whmcstemplate_bridge.Whmcs.Dates.Texts.{
  day, slashed_text-is, date_text-is, slashed-strip, dashed-strip, moment-strip, moment-is,
}

-- the day as `%d/%m/%Y` has it
abbrev pub slashed_text : DateTime → String
slashed_text t = pad2 t.day (String.◌++◌ "/" (pad2 t.month (String.◌++◌ "/" (pad4 t.year ""))))

-- what is read is none of the empty dates
read-none :
    (s m : String) (t : DateTime) → read_text s ≡ some t → read_text m ≡ none → (s == m) ≡ false
read-none s m t read unread = elim (Bool-cases (s == m)) [
  | inl same ↦ absurd (cc (read, unread, (eq_iff s m).0 same))
  | inr other ↦ other
]

one_of-read : (s : String) (t : DateTime) → read_text s ≡ some t → one_of s empty_dates ≡ false
unfolding read_text read_moment read_dashed read_slashed split_at split_day read_number
one_of-read s t read =
    rw
      (
        read-none s "" t read refl,
        read-none s "0000-00-00" t read refl,
        read-none s "0000-00-00 00:00:00" t read refl,
      )
      refl

to_datetime-text :
    (repr : Value → String) (s : String) (t : DateTime)
    → strip s ≡ s
    → read_text s ≡ some t
    → to_datetime repr (str s) ≡ returned (some t)
unfolding to_datetime
to_datetime-text repr s t bare read = rw (one_of-read s t read, bare, read) refl

-- `to_datetime` reads what spells a moment: of a moment of the calendar, the text
-- `%Y-%m-%d %H:%M:%S` gives the moment, and `%Y-%m-%d` and `%d/%m/%Y` give the midnight of its day.
pub to_datetime-reads :
    (repr : Value → String) (t : DateTime)
    → IsCalendar t
    → (to_datetime repr (str (date_text t (String.◌++◌ " " (time_text t)))) ≡ returned (some t))
      × (to_datetime repr (str (date_text t "")) ≡ returned (some (day_of t.year t.month t.day)))
      × (to_datetime repr (str (slashed_text t)) ≡ returned (some (day_of t.year t.month t.day)))
to_datetime-reads repr t c = (
  rw (moment-is t c) (to_datetime-text repr _ t (moment-strip t c) (read_text-moment t c)),
  rw (date_text-is t c "") (
      to_datetime-text repr _ _ (dashed-strip t c "" (two-Ends t.day (day t c)))
        (read_text-dashed t c)),
  rw (slashed_text-is t c) (to_datetime-text repr _ _ (slashed-strip t c) (read_text-slashed t c)),
)

date_text-midnight : (t : DateTime) → date_text (day_of t.year t.month t.day) "" ≡ date_text t ""
unfolding date_text
date_text-midnight t = refl

iso_date-some :
    (repr : Value → String) (v : Value) (t : DateTime)
    → to_datetime repr v ≡ returned (some t)
    → iso_date repr v ≡ returned (str (date_text t ""))
unfolding iso_date shown
iso_date-some repr v t read = rw read refl

-- what was read where a date is written
written :
    (o : Outcome (Option DateTime)) (s : String)
    → shown_as (λ t. date_text t "") o ≡ returned (str s)
    → (t : DateTime) × (o ≡ returned (some t)) × (date_text t "" ≡ s)
written (returned none) s h = absurd (cc h)
written (returned (some t)) s h = (t, refl, cc h)
written (raised e) s h = absurd (cc h)

-- A date that was written is read back as it was written: `iso_date` of a text that `iso_date` gave is
-- that text, whatever the value was.
pub iso_date-again :
    (repr : Value → String) (v : Value) (s : String)
    → iso_date repr v ≡ returned (str s)
    → iso_date repr (str s) ≡ returned (str s)
unfolding iso_date shown
iso_date-again repr v s h =
    let (t, read, is) = written (to_datetime repr v) s h in
    let c = to_datetime-IsCalendar repr v t read in
    let again = (to_datetime-reads repr t c).1 in
    subst (λ s. iso_date repr (str s) ≡ returned (str s)) is
      (iso_date-some repr (str (date_text t "")) (day_of t.year t.month t.day) again
        ∙ ap (λ (s : String). returned (str s)) (date_text-midnight t))
