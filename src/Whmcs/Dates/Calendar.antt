-- ===== src/Whmcs/Dates/Calendar.antt =====
-- What is read is a moment of the calendar.
use Prim.Native.Char.{code}
use whmcstemplate_bridge.Base.{
  one_of, strip, show_int, if◌then◌else◌, parse_digits, nat_eq, Option-cases, Bool-cases, leb,
  Option, returned, ℕ, ◌≤◌, String, ◌≡◌, refl, subst, ◌∙◌, inl, inr, ◌&&◌, none, some, arith,
}
use whmcstemplate_bridge.Json.{Value, null, bool, int, real, str, list, dict}
use whmcstemplate_bridge.Whmcs.Dates.{to_datetime, empty_dates}
use whmcstemplate_bridge.Whmcs.Dates.Formats.{
  DateTime, days_in_month, ◌>>=◌, chars, split_at, split_day, is_dash, is_slash, is_colon,
  read_number, read_day, read_time, calendar, read_moment, read_dashed, read_slashed, read_text,
  day_of,
}

pub record IsCalendar (t : DateTime) : Type 0 where
  pub year_low : 1 ≤ t.year
  pub year_high : t.year ≤ 9999
  pub month_low : 1 ≤ t.month
  pub month_high : t.month ≤ 12
  pub day_low : 1 ≤ t.day
  pub day_high : t.day ≤ days_in_month t.year t.month
  pub hour_high : t.hour ≤ 23
  pub minute_high : t.minute ≤ 59
  pub second_high : t.second ≤ 59

bind-some {ℓ κ} :
    {A : Type ℓ} {B : Type κ} (m : Option A) (f : A → Option B) {b : B}
    → (m >>= f) ≡ some b
    → (a : A) × (m ≡ some a) × (f a ≡ some b)
bind-some none f h = absurd (cc h)
bind-some (some a) f h = (a, refl, h)

read_number-range :
    (fewest most low high : ℕ) (s : String) (n : ℕ)
    → read_number fewest most low high s ≡ some n
    → (low ≤ n) × (n ≤ high)
unfolding read_number
read_number-range fewest most low high s n h =
    let (m, read, kept) =
      bind-some (if leb fewest (chars s) && leb (chars s) most then parse_digits s else none) _ h in
    ground (arith, kept)

read_day-range : (s : String) (n : ℕ) → read_day s ≡ some n → 1 ≤ n
unfolding read_day
read_day-range String.[] n h = absurd (cc h)
read_day-range (String.◌∷◌ c s) n h = elim (Bool-cases (nat_eq (code c) 32)) [
  | inl space ↦ (read_number-range 1 1 1 9 s n (rw space at h)).0
  | inr other ↦ (read_number-range 1 2 1 31 (String.◌∷◌ c s) n (rw other at h)).0
]

calendar-is :
    (t t' : DateTime)
    → calendar t ≡ some t'
    → (t ≡ t') × (1 ≤ t.year) × (t.day ≤ days_in_month t.year t.month) × (t.second ≤ 59)
unfolding calendar
calendar-is t t' h =
    elim (Bool-cases
      (leb 1 t.year && (leb t.day (days_in_month t.year t.month) && leb t.second 59))) [
        | inl good ↦
            (cc (rw good at h), ground (arith, good), ground (arith, good), ground (arith, good))
        | inr bad ↦ absurd (cc (rw bad at h))
      ]

-- the checks of the parts are those of the moment
calendar-IsCalendar :
    (t t' : DateTime)
    → t.year ≤ 9999
    → (1 ≤ t.month) × (t.month ≤ 12)
    → 1 ≤ t.day
    → t.hour ≤ 23
    → t.minute ≤ 59
    → calendar t ≡ some t'
    → IsCalendar t'
calendar-IsCalendar t t' y m d h mi is =
    let (same, year, day, second) = calendar-is t t' is in
    subst IsCalendar same (record {
      year_low = year;
      year_high = y;
      month_low = m.0;
      month_high = m.1;
      day_low = d;
      day_high = day;
      hour_high = h;
      minute_high = mi;
      second_high = second;
    })

read_dashed-IsCalendar : (s : String) (t : DateTime) → read_dashed s ≡ some t → IsCalendar t
unfolding read_dashed
read_dashed-IsCalendar s t h =
    let (ymd, _, h₁) = bind-some (split_at is_dash s) _ h in
    let (md, _, h₂) = bind-some (split_at is_dash ymd.1) _ h₁ in
    let (year, y, h₃) = bind-some (read_number 4 4 0 9999 ymd.0) _ h₂ in
    let (month, m, h₄) = bind-some (read_number 1 2 1 12 md.0) _ h₃ in
    let (day, d, h₅) = bind-some (read_day md.1) _ h₄ in
    calendar-IsCalendar (day_of year month day) t (read_number-range 4 4 0 9999 ymd.0 year y).1
      (read_number-range 1 2 1 12 md.0 month m) (read_day-range md.1 day d) (omega arith)
      (omega arith) h₅

read_slashed-IsCalendar : (s : String) (t : DateTime) → read_slashed s ≡ some t → IsCalendar t
unfolding read_slashed
read_slashed-IsCalendar s t h =
    let (dmy, _, h₁) = bind-some (split_at is_slash s) _ h in
    let (my, _, h₂) = bind-some (split_at is_slash dmy.1) _ h₁ in
    let (day, d, h₃) = bind-some (read_day dmy.0) _ h₂ in
    let (month, m, h₄) = bind-some (read_number 1 2 1 12 my.0) _ h₃ in
    let (year, y, h₅) = bind-some (read_number 4 4 0 9999 my.1) _ h₄ in
    calendar-IsCalendar (day_of year month day) t (read_number-range 4 4 0 9999 my.1 year y).1
      (read_number-range 1 2 1 12 my.0 month m) (read_day-range dmy.0 day d) (omega arith)
      (omega arith) h₅

read_time-range :
    (s : String) (time : ℕ × ℕ × ℕ) → read_time s ≡ some time → (time.0 ≤ 23) × (time.1 ≤ 59)
unfolding read_time
read_time-range s time h =
    let (hms, _, h₁) = bind-some (split_at is_colon s) _ h in
    let (ms, _, h₂) = bind-some (split_at is_colon hms.1) _ h₁ in
    let (hour, a, h₃) = bind-some (read_number 1 2 0 23 hms.0) _ h₂ in
    let (minute, b, h₄) = bind-some (read_number 1 2 0 59 ms.0) _ h₃ in
    let (second, c, h₅) = bind-some (read_number 1 2 0 61 ms.1) _ h₄ in
    let same : (hour, minute, second) ≡ time = cc h₅ in
    subst (λ (x : ℕ × ℕ × ℕ). (x.0 ≤ 23) × (x.1 ≤ 59)) same
      ((read_number-range 1 2 0 23 hms.0 hour a).1, (read_number-range 1 2 0 59 ms.0 minute b).1)

read_moment-IsCalendar : (s : String) (t : DateTime) → read_moment s ≡ some t → IsCalendar t
unfolding read_moment
read_moment-IsCalendar s t h =
    let (ymd, _, h₁) = bind-some (split_at is_dash s) _ h in
    let (md, _, h₂) = bind-some (split_at is_dash ymd.1) _ h₁ in
    let (dt, _, h₃) = bind-some (split_day md.1) _ h₂ in
    let (year, y, h₄) = bind-some (read_number 4 4 0 9999 ymd.0) _ h₃ in
    let (month, m, h₅) = bind-some (read_number 1 2 1 12 md.0) _ h₄ in
    let (day, d, h₆) = bind-some (read_day dt.0) _ h₅ in
    let (time, a, h₇) = bind-some (read_time dt.1) _ h₆ in
    let (hour, minute) = read_time-range dt.1 time a in
    calendar-IsCalendar
      (record {
        year = year;
        month = month;
        day = day;
        hour = time.0;
        minute = time.1;
        second = time.2;
      })
      t (read_number-range 4 4 0 9999 ymd.0 year y).1 (read_number-range 1 2 1 12 md.0 month m)
      (read_day-range dt.0 day d) hour minute h₇

read_text-IsCalendar : (s : String) (t : DateTime) → read_text s ≡ some t → IsCalendar t
unfolding read_text
read_text-IsCalendar s t h = elim (Option-cases (read_moment s)) [
  | inr (a, moment) ↦ read_moment-IsCalendar s t (moment ∙ rw moment at h)
  | inl timeless ↦ elim (Option-cases (read_dashed s)) [
    | inr (a, dashed) ↦ read_dashed-IsCalendar s t (dashed ∙ rw dashed at (rw timeless at h))
    | inl unread ↦ read_slashed-IsCalendar s t (rw unread at (rw timeless at h))
  ]
]

-- What `to_datetime` gives of a value of WHMCS' is a moment of the calendar: a year from 1 to 9999, a
-- month of that year, a day of that month, and a time of that day.
pub to_datetime-IsCalendar :
    (repr : Value → String) (v : Value) (t : DateTime)
    → to_datetime repr v ≡ returned (some t)
    → IsCalendar t
unfolding to_datetime
to_datetime-IsCalendar repr null t h = absurd (cc h)
to_datetime-IsCalendar repr (str s) t h = elim (Bool-cases (one_of s empty_dates)) [
  | inl empty ↦ absurd (cc (rw empty at h))
  | inr other ↦ read_text-IsCalendar (strip s) t (cc (rw other at h))
]
to_datetime-IsCalendar repr (list _) t h = absurd (cc h)
to_datetime-IsCalendar repr (dict _) t h = absurd (cc h)
to_datetime-IsCalendar repr (bool b) t h =
    read_text-IsCalendar (strip (if b then "True" else "False")) t (cc h)
to_datetime-IsCalendar repr (int n) t h = read_text-IsCalendar (strip (show_int n)) t (cc h)
to_datetime-IsCalendar repr (real _ _ text) t h = read_text-IsCalendar (strip text) t (cc h)
