-- ===== src/Whmcs/Dates/Read.antt =====
-- The spellings of a moment are read as the moment.
use Prim.Native.Char.{Char, code}
use whmcstemplate_bridge.Base.{
  nat_eq, leb, is_space, lstrip, single-append, ℕ, ◌/◌, ◌%◌, ◌≤◌, String, ◌≡◌, refl, ap, Bool, true,
  false, none, some, arith,
}
use whmcstemplate_bridge.Whmcs.Dates.Calendar.{IsCalendar}
use whmcstemplate_bridge.Whmcs.Dates.Formats.{
  DateTime, split_at, split_day, is_dash, is_slash, is_colon, read_number, read_day, read_time,
  calendar, read_moment, read_dashed, read_slashed, read_text, day_of,
}
use whmcstemplate_bridge.Whmcs.Dates.Texts.{
  days_in_month_bound, century, years, month, day, hour, minute, second, four, dashed, slashed,
  clock, minutes, seconds,
}
use whmcstemplate_bridge.Whmcs.Dates.Spelled.{
  two, IsTwo, split-here, split-digit, split-two, split-two_here, split-none, split-two-none,
  split-empty, read_number-two, read_number-four,
}

not_dash : (c : ℕ) → 48 ≤ c → c ≤ 57 → is_dash c ≡ false
not_dash c low high = ground arith

not_slash : (c : ℕ) → 48 ≤ c → c ≤ 57 → is_slash c ≡ false
not_slash c low high = ground arith

not_colon : (c : ℕ) → 48 ≤ c → c ≤ 57 → is_colon c ≡ false
not_colon c low high = ground arith

not_space : (c : ℕ) → 48 ≤ c → c ≤ 57 → is_space c ≡ false
not_space c low high = ground arith

read_day-two : (n : ℕ) (t : IsTwo n) → 1 ≤ n → n ≤ 31 → read_day (two t.tens t.ones "") ≡ some n
unfolding read_day
read_day-two n t low high =
    let digit : nat_eq (code t.tens) 32 ≡ false = ground (arith, t.is_tens.value) in
    rw digit (read_number-two n 1 31 t low high)

leb_of : {a b : ℕ} → a ≤ b → leb a b ≡ true
leb_of h = ground arith

module _ (t : DateTime) (c : IsCalendar t) where
  read_time-clock : read_time (clock t c) ≡ some (t.hour, t.minute, t.second)
  unfolding read_time clock minutes seconds
  read_time-clock =
      rw
        (
          split-two_here is_colon not_colon t.hour (hour t c) ":" (minutes t c) refl,
          split-two_here is_colon not_colon t.minute (minute t c) ":" (seconds t c) refl,
          read_number-two t.hour 0 23 (hour t c) (omega arith) c.hour_high,
          read_number-two t.minute 0 59 (minute t c) (omega arith) c.minute_high,
          read_number-two t.second 0 61 (second t c) (omega arith) (omega (arith, c.second_high)),
        )
        refl

  abbrev months : String → String
  months s =
      two (month t c).tens (month t c).ones (String.◌∷◌ "-" (two (day t c).tens (day t c).ones s))

  split-year :
      (p : ℕ → Bool) (other : (k : ℕ) → 48 ≤ k → k ≤ 57 → p k ≡ false) (d : Char) (s : String)
      → p (code d) ≡ true
      → split_at p (four t c (String.◌∷◌ d s)) ≡ some (four t c "", s)
  unfolding four
  split-year p other d s here =
      split-two p other (t.year / 100) (century t c)
        (two (years t c).tens (years t c).ones (String.◌∷◌ d s))
        (two (years t c).tens (years t c).ones "") s
        (split-two_here p other (t.year % 100) (years t c) d s here)

  read-year : read_number 4 4 0 9999 (four t c "") ≡ some t.year
  unfolding four
  read-year = read_number-four t.year (century t c) (years t c) c.year_high

  calendar-itself : (u : DateTime) → IsCalendar u → calendar u ≡ some u
  unfolding calendar
  calendar-itself u i =
      rw (leb_of i.year_low) (rw (leb_of i.day_high) (rw (leb_of i.second_high) refl))

  abbrev pub midnight : DateTime
  midnight = day_of t.year t.month t.day

  read-day : read_day (two (day t c).tens (day t c).ones "") ≡ some t.day
  read-day =
      read_day-two t.day (day t c) c.day_low
        (omega (arith, c.day_high, days_in_month_bound t.year t.month))

  read-month : read_number 1 2 1 12 (two (month t c).tens (month t c).ones "") ≡ some t.month
  read-month = read_number-two t.month 1 12 (month t c) c.month_low c.month_high

  midnight-IsCalendar : IsCalendar midnight
  midnight-IsCalendar = record {
    year_low = c.year_low;
    year_high = c.year_high;
    month_low = c.month_low;
    month_high = c.month_high;
    day_low = c.day_low;
    day_high = c.day_high;
    hour_high = omega arith;
    minute_high = omega arith;
    second_high = omega arith;
  }

  read_dashed-dashed : read_dashed (dashed t c "") ≡ some midnight
  unfolding read_dashed dashed
  read_dashed-dashed =
      rw
        (
          split-year is_dash not_dash "-" (months "") refl,
          split-two_here is_dash not_dash t.month (month t c) "-"
              (two (day t c).tens (day t c).ones "") refl,
          read-year,
          read-month,
          read-day,
        )
        (calendar-itself midnight midnight-IsCalendar)

  read_slashed-slashed : read_slashed (slashed t c) ≡ some midnight
  unfolding read_slashed slashed
  read_slashed-slashed =
      let year : String = four t c "" in
      rw
        (
          split-two_here is_slash not_slash t.day (day t c) "/"
              (two (month t c).tens (month t c).ones (String.◌∷◌ "/" year)) refl,
          split-two_here is_slash not_slash t.month (month t c) "/" year refl,
          read-day,
          read-month,
          read-year,
        )
        (calendar-itself midnight midnight-IsCalendar)

  split_day-none : split_day (two (day t c).tens (day t c).ones "") ≡ none
  unfolding split_day split_at
  split_day-none =
      rw
        (not_space (code (day t c).ones) (omega (arith, (day t c).is_ones.value))
          (omega (arith, (day t c).is_ones.value, (day t c).is_ones.small)))
        refl

  lstrip-clock : lstrip is_space (clock t c) ≡ (clock t c)
  unfolding clock lstrip
  lstrip-clock =
      let i = (hour t c).is_tens in
      rw
        (not_space (code (hour t c).tens) (omega (arith, i.value))
          (omega (arith, i.value, i.small)))
        refl

  split_day-clock :
      split_day (two (day t c).tens (day t c).ones (String.◌∷◌ " " (clock t c)))
      ≡ some (two (day t c).tens (day t c).ones "", (clock t c))
  unfolding split_day
  split_day-clock =
      rw
        (split-digit is_space not_space (t.day % 10) (day t c).ones (String.◌∷◌ " " (clock t c)) ""
          (clock t c) (day t c).is_ones (split-here is_space " " (clock t c) refl))
        (rw lstrip-clock (
          ap (λ k. some (k, (clock t c)))
            (single-append (day t c).tens (String.◌∷◌ (day t c).ones ""))))

  read_moment-dashed : read_moment (dashed t c "") ≡ none
  unfolding read_moment dashed
  read_moment-dashed =
      rw
        (
          split-year is_dash not_dash "-" (months "") refl,
          split-two_here is_dash not_dash t.month (month t c) "-"
              (two (day t c).tens (day t c).ones "") refl,
          split_day-none,
        )
        refl

  read_moment-moment : read_moment (dashed t c (String.◌∷◌ " " (clock t c))) ≡ some t
  unfolding read_moment dashed
  read_moment-moment =
      let rest : String = String.◌∷◌ " " (clock t c) in
      rw
        (
          split-year is_dash not_dash "-" (months rest) refl,
          split-two_here is_dash not_dash t.month (month t c) "-"
              (two (day t c).tens (day t c).ones rest) refl,
          split_day-clock,
          read-year,
          read-month,
          read-day,
          read_time-clock,
        )
        (calendar-itself t c)

  pub read_text-dashed : read_text (dashed t c "") ≡ some midnight
  unfolding read_text
  read_text-dashed = rw (read_moment-dashed, read_dashed-dashed) refl

  pub read_text-moment : read_text (dashed t c (String.◌∷◌ " " (clock t c))) ≡ some t
  unfolding read_text
  read_text-moment = rw read_moment-moment refl

  -- no dash stands in a date with slashes
  split-slashed : split_at is_dash (slashed t c) ≡ none
  unfolding slashed four
  split-slashed =
      let empty : split_at is_dash "" ≡ none = split-empty is_dash in
      split-two-none is_dash not_dash t.day (day t c) _ (
        split-none is_dash "/" _ refl (
          split-two-none is_dash not_dash t.month (month t c) _ (
            split-none is_dash "/" _ refl (
              split-two-none is_dash not_dash (t.year / 100) (century t c) _
                (split-two-none is_dash not_dash (t.year % 100) (years t c) "" empty)))))

  pub read_text-slashed : read_text (slashed t c) ≡ some midnight
  unfolding read_text read_moment read_dashed
  read_text-slashed = rw (split-slashed, read_slashed-slashed) refl
