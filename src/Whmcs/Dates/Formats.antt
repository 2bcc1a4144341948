-- ===== src/Whmcs/Dates/Formats.antt =====
-- `datetime.strptime` for the three formats that `to_datetime` of apps/whmcs/normalizers.py tries.
use Prim.Native.Char.{code}
use Prim.Native.String
use mathlib.Core.Option
use whmcstemplate_bridge.Base.{
  if◌then◌else◌, leb, nat_eq, is_space, lstrip, parse_digits, Option, ℕ, suc, ◌%◌, String, Bool,
  not, ◌&&◌, ◌||◌, none, some,
}

-- a `datetime` without an offset and microseconds
pub record DateTime : Type 0 where
  pub year : ℕ
  pub month : ℕ
  pub day : ℕ
  pub hour : ℕ
  pub minute : ℕ
  pub second : ℕ

-- `calendar.isleap`
abbrev pub is_leap : (year : ℕ) → Bool
is_leap year = nat_eq (year % 4) 0 && (not (nat_eq (year % 100) 0) || nat_eq (year % 400) 0)

abbrev pub days_in_month : (year month : ℕ) → ℕ
days_in_month year month =
    if nat_eq month 2
    then (if is_leap year then 29 else 28)
    else if nat_eq month 4 || (nat_eq month 6 || (nat_eq month 9 || nat_eq month 11))
    then 30
    else 31

infixl 10 ◌>>=◌
abbrev pub ◌>>=◌ {ℓ κ} : {A : Type ℓ} {B : Type κ} → Option A → (A → Option B) → Option B
none >>= f = none
some a >>= f = f a

-- the number of characters
abbrev pub chars : String → ℕ
chars String.[] = 0
chars (String.◌∷◌ c s) = suc (chars s)

abbrev pub put_before : String → String × String → String × String
put_before head (before, after) = (String.◌++◌ head before, after)

-- what stands before the first character that passes, and what stands behind it
unfoldable pub split_at : (ℕ → Bool) → String → Option (String × String)
split_at sep String.[] = none
split_at sep (String.◌∷◌ c s) =
    if sep (code c)
    then some ("", s)
    else Option.map (put_before (String.◌∷◌ c "")) (split_at sep s)

-- a group of so many digits, whose number is in a range
unfoldable pub read_number : (fewest most low high : ℕ) → String → Option ℕ
unfolding parse_digits
read_number fewest most low high s = do
  n ← if leb fewest (chars s) && leb (chars s) most then parse_digits s else none
  if leb low n && leb n high then some n else none

-- the group of `%d`: one digit may follow a space
unfoldable pub read_day : String → Option ℕ
read_day String.[] = none
read_day (String.◌∷◌ c s) =
    if nat_eq (code c) 32 then read_number 1 1 1 9 s else read_number 1 2 1 31 (String.◌∷◌ c s)

-- the group of `%d` before whitespace, and what stands behind the whitespace
unfoldable pub split_day : String → Option (String × String)
split_day String.[] = none
split_day (String.◌∷◌ c s) = do
  (day, rest) ← Option.map (put_before (String.◌∷◌ c "")) (split_at is_space s)
  some (day, lstrip is_space rest)

-- The regular expressions admit the seconds 60 and 61, which `datetime` refuses, and the year 0.
unfoldable pub calendar : DateTime → Option DateTime
calendar t =
    if leb 1 t.year && (leb t.day (days_in_month t.year t.month) && leb t.second 59)
    then some t
    else none

abbrev pub is_dash : ℕ → Bool
is_dash c = nat_eq c b'-'

abbrev pub is_slash : ℕ → Bool
is_slash c = nat_eq c b'/'

abbrev pub is_colon : ℕ → Bool
is_colon c = nat_eq c b':'

-- `%H:%M:%S`
unfoldable pub read_time : String → Option (ℕ × ℕ × ℕ)
read_time s = do
  (h, ms) ← split_at is_colon s
  (m, sec) ← split_at is_colon ms
  hour ← read_number 1 2 0 23 h
  minute ← read_number 1 2 0 59 m
  second ← read_number 1 2 0 61 sec
  some (hour, minute, second)

-- `%Y-%m-%d %H:%M:%S`
unfoldable pub read_moment : String → Option DateTime
read_moment s = do
  (y, md) ← split_at is_dash s
  (m, dt) ← split_at is_dash md
  (d, t) ← split_day dt
  year ← read_number 4 4 0 9999 y
  month ← read_number 1 2 1 12 m
  day ← read_day d
  (hour, minute, second) ← read_time t
  calendar (record {
    year = year;
    month = month;
    day = day;
    hour = hour;
    minute = minute;
    second = second;
  })

-- midnight
abbrev pub day_of : (year month day : ℕ) → DateTime
day_of year month day = record {
  year = year;
  month = month;
  day = day;
  hour = 0;
  minute = 0;
  second = 0;
}

-- `%Y-%m-%d`
unfoldable pub read_dashed : String → Option DateTime
read_dashed s = do
  (y, md) ← split_at is_dash s
  (m, d) ← split_at is_dash md
  year ← read_number 4 4 0 9999 y
  month ← read_number 1 2 1 12 m
  day ← read_day d
  calendar (day_of year month day)

-- `%d/%m/%Y`
unfoldable pub read_slashed : String → Option DateTime
read_slashed s = do
  (d, my) ← split_at is_slash s
  (m, y) ← split_at is_slash my
  day ← read_day d
  month ← read_number 1 2 1 12 m
  year ← read_number 4 4 0 9999 y
  calendar (day_of year month day)

abbrev pub or_else : Option DateTime → Option DateTime → Option DateTime
or_else none t = t
or_else (some t) _ = some t

-- the formats in their order
unfoldable pub read_text : String → Option DateTime
read_text raw = or_else (read_moment raw) (or_else (read_dashed raw) (read_slashed raw))
