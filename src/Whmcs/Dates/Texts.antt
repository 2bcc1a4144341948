-- ===== src/Whmcs/Dates/Texts.antt =====
-- The spellings of a moment, character by character.
use Prim.Native.Char.{Char}
use Prim.Native.String
use whmcstemplate_bridge.Base.{strip, single-append, ℕ, ◌/◌, ◌%◌, ◌≤◌, String, ◌≡◌, ap, ◌∙◌, arith}
use whmcstemplate_bridge.Whmcs.Dates.{pad2, pad4, date_text, time_text}
use whmcstemplate_bridge.Whmcs.Dates.Calendar.{IsCalendar}
use whmcstemplate_bridge.Whmcs.Dates.Ends.{Ends, cons-Ends, two-Ends, two_cons-Ends, strip-two}
use whmcstemplate_bridge.Whmcs.Dates.Formats.{DateTime, days_in_month}
use whmcstemplate_bridge.Whmcs.Dates.Spelled.{two, IsTwo, two_of}

-- the days of a month are at most 31
pub days_in_month_bound : (year month : ℕ) → days_in_month year month ≤ 31
days_in_month_bound year month = ground arith

module _ (t : DateTime) (c : IsCalendar t) where
  pub century : IsTwo (t.year / 100)
  century = two_of (t.year / 100) (omega (arith, c.year_high))

  pub years : IsTwo (t.year % 100)
  years = two_of (t.year % 100) (omega arith)

  pub month : IsTwo t.month
  month = two_of t.month (omega (arith, c.month_high))

  pub day : IsTwo t.day
  day = two_of t.day (omega (arith, c.day_high, days_in_month_bound t.year t.month))

  pub hour : IsTwo t.hour
  hour = two_of t.hour (omega (arith, c.hour_high))

  pub minute : IsTwo t.minute
  minute = two_of t.minute (omega (arith, c.minute_high))

  pub second : IsTwo t.second
  second = two_of t.second (omega (arith, c.second_high))

  unfoldable pub four : String → String
  four s = two century.tens century.ones (two years.tens years.ones s)

  unfoldable pub dashed : String → String
  dashed s =
      four (String.◌∷◌ "-" (two month.tens month.ones (String.◌∷◌ "-" (two day.tens day.ones s))))

  unfoldable pub slashed : String
  slashed =
      two day.tens day.ones (String.◌∷◌ "/" (two month.tens month.ones (String.◌∷◌ "/" (four ""))))

  unfoldable pub seconds : String
  seconds = two second.tens second.ones ""

  unfoldable pub minutes : String
  minutes = two minute.tens minute.ones (String.◌∷◌ ":" seconds)

  unfoldable pub clock : String
  clock = two hour.tens hour.ones (String.◌∷◌ ":" minutes)

  -- a part, its separator and what is behind it
  spelled-then :
      {n : ℕ} (i : IsTwo n) (sep : Char) (rest rest' : String)
      → rest ≡ rest'
      → pad2 n (String.◌++◌ (String.◌∷◌ sep "") rest) ≡ two i.tens i.ones (String.◌∷◌ sep rest')
  spelled-then i sep rest rest' same =
      i.spelled _ ∙ ap (two i.tens i.ones) (single-append sep rest ∙ ap (String.◌∷◌ sep) same)

  pub time_text-is : time_text t ≡ clock
  unfolding time_text clock minutes seconds
  time_text-is = spelled-then hour ":" _ _ (spelled-then minute ":" _ _ (second.spelled ""))

  pub date_text-is : (s : String) → date_text t s ≡ dashed s
  unfolding date_text dashed four
  date_text-is s =
      century.spelled _
      ∙ ap (two century.tens century.ones) (
          years.spelled _
          ∙ ap (two years.tens years.ones) (
              single-append "-" _
              ∙ ap (String.◌∷◌ "-") (spelled-then month "-" _ _ (day.spelled s))))

  pub slashed_text-is :
      pad2 t.day (String.◌++◌ "/" (pad2 t.month (String.◌++◌ "/" (pad4 t.year "")))) ≡ slashed
  unfolding slashed four
  slashed_text-is = spelled-then day "/" _ _ (
      spelled-then month "/" _ _
        (century.spelled _ ∙ ap (two century.tens century.ones) (years.spelled "")))

  pub slashed-strip : strip slashed ≡ slashed
  unfolding slashed four
  slashed-strip = strip-two day _ (
      two_cons-Ends day _ (
        cons-Ends "/" _ (
          two_cons-Ends month _
            (cons-Ends "/" _ (two_cons-Ends century _ (two-Ends (t.year % 100) years))))))

  clock-Ends : Ends clock
  unfolding clock minutes seconds
  clock-Ends =
      two_cons-Ends hour _
        (cons-Ends ":" _ (two_cons-Ends minute _ (cons-Ends ":" _ (two-Ends t.second second))))

  pub dashed-strip : (s : String) → Ends (two day.tens day.ones s) → strip (dashed s) ≡ dashed s
  unfolding dashed four
  dashed-strip s e = strip-two century _ (
      two_cons-Ends century _
        (two_cons-Ends years _ (cons-Ends "-" _ (two_cons-Ends month _ (cons-Ends "-" _ e)))))

  pub moment-strip : strip (dashed (String.◌∷◌ " " clock)) ≡ dashed (String.◌∷◌ " " clock)
  moment-strip = dashed-strip _ (two_cons-Ends day _ (cons-Ends " " _ clock-Ends))

  pub moment-is : date_text t (String.◌++◌ " " (time_text t)) ≡ dashed (String.◌∷◌ " " clock)
  moment-is =
      date_text-is _
      ∙ ap dashed (single-append " " (time_text t) ∙ ap (String.◌∷◌ " ") time_text-is)
