-- ===== src/Whmcs/Dates/Tests.antt =====
-- The dates of Whmcs/Dates on concrete texts.
use Prim.Native.String
use whmcstemplate_bridge.Base.{lstrip, show, returned, String, ◌≡◌, refl, some, arith}
use whmcstemplate_bridge.Json.{Value, null, str}
use whmcstemplate_bridge.Whmcs.Dates.{date_text, time_text, to_datetime, iso, iso_date}
use whmcstemplate_bridge.Whmcs.Dates.Again.{slashed_text, to_datetime-reads}
use whmcstemplate_bridge.Whmcs.Dates.Calendar.{IsCalendar}
use whmcstemplate_bridge.Whmcs.Dates.Formats.{
  DateTime, split_at, split_day, read_number, read_day, read_time, calendar, read_moment,
  read_dashed, read_slashed, day_of,
}

abbrev no_repr : Value → String
no_repr _ = ""

date_tests :
    (iso_date no_repr (str " 2024-02-29 ") ≡ returned (str "2024-02-29"))
    × (iso_date no_repr (str "2023-02-29") ≡ returned null)
    × (iso_date no_repr (str "5/1/2024") ≡ returned (str "2024-01-05"))
    × (iso no_repr (str "2024-01- 5  7:08:09") ≡ returned (str "2024-01-05T07:08:09"))
    × (iso no_repr (str "2024-01-05 07:08:60") ≡ returned null)
    × (iso no_repr (str "0000-00-00 00:00:00") ≡ returned null)
unfolding iso iso_date read_moment read_dashed read_slashed read_day read_time split_day split_at
    read_number calendar lstrip show
date_tests = (refl, refl, refl, refl, refl, refl)

abbrev last_second : DateTime
last_second = record { year = 2024; month = 2; day = 29; hour = 23; minute = 59; second = 59 }

last_second-IsCalendar : IsCalendar last_second
last_second-IsCalendar = record {
  year_low = omega arith;
  year_high = omega arith;
  month_low = omega arith;
  month_high = omega arith;
  day_low = omega arith;
  day_high = omega arith;
  hour_high = omega arith;
  minute_high = omega arith;
  second_high = omega arith;
}

to_datetime-reads_example :
    (to_datetime no_repr (str (date_text last_second (String.◌++◌ " " (time_text last_second))))
      ≡ returned (some last_second))
    × (to_datetime no_repr (str (date_text last_second "")) ≡ returned (some (day_of 2024 2 29)))
    × (to_datetime no_repr (str (slashed_text last_second)) ≡ returned (some (day_of 2024 2 29)))
to_datetime-reads_example = to_datetime-reads no_repr last_second last_second-IsCalendar
