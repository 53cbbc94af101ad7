-- ===== src/Bunt/Rfc3339.antt =====
-- `t.In(time.UTC).Format(time.RFC3339)`, as persistence/buntdb.go writes the bounds of a period: the
-- instant to the whole second, in the Gregorian calendar; for the years from 1 on.
use lightspeed_chat.Base.{
  ℕ, suc, ◌+◌, ◌-◌, ◌*◌, ◌/◌, ◌%◌, min, ℤ, pos, negsuc, Text, codes, Bool, ◌&&◌, ◌||◌, not, List,
  [], ◌∷◌, ◌++◌, ltb, ◌==◌, if◌then◌else◌,
}
use lightspeed_chat.Strconv.{format_int}
use lightspeed_chat.Types.{Time}

-- The seconds since the start of the year 1.
abbrev since_year_one : ℤ → ℕ
since_year_one (pos n) = n + 62135596800
since_year_one (negsuc n) = 62135596800 - suc n

record Date : Type 0 where
  year : ℕ
  month : ℕ
  day : ℕ

abbrev is_leap : ℕ → Bool
is_leap year = year % 4 == 0 && (not (year % 100 == 0) || year % 400 == 0)

abbrev month_lengths : ℕ → List ℕ
month_lengths year =
    31 ∷ (if is_leap year then 29 else 28) ∷ 31 ∷ 30 ∷ 31 ∷ 30 ∷ 31 ∷ 31 ∷ 30 ∷ 31 ∷ 30 ∷ 31 ∷ []

-- The month and the day from the day of the year, which counts from 0.
abbrev in_months : ℕ → ℕ → ℕ → List ℕ → Date
in_months year month day [] = record { year = year; month = month; day = suc day }
in_months year month day (len ∷ lens) =
    let later = in_months year (suc month) (day - len) lens in
    if ltb day len then record { year = year; month = month; day = suc day } else later

-- The date from the days since the start of the year 1: cycles of 400, 100 and 4 years, and years.
unfoldable date_of : ℕ → Date
date_of days =
    let n400 = days / 146097 in
    let d400 = days % 146097 in
    let n100 = min (d400 / 36524) 3 in
    let d100 = d400 - n100 * 36524 in
    let n4 = d100 / 1461 in
    let d4 = d100 % 1461 in
    let n1 = min (d4 / 365) 3 in
    let year = n400 * 400 + n100 * 100 + n4 * 4 + n1 + 1 in
    in_months year 1 (d4 - n1 * 365) (month_lengths year)

abbrev two_digits : ℕ → Text
two_digits n = (48 + n / 10 % 10) ∷ (48 + n % 10) ∷ []

abbrev four_digits : ℕ → Text
four_digits n =
    if ltb n 10000 then two_digits (n / 100) ++ two_digits (n % 100) else format_int (pos n)

unfoldable pub rfc3339 : Time → Text
unfolding date_of
rfc3339 t =
    let seconds = since_year_one t.unix in
    let date = date_of (seconds / 86400) in
    let clock = seconds % 86400 in
    four_digits date.year
    ++ codes "-"
    ++ two_digits date.month
    ++ codes "-"
    ++ two_digits date.day
    ++ codes "T"
    ++ two_digits (clock / 3600)
    ++ codes ":"
    ++ two_digits (clock / 60 % 60)
    ++ codes ":"
    ++ two_digits (clock % 60)
    ++ codes "Z"
