-- ===== src/Libc/Time/Weekday.antt =====
-- `gmtime_r` of Libc/Libc/time/time.c: the broken-down time, and the day of the week.
use beta_os.Prelude.{
  ℕ, zero, suc, ◌+◌, ◌-◌, ◌/◌, ◌%◌, ◌^◌, ◌≤◌, ◌<◌, ◌≡◌, refl, ltb, if◌then◌else◌, ◌>>=◌, Option,
  none, some, List, [], ◌∷◌, map, get_or, arith,
}
use beta_os.Libc.Time.Cmos.{Clock}
use beta_os.Libc.Time.Calendar.{
  days_of_years, days_before_month, days_since_1970, IsDate, days_of_years-closed,
}

-- The fields of struct tm that are set; tm_yday and tm_isdst are left as they were.
pub record Tm : Type 0 where
  pub tm_sec : ℕ
  pub tm_min : ℕ
  pub tm_hour : ℕ
  pub tm_mday : ℕ
  pub tm_mon : ℕ
  pub tm_year : ℕ
  pub tm_wday : ℕ

-- The local table `t`.
abbrev pub month_offsets : List ℕ
month_offsets = 0 ∷ 3 ∷ 2 ∷ 5 ∷ 0 ∷ 3 ∷ 5 ∷ 1 ∷ 4 ∷ 6 ∷ 2 ∷ 4 ∷ []

abbrev pub month_offset : ℕ → Option ℕ
month_offset i = get_or (map some month_offsets) i none

-- `t[month - 1]`
abbrev pub offset_of_month : ℕ → Option ℕ
offset_of_month zero = none
offset_of_month (suc m) = month_offset m

-- `dayofweek`; `none` is a read outside the table. The year is positive and fits an `int`.
unfoldable pub day_of_week : Clock → Option ℕ
day_of_week c =
    let y = c.year - (if ltb (c.month) 3 then 1 else 0) in
    offset_of_month (c.month) >>= λ t. some ((y + y / 4 - y / 100 + y / 400 + t + c.day) % 7)

-- gmtime_r: the globals that read_rtc has set, not the argument, are broken down.
unfoldable pub gmtime_r : Clock → Option Tm
gmtime_r c = day_of_week c >>= λ wday. some (record {
  tm_sec = c.second;
  tm_min = c.minute;
  tm_hour = c.hour;
  tm_mday = c.day;
  tm_mon = c.month;
  tm_year = (c.year + 2 ^ 32 - 1900) % 2 ^ 32;
  tm_wday = wday;
})

-- The formula against the days, for the month `m + 1` of the year 1970 + n.
abbrev formula : ℕ → ℕ → ℕ → ℕ → ℕ
formula y m t day =
    let y' = y - (if ltb (suc m) 3 then 1 else 0) in
    (y' + y' / 4 - y' / 100 + y' / 400 + t + day) % 7

weekday_months :
    (m n day : ℕ)
    → m < 12
    → 1 ≤ day
    → month_offset m >>= (λ t. some (formula (1970 + n) m t day))
      ≡ some ((days_of_years n + days_before_month (1970 + n) m + (day - 1) + 4) % 7)
weekday_months zero n day lt d = ground (arith, days_of_years-closed n)
weekday_months (suc zero) n day lt d = ground (arith, days_of_years-closed n)
weekday_months (suc (suc zero)) n day lt d = ground (arith, days_of_years-closed n)
weekday_months (suc (suc (suc zero))) n day lt d = ground (arith, days_of_years-closed n)
weekday_months (suc (suc (suc (suc zero)))) n day lt d = ground (arith, days_of_years-closed n)
weekday_months (suc (suc (suc (suc (suc zero))))) n day lt d =
    ground (arith, days_of_years-closed n)
weekday_months (suc (suc (suc (suc (suc (suc zero)))))) n day lt d =
    ground (arith, days_of_years-closed n)
weekday_months (suc (suc (suc (suc (suc (suc (suc zero))))))) n day lt d =
    ground (arith, days_of_years-closed n)
weekday_months (suc (suc (suc (suc (suc (suc (suc (suc zero)))))))) n day lt d =
    ground (arith, days_of_years-closed n)
weekday_months (suc (suc (suc (suc (suc (suc (suc (suc (suc zero))))))))) n day lt d =
    ground (arith, days_of_years-closed n)
weekday_months (suc (suc (suc (suc (suc (suc (suc (suc (suc (suc zero)))))))))) n day lt d =
    ground (arith, days_of_years-closed n)
weekday_months (suc (suc (suc (suc (suc (suc (suc (suc (suc (suc (suc zero))))))))))) n day lt d =
    ground (arith, days_of_years-closed n)
weekday_months (suc (suc (suc (suc (suc (suc (suc (suc (suc (suc (suc (suc m)))))))))))) n day lt
      d =
    absurd (omega arith)

day_of_week_lem :
    (c : Clock) (n m : ℕ)
    → c.year - 1970 ≡ n
    → c.month - 1 ≡ m
    → c.year ≡ 1970 + n
    → c.month ≡ suc m
    → m < 12
    → 1 ≤ c.day
    → day_of_week c ≡ some ((days_since_1970 c + 4) % 7)
unfolding day_of_week
day_of_week_lem c n m e1 e2 e3 e4 lt d = rw (e1, e2, e3, e4) (weekday_months m n (c.day) lt d)

-- For a date from 1970 on, with a month from 1 to 12 and a day from 1, gmtime_r gives as the day of the week the number of days since the Thursday on
-- which 1970 began, counted from Sunday, and copies the other fields, the month as 1 to 12.
pub gmtime_r-weekday :
    (c : Clock)
    → IsDate c
    → 1970 ≤ c.year
    → c.year < 2 ^ 31
    → gmtime_r c
      ≡ some (record {
        tm_sec = c.second;
        tm_min = c.minute;
        tm_hour = c.hour;
        tm_mday = c.day;
        tm_mon = c.month;
        tm_year = c.year - 1900;
        tm_wday = (days_since_1970 c + 4) % 7;
      })
unfolding gmtime_r
gmtime_r-weekday c date lo hi =
    let m1 = date.month_ge in
    let m2 = date.month_le in
    let h =
      day_of_week_lem c (c.year - 1970) (c.month - 1) refl refl (omega arith) (omega arith)
        (omega arith) (date.day_ge) in
    let e : (c.year + 2 ^ 32 - 1900) % 2 ^ 32 ≡ c.year - 1900 = omega arith in rw (h, e) refl
