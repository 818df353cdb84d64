-- ===== src/Libc/Time/Calendar.antt =====
-- The Gregorian calendar, as the reference for Libc/Libc/time/time.c: days counted one year and
-- one month at a time from the first of January 1970.
use beta_os.Prelude.{
  ℕ, zero, suc, ◌+◌, ◌-◌, ◌*◌, ◌/◌, ◌%◌, ◌≤◌, ◌≡◌, Bool, not, ◌&&◌, ◌||◌, ◌==◌, if◌then◌else◌,
  arith,
}
use beta_os.Libc.Time.Cmos.{Clock}

-- Every fourth year is a leap year, but of the centuries every fourth only.
abbrev pub leap : ℕ → Bool
leap y = y % 4 == 0 && (not (y % 100 == 0) || y % 400 == 0)

-- The days of the first `n` years from 1970.
unfoldable pub days_of_years : ℕ → ℕ
days_of_years zero = 0
days_of_years (suc n) = days_of_years n + (if leap (1970 + n) then 366 else 365)

abbrev days_in_month : ℕ → ℕ → ℕ
days_in_month y m =
    if m == 2
    then (if leap y then 29 else 28)
    else if m == 4 || m == 6 || m == 9 || m == 11
    then 30
    else 31

-- The days of the year `y` before the month `m + 1`.
abbrev pub days_before_month : ℕ → ℕ → ℕ
days_before_month y zero = 0
days_before_month y (suc m) = days_before_month y m + days_in_month y (suc m)

-- The whole days from the first of January 1970 to a date.
abbrev pub days_since_1970 : Clock → ℕ
days_since_1970 t =
    days_of_years (t.year - 1970) + days_before_month (t.year) (t.month - 1) + (t.day - 1)

-- POSIX time.
abbrev pub seconds_since_1970 : Clock → ℕ
seconds_since_1970 t = days_since_1970 t * 86400 + t.hour * 3600 + t.minute * 60 + t.second

-- A date whose month and day can be told.
pub record IsDate (t : Clock) : Type 0 where
  pub month_ge : 1 ≤ t.month
  pub month_le : t.month ≤ 12
  pub day_ge : 1 ≤ t.day

-- The days of the years, in closed form.
pub days_of_years-closed :
    (n : ℕ)
    → days_of_years n + 1969 / 4 + 1969 / 400
      ≡ 365 * n + (1969 + n) / 4 + (1969 + n) / 400 + 1969 / 100 - (1969 + n) / 100
unfolding days_of_years
days_of_years-closed zero = omega arith
days_of_years-closed (suc n) = ground (arith, days_of_years-closed n)
