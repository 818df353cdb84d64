-- ===== src/Libc/Time/Seconds.antt =====
-- `time` of Libc/Libc/time/time.c against POSIX time.
use beta_os.Prelude.{
  ℕ, zero, suc, ◌+◌, ◌-◌, ◌*◌, ◌/◌, ◌%◌, ◌^◌, ◌≤◌, ◌<◌, ◌≡◌, ap, Bool, not, ◌&&◌, ◌||◌, ltb, leb,
  ◌==◌, if◌then◌else◌, ◌>>=◌, Option, none, some, List, [], ◌∷◌, map, get_or, arith,
}
use beta_os.Libc.Time.Cmos.{Clock, read_rtc}
use beta_os.Libc.Time.Calendar.{days_of_years, days_before_month, seconds_since_1970, IsDate}

-- Is_leap_year
abbrev pub is_leap_year : ℕ → Bool
is_leap_year y = ltb 0 y && y % 4 == 0 && (not (y % 100 == 0) || y % 400 == 0)

-- Is_leap_yearUNIX, on a `uint32_t`.
abbrev pub is_leap_year_unix : ℕ → Bool
is_leap_year_unix y = is_leap_year ((1970 + y) % 2 ^ 32)

-- monthDays
abbrev pub month_days : List ℕ
month_days = 31 ∷ 28 ∷ 31 ∷ 30 ∷ 31 ∷ 30 ∷ 31 ∷ 31 ∷ 30 ∷ 31 ∷ 30 ∷ 31 ∷ []

abbrev pub month_day : ℕ → Option ℕ
month_day i = get_or (map some month_days) i none

-- The loop over the years, `n` rounds from `i`.
unfoldable pub add_leap_days : ℕ → ℕ → ℕ → ℕ
add_leap_days zero i total = total
add_leap_days (suc n) i total =
    add_leap_days n (suc i) (if is_leap_year_unix i then total + 86400 else total)

-- The loop over the months, `n` rounds from `i`; `none` is a read behind the table.
unfoldable pub add_month_days : ℕ → ℕ → ℕ → ℕ → Option ℕ
add_month_days zero i year total = some total
add_month_days (suc n) i year total = month_day i >>= λ days.
    add_month_days n (suc i) year
      (total + 86400 * (if i == 1 && is_leap_year year then 29 else days))

-- `time` once the clock has been read. The year is an `unsigned int`, and so is the product with
-- its seconds; the sum is an `int64_t`, which the seconds of 2^32 years do not fill. The bound
-- `month - 1` of the second loop is compared as an `unsigned int`.
unfoldable pub seconds_of_clock : Clock → Option ℕ
seconds_of_clock c =
    let years = (c.year + 2 ^ 32 - 1970) % 2 ^ 32 * (86400 * 365) % 2 ^ 32 in
    let with_leap_days = add_leap_days (c.year - 1971) 1971 years in
    add_month_days ((c.month + 2 ^ 32 - 1) % 2 ^ 32) 0 (c.year) with_leap_days >>= λ months.
    some (months + c.day * 86400 + c.hour * 3600 + c.minute * 60 + c.second)

-- time
unfoldable pub time : {D : Type 0} → (D → ℕ → ℕ × D) → ℕ → ℕ → ℕ → D → Option (ℕ × D)
time port patience fuel century_register d =
    read_rtc port patience fuel century_register d >>= λ (c, d').
    seconds_of_clock c >>= λ seconds. some (seconds, d')

leap_days_lem :
    (n i total : ℕ)
    → 1971 ≤ i
    → i + n ≤ 2100
    → add_leap_days n i total + 86400 * ((i - 1971) / 4) ≡ total + 86400 * ((i + n - 1971) / 4)
unfolding add_leap_days
leap_days_lem zero i total lo hi = omega arith
leap_days_lem (suc n) i total lo hi = ground (
  arith,
  leap_days_lem n (suc i) total (omega arith) (omega arith),
  leap_days_lem n (suc i) (total + 86400) (omega arith) (omega arith),
)

years_lem : (n : ℕ) → n ≤ 130 → days_of_years n ≡ 365 * n + (n + 1) / 4
unfolding days_of_years
years_lem zero h = omega arith
years_lem (suc n) h = ground (arith, years_lem n (omega arith))

months_lem :
    (m year total : ℕ)
    → m < 12
    → 0 < year
    → add_month_days m 0 year total ≡ some (total + 86400 * days_before_month year m)
unfolding add_month_days
months_lem zero year total h p = ground arith
months_lem (suc zero) year total h p = ground arith
months_lem (suc (suc zero)) year total h p = ground arith
months_lem (suc (suc (suc zero))) year total h p = ground arith
months_lem (suc (suc (suc (suc zero)))) year total h p = ground arith
months_lem (suc (suc (suc (suc (suc zero))))) year total h p = ground arith
months_lem (suc (suc (suc (suc (suc (suc zero)))))) year total h p = ground arith
months_lem (suc (suc (suc (suc (suc (suc (suc zero))))))) year total h p = ground arith
months_lem (suc (suc (suc (suc (suc (suc (suc (suc zero)))))))) year total h p = ground arith
months_lem (suc (suc (suc (suc (suc (suc (suc (suc (suc zero))))))))) year total h p = ground arith
months_lem (suc (suc (suc (suc (suc (suc (suc (suc (suc (suc zero)))))))))) year total h p =
    ground arith
months_lem (suc (suc (suc (suc (suc (suc (suc (suc (suc (suc (suc zero))))))))))) year total h p =
    ground arith
months_lem (suc (suc (suc (suc (suc (suc (suc (suc (suc (suc (suc (suc m)))))))))))) year total h
      p =
    absurd (omega arith)

-- A day in the years that are a multiple of four or one less.
abbrev pub surplus : ℕ → ℕ
surplus y = if leb (y % 4) 0 || y % 4 == 3 then 86400 else 0

wrapped_years_lem :
    (y : ℕ)
    → 1973 ≤ y
    → y < 2100
    → (y + 2 ^ 32 - 1970) % 2 ^ 32 * (86400 * 365) % 2 ^ 32 ≡ (y - 1970) * 31536000
wrapped_years_lem y lo hi = omega arith

-- The sum of the days, from what the loops and the reference count.
total_lem :
    (y leaps days months day rest : ℕ)
    → 1973 ≤ y
    → y < 2100
    → 1 ≤ day
    → leaps ≡ (y - 1970) * 31536000 + 86400 * ((y - 1971) / 4)
    → days ≡ 365 * (y - 1970) + (y - 1970 + 1) / 4
    → leaps + 86400 * months + day * 86400 + rest
      ≡ (days + months + (day - 1)) * 86400 + rest + surplus y
total_lem y leaps days months day rest lo hi d e1 e2 = ground arith

-- For a date of the years 1973 to 2099 with a month from 1 to 12 and a day from 1 on, `time` counts
-- the seconds since 1970 exactly if the year is one or two more than a multiple of four, and a
-- whole day more in the other years.
pub seconds_of_clock-since_1970 :
    (c : Clock)
    → IsDate c
    → 1973 ≤ c.year
    → c.year < 2100
    → seconds_of_clock c ≡ some (seconds_since_1970 c + surplus (c.year))
unfolding seconds_of_clock
seconds_of_clock-since_1970 c date lo hi =
    let m1 = date.month_ge in
    let m2 = date.month_le in
    let d1 = date.day_ge in
    let years : ℕ = (c.year + 2 ^ 32 - 1970) % 2 ^ 32 * (86400 * 365) % 2 ^ 32 in
    let e1 : (c.month + 2 ^ 32 - 1) % 2 ^ 32 ≡ c.month - 1 = omega arith in
    let e2 =
      months_lem (c.month - 1) (c.year) (add_leap_days (c.year - 1971) 1971 years) (omega arith)
        (omega arith) in
    let e3 = leap_days_lem (c.year - 1971) 1971 years (omega arith) (omega arith) in
    let e4 = years_lem (c.year - 1970) (omega arith) in
    let e5 = wrapped_years_lem (c.year) lo hi in
    let e6 =
      total_lem (c.year) (add_leap_days (c.year - 1971) 1971 years) (days_of_years (c.year - 1970))
        (days_before_month (c.year) (c.month - 1)) (c.day)
        (c.hour * 3600 + c.minute * 60 + c.second) lo hi d1 (omega arith) e4 in
    rw (e1, e2) (ap some (omega arith))
