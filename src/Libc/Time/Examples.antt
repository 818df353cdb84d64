-- ===== src/Libc/Time/Examples.antt =====
-- The theorems on the clock at concrete times, and runs of the code.
use beta_os.Prelude.{ℕ, ◌+◌, ◌≡◌, refl, ◌⊎◌, some, ◌%◌, ◌||◌, ◌==◌, if◌then◌else◌, arith}
use beta_os.Libc.Time.Cmos.{
  Clock, decode, read_rtc, to_binary, to_24_hours, full_year, get_update_in_progress_flag,
  get_rtc_register, wait_ready, read_registers, read_until_stable, same_reading,
}
use beta_os.Libc.Time.Atomic.{ticking, shown, read_rtc-ticking}
use beta_os.Libc.Time.Encode.{encode, IsShown, decode-encode}
use beta_os.Libc.Time.Calendar.{IsDate, seconds_since_1970, days_since_1970}
use beta_os.Libc.Time.Seconds.{
  seconds_of_clock, surplus, add_leap_days, add_month_days, seconds_of_clock-since_1970,
}
use beta_os.Libc.Time.Weekday.{gmtime_r, day_of_week, gmtime_r-weekday}

-- Noon on the 11th of November 2017, a Saturday.
abbrev noon : Clock
noon = record {
  second = 30;
  minute = 15;
  hour = 12;
  day = 11;
  month = 11;
  year = 2017;
  century = 21;
}

noon-IsShown : IsShown noon
noon-IsShown = record {
  second_lt = omega arith;
  minute_lt = omega arith;
  hour_lt = omega arith;
  day_lt = omega arith;
  month_lt = omega arith;
  year_ge = omega arith;
  year_lt = omega arith;
}

noon-IsDate : IsDate noon
noon-IsDate = record { month_ge = omega arith; month_le = omega arith; day_ge = omega arith }

-- A 12-hour BCD chip at noon is read as midnight.
decode-encode_example : decode 0 0 (encode 0 noon) ≡ record noon { hour = 0 }
decode-encode_example = decode-encode 0 noon noon-IsShown

seconds_of_clock-since_1970_example :
    seconds_of_clock noon ≡ some (seconds_since_1970 noon + surplus 2017)
seconds_of_clock-since_1970_example =
    seconds_of_clock-since_1970 noon noon-IsDate (omega arith) (omega arith)

noon_seconds : seconds_of_clock noon ≡ some 1510402530
unfolding seconds_of_clock add_leap_days add_month_days
noon_seconds = refl

gmtime_r-weekday_example :
    gmtime_r noon
    ≡ some (record {
      tm_sec = 30;
      tm_min = 15;
      tm_hour = 12;
      tm_mday = 11;
      tm_mon = 11;
      tm_year = 117;
      tm_wday = (days_since_1970 noon + 4) % 7;
    })
gmtime_r-weekday_example = gmtime_r-weekday noon noon-IsDate (omega arith) (omega arith)

noon_is_saturday : day_of_week noon ≡ some 6
unfolding day_of_week
noon_is_saturday = refl

-- A chip in binary 24-hour mode, one second before midnight and at midnight.
abbrev last_second : ℕ → ℕ
last_second r =
    if r == 0x00 || r == 0x02 then 59 else if r == 0x04 then 23 else if r == 0x0B then 6 else 9

abbrev midnight : ℕ → ℕ
midnight r =
    if r == 0x07 then 10 else if r == 0x0B then 6 else if r == 0x08 || r == 0x09 then 9 else 0

read_rtc-ticking_example :
    ((m : ℕ) × (read_rtc (ticking last_second midnight 9) 1 3 0 0
        ≡ some (decode 6 0 (shown last_second), m)))
    ⊎ ((m : ℕ) × (read_rtc (ticking last_second midnight 9) 1 3 0 0
          ≡ some (decode 6 0 (shown midnight), m)))
read_rtc-ticking_example =
    read_rtc-ticking last_second midnight 9 6 1 0 0 refl refl refl refl (omega arith)

-- The registers change during the second reading, so a third and a fourth are needed.
ticking_run :
    read_rtc (ticking last_second midnight 9) 1 3 0 0 ≡ some (decode 6 0 (shown midnight), 29)
unfolding read_rtc wait_ready read_registers read_until_stable get_rtc_register
    get_update_in_progress_flag same_reading decode to_binary to_24_hours full_year
ticking_run = refl
