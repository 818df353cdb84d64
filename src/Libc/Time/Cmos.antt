-- ===== src/Libc/Time/Cmos.antt =====
-- The reading of the CMOS clock in Libc/Libc/time/time.c. The device behind the two ports is a
-- parameter: `port d r` is the byte read from the data port after `r` is written to the address
-- port, with the device's next state.
use beta_os.Prelude.{
  ℕ, zero, suc, ◌+◌, ◌*◌, ◌/◌, ◌%◌, ◌^◌, Bool, not, ◌&&◌, Option, none, some, ◌==◌, if◌then◌else◌,
  ◌>>=◌,
}

-- The file's globals that hold the clock, and the local `century`.
pub record Clock : Type 0 where
  pub second : ℕ
  pub minute : ℕ
  pub hour : ℕ
  pub day : ℕ
  pub month : ℕ
  pub year : ℕ
  pub century : ℕ

-- Whether bit 7, 2 or 1 of a byte is set: `x & 0x80`, `x & 0x04`, `x & 0x02`.
abbrev pub bit : ℕ → ℕ → Bool
bit x i = x / 2 ^ i % 2 == 1

-- The condition of the `do` loop, negated.
unfoldable pub same_reading : Clock → Clock → Bool
same_reading a b =
    a.second == b.second
    && a.minute == b.minute
    && a.hour == b.hour
    && a.day == b.day
    && a.month == b.month
    && a.year == b.year
    && a.century == b.century

-- `(x & 0x0F) + ((x / 16) * 10)` in an `unsigned char`.
abbrev pub of_bcd : ℕ → ℕ
of_bcd x = (x % 16 + x / 16 * 10) % 2 ^ 8

-- The hour in BCD, with the PM bit kept: the sum below it is at most 85, so `|` is `+`.
abbrev pub of_bcd_hour : ℕ → ℕ
of_bcd_hour h = h % 16 + h / 16 % 8 * 10 + h / 128 % 2 * 128

-- The conversion from BCD, under register B.
unfoldable pub to_binary : ℕ → ℕ → Clock → Clock
to_binary b century_register c = if bit b 2 then c else record {
  second = of_bcd (c.second);
  minute = of_bcd (c.minute);
  hour = of_bcd_hour (c.hour);
  day = of_bcd (c.day);
  month = of_bcd (c.month);
  year = c.year % 16 + c.year / 16 * 10;
  century = if century_register == 0 then c.century else of_bcd (c.century);
}

-- The conversion from the 12-hour clock, under register B.
unfoldable pub to_24_hours : ℕ → Clock → Clock
to_24_hours b c = record c {
  hour = if not (bit b 1) && bit (c.hour) 7 then (c.hour % 128 + 12) % 24 else c.hour;
}

-- The full year: CURRENT_CENTURY is 21.
unfoldable pub full_year : ℕ → Clock → Clock
full_year century_register c = record c {
  year = c.year + (if century_register == 0 then 2000 else c.century * 100);
}

-- What read_rtc makes of the bytes it has read.
unfoldable pub decode : ℕ → ℕ → Clock → Clock
unfolding to_binary to_24_hours full_year
decode b century_register c =
    full_year century_register (to_24_hours b (to_binary b century_register c))

module _ {D : Type 0} (port : D → ℕ → ℕ × D) where
  -- get_update_in_progress_flag
  unfoldable pub get_update_in_progress_flag : D → Bool × D
  get_update_in_progress_flag d = let (v, d') = port d 0x0A in (bit v 7, d')

  -- get_RTC_register
  unfoldable pub get_rtc_register : D → ℕ → ℕ × D
  get_rtc_register d reg = port d reg

  -- `while (get_update_in_progress_flag());`, at most `fuel` rounds.
  unfoldable pub wait_ready : ℕ → D → Option D
  unfolding get_update_in_progress_flag
  wait_ready zero d = none
  wait_ready (suc fuel) d =
      let (busy, d') = get_update_in_progress_flag d in
      let rest = wait_ready fuel d' in if busy then rest else some d'

  -- The seven reads, the last of them only if there is a century register.
  unfoldable pub read_registers : ℕ → ℕ → D → Clock × D
  unfolding get_rtc_register
  read_registers century_register century d =
      let (second, d1) = get_rtc_register d 0x00 in
      let (minute, d2) = get_rtc_register d1 0x02 in
      let (hour, d3) = get_rtc_register d2 0x04 in
      let (day, d4) = get_rtc_register d3 0x07 in
      let (month, d5) = get_rtc_register d4 0x08 in
      let (year, d6) = get_rtc_register d5 0x09 in
      let (century', d7) =
        if century_register == 0 then (century, d6) else get_rtc_register d6 century_register in
      (
        record {
          second = second;
          minute = minute;
          hour = hour;
          day = day;
          month = month;
          year = year;
          century = century';
        },
        d7,
      )

  -- The `do` loop: the registers are read until two readings agree.
  unfoldable pub read_until_stable : ℕ → ℕ → ℕ → Clock → D → Option (Clock × D)
  read_until_stable patience zero century_register last d = none
  read_until_stable patience (suc fuel) century_register last d = wait_ready patience d >>= λ d1.
      let (now, d2) = read_registers century_register (last.century) d1 in
      let rest = read_until_stable patience fuel century_register now d2 in
      if same_reading now last then some (now, d2) else rest

  -- read_rtc, with at most `patience` rounds of each wait and `fuel` of the `do` loop.
  unfoldable pub read_rtc : ℕ → ℕ → ℕ → D → Option (Clock × D)
  read_rtc patience fuel century_register d = wait_ready patience d >>= λ d1.
      let (first, d2) = read_registers century_register 21 d1 in
      read_until_stable patience fuel century_register first d2 >>= λ (c, d3).
      let (b, d4) = get_rtc_register d3 0x0B in some (decode b century_register c, d4)
