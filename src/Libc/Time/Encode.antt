-- ===== src/Libc/Time/Encode.antt =====
-- What a clock chip stores for a time, in each mode of register B, against what `read_rtc` of
-- Libc/Libc/time/time.c reads out of it.
use beta_os.Prelude.{
  ℕ, ◌+◌, ◌*◌, ◌/◌, ◌%◌, ◌≤◌, ◌<◌, ◌≡◌, ap, refl, ◌∙◌, inl, inr, Bool-cases, leb, ◌==◌,
  if◌then◌else◌, arith,
}
use beta_os.Libc.Time.Cmos.{
  Clock, bit, of_bcd, of_bcd_hour, decode, to_binary, to_24_hours, full_year,
}

-- A two-digit number in the chip: in binary or in BCD.
abbrev pub encode_field : ℕ → ℕ → ℕ
encode_field b x = if bit b 2 then x else x / 10 * 16 + x % 10

-- The hour on the dial of a 12-hour clock.
abbrev pub dial : ℕ → ℕ
dial h = if h % 12 == 0 then 12 else h % 12

abbrev pub encode_hour : ℕ → ℕ → ℕ
encode_hour b h =
    if bit b 1 then encode_field b h else encode_field b (dial h) + (if leb 12 h then 128 else 0)

-- The registers of a chip in the mode of register B that shows the time `t` of this century.
unfoldable pub encode : ℕ → Clock → Clock
encode b t = record {
  second = encode_field b (t.second);
  minute = encode_field b (t.minute);
  hour = encode_hour b (t.hour);
  day = encode_field b (t.day);
  month = encode_field b (t.month);
  year = encode_field b (t.year % 100);
  century = t.century;
}

-- The hour that comes out: on a 12-hour clock midnight and noon change places.
abbrev pub decoded_hour : ℕ → ℕ → ℕ
decoded_hour b h = if bit b 1 then h else if h == 0 then 12 else if h == 12 then 0 else h

-- A time that a chip without a century register can show: 2000 to 2099.
pub record IsShown (t : Clock) : Type 0 where
  pub second_lt : t.second < 60
  pub minute_lt : t.minute < 60
  pub hour_lt : t.hour < 24
  pub day_lt : t.day < 32
  pub month_lt : t.month < 13
  pub year_ge : 2000 ≤ t.year
  pub year_lt : t.year < 2100

clock_eq :
    {a b : Clock}
    → a.second ≡ b.second
    → a.minute ≡ b.minute
    → a.hour ≡ b.hour
    → a.day ≡ b.day
    → a.month ≡ b.month
    → a.year ≡ b.year
    → a.century ≡ b.century
    → a ≡ b
clock_eq h1 h2 h3 h4 h5 h6 h7 i = record {
  second = h1 i;
  minute = h2 i;
  hour = h3 i;
  day = h4 i;
  month = h5 i;
  year = h6 i;
  century = h7 i;
}

bcd_lem : (x : ℕ) → x < 100 → of_bcd (x / 10 * 16 + x % 10) ≡ x
bcd_lem x h = omega arith

-- The hour of a 12-hour clock, as it is read.
abbrev afternoon : ℕ → ℕ
afternoon x = if bit x 7 then (x % 128 + 12) % 24 else x

abbrev swapped : ℕ → ℕ
swapped h = if h == 0 then 12 else if h == 12 then 0 else h

binary_hour_lem : (h : ℕ) → h < 24 → afternoon (dial h + (if leb 12 h then 128 else 0)) ≡ swapped h
binary_hour_lem h lt = ground arith

bcd_24_lem : (h : ℕ) → h < 24 → of_bcd_hour (h / 10 * 16 + h % 10) ≡ h
bcd_24_lem h lt = omega arith

bcd_12_lem :
    (h : ℕ)
    → h < 24
    → of_bcd_hour (dial h / 10 * 16 + dial h % 10 + (if leb 12 h then 128 else 0))
      ≡ dial h + (if leb 12 h then 128 else 0)
bcd_12_lem h lt = ground arith

-- Decoding what a chip without a century register shows gives the time back in every mode of
-- register B, but for the 12-hour modes at midnight, which is read as noon, and at noon, which is
-- read as midnight.
pub decode-encode :
    (b : ℕ) (t : Clock)
    → IsShown t
    → decode b 0 (encode b t) ≡ record t { hour = decoded_hour b (t.hour) }
unfolding decode to_binary to_24_hours full_year encode
decode-encode b t shown =
    let lt1 = shown.second_lt in
    let lt2 = shown.minute_lt in
    let lt3 = shown.hour_lt in
    let lt4 = shown.day_lt in
    let lt5 = shown.month_lt in
    let lt6 = shown.year_ge in
    let lt7 = shown.year_lt in
    elim (Bool-cases (bit b 2)) [
      | inl e2 ↦ elim (Bool-cases (bit b 1)) [
        | inl e1 ↦ rw (e2, e1) (clock_eq refl refl refl refl refl (omega arith) refl)
        | inr e1 ↦
            rw (e2, e1)
              (clock_eq refl refl (binary_hour_lem (t.hour) lt3) refl refl (omega arith) refl)
      ]
      | inr e2 ↦ elim (Bool-cases (bit b 1)) [
        | inl e1 ↦
            rw (e2, e1)
              (clock_eq (bcd_lem (t.second) (omega arith)) (bcd_lem (t.minute) (omega arith))
                (bcd_24_lem (t.hour) lt3) (bcd_lem (t.day) (omega arith))
                (bcd_lem (t.month) (omega arith)) (omega arith) refl)
        | inr e1 ↦
            rw (e2, e1)
              (clock_eq (bcd_lem (t.second) (omega arith)) (bcd_lem (t.minute) (omega arith))
                (ap afternoon (bcd_12_lem (t.hour) lt3) ∙ binary_hour_lem (t.hour) lt3)
                (bcd_lem (t.day) (omega arith)) (bcd_lem (t.month) (omega arith)) (omega arith)
                refl)
      ]
    ]
