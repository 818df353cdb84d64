-- ===== src/Libc/Time/Atomic.antt =====
-- `read_rtc` of Libc/Libc/time/time.c against a clock that ticks while it is being read.
use beta_os.Prelude.{
  ℕ, zero, suc, ◌+◌, ◌≤◌, ◌<◌, ◌≡◌, refl, ap, sym, ◌∙◌, ◌⊎◌, inl, inr, true, false, Option, some,
  ltb, if◌then◌else◌, Bool-cases, arith,
}
use native.Mathlib.Decide.{dec_lt}
use beta_os.Libc.Time.Cmos.{
  Clock, bit, same_reading, decode, get_update_in_progress_flag, get_rtc_register, wait_ready,
  read_registers, read_until_stable, read_rtc,
}

-- A chip whose registers change from `before` to `after` when it has been read `tick` times; its
-- state is the number of reads.
abbrev pub ticking : (ℕ → ℕ) → (ℕ → ℕ) → ℕ → ℕ → ℕ → ℕ × ℕ
ticking before after tick n r = ((if ltb n tick then before r else after r), suc n)

-- What the registers hold, without a century register.
abbrev pub shown : (ℕ → ℕ) → Clock
shown regs = record {
  second = regs 0x00;
  minute = regs 0x02;
  hour = regs 0x04;
  day = regs 0x07;
  month = regs 0x08;
  year = regs 0x09;
  century = 21;
}

same_reading-eq : (a b : Clock) → same_reading a b ≡ true → a ≡ b
unfolding same_reading
same_reading-eq a b h = ground arith

same_reading_refl : (a : Clock) → same_reading a a ≡ true
unfolding same_reading
same_reading_refl a = ground arith

module _ (before after : ℕ → ℕ) (tick : ℕ) (ready_before : bit (before 0x0A) 7 ≡ false)
    (ready_after : bit (after 0x0A) 7 ≡ false) where
  abbrev chip : ℕ → ℕ → ℕ × ℕ
  chip = ticking before after tick

  wait_lem : (patience n : ℕ) → 0 < patience → wait_ready chip patience n ≡ some (suc n)
  unfolding wait_ready get_update_in_progress_flag
  wait_lem zero n h = absurd (omega arith)
  wait_lem (suc p) n h = elim (dec_lt n tick) [
    | yes early ↦ ground (arith, ready_before)
    | no late ↦ ground (arith, ready_after)
  ]

  read_before : (n : ℕ) → n + 6 ≤ tick → read_registers chip 0 21 n ≡ (shown before, n + 6)
  unfolding read_registers get_rtc_register
  read_before n h = ground arith

  read_after : (n : ℕ) → tick ≤ n → read_registers chip 0 21 n ≡ (shown after, n + 6)
  unfolding read_registers get_rtc_register
  read_after n h = ground arith

  -- One reading, whatever stands in the registers.
  read_any : (n : ℕ) → (c : Clock) × (c.century ≡ 21) × (read_registers chip 0 21 n ≡ (c, n + 6))
  unfolding read_registers get_rtc_register
  read_any n = ((read_registers chip 0 21 n).0, refl, ground arith)

  -- One round of the `do` loop, from what it reads.
  round_lem :
      (patience fuel n m : ℕ) (last now : Clock)
      → 0 < patience
      → last.century ≡ 21
      → read_registers chip 0 21 (suc n) ≡ (now, m)
      → read_until_stable chip patience (suc fuel) 0 last n ≡ (
          if same_reading now last
          then some (now, m)
          else read_until_stable chip patience fuel 0 now m)
  unfolding read_until_stable
  round_lem patience fuel n m last now waits century e =
      rw (wait_lem patience n waits, century, e) refl

  -- The loop returns the reading `c`.
  abbrev Returns : ℕ → ℕ → Clock → ℕ → Clock → Type 0
  Returns patience fuel last n c =
      (m : ℕ) × (read_until_stable chip patience fuel 0 last n ≡ some (c, m))

  -- Once the tick is over, two rounds are enough.
  settled :
      (patience fuel n : ℕ) (last : Clock)
      → 0 < patience
      → last.century ≡ 21
      → tick ≤ suc n
      → Returns patience (suc (suc fuel)) last n (shown after)
  settled patience fuel n last waits century over =
      let first =
        round_lem patience (suc fuel) n (suc n + 6) last (shown after) waits century
          (read_after (suc n) over) in
      elim (Bool-cases (same_reading (shown after) last)) [
        | inl e ↦ (suc n + 6, rw (first, e) refl)
        | inr e ↦
            let m : ℕ = suc n + 6 in
            let second =
              round_lem patience fuel m (suc m + 6) (shown after) (shown after) waits refl
                (read_after (suc m) (omega arith)) in
            (suc m + 6, rw (first, e, second, same_reading_refl (shown after)) refl)
      ]

  -- From a reading before the tick, the loop returns what was shown before or after it.
  unsettled :
      (patience fuel n : ℕ)
      → 0 < patience
      → Returns patience (suc (suc (suc fuel))) (shown before) n (shown before)
        ⊎ Returns patience (suc (suc (suc fuel))) (shown before) n (shown after)
  unsettled patience fuel n waits =
      let (now, century, e) = read_any (suc n) in
      let first =
        round_lem patience (suc (suc fuel)) n (suc n + 6) (shown before) now waits refl e in
      elim (Bool-cases (same_reading now (shown before))) [
        | inl same ↦ inl (suc n + 6, rw (first, same, same_reading-eq now (shown before) same) refl)
        | inr other ↦ elim (dec_lt (n + 6) tick) [
          | yes early ↦
              let e' : now ≡ shown before =
                ap (λ r. r.0) (sym e ∙ read_before (suc n) (omega arith)) in
              absurd (cc (e', other, same_reading_refl (shown before)))
          | no late ↦
              let (m, done) = settled patience fuel (suc n + 6) now waits century (omega arith) in
              inr (m, rw (first, other) done)
        ]
      ]

register_b_lem :
    (before after : ℕ → ℕ) (tick b : ℕ)
    → before 0x0B ≡ b
    → after 0x0B ≡ b
    → (m : ℕ) → get_rtc_register (ticking before after tick) m 0x0B ≡ (b, suc m)
unfolding get_rtc_register
register_b_lem before after tick b eb eb' m = elim (dec_lt m tick) [
  | yes early ↦ ground (arith, eb)
  | no late ↦ ground (arith, eb')
]

-- The result, from the reading and what was read of register B.
abbrev finish : Clock → ℕ × ℕ → Option (Clock × ℕ)
finish c p = some (decode (p.0) 0 c, p.1)

-- For a clock whose update flag is clear, whose registers change at any one moment, and whose mode
-- stays the same, read_rtc returns within three rounds what the registers said before the change,
-- or what they said after it, never a mixture.
pub read_rtc-ticking :
    (before after : ℕ → ℕ) (tick b patience fuel n : ℕ)
    → bit (before 0x0A) 7 ≡ false
    → bit (after 0x0A) 7 ≡ false
    → before 0x0B ≡ b
    → after 0x0B ≡ b
    → 0 < patience
    → ((m : ℕ) × (read_rtc (ticking before after tick) patience (suc (suc (suc fuel))) 0 n
          ≡ some (decode b 0 (shown before), m)))
      ⊎ ((m : ℕ) × (read_rtc (ticking before after tick) patience (suc (suc (suc fuel))) 0 n
            ≡ some (decode b 0 (shown after), m)))
unfolding read_rtc
read_rtc-ticking before after tick b patience fuel n ready ready' eb eb' waits =
    let w = wait_lem before after tick ready ready' patience n waits in
    let last_read = register_b_lem before after tick b eb eb' in
    elim (dec_lt (n + 6) tick) [
      | yes early ↦
          let r = read_before before after tick ready ready' (suc n) (omega arith) in
          elim (unsettled before after tick ready ready' patience fuel (suc n + 6) waits) [
            | inl (m, done) ↦
                inl (suc m, rw (w, r, done) (ap (finish (shown before)) (last_read m)))
            | inr (m, done) ↦ inr (suc m, rw (w, r, done) (ap (finish (shown after)) (last_read m)))
          ]
      | no late ↦
          let (first, century, r) = read_any before after tick ready ready' (suc n) in
          let (m, done) =
            settled before after tick ready ready' patience (suc fuel) (suc n + 6) first waits
              century (omega arith) in
          inr (suc m, rw (w, r, done) (ap (finish (shown after)) (last_read m)))
    ]
