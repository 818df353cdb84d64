-- ===== src/Rtclock/Nanotime.antt =====
-- The nanotime of Kernel/Kernel/i386/rtclock.c: its structure in Kernel/Kernel/i386/pal.h, the
-- routines in Kernel/Kernel/asmlib.S that write and read it, and its scale.
use beta_os.Prelude.{
  ℕ, zero, suc, ◌+◌, ◌-◌, ◌*◌, ◌/◌, ◌%◌, ◌^◌, ◌||◌, Option, none, some, List, [], ◌∷◌, leb, ◌==◌,
  not, if◌then◌else◌,
}
use beta_os.Tsc.Factors.{Tsc, Outcome, done, failed, running, ◌>>=◌}

-- pal_rtc_nanotime_t
pub record Nanotime : Type 0 where
  pub tsc_base : ℕ
  pub ns_base : ℕ
  pub scale : ℕ
  pub shift : ℕ
  pub generation : ℕ

-- pal_rtc_nanotime_info before the first call.
abbrev pub pal_rtc_nanotime_info : Nanotime
pal_rtc_nanotime_info = record { tsc_base = 0; ns_base = 0; scale = 0; shift = 0; generation = 1 }

abbrev pub slow_tsc_threshold : ℕ
slow_tsc_threshold = 1000067800

abbrev pub nsec_per_sec : ℕ
nsec_per_sec = 1000000000

-- The generation behind another one: 0 is left out, since it marks the structure as being written.
unfoldable pub next_generation : ℕ → ℕ
next_generation g = let next = (g + 1) % 2 ^ 32 in if next == 0 then 1 else next

unfoldable pub pal_rtc_nanotime_store : ℕ → ℕ → ℕ → ℕ → Nanotime → Nanotime
unfolding next_generation
pal_rtc_nanotime_store tsc nsec scale shift dst = record {
  tsc_base = tsc;
  ns_base = nsec;
  scale = scale;
  shift = shift;
  generation = next_generation (dst.generation);
}

-- The time of the structure at a value of the counter.
unfoldable pub nanoseconds : Nanotime → ℕ → ℕ
nanoseconds info tsc =
    let delta = (tsc + 2 ^ 64 - info.tsc_base) % 2 ^ 64 in
    let shifted = delta * 2 ^ (info.shift % 64) % 2 ^ 64 in
    (shifted * info.scale / 2 ^ 32 + info.ns_base) % 2 ^ 64

-- One round of the reader: the fields as it reads them, the counter, and the generation when it is
-- read again at the end.
pub record Round : Type 0 where
  pub info : Nanotime
  pub tsc : ℕ
  pub generation : ℕ

-- The reader: rounds without an answer are repeated, and `none` is a list of rounds that is too
-- short.
unfoldable pub rtc_nanotime_read : List Round → Option ℕ
unfolding nanoseconds
rtc_nanotime_read [] = none
rtc_nanotime_read (r ∷ rs) =
    if r.info.generation == 0 || not (r.info.generation == r.generation)
    then rtc_nanotime_read rs
    else some (nanoseconds (r.info) (r.tsc))

-- The loop of `rtc_set_timescale`, on fuel: the cycles and the shift.
unfoldable pub scale_up : ℕ → ℕ → ℕ → Outcome (ℕ × ℕ)
scale_up zero cycles shift = running
scale_up (suc fuel) cycles shift =
    let rest = scale_up fuel (cycles * 2 % 2 ^ 64) ((shift + 1) % 2 ^ 32) in
    if leb cycles slow_tsc_threshold then rest else done (cycles, shift)

-- `rtc_set_timescale` with the value of the counter when it sets the base.
unfoldable pub rtc_set_timescale : ℕ → ℕ → ℕ → Nanotime → Outcome Nanotime
unfolding scale_up pal_rtc_nanotime_store
rtc_set_timescale fuel cycles tsc rntp = scale_up fuel cycles 0 >>= λ scaled.
    done (pal_rtc_nanotime_store tsc 0 (nsec_per_sec * 2 ^ 32 / scaled.0 % 2 ^ 32) (scaled.1) rntp)

unfoldable pub rtclock_early_init : ℕ → Tsc → ℕ → Nanotime → Outcome Nanotime
unfolding rtc_set_timescale
rtclock_early_init fuel t tsc rntp =
    if t.tsc_freq == 0 then failed else rtc_set_timescale fuel (t.tsc_freq) tsc rntp

-- `absolutetime_to_nanotime`: the seconds and the nanoseconds.
unfoldable pub absolutetime_to_nanotime : ℕ → ℕ × ℕ
absolutetime_to_nanotime abstime = (abstime / nsec_per_sec, abstime % nsec_per_sec)

unfoldable pub clock_get_system_nanotime : List Round → Option (ℕ × ℕ)
unfolding rtc_nanotime_read absolutetime_to_nanotime
clock_get_system_nanotime rounds = elim (rtc_nanotime_read rounds) [
  | none ↦ none
  | some now ↦ some (absolutetime_to_nanotime now)
]
