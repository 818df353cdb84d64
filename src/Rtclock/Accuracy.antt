-- ===== src/Rtclock/Accuracy.antt =====
-- How near the nanotime of Kernel/Kernel/i386/rtclock.c comes to the time.
use beta_os.Prelude.{
  ℕ, zero, suc, ◌+◌, ◌-◌, ◌*◌, ◌/◌, ◌%◌, ◌^◌, ◌≤◌, ◌<◌, ◌≡◌, ◌≢◌, ◌⊎◌, refl, sym, ap, subst, true,
  false, inl, inr, some, List, ◌∷◌, ◌==◌, arith,
}
use native.Mathlib.Nat.{
  div-mul-le_self, div-lt_iff_lt-mul, lt-mul-div-succ, mul-le-mul_left, mul-le-mul_right,
  le_of_mul-le-mul_right, lt_of_mul-lt-mul_left,
}
use beta_os.Tsc.Factors.{Tsc, done}
use beta_os.Rtclock.Nanotime.{
  Nanotime, Round, rtc_nanotime_read, slow_tsc_threshold, nsec_per_sec, pal_rtc_nanotime_store,
  next_generation, nanoseconds, rtclock_early_init,
}
use beta_os.Rtclock.Scale.{scale_up-Scaled}

-- The arithmetic of a reading. With `q` the scale for `c` cycles a second, `n` nanoseconds in a
-- second and `w` the scaling of both, `k` shifted ticks are `k * q / w` nanoseconds.
module _ (n w c k : ℕ) (w_pos : 0 < w) (c_pos : 0 < c) where
  abbrev q : ℕ
  q = n * w / c

  abbrev ns : ℕ
  ns = k * q / w

  below_time : ns * c ≤ k * n
  below_time =
      let a : ns * w ≤ k * q = div-mul-le_self (k * q) w in
      let b : q * c ≤ n * w = div-mul-le_self (n * w) c in
      let e : ns * w * c ≤ k * q * c = mul-le-mul_right c a in
      let g : k * (q * c) ≤ k * (n * w) = mul-le-mul_left k b in
      le_of_mul-le-mul_right {m = ns * c} {n = k * n} {k = w} (grind arith) w_pos

  above_time : k * n * w ≤ ((ns + 1) * w + k) * c
  above_time =
      let a : k * q < w * (ns + 1) = lt-mul-div-succ (k * q) w_pos in
      let b : n * w < c * (q + 1) = lt-mul-div-succ (n * w) c_pos in
      let e : k * q * c ≤ w * (ns + 1) * c = mul-le-mul_right c (omega arith) in
      let g : k * (n * w) ≤ k * (c * (q + 1)) = mul-le-mul_left k (omega arith) in grind arith

-- The frequency of the counter, and what `rtclock_early_init` makes of it with the counter at
-- `base`.
record Started (f : ℕ) (info : Nanotime) (base : ℕ) : Type 0 where
  doublings : ℕ
  few : doublings ≤ 30
  fast : slow_tsc_threshold < f * 2 ^ doublings
  tight : (doublings ≡ 0) ⊎ (f * 2 ^ doublings ≤ 2 * slow_tsc_threshold)
  tsc_base : info.tsc_base ≡ base
  ns_base : info.ns_base ≡ 0
  shift : info.shift ≡ doublings
  scale : info.scale ≡ nsec_per_sec * 2 ^ 32 / (f * 2 ^ doublings)
  generation : info.generation ≢ 0

next_generation_pos : (g : ℕ) → next_generation g ≢ 0
unfolding next_generation
next_generation_pos g = ground arith

scale-fits : (c : ℕ) → slow_tsc_threshold < c → nsec_per_sec * 2 ^ 32 / c < 2 ^ 32
scale-fits c fast = (div-lt_iff_lt-mul (omega arith)).1 (omega arith)

early_init-Started :
    (t : Tsc) (tsc : ℕ) (rntp : Nanotime)
    → 0 < t.tsc_freq
    → t.tsc_freq < 2 ^ 64
    → (info : Nanotime) × (rtclock_early_init 31 t tsc rntp ≡ done info)
      × Started (t.tsc_freq) info tsc
unfolding rtclock_early_init pal_rtc_nanotime_store
early_init-Started t tsc rntp above fits =
    let known : (t.tsc_freq == 0) ≡ false = ground arith in
    let s = scale_up-Scaled 30 (t.tsc_freq) 0 fits (omega arith) (omega arith) in
    let c = t.tsc_freq * 2 ^ s.doublings in
    (
      pal_rtc_nanotime_store tsc 0 (nsec_per_sec * 2 ^ 32 / c % 2 ^ 32) (0 + s.doublings) rntp,
      rw (known, s.result) refl,
      record {
        doublings = s.doublings;
        few = s.few;
        fast = s.fast;
        tight = s.tight;
        tsc_base = refl;
        ns_base = refl;
        shift = omega arith;
        scale = omega (arith, scale-fits c (s.fast));
        generation = next_generation_pos (rntp.generation);
      },
    )

mod_small : {n : ℕ} → n < 2 ^ 64 → n % 2 ^ 64 ≡ n
mod_small h = omega arith

sum_small : {n : ℕ} → n < 2 ^ 64 → (n + 0) % 2 ^ 64 ≡ n
sum_small h = omega arith

cancel_left : (x f p d n : ℕ) → 0 < p → x * (f * p) ≤ d * p * n → x * f ≤ d * n
cancel_left x f p d n p_pos le =
    le_of_mul-le-mul_right {m = x * f} {n = d * n} {k = p} (grind arith) p_pos

cancel_right : (x f p d n w : ℕ) → 0 < p → d * p * n * w ≤ x * (f * p) → d * n * w ≤ x * f
cancel_right x f p d n w p_pos le =
    le_of_mul-le-mul_right {m = d * n * w} {n = x * f} {k = p} (grind arith) p_pos

module _ (f d s : ℕ) (f_pos : 0 < f) where
  pow_pos : (n : ℕ) → 0 < 2 ^ n
  pow_pos zero = omega arith
  pow_pos (suc n) = omega (arith, pow_pos n)

  -- The ticks fit 64 bits after the shift.
  shifted-fits :
      d < 2 ^ 64
      → d * (2 * slow_tsc_threshold) < 2 ^ 64 * f
      → (s ≡ 0) ⊎ (f * 2 ^ s ≤ 2 * slow_tsc_threshold)
      → d * 2 ^ s < 2 ^ 64
  shifted-fits small soon (inl none_more) = rw none_more (omega arith)
  shifted-fits small soon (inr tight) =
      let a : d * (f * 2 ^ s) ≤ d * (2 * slow_tsc_threshold) = mul-le-mul_left d tight in
      lt_of_mul-lt-mul_left f {m = d * 2 ^ s} {n = 2 ^ 64} (grind arith)

  c_pos : 0 < f * 2 ^ s
  c_pos = grind (arith, pow_pos s)

  -- The nanoseconds that are read.
  abbrev read : ℕ
  read = d * 2 ^ s * (nsec_per_sec * 2 ^ 32 / (f * 2 ^ s)) / 2 ^ 32

  never_ahead : read * f ≤ d * nsec_per_sec
  never_ahead =
      cancel_left read f (2 ^ s) d nsec_per_sec (pow_pos s)
        (below_time nsec_per_sec (2 ^ 32) (f * 2 ^ s) (d * 2 ^ s) (omega arith) c_pos)

  soon_behind : d * nsec_per_sec * 2 ^ 32 ≤ ((read + 1) * 2 ^ 32 + d * 2 ^ s) * f
  soon_behind =
      cancel_right ((read + 1) * 2 ^ 32 + d * 2 ^ s) f (2 ^ s) d nsec_per_sec (2 ^ 32) (pow_pos s)
        (above_time nsec_per_sec (2 ^ 32) (f * 2 ^ s) (d * 2 ^ s) (omega arith) c_pos)

  read-fits : d * 2 ^ s < 2 ^ 64 → slow_tsc_threshold < f * 2 ^ s → read < 2 ^ 64
  read-fits small fast =
      let scale = nsec_per_sec * 2 ^ 32 / (f * 2 ^ s) in
      let a : scale ≤ 2 ^ 32 = omega (arith, scale-fits (f * 2 ^ s) fast) in
      let b : d * 2 ^ s * scale ≤ d * 2 ^ s * 2 ^ 32 = mul-le-mul_left (d * 2 ^ s) a in
      (div-lt_iff_lt-mul {k = 2 ^ 32} {x = d * 2 ^ s * scale} {y = 2 ^ 64} (omega arith)).1
        (omega arith)

-- A round of the reader at `now`, without a write of the structure on the way.
abbrev pub undisturbed : Nanotime → ℕ → Round
undisturbed info now = record { info = info; tsc = now; generation = info.generation }

read_lem :
    (f tsc now : ℕ) (info : Nanotime) (later : List Round) (h : Started f info tsc)
    → tsc ≤ now
    → now < 2 ^ 64
    → (now - tsc) * 2 ^ h.doublings < 2 ^ 64
    → (now - tsc) * 2 ^ h.doublings * (nsec_per_sec * 2 ^ 32 / (f * 2 ^ h.doublings)) / 2 ^ 32
      < 2 ^ 64
    → rtc_nanotime_read (undisturbed info now ∷ later)
      ≡ some
          ((now - tsc) * 2 ^ h.doublings * (nsec_per_sec * 2 ^ 32 / (f * 2 ^ h.doublings)) / 2 ^ 32)
unfolding rtc_nanotime_read nanoseconds
read_lem f tsc now info later h after now_fits small fits =
    let s = h.doublings in
    let valid : (info.generation == 0) ≡ false = ground (arith, h.generation) in
    let same : (info.generation == info.generation) ≡ true = ground arith in
    let delta : (now + 2 ^ 64 - tsc) % 2 ^ 64 ≡ now - tsc = omega arith in
    let few : s % 64 ≡ s = omega (arith, h.few) in
    rw (valid, same, h.tsc_base, h.ns_base, h.shift, h.scale, delta, few, mod_small small)
      (ap some (sum_small fits))

-- After `rtclock_early_init` the time is right: 31 rounds of its loop are enough, for each
-- frequency above 0, and a reading `d` ticks later, up to 292 years, is never ahead of the time, and
-- behind it by at most a nanosecond and the time of one tick for each 2^32 shifted ticks.
pub early_init-accurate :
    (t : Tsc) (tsc now : ℕ) (rntp : Nanotime) (later : List Round)
    → 0 < t.tsc_freq
    → t.tsc_freq < 2 ^ 64
    → tsc ≤ now
    → now < 2 ^ 64
    → (now - tsc) * (2 * slow_tsc_threshold) < 2 ^ 64 * t.tsc_freq
    → (info : Nanotime) × (rtclock_early_init 31 t tsc rntp ≡ done info)
      × (ns : ℕ) × (rtc_nanotime_read (undisturbed info now ∷ later) ≡ some ns)
      × (ns * t.tsc_freq ≤ (now - tsc) * nsec_per_sec)
      × ((now - tsc) * nsec_per_sec * 2 ^ 32
          ≤ ((ns + 1) * 2 ^ 32 + (now - tsc) * 2 ^ info.shift) * t.tsc_freq)
early_init-accurate t tsc now rntp later above fits after now_fits soon =
    let (info, e, h) = early_init-Started t tsc rntp above fits in
    let d = now - tsc in
    let s = h.doublings in
    let f = t.tsc_freq in
    let shifted = shifted-fits f d s above (omega arith) soon (h.tight) in
    (
      info,
      e,
      read f d s above,
      read_lem f tsc now info later h after now_fits shifted
          (read-fits f d s above shifted (h.fast)),
      never_ahead f d s above,
      subst (λ n. d * nsec_per_sec * 2 ^ 32 ≤ ((read f d s above + 1) * 2 ^ 32 + d * 2 ^ n) * f)
          (sym (h.shift)) (soon_behind f d s above),
    )
