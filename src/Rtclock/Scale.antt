-- ===== src/Rtclock/Scale.antt =====
-- The loop of `rtc_set_timescale` in Kernel/Kernel/i386/rtclock.c ends with a fast enough counter.
use beta_os.Prelude.{
  ℕ, zero, suc, ◌+◌, ◌*◌, ◌%◌, ◌^◌, ◌≤◌, ◌<◌, ◌≡◌, ◌⊎◌, refl, sym, ap₂, ◌∙◌, subst, true, false,
  inl, inr, leb, Bool-cases, arith,
}
use beta_os.Tsc.Factors.{done}
use beta_os.Rtclock.Nanotime.{slow_tsc_threshold, scale_up}

double_pow : (c n : ℕ) → c * 2 ^ suc n ≡ c * 2 * 2 ^ n
double_pow c n = grind arith

scale_up-slow :
    (fuel cycles shift : ℕ)
    → cycles ≤ slow_tsc_threshold
    → shift + 1 < 2 ^ 32
    → scale_up (suc fuel) cycles shift ≡ scale_up fuel (cycles * 2) (shift + 1)
unfolding scale_up
scale_up-slow fuel cycles shift below small =
    let slow : leb cycles slow_tsc_threshold ≡ true = ground arith in
    let twice : cycles * 2 % 2 ^ 64 ≡ cycles * 2 = omega arith in
    let next : (shift + 1) % 2 ^ 32 ≡ shift + 1 = omega arith in rw (slow, twice, next) refl

scale_up-fast :
    (fuel cycles shift : ℕ)
    → slow_tsc_threshold < cycles
    → scale_up (suc fuel) cycles shift ≡ done (cycles * 2 ^ 0, shift + 0)
unfolding scale_up
scale_up-fast fuel cycles shift above =
    let fast : leb cycles slow_tsc_threshold ≡ false = ground arith in
    rw fast (ap₂ (λ c s. done (c, s)) (omega arith) (omega arith))

twice_tight :
    (c n : ℕ)
    → c ≤ slow_tsc_threshold
    → (n ≡ 0) ⊎ (c * 2 * 2 ^ n ≤ 2 * slow_tsc_threshold)
    → c * 2 ^ suc n ≤ 2 * slow_tsc_threshold
twice_tight c n below (inl none_more) = rw none_more (omega arith)
twice_tight c n below (inr le) = rw (double_pow c n) le

-- What the loop makes of a number of cycles.
pub record Scaled (fuel cycles shift : ℕ) : Type 0 where
  pub doublings : ℕ
  pub few : doublings ≤ fuel
  pub result : scale_up (suc fuel) cycles shift ≡ done (cycles * 2 ^ doublings, shift + doublings)
  pub fast : slow_tsc_threshold < cycles * 2 ^ doublings
  pub fits : cycles * 2 ^ doublings < 2 ^ 64
  pub tight : (doublings ≡ 0) ⊎ (cycles * 2 ^ doublings ≤ 2 * slow_tsc_threshold)

pub scale_up-Scaled :
    (fuel cycles shift : ℕ)
    → cycles < 2 ^ 64
    → shift + fuel < 2 ^ 32
    → slow_tsc_threshold < cycles * 2 ^ fuel
    → Scaled fuel cycles shift
scale_up-Scaled zero cycles shift fits small enough = record {
  doublings = 0;
  few = omega arith;
  result = scale_up-fast zero cycles shift (omega arith);
  fast = enough;
  fits = omega arith;
  tight = inl refl;
}
scale_up-Scaled (suc fuel) cycles shift fits small enough =
    elim (Bool-cases (leb cycles slow_tsc_threshold)) [
      | inl slow ↦
          let below : cycles ≤ slow_tsc_threshold = ground arith in
          let rest =
            scale_up-Scaled fuel (cycles * 2) (shift + 1) (omega arith) (omega arith)
              (subst (λ n. slow_tsc_threshold < n) (double_pow cycles fuel) enough) in
          let same = double_pow cycles (rest.doublings) in
          record {
            doublings = suc (rest.doublings);
            few = omega (arith, rest.few);
            result =
                scale_up-slow (suc fuel) cycles shift below (omega arith)
                ∙ (rest.result ∙ ap₂ (λ c s. done (c, s)) (sym same) (omega arith));
            fast = subst (λ n. slow_tsc_threshold < n) (sym same) (rest.fast);
            fits = subst (λ n. n < 2 ^ 64) (sym same) (rest.fits);
            tight = inr (twice_tight cycles (rest.doublings) below (rest.tight));
          }
      | inr quick ↦
          let above : slow_tsc_threshold < cycles = ground arith in
          record {
            doublings = 0;
            few = omega arith;
            result = scale_up-fast (suc fuel) cycles shift above;
            fast = omega arith;
            fits = omega arith;
            tight = inl refl;
          }
    ]
