-- ===== src/Rtclock/Examples.antt =====
-- Tests of the clock of Kernel/Kernel/i386/rtclock.c, and the theorems at concrete clocks.
use beta_os.Prelude.{ℕ, ◌+◌, ◌-◌, ◌*◌, ◌^◌, ◌≤◌, ◌≡◌, refl, true, false, some, List, [], ◌∷◌, arith}
use beta_os.Tsc.Factors.{Tsc, zero_tsc, done, running}
use beta_os.Rtclock.Nanotime.{
  Nanotime, Round, pal_rtc_nanotime_info, nsec_per_sec, rtc_nanotime_read, rtc_set_timescale,
  rtclock_early_init, clock_get_system_nanotime,
}
use beta_os.Rtclock.Accuracy.{undisturbed, early_init-accurate}
use beta_os.Rtclock.Timer.{
  Cpu, rtc_timer_lapic, null_call, timer_resync_deadlines, ClockFrequencyInfo, rtclock_init,
}
use beta_os.Rtclock.Deadline.{rtclock_init-null_call}

-- A counter of 2.4 GHz, and one of 500 MHz.
abbrev fast_tsc : Tsc
fast_tsc = record zero_tsc { tsc_freq = 2400000000 }

abbrev slow_tsc : Tsc
slow_tsc = record zero_tsc { tsc_freq = 500000000 }

abbrev slow_info : Nanotime
slow_info = record { tsc_base = 100; ns_base = 0; scale = 2147483648; shift = 2; generation = 2 }

slow_test : rtclock_early_init 31 slow_tsc 100 pal_rtc_nanotime_info ≡ done slow_info
unfolding rtclock_early_init
slow_test = refl

-- Two seconds and a half, read after a round that a write has disturbed.
abbrev rounds : List Round
rounds =
    record { info = slow_info; tsc = 100; generation = 0 } ∷ undisturbed slow_info 1250000100 ∷ []

system_nanotime_test : clock_get_system_nanotime rounds ≡ some (2, 500000000)
unfolding clock_get_system_nanotime
system_nanotime_test = refl

-- With the frequency 0 the loop does not end.
stopped_test : rtc_set_timescale 1000 0 100 pal_rtc_nanotime_info ≡ running
unfolding rtc_set_timescale
stopped_test = refl

early_init-accurate_example :
    (info : Nanotime) × (rtclock_early_init 31 fast_tsc 1000 pal_rtc_nanotime_info ≡ done info)
    × (ns : ℕ) × (rtc_nanotime_read (undisturbed info 2400001000 ∷ []) ≡ some ns)
    × (ns * 2400000000 ≤ (2400001000 - 1000) * nsec_per_sec)
    × ((2400001000 - 1000) * nsec_per_sec * 2 ^ 32
        ≤ ((ns + 1) * 2 ^ 32 + (2400001000 - 1000) * 2 ^ info.shift) * 2400000000)
early_init-accurate_example =
    early_init-accurate fast_tsc 1000 2400001000 pal_rtc_nanotime_info [] (omega arith)
      (omega arith) (omega arith) (omega arith) (omega arith)

abbrev cpu : Cpu
cpu = record {
  running = true;
  interrupts = true;
  deadline = 5000;
  has_expired = false;
  rtc_deadline = 0;
  rtc_pop = 0;
}

abbrev no_info : ClockFrequencyInfo
no_info = record {
  cpu_clock_rate_hz = 0;
  cpu_frequency_hz = 0;
  cpu_frequency_min_hz = 0;
  cpu_frequency_max_hz = 0;
}

rtclock_init-null_call_example :
    (rtclock_init rtc_timer_lapic fast_tsc true 4000 no_info (record cpu { interrupts = false })
      ≡ null_call)
    × (timer_resync_deadlines rtc_timer_lapic 4000 cpu ≡ null_call)
rtclock_init-null_call_example =
    rtclock_init-null_call fast_tsc true 4000 no_info (record cpu { interrupts = false }) cpu
      (omega arith) refl
