-- ===== src/Rtclock/Deadline.antt =====
-- The timer that Kernel/Kernel/i386/rtclock.c has: its table of operations is empty.
use beta_os.Prelude.{
  ℕ, ◌<◌, ◌≡◌, refl, Bool, false, inl, inr, ◌==◌, if◌then◌else◌, Bool-cases, arith,
}
use beta_os.Tsc.Factors.{Tsc}
use beta_os.Rtclock.Timer.{
  Cpu, rtc_timer_lapic, returned, null_call, timer_resync_deadlines, ClockFrequencyInfo,
  rtclock_init,
}

resync_lem :
    (clock : ℕ) (cpu : Cpu)
    → timer_resync_deadlines rtc_timer_lapic clock cpu
      ≡ (if cpu.running then null_call else returned (record cpu { interrupts = false }))
unfolding timer_resync_deadlines
resync_lem clock cpu = elim (Bool-cases (cpu.running)) [
  | inl up ↦ rw up refl
  | inr down ↦ rw down refl
]

-- With the timer of the file, the only one, and with interrupts disabled and a frequency, as its
-- assertions ask for, rtclock_init always calls NULL, on the boot processor and on others; and
-- timer_resync_deadlines calls NULL on a processor that runs, whatever its deadline, and leaves
-- interrupts off on one that is down, where it returns without turning them on again.
pub rtclock_init-null_call :
    (t : Tsc) (is_master : Bool) (clock : ℕ) (info : ClockFrequencyInfo) (cpu cpu' : Cpu)
    → 0 < t.tsc_freq
    → cpu.interrupts ≡ false
    → (rtclock_init rtc_timer_lapic t is_master clock info cpu ≡ null_call)
      × (timer_resync_deadlines rtc_timer_lapic clock cpu'
          ≡ (if cpu'.running then null_call else returned (record cpu' { interrupts = false })))
unfolding rtclock_init
rtclock_init-null_call t is_master clock info cpu cpu' above off =
    let known : (t.tsc_freq == 0) ≡ false = ground arith in
    (
      elim (Bool-cases is_master) [
        | inl master ↦ rw (off, master, known) refl
        | inr other ↦ rw (off, other) refl
      ],
      resync_lem clock cpu',
    )
