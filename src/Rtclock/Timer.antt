-- ===== src/Rtclock/Timer.antt =====
-- The timer of Kernel/Kernel/i386/rtclock.c: the pops that it requests, the deadlines, and the
-- clock's initialisation. A reading of the nanotime is a parameter where the code takes one.
use beta_os.Prelude.{
  ℕ, ◌+◌, ◌-◌, ◌*◌, ◌/◌, ◌%◌, ◌^◌, Bool, false, not, ◌&&◌, ◌||◌, Option, none, some, leb, ltb, ◌==◌,
  if◌then◌else◌,
}
use beta_os.Tsc.Factors.{Tsc}

abbrev pub end_of_all_time : ℕ
end_of_all_time = 0xFFFFFFFFFFFFFFFF

-- What the code keeps of a processor: whether it runs and has interrupts on, its timer
-- (rtclock_timer_t), and the deadlines that are set (x86_lcpu_t).
pub record Cpu : Type 0 where
  pub running : Bool
  pub interrupts : Bool
  pub deadline : ℕ
  pub has_expired : Bool
  pub rtc_deadline : ℕ
  pub rtc_pop : ℕ

-- rtc_timer_t: the operations of the timer, each NULL or a function. The one that configures the
-- timer tells whether it returns.
pub record RtcTimer : Type 0 where
  pub rtc_config : Option Bool
  pub rtc_set : Option (ℕ → ℕ → ℕ)

-- rtc_timer_lapic, whose operations the file leaves NULL.
abbrev pub rtc_timer_lapic : RtcTimer
rtc_timer_lapic = record { rtc_config = none; rtc_set = none }

-- How a call ends: with a value, in a failed assertion, or in a call of NULL.
pub data Ended {ℓ} (A : Type ℓ) : Type ℓ where
  returned : A → Ended A
  asserted : Ended A
  null_call : Ended A

infixl 5 ◌>>=◌
abbrev pub ◌>>=◌ {ℓ κ} : {A : Type ℓ} {B : Type κ} → Ended A → (A → Ended B) → Ended B
returned a >>= f = f a
asserted >>= f = asserted
null_call >>= f = null_call

unfoldable pub call_set : Option (ℕ → ℕ → ℕ) → ℕ → ℕ → Ended ℕ
call_set none time now = null_call
call_set (some set) time now = returned (set time now)

-- `setPop` with the time when it is called: the processor and the decrement.
unfoldable pub set_pop : RtcTimer → ℕ → ℕ → Cpu → Ended (Cpu × ℕ)
unfolding call_set
set_pop timer clock time cpu =
    let clears = time == 0 || time == end_of_all_time in
    let requested = if clears then end_of_all_time else time in
    let now = if clears then 0 else clock in
    call_set (timer.rtc_set) (if clears then 0 else time) now >>= λ pop.
    returned (record cpu { rtc_deadline = requested; rtc_pop = pop }, (pop + 2 ^ 64 - now) % 2 ^ 64)

-- `ml_set_interrupts_enabled`: the old state comes first.
abbrev pub set_interrupts_enabled : Bool → Cpu → Bool × Cpu
set_interrupts_enabled enable cpu = (cpu.interrupts, record cpu { interrupts = enable })

-- The deadline of the timer of a processor.
unfoldable pub pending : Cpu → ℕ
pending cpu =
    if not (cpu.has_expired) && ltb 0 (cpu.deadline) && ltb (cpu.deadline) end_of_all_time
    then cpu.deadline
    else end_of_all_time

unfoldable pub timer_resync_deadlines : RtcTimer → ℕ → Cpu → Ended Cpu
unfolding pending set_pop
timer_resync_deadlines timer clock cpu =
    let (s, off) = set_interrupts_enabled false cpu in
    if not (off.running)
    then returned off
    else (set_pop timer clock (pending off) off >>= λ set.
        returned ((set_interrupts_enabled s (set.0)).1))

unfoldable pub rtc_timer_start : RtcTimer → ℕ → Cpu → Ended Cpu
unfolding timer_resync_deadlines
rtc_timer_start timer clock cpu =
    timer_resync_deadlines timer clock (record cpu { rtc_deadline = end_of_all_time })

-- gClockFrequencyInfo
pub record ClockFrequencyInfo : Type 0 where
  pub cpu_clock_rate_hz : ℕ
  pub cpu_frequency_hz : ℕ
  pub cpu_frequency_min_hz : ℕ
  pub cpu_frequency_max_hz : ℕ

-- `rtc_export_speed`: the speed, rounded to 10 MHz.
unfoldable pub rtc_export_speed : ℕ → ClockFrequencyInfo → ClockFrequencyInfo × ℕ
rtc_export_speed cycles_per_sec info =
    let cycles = (cycles_per_sec + 10000000 / 2) % 2 ^ 64 / 10000000 * 10000000 in
    (
      record info {
        cpu_clock_rate_hz = if leb 0x100000000 cycles then 0xFFFFFFFF else cycles;
        cpu_frequency_hz = cycles;
      },
      cycles,
    )

-- The part of `rtclock_init` that runs on the boot processor only.
unfoldable pub export_on_master : Tsc → Bool → ClockFrequencyInfo → Ended ClockFrequencyInfo
unfolding rtc_export_speed
export_on_master t is_master info =
    let exported = rtc_export_speed (t.tsc_freq) info in
    if not is_master
    then returned info
    else if t.tsc_freq == 0
    then asserted
    else returned (record (exported.0) {
      cpu_frequency_min_hz = exported.1;
      cpu_frequency_max_hz = exported.1;
    })

unfoldable pub call_config : Option Bool → Ended Bool
call_config none = null_call
call_config (some ok) = returned ok

unfoldable pub rtclock_init :
    RtcTimer → Tsc → Bool → ℕ → ClockFrequencyInfo → Cpu → Ended (ClockFrequencyInfo × Cpu)
unfolding export_on_master call_config rtc_timer_start
rtclock_init timer t is_master clock info cpu =
    if cpu.interrupts
    then asserted
    else (export_on_master t is_master info >>= λ exported. call_config (timer.rtc_config) >>= λ ok.
        rtc_timer_start timer clock cpu >>= λ started. returned (exported, started))
