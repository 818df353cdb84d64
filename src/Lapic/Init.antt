-- ===== src/Lapic/Init.antt =====
-- `lapic_init`, `lapic_probe` and the timer and counter settings of Kernel/Kernel/i386/lapic.c.
use beta_os.Prelude.{
  ℕ, ◌*◌, ◌/◌, ◌%◌, ◌^◌, Bool, not, ◌&&◌, ◌||◌, Option, none, some, ltb, ◌==◌, if◌then◌else◌, ◌>>=◌,
}
use beta_os.Lapic.State.{
  id, version, tpr, eoi, svr, error_status, lvt_timer, lvt_thermal, lvt_perfcnt, lvt_error,
  timer_initial_count, timer_divide_config, perfcnt_interrupt, timer_interrupt, thermal_interrupt,
  error_interrupt, spurious_interrupt, vector_of, bit, set_bit, clear_bit, lvt_masked, lvt_periodic,
  lvt_tsc_deadline, Lapic,
}
use beta_os.Lapic.Ops.{msr_ia32_apic_base, lapic_ops_init, lapic_read, lapic_write}
use beta_os.Lapic.CpuMap.{lapic_cpu_map_init, lapic_cpu_map}

-- The mode and the base address from the register that has them.
unfoldable pub read_apic_base : Lapic → Lapic
read_apic_base l =
    let low = l.msr msr_ia32_apic_base % 2 ^ 32 in
    record l { is_x2apic = bit low 10; pbase = low / 2 ^ 12 * 2 ^ 12 }

-- The identifier and the version, as lapic_init reads them.
abbrev pub read_id : Lapic → ℕ
read_id l = lapic_read l id / 2 ^ 24 % 2 ^ 8

abbrev pub read_version : Lapic → ℕ
read_version l = lapic_read l version % 2 ^ 8

-- The writes that let interrupts through: the priority, the spurious vector with the enable bit,
-- and the three sources.
unfoldable pub program_vectors : Lapic → Lapic
program_vectors l = lapic_write lvt_thermal (vector_of thermal_interrupt) (
    lapic_write lvt_perfcnt (vector_of perfcnt_interrupt) (
      lapic_write lvt_timer (vector_of timer_interrupt)
        (lapic_write svr (set_bit (vector_of spurious_interrupt) 8) (lapic_write tpr 0 l))))

unfoldable pub program_errors : Lapic → Lapic
program_errors l =
    if l.cpu == l.master_cpu && not (l.errors_masked) || not (l.cpu == l.master_cpu)
    then lapic_write lvt_error (vector_of error_interrupt)
        (lapic_write error_status 0 (lapic_write error_status 0 l))
    else l

-- Periodic, not masked, without a deadline, divided by 16.
unfoldable pub program_timer : Lapic → Lapic
program_timer l =
    let vec = clear_bit (clear_bit (lapic_read l lvt_timer) lvt_masked) lvt_tsc_deadline in
    lapic_write timer_divide_config 3 (lapic_write lvt_timer (set_bit vec lvt_periodic) l)

-- lapic_init; `none` is panic. The message on x2APIC has no effect, so `cpuid_features` is not read.
unfoldable pub lapic_init : Lapic → Option Lapic
lapic_init l =
    let low = l.msr msr_ia32_apic_base % 2 ^ 32 in
    let ready = lapic_ops_init (read_apic_base l) in
    if not (bit low 8) || not (bit low 11)
    then none
    else if ltb (read_version ready) 0x14
    then none
    else (lapic_cpu_map (read_id ready) 0 (lapic_cpu_map_init ready) >>= λ mapped. some (
        program_timer (
          program_errors
            (program_vectors (record mapped { phys_number = mapped.cpu_to_lapic 0 })))))

-- lapic_probe: the features are multiplied by CPUID_FEATURE_APIC, in 64 bits.
unfoldable pub lapic_probe : ℕ → Bool
lapic_probe features = not (features * 2 ^ 9 % 2 ^ 64 == 0)

unfoldable pub lapic_end_of_interrupt : Lapic → Lapic
unfolding lapic_write
lapic_end_of_interrupt l = lapic_write eoi 0 l

unfoldable pub lapic_unmask_perfcnt_interrupt : Lapic → Lapic
lapic_unmask_perfcnt_interrupt l = lapic_write lvt_perfcnt (vector_of perfcnt_interrupt) l

unfoldable pub lapic_set_perfcnt_interrupt_mask : Bool → Lapic → Lapic
unfolding lapic_write
lapic_set_perfcnt_interrupt_mask mask l =
    lapic_write lvt_perfcnt
      (if mask
        then set_bit (vector_of perfcnt_interrupt) lvt_masked
        else vector_of perfcnt_interrupt)
      l

unfoldable pub lapic_set_timer : ℕ → Lapic → Lapic
unfolding lapic_read lapic_write
lapic_set_timer initial_count l =
    lapic_write timer_initial_count initial_count
      (lapic_write lvt_timer (clear_bit (lapic_read l lvt_timer) lvt_masked) l)
