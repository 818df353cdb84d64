-- ===== src/Lapic/Interrupt.antt =====
-- The functions for interrupts in Kernel/Kernel/i386/lapic.c, and the start that
-- Kernel/Kernel/i386/mp.c makes of the file.
use beta_os.Prelude.{
  ℕ, zero, suc, ◌+◌, ◌-◌, Bool, true, false, ◌||◌, Option, none, some, ltb, ◌==◌, if◌then◌else◌,
  ◌>>=◌,
}
use beta_os.Lapic.State.{
  lvt_error, perfcnt_interrupt, interprocessor_interrupt, timer_interrupt, thermal_interrupt,
  error_interrupt, spurious_interrupt, cmci_interrupt, pm_interrupt, nmi_interrupt, interrupt_base,
  vector_of, bit, set_bit, lvt_masked, called, interrupts, saw, icr, Lapic, update, record_event,
}
use beta_os.Lapic.Ops.{lapic_read, lapic_write, lapic_write_icr}
use beta_os.Lapic.CpuMap.{to_uint32}
use beta_os.Lapic.Init.{
  lapic_init, lapic_probe, lapic_end_of_interrupt, lapic_unmask_perfcnt_interrupt,
}

-- The interrupts that a function can be registered for.
unfoldable pub has_function : ℕ → Bool
has_function n =
    n == nmi_interrupt
    || n == interprocessor_interrupt
    || n == timer_interrupt
    || n == thermal_interrupt
    || n == perfcnt_interrupt
    || n == cmci_interrupt
    || n == pm_interrupt

-- lapic_set_intr_func; for an invalid vector it only prints.
unfoldable pub lapic_set_intr_func : ℕ → Option ℕ → Lapic → Lapic
unfolding has_function
lapic_set_intr_func vector func l =
    let n = (if ltb interrupt_base vector then vector - interrupt_base else vector) in
    if has_function n then record l { intr_func = update (l.intr_func) n func } else l

-- The call of a registered function, if there is one.
unfoldable pub call : Option ℕ → Lapic → Lapic
call none l = l
call (some f) l = record_event (called f) l

unfoldable pub handle_perfcnt : Option ℕ → Lapic → ℕ × Lapic
unfolding call lapic_unmask_perfcnt_interrupt lapic_end_of_interrupt
handle_perfcnt none l = (0, l)
handle_perfcnt (some f) l =
    (1, lapic_end_of_interrupt (lapic_unmask_perfcnt_interrupt (call (some f) l)))

-- lapic_interrupt: what it returns, and the state; an interrupt below the base is not its own.
unfoldable pub lapic_interrupt : ℕ → Lapic → ℕ × Lapic
unfolding call handle_perfcnt lapic_end_of_interrupt lapic_read lapic_write
lapic_interrupt interrupt_num l =
    let n = interrupt_num - interrupt_base in
    if ltb interrupt_num interrupt_base
    then (0, l)
    else if n == timer_interrupt
        || n == thermal_interrupt
        || n == interprocessor_interrupt
        || n == pm_interrupt
    then (1, lapic_end_of_interrupt (call (l.intr_func n) l))
    else if n == perfcnt_interrupt
    then handle_perfcnt (l.intr_func n) l
    else if n == cmci_interrupt
    then (0, call (l.intr_func n) l)
    else if n == error_interrupt
    then (
      1,
      lapic_end_of_interrupt
          (lapic_write lvt_error (set_bit (lapic_read l lvt_error) lvt_masked) l),
    )
    else if n == spurious_interrupt
    then (1, l)
    else (0, l)

-- The loop that waits for the bit LAPIC_ICR_DS_PENDING to clear; `status n` is what is read there
-- the n-th time.
unfoldable pub wait_delivery : ℕ → (ℕ → ℕ) → ℕ → Lapic → Option Lapic
wait_delivery zero status n l = none
wait_delivery (suc rounds) status n l =
    let l' = record_event (saw icr (status n)) l in
    let rest = wait_delivery rounds status (n + 1) l' in if bit (status n) 12 then rest else some l'

-- lapic_send_ipi; `enabled` says whether interrupts are enabled at the call.
unfoldable pub lapic_send_ipi : ℕ → (ℕ → ℕ) → Bool → ℕ → ℕ → Lapic → Option Lapic
unfolding wait_delivery lapic_write_icr
lapic_send_ipi rounds status enabled cpu vector l =
    let v = (if ltb vector interrupt_base then vector + interrupt_base else vector) in
    wait_delivery rounds status 0 (record_event (interrupts false) l) >>= λ ready. some (
      record_event (interrupts enabled)
        (lapic_write_icr (to_uint32 (ready.cpu_to_lapic cpu)) v ready))

-- i386_smp_init of mp.c, over the processor's features: whether there is a controller.
unfoldable pub i386_smp_init : ℕ → ℕ → Option ℕ → ℕ → Option ℕ → Lapic → Option (Bool × Lapic)
unfolding lapic_probe lapic_init lapic_set_intr_func
i386_smp_init features nmi_vector nmi_handler ipi_vector ipi_handler l =
    if lapic_probe features
    then (lapic_init l >>= λ l'. some (
      true,
      lapic_set_intr_func ipi_vector ipi_handler (lapic_set_intr_func nmi_vector nmi_handler l'),
    ))
    else some (false, l)

-- smp_init of mp.c; the result is what becomes of `smp_initialized`.
unfoldable pub smp_init : ℕ → ℕ → ℕ → Lapic → Option (Bool × Lapic)
unfolding i386_smp_init
smp_init features nmi_handler signal_handler l =
    i386_smp_init features nmi_interrupt (some nmi_handler) (vector_of interprocessor_interrupt)
      (some signal_handler) l
