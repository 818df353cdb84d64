-- ===== src/Lapic/Eoi.antt =====
-- How often `lapic_interrupt` of Kernel/Kernel/i386/lapic.c acknowledges an interrupt.
use beta_os.Prelude.{
  ℕ, ◌+◌, ◌-◌, ◌≡◌, refl, ◌||◌, Option, none, some, List, [], ◌∷◌, ltb, ◌==◌, if◌then◌else◌,
  if_case, arith,
}
use beta_os.Lapic.State.{
  eoi, lvt_error, lvt_perfcnt, perfcnt_interrupt, interprocessor_interrupt, timer_interrupt,
  thermal_interrupt, error_interrupt, spurious_interrupt, cmci_interrupt, pm_interrupt,
  interrupt_base, vector_of, set_bit, lvt_masked, Event, wrote, called, interrupts, saw, Lapic,
}
use beta_os.Lapic.Ops.{lapic_read, lapic_write}
use beta_os.Lapic.Init.{lapic_end_of_interrupt, lapic_unmask_perfcnt_interrupt}
use beta_os.Lapic.Interrupt.{call, handle_perfcnt, lapic_interrupt}
use beta_os.Lapic.Registers.{log-lapic_write}

-- How often the register for the end of an interrupt was written.
abbrev pub eois : List Event → ℕ
eois [] = 0
eois (wrote reg value ∷ es) = (if reg == eoi then 1 else 0) + eois es
eois (called f ∷ es) = eois es
eois (interrupts b ∷ es) = eois es
eois (saw reg value ∷ es) = eois es

eois-call : (f : Option ℕ) (l : Lapic) → eois ((call f l).log) ≡ eois (l.log)
unfolding call
eois-call none l = refl
eois-call (some f) l = refl

eois-lapic_write :
    (reg value : ℕ) (l : Lapic)
    → eois ((lapic_write reg value l).log) ≡ (if reg == eoi then 1 else 0) + eois (l.log)
eois-lapic_write reg value l = rw (log-lapic_write reg value l) refl

eois-end : (l : Lapic) → eois ((lapic_end_of_interrupt l).log) ≡ 1 + eois (l.log)
unfolding lapic_end_of_interrupt
eois-end l = eois-lapic_write eoi 0 l

eois-handle_perfcnt :
    (f : Option ℕ) (l : Lapic) → let r = handle_perfcnt f l in eois (r.1.log) ≡ eois (l.log) + r.0
unfolding handle_perfcnt lapic_unmask_perfcnt_interrupt call
eois-handle_perfcnt none l = omega arith
eois-handle_perfcnt (some f) l =
    let unmasked = lapic_unmask_perfcnt_interrupt (call (some f) l) in
    let e : eois (unmasked.log) ≡ eois (l.log) =
      ground
        (arith, eois-lapic_write lvt_perfcnt (vector_of perfcnt_interrupt) (call (some f) l)) in
    omega (arith, e, eois-end unmasked)

-- An interrupt that lapic_interrupt takes for its own, for which it returns 1, is acknowledged
-- once, and one that it leaves is not; but the spurious one, for which it returns 1, is not.
pub lapic_interrupt-eois :
    (interrupt_num : ℕ) (l : Lapic)
    → let r = lapic_interrupt interrupt_num l in
      eois (r.1.log) + (if interrupt_num == vector_of spurious_interrupt then 1 else 0)
      ≡ eois (l.log) + r.0
unfolding lapic_interrupt
lapic_interrupt-eois num l =
    let n = num - interrupt_base in
    let masked = lapic_write lvt_error (set_bit (lapic_read l lvt_error) lvt_masked) l in
    let acknowledged : eois ((lapic_end_of_interrupt (call (l.intr_func n) l)).log)
        ≡ 1 + eois (l.log) =
      omega (arith, eois-end (call (l.intr_func n) l), eois-call (l.intr_func n) l) in
    let error : eois ((lapic_end_of_interrupt masked).log) ≡ 1 + eois (l.log) = ground (
      arith,
      eois-end masked,
      eois-lapic_write lvt_error (set_bit (lapic_read l lvt_error) lvt_masked) l,
    ) in
    if_case {A = ℕ × Lapic} Balanced (ltb num interrupt_base) (λ e. ground arith)
      (λ own.
        if_case {A = ℕ × Lapic} Balanced
          (n == timer_interrupt
            || n == thermal_interrupt
            || n == interprocessor_interrupt
            || n == pm_interrupt)
          (λ e. ground (arith, acknowledged))
          (λ e.
            if_case {A = ℕ × Lapic} Balanced (n == perfcnt_interrupt)
              (λ e. ground (arith, eois-handle_perfcnt (l.intr_func n) l))
              (λ e.
                if_case {A = ℕ × Lapic} Balanced (n == cmci_interrupt)
                  (λ e. ground (arith, eois-call (l.intr_func n) l))
                  (λ e.
                    if_case {A = ℕ × Lapic} Balanced (n == error_interrupt)
                      (λ e. ground (arith, error))
                      (λ e.
                        if_case {A = ℕ × Lapic} Balanced (n == spurious_interrupt)
                          (λ e. ground arith) (λ e. ground arith))))))
  where
    Balanced : ℕ × Lapic → Type 0
    Balanced r =
        eois (r.1.log) + (if num == vector_of spurious_interrupt then 1 else 0) ≡ eois (l.log) + r.0
