-- ===== src/Lapic/Start.antt =====
-- The start of the controller as a whole: `smp_init` of Kernel/Kernel/i386/mp.c, and the first
-- interrupt between processors, over Kernel/Kernel/i386/lapic.c.
use beta_os.Prelude.{
  ℕ, ◌/◌, ◌<◌, ◌%◌, ◌^◌, ◌≤◌, ◌≡◌, refl, ◌∙◌, ap, true, false, false, inl, inr, Option, some, ◌∷◌,
  ltb, Bool-cases, arith,
}
use beta_os.Prelude.Int.{pos}
use beta_os.Lapic.State.{
  id, eoi, svr, lvt_timer, interprocessor_interrupt, nmi_interrupt, vector_of, bit, wrote, called,
  Lapic, update,
}
use beta_os.Lapic.Ops.{msr_ia32_apic_base, lapic_ops_init, lapic_read}
use beta_os.Lapic.CpuMap.{lapic_cpu_map_init, lapic_cpu_map}
use beta_os.Lapic.Init.{
  read_apic_base, read_id, read_version, program_vectors, program_errors, program_timer, lapic_init,
  lapic_probe, lapic_end_of_interrupt,
}
use beta_os.Lapic.Interrupt.{call, lapic_set_intr_func, lapic_interrupt, smp_init}
use beta_os.Lapic.Registers.{log-lapic_write}
use beta_os.Lapic.Ready.{
  vectors-SameVariables, read-program_vectors, read-program_errors, errors-SameVariables,
  read-program_timer, timer-SameVariables,
}

-- The controller with its mode known and its operations set up.
abbrev pub opened : Lapic → Lapic
opened l = lapic_ops_init (read_apic_base l)

-- The boot processor with its controller enabled, in the legacy mode, where the identifier is the
-- upper byte of its register, and of version 0x14 or later.
pub record IsBootable (l : Lapic) : Type 0 where
  pub boot_cpu : bit (l.msr msr_ia32_apic_base % 2 ^ 32) 8 ≡ true
  pub legacy : bit (l.msr msr_ia32_apic_base % 2 ^ 32) 10 ≡ false
  pub enabled : bit (l.msr msr_ia32_apic_base % 2 ^ 32) 11 ≡ true
  pub version : 0x14 ≤ read_version (opened l)
  pub word : lapic_read (opened l) id < 2 ^ 32

-- The entry of the timer is set to periodic, not masked and with its vector, spurious interrupts
-- have their vector and the controller is on, and the boot processor, 0, has its identifier.
pub record IsRunning (identifier : ℕ) (l : Lapic) : Type 0 where
  pub timer : lapic_read l lvt_timer ≡ 0x200DD
  pub spurious : lapic_read l svr ≡ 0x1DA
  pub mapped : l.cpu_to_lapic 0 ≡ pos identifier

lapic_init-IsRunning :
    (l : Lapic)
    → IsBootable l
    → (m : Lapic) × (lapic_init l ≡ some m) × IsRunning (read_id (opened l)) m
unfolding lapic_init lapic_cpu_map
lapic_init-IsRunning l h =
    let identifier = read_id (opened l) in
    let new : ltb (read_version (opened l)) 0x14 ≡ false = ground (arith, h.version) in
    let fits : ltb identifier 256 ≡ true = ground arith in
    let cleared = lapic_cpu_map_init (opened l) in
    let a : Lapic = record cleared {
      cpu_to_lapic = update (cleared.cpu_to_lapic) 0 (pos identifier);
      lapic_to_cpu = update (cleared.lapic_to_cpu) identifier (pos 0);
      phys_number = pos identifier;
    } in
    let b = program_vectors a in
    let c = program_errors b in
    let timer = read-program_timer c ((read-program_errors b).0 ∙ (read-program_vectors a).0) in
    (
      program_timer c,
      rw (h.boot_cpu, h.enabled, new, fits) refl,
      record {
        timer = timer.0;
        spurious = timer.1 ∙ ((read-program_errors b).1 ∙ (read-program_vectors a).1);
        mapped =
            ap (λ f. f 0)
              ((timer-SameVariables c).cpus
                ∙ ((errors-SameVariables b).cpus ∙ (vectors-SameVariables a).cpus));
      },
    )

read-functions :
    (l : Lapic) (f : ℕ → Option ℕ) (r : ℕ)
    → lapic_read (record l { intr_func = f }) r ≡ lapic_read l r
unfolding lapic_read
read-functions l f r = elim (Bool-cases (l.is_x2apic)) [
  | inl x2 ↦ ground arith
  | inr legacy ↦ ground arith
]

interprocessor_lem :
    (l : Lapic) (f : ℕ)
    → l.intr_func interprocessor_interrupt ≡ some f
    → (lapic_interrupt (vector_of interprocessor_interrupt) l).1.log
      ≡ wrote eoi 0 ∷ called f ∷ l.log
unfolding lapic_interrupt lapic_end_of_interrupt
interprocessor_lem l f h = rw h (log-lapic_write eoi 0 (call (some f) l))

-- On the boot processor, with a controller that is there, enabled, in the legacy mode and new enough,
-- smp_init returns: the entry of the timer is periodic, not masked and has vector 0xDD, the controller is on,
-- and the processor is mapped to the upper byte of the identifier register. In the state that it
-- leaves, an interrupt between processors calls the handler and is then acknowledged.
pub smp_init-IsRunning :
    (features nmi_handler signal_handler : ℕ) (l : Lapic)
    → lapic_probe features ≡ true
    → IsBootable l
    → (m : Lapic) × (smp_init features nmi_handler signal_handler l ≡ some (true, m))
      × IsRunning (lapic_read (opened l) id / 2 ^ 24) m
      × ((lapic_interrupt (vector_of interprocessor_interrupt) m).1.log
          ≡ wrote eoi 0 ∷ called signal_handler ∷ m.log)
unfolding smp_init lapic_set_intr_func
smp_init-IsRunning features nmi_handler signal_handler l probed h =
    let (m, e, k) = lapic_init-IsRunning l h in
    let upper : read_id (opened l) ≡ lapic_read (opened l) id / 2 ^ 24 = omega (arith, h.word) in
    let f = update (m.intr_func) nmi_interrupt (some nmi_handler) in
    let g = update f interprocessor_interrupt (some signal_handler) in
    let n : Lapic = record m { intr_func = g } in
    (
      n,
      rw (probed, e) refl,
      record {
        timer = read-functions m g lvt_timer ∙ k.timer;
        spurious = read-functions m g svr ∙ k.spurious;
        mapped = k.mapped ∙ ap pos upper;
      },
      interprocessor_lem n signal_handler refl,
    )
