-- ===== src/Lapic/Ready.antt =====
-- The start of the controller, `smp_init` of Kernel/Kernel/i386/mp.c over
-- Kernel/Kernel/i386/lapic.c.
use beta_os.Prelude.{
  ℕ, ◌%◌, ◌^◌, ◌<◌, ◌≡◌, ◌↔◌, refl, ◌∙◌, Bool, false, not, ◌&&◌, ◌||◌, ◌==◌, if_case, arith,
}
use beta_os.Lapic.State.{
  tpr, svr, error_status, lvt_timer, lvt_thermal, lvt_perfcnt, lvt_error, timer_divide_config,
  perfcnt_interrupt, timer_interrupt, thermal_interrupt, error_interrupt, spurious_interrupt,
  vector_of, set_bit, Lapic,
}
use beta_os.Lapic.Ops.{lapic_read, lapic_write}
use beta_os.Lapic.Init.{program_vectors, program_errors, program_timer, lapic_probe}
use beta_os.Lapic.Registers.{SameVariables, lapic_write-SameVariables, lapic_read-lapic_write}

-- lapic_probe finds a controller exactly if one of the lower 55 feature bits is set, whether or
-- not bit 9, which stands for it, is.
pub lapic_probe-features :
    (features : ℕ) → features < 2 ^ 64 → (lapic_probe features ≡ false) ↔ (features % 2 ^ 55 ≡ 0)
unfolding lapic_probe
lapic_probe-features features word = ground arith

then_same : {l m n : Lapic} → SameVariables l m → SameVariables m n → SameVariables l n
then_same p q = record {
  mode = p.mode ∙ q.mode;
  cpus = p.cpus ∙ q.cpus;
  functions = p.functions ∙ q.functions;
}

module _ (l : Lapic) where
  pub vectors-SameVariables : SameVariables (program_vectors l) l
  unfolding program_vectors
  vectors-SameVariables =
      let a = lapic_write tpr 0 l in
      let b = lapic_write svr (set_bit (vector_of spurious_interrupt) 8) a in
      let c = lapic_write lvt_timer (vector_of timer_interrupt) b in
      let d = lapic_write lvt_perfcnt (vector_of perfcnt_interrupt) c in
      then_same (lapic_write-SameVariables lvt_thermal (vector_of thermal_interrupt) d) (
        then_same (lapic_write-SameVariables lvt_perfcnt (vector_of perfcnt_interrupt) c) (
          then_same (lapic_write-SameVariables lvt_timer (vector_of timer_interrupt) b) (
            then_same (lapic_write-SameVariables svr (set_bit (vector_of spurious_interrupt) 8) a)
              (lapic_write-SameVariables tpr 0 l))))

  pub read-program_vectors :
      (lapic_read (program_vectors l) lvt_timer ≡ 0xDD)
      × (lapic_read (program_vectors l) svr ≡ 0x1DA)
  unfolding program_vectors
  read-program_vectors = (simp lapic_read-lapic_write refl, simp lapic_read-lapic_write refl)

  abbrev clears_errors : Bool
  clears_errors = l.cpu == l.master_cpu && not (l.errors_masked) || not (l.cpu == l.master_cpu)

  pub read-program_errors :
      (lapic_read (program_errors l) lvt_timer ≡ lapic_read l lvt_timer)
      × (lapic_read (program_errors l) svr ≡ lapic_read l svr)
  unfolding program_errors
  read-program_errors = (
    if_case (λ m. lapic_read m lvt_timer ≡ lapic_read l lvt_timer) clears_errors
        (λ e. simp lapic_read-lapic_write refl) (λ e. refl),
    if_case (λ m. lapic_read m svr ≡ lapic_read l svr) clears_errors
        (λ e. simp lapic_read-lapic_write refl) (λ e. refl),
  )

  pub errors-SameVariables : SameVariables (program_errors l) l
  unfolding program_errors
  errors-SameVariables =
      if_case (λ m. SameVariables m l) clears_errors
        (λ e.
          let a = lapic_write error_status 0 l in
          let b = lapic_write error_status 0 a in
          then_same (lapic_write-SameVariables lvt_error (vector_of error_interrupt) b) (
            then_same (lapic_write-SameVariables error_status 0 a)
              (lapic_write-SameVariables error_status 0 l)))
        (λ e. record { mode = refl; cpus = refl; functions = refl })

  pub read-program_timer :
      lapic_read l lvt_timer ≡ 0xDD
      → (lapic_read (program_timer l) lvt_timer ≡ 0x200DD)
        × (lapic_read (program_timer l) svr ≡ lapic_read l svr)
  unfolding program_timer
  read-program_timer e = (simp (lapic_read-lapic_write, e) refl, simp lapic_read-lapic_write refl)

  pub timer-SameVariables : SameVariables (program_timer l) l
  unfolding program_timer
  timer-SameVariables =
      then_same (lapic_write-SameVariables timer_divide_config 3 _)
        (lapic_write-SameVariables lvt_timer _ l)
