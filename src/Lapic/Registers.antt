-- ===== src/Lapic/Registers.antt =====
-- What the registers of Kernel/Kernel/i386/lapic.c hold after a write, in either mode.
use beta_os.Prelude.{ℕ, ◌%◌, ◌^◌, ◌≡◌, refl, inl, inr, ◌∷◌, ◌==◌, if◌then◌else◌, Bool-cases, arith}
use beta_os.Lapic.State.{wrote, Lapic}
use beta_os.Lapic.Ops.{lapic_read, lapic_write}

-- What a write leaves as it is.
pub record SameVariables (l m : Lapic) : Type 0 where
  pub mode : l.is_x2apic ≡ m.is_x2apic
  pub cpus : l.cpu_to_lapic ≡ m.cpu_to_lapic
  pub functions : l.intr_func ≡ m.intr_func

module _ (reg value : ℕ) (l : Lapic) where
  pub lapic_write-SameVariables : SameVariables (lapic_write reg value l) l
  unfolding lapic_write
  lapic_write-SameVariables = elim (Bool-cases (l.is_x2apic)) [
    | inl x2 ↦ record { mode = rw x2 refl; cpus = rw x2 refl; functions = rw x2 refl }
    | inr legacy ↦ record {
      mode = rw legacy refl;
      cpus = rw legacy refl;
      functions = rw legacy refl;
    }
  ]

  pub log-lapic_write : (lapic_write reg value l).log ≡ wrote reg value ∷ l.log
  unfolding lapic_write
  log-lapic_write = elim (Bool-cases (l.is_x2apic)) [
    | inl x2 ↦ rw x2 refl
    | inr legacy ↦ rw legacy refl
  ]

  -- A register holds the value written, and any other what it held.
  pub lapic_read-lapic_write :
      (r : ℕ)
      → lapic_read (lapic_write reg value l) r
        ≡ (if reg == r then value % 2 ^ 32 else lapic_read l r)
  unfolding lapic_read lapic_write
  lapic_read-lapic_write r = elim (Bool-cases (l.is_x2apic)) [
    | inl x2 ↦ ground arith
    | inr legacy ↦ ground arith
  ]
