-- ===== src/Lapic/Ops.antt =====
-- The two tables of operations in Kernel/Kernel/i386/lapic.c, for the memory-mapped registers and
-- for the model-specific ones. A register holds what was written to it.
use beta_os.Prelude.{ℕ, ◌+◌, ◌*◌, ◌%◌, ◌^◌, ◌==◌, if◌then◌else◌}
use beta_os.Lapic.State.{icr, icrd, dfr, ldr, set_bit, wrote, Lapic, update, record_event}

-- LAPIC_MMIO
abbrev pub mmio_address : Lapic → ℕ → ℕ
mmio_address l reg = l.vbase + reg * 2 ^ 4

-- LAPIC_MSR
abbrev pub msr_number : ℕ → ℕ
msr_number reg = 0x800 + reg

abbrev pub msr_ia32_apic_base : ℕ
msr_ia32_apic_base = 0x1b

-- lapic_ops_table_t
pub record Ops : Type 0 where
  pub init : Lapic → Lapic
  pub read : Lapic → ℕ → ℕ
  pub write : ℕ → ℕ → Lapic → Lapic
  pub read_icr : Lapic → ℕ
  pub write_icr : ℕ → ℕ → Lapic → Lapic

abbrev store_mmio : ℕ → ℕ → Lapic → Lapic
store_mmio reg value l = record l { mmio = update (l.mmio) (mmio_address l reg) (value % 2 ^ 32) }

unfoldable pub legacy_read : Lapic → ℕ → ℕ
legacy_read l reg = l.mmio (mmio_address l reg)

unfoldable pub legacy_write : ℕ → ℕ → Lapic → Lapic
legacy_write reg value l = record_event (wrote reg value) (store_mmio reg value l)

unfoldable pub legacy_init : Lapic → Lapic
unfolding legacy_write
legacy_init l =
    let mapped = (if l.vbase == 0 then record l { vbase = (l.io_map) (l.pbase) } else l) in
    legacy_write ldr (l.cpu * 2 ^ 24 % 2 ^ 32) (legacy_write dfr 0xFFFFFFFF mapped)

unfoldable pub legacy_read_icr : Lapic → ℕ
legacy_read_icr l = l.mmio (mmio_address l icrd) * 2 ^ 32 + l.mmio (mmio_address l icr)

-- The destination first: the second write sends.
unfoldable pub legacy_write_icr : ℕ → ℕ → Lapic → Lapic
legacy_write_icr dst cmd l =
    record_event (wrote icr cmd) (store_mmio icr cmd (store_mmio icrd (dst * 2 ^ 24) l))

unfoldable pub x2apic_init : Lapic → Lapic
x2apic_init l = record l {
  msr = update (l.msr) msr_ia32_apic_base (set_bit (l.msr msr_ia32_apic_base) 10);
}

unfoldable pub x2apic_read : Lapic → ℕ → ℕ
x2apic_read l reg = l.msr (msr_number reg) % 2 ^ 32

unfoldable pub x2apic_write : ℕ → ℕ → Lapic → Lapic
x2apic_write reg value l =
    record_event (wrote reg value)
      (record l { msr = update (l.msr) (msr_number reg) (value % 2 ^ 32) })

unfoldable pub x2apic_read_icr : Lapic → ℕ
x2apic_read_icr l = l.msr (msr_number icr)

unfoldable pub x2apic_write_icr : ℕ → ℕ → Lapic → Lapic
x2apic_write_icr dst cmd l =
    record_event (wrote icr cmd)
      (record l { msr = update (l.msr) (msr_number icr) (dst % 2 ^ 32 * 2 ^ 32 + cmd % 2 ^ 32) })

abbrev pub legacy_ops : Ops
legacy_ops = record {
  init = legacy_init;
  read = legacy_read;
  write = legacy_write;
  read_icr = legacy_read_icr;
  write_icr = legacy_write_icr;
}

abbrev pub x2apic_ops : Ops
x2apic_ops = record {
  init = x2apic_init;
  read = x2apic_read;
  write = x2apic_write;
  read_icr = x2apic_read_icr;
  write_icr = x2apic_write_icr;
}

-- What `lapic_ops` points to once the mode is known.
abbrev pub lapic_ops : Lapic → Ops
lapic_ops l = if l.is_x2apic then x2apic_ops else legacy_ops

-- LAPIC_INIT, LAPIC_READ, LAPIC_WRITE, LAPIC_READ_ICR and LAPIC_WRITE_ICR
unfoldable pub lapic_ops_init : Lapic → Lapic
unfolding legacy_init x2apic_init
lapic_ops_init l = (lapic_ops l).init l

unfoldable pub lapic_read : Lapic → ℕ → ℕ
unfolding legacy_read x2apic_read
lapic_read l = (lapic_ops l).read l

unfoldable pub lapic_write : ℕ → ℕ → Lapic → Lapic
unfolding legacy_write x2apic_write
lapic_write reg value l = (lapic_ops l).write reg value l

unfoldable pub lapic_read_icr : Lapic → ℕ
unfolding legacy_read_icr x2apic_read_icr
lapic_read_icr l = (lapic_ops l).read_icr l

unfoldable pub lapic_write_icr : ℕ → ℕ → Lapic → Lapic
unfolding legacy_write_icr x2apic_write_icr
lapic_write_icr dst cmd l = (lapic_ops l).write_icr dst cmd l
