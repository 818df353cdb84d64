-- ===== src/Lapic/Examples.antt =====
-- Tests of Kernel/Kernel/i386/lapic.c, and the theorems at a concrete controller.
use beta_os.Prelude.{
  ℕ, ◌+◌, ◌/◌, ◌%◌, ◌^◌, ◌≡◌, ◌↔◌, refl, true, false, Option, none, some, List, [], ◌∷◌, ltb, ◌==◌,
  if◌then◌else◌, arith,
}
use beta_os.Prelude.Int.{pos, negsuc}
use beta_os.Lapic.State.{
  id, Event, eoi, icr, lvt_timer, svr, interprocessor_interrupt, spurious_interrupt, vector_of,
  wrote, called, interrupts, Lapic,
}
use beta_os.Lapic.Ops.{lapic_ops_init, lapic_read, lapic_write}
use beta_os.Lapic.CpuMap.{lapic_cpu_map_init, lapic_cpu_map, ml_get_apicid, ml_get_cpuid}
use beta_os.Lapic.Init.{
  read_apic_base, program_vectors, program_errors, program_timer, lapic_init, lapic_probe,
}
use beta_os.Lapic.Interrupt.{lapic_interrupt, lapic_send_ipi, smp_init}
use beta_os.Lapic.Inverse.{Reach, start, map, ml_get_apicid-ml_get_cpuid}
use beta_os.Lapic.Eoi.{eois, lapic_interrupt-eois}
use beta_os.Lapic.Delivery.{Waits, destination, command, lapic_send_ipi-delivers}
use beta_os.Lapic.Ready.{lapic_probe-features}
use beta_os.Lapic.Start.{IsBootable, IsRunning, opened, smp_init-IsRunning}

-- A controller with identifier 3 and version 0x14, at its usual address, before the start.
abbrev at_power_on : Lapic
at_power_on = record {
  io_map = λ physical. physical;
  cpu = 0;
  master_cpu = 0;
  phys_number = pos 0;
  mmio = λ a. if a == 0xFEE00020 then 0x03000000 else if a == 0xFEE00030 then 0x50014 else 0;
  msr = λ n. if n == 0x1b then 0xFEE00900 else 0;
  pbase = 0;
  vbase = 0;
  is_x2apic = false;
  errors_masked = false;
  cpu_to_lapic = λ i. pos 0;
  lapic_to_cpu = λ i. pos 0;
  intr_func = λ n. none;
  log = [];
}

abbrev shown : Option Lapic → ℕ × ℕ × ℕ × ℕ
shown none = (0, 0, 0, 0)
shown (some l) = (ml_get_apicid l 0, ml_get_cpuid l 3, lapic_read l lvt_timer, lapic_read l svr)

lapic_init_test : shown (lapic_init at_power_on) ≡ (3, 0, 0x200DD, 0x1DA)
unfolding lapic_init read_apic_base lapic_ops_init program_vectors program_errors program_timer
    lapic_cpu_map lapic_cpu_map_init lapic_read lapic_write ml_get_apicid ml_get_cpuid
lapic_init_test = refl

-- The feature bit for the time stamp counter alone is taken for a controller.
lapic_probe_test : lapic_probe (2 ^ 4) ≡ true
unfolding lapic_probe
lapic_probe_test = refl

lapic_probe-features_example : (lapic_probe (2 ^ 55) ≡ false) ↔ (2 ^ 55 % 2 ^ 55 ≡ 0)
lapic_probe-features_example = lapic_probe-features (2 ^ 55) (omega arith)

abbrev none_mapped : Lapic
unfolding lapic_cpu_map_init
none_mapped = lapic_cpu_map_init at_power_on

abbrev one_mapped : Lapic
unfolding lapic_cpu_map_init
one_mapped = record none_mapped {
  cpu_to_lapic = λ i. if 0 == i then pos 3 else negsuc 0;
  lapic_to_cpu = λ i. if 3 == i then pos 0 else negsuc 0;
}

one_mapped-Reach : Reach one_mapped
unfolding lapic_cpu_map lapic_cpu_map_init none_mapped one_mapped
one_mapped-Reach = map {l = none_mapped} 3 0 (start at_power_on) refl refl refl

ml_get_apicid-ml_get_cpuid_example :
    (ml_get_apicid one_mapped 0 ≡ 3) ↔ (ml_get_cpuid one_mapped 3 ≡ 0)
ml_get_apicid-ml_get_cpuid_example =
    ml_get_apicid-ml_get_cpuid one_mapped 0 3 one_mapped-Reach (omega arith) (omega arith)

lapic_interrupt-eois_example :
    let r = lapic_interrupt 0xDD at_power_on in
    eois (r.1.log) + (if 0xDD == vector_of spurious_interrupt then 1 else 0)
    ≡ eois (at_power_on.log) + r.0
lapic_interrupt-eois_example = lapic_interrupt-eois 0xDD at_power_on

-- The bit is set for two reads.
abbrev two_pending : ℕ → ℕ
two_pending n = if ltb n 2 then 0x1000 else 0

lapic_send_ipi-delivers_example :
    (l' : Lapic) × (lapic_send_ipi 3 two_pending true 0 14 one_mapped ≡ some l')
    × (destination l' ≡ 3)
    × (command l' ≡ 222)
    × (log : List Event) × Waits two_pending 0 (interrupts false ∷ []) log
    × (l'.log ≡ interrupts true ∷ wrote icr 222 ∷ log)
unfolding one_mapped none_mapped lapic_cpu_map_init
lapic_send_ipi-delivers_example =
    lapic_send_ipi-delivers 3 two_pending 2 true 0 14 3 one_mapped refl (omega arith) (omega arith)
      refl (omega arith)

at_power_on-IsBootable : IsBootable at_power_on
unfolding lapic_ops_init read_apic_base lapic_read
at_power_on-IsBootable = record {
  boot_cpu = refl;
  enabled = refl;
  legacy = refl;
  version = omega arith;
  word = omega arith;
}

smp_init-IsRunning_example :
    (m : Lapic) × (smp_init (2 ^ 9) 1 2 at_power_on ≡ some (true, m))
    × IsRunning (lapic_read (opened at_power_on) id / 2 ^ 24) m
    × ((lapic_interrupt (vector_of interprocessor_interrupt) m).1.log
        ≡ wrote eoi 0 ∷ called 2 ∷ m.log)
unfolding lapic_probe
smp_init-IsRunning_example = smp_init-IsRunning (2 ^ 9) 1 2 at_power_on refl at_power_on-IsBootable
