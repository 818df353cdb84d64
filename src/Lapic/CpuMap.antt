-- ===== src/Lapic/CpuMap.antt =====
-- The maps between processors and their controllers in Kernel/Kernel/i386/lapic.c.
use beta_os.Prelude.{ℕ, ◌+◌, ◌-◌, ◌^◌, ◌&&◌, Option, none, some, ltb, leb, if◌then◌else◌}
use beta_os.Prelude.Int.{ℤ, pos, negsuc}
use beta_os.Lapic.State.{Lapic, update}

-- MAX_CPUS and MAX_LAPICIDS
abbrev pub max_cpus : ℕ
max_cpus = 64

abbrev pub max_lapicids : ℕ
max_lapicids = 256

-- Both arrays are -1 everywhere.
unfoldable pub lapic_cpu_map_init : Lapic → Lapic
lapic_cpu_map_init l = record l { cpu_to_lapic = λ i. negsuc 0; lapic_to_cpu = λ i. negsuc 0 }

-- A failed assertion, which does not return, is `none`.
unfoldable pub lapic_cpu_map : ℕ → ℕ → Lapic → Option Lapic
lapic_cpu_map apic_id cpu l =
    if ltb apic_id max_lapicids && ltb cpu max_cpus
    then some (record l {
      cpu_to_lapic = update (l.cpu_to_lapic) cpu (pos apic_id);
      lapic_to_cpu = update (l.lapic_to_cpu) apic_id (pos cpu);
    })
    else none

-- An `int` as a `uint32_t`.
abbrev pub to_uint32 : ℤ → ℕ
to_uint32 (pos n) = n
to_uint32 (negsuc n) = 2 ^ 32 - (n + 1)

unfoldable pub ml_get_apicid : Lapic → ℕ → ℕ
ml_get_apicid l cpu = if leb max_cpus cpu then 0xFFFFFFFF else to_uint32 (l.cpu_to_lapic cpu)

unfoldable pub ml_get_cpuid : Lapic → ℕ → ℕ
ml_get_cpuid l index =
    if leb max_lapicids index then 0xFFFFFFFF else to_uint32 (l.lapic_to_cpu index)
