-- ===== src/Tsc/Setup.antt =====
-- `EFI_get_frequency` and `tsc_init` of Kernel/Kernel/i386/tsc.c, over the device tree and over
-- what cpuid.c says of the processor.
use beta_os.Prelude.{
  ℕ, ◌+◌, ◌*◌, ◌%◌, ◌^◌, Bool, false, not, ◌&&◌, ◌||◌, Option, none, some, [], ◌∷◌, ltb, ◌==◌,
  if◌then◌else◌,
}
use beta_os.Prelude.Int.{ℤ}
use beta_os.DeviceTree.Memory.{Bytes, Addr, u32_at}
use beta_os.DeviceTree.Entry.{Reply, success, error, State, get_property}
use beta_os.DeviceTree.Search.{lookup_entry}
use beta_os.Cpuid.Info.{TscLeaf, CpuInfo}
use beta_os.Cpuid.Family.{merom, penryn, skylake, kabylake}
use beta_os.Cpuid.Vmm.{VmmInfo}
use beta_os.Tsc.Factors.{
  Tsc, Outcome, done, failed, running, ◌>>=◌, divide, giga_scaled, max_uint64, tmr_cvt, bitfield,
  bit, set_bus_factors, set_counter_factors,
}

-- "/efi/platform" and the names of the properties.
abbrev pub efi_platform : Bytes
efi_platform =
    b'/' ∷ b'e' ∷ b'f' ∷ b'i' ∷ b'/' ∷ b'p' ∷ b'l' ∷ b'a' ∷ b't' ∷ b'f' ∷ b'o' ∷ b'r' ∷ b'm' ∷ []

abbrev pub initial_tsc : Bytes
initial_tsc = b'I' ∷ b'n' ∷ b'i' ∷ b't' ∷ b'i' ∷ b'a' ∷ b'l' ∷ b'T' ∷ b'S' ∷ b'C' ∷ []

abbrev pub fsb_frequency : Bytes
fsb_frequency =
    b'F' ∷ b'S' ∷ b'B' ∷ b'F' ∷ b'r' ∷ b'e' ∷ b'q' ∷ b'u' ∷ b'e' ∷ b'n' ∷ b'c' ∷ b'y' ∷ []

abbrev pub art_frequency : Bytes
art_frequency =
    b'A' ∷ b'R' ∷ b'T' ∷ b'F' ∷ b'r' ∷ b'e' ∷ b'q' ∷ b'u' ∷ b'e' ∷ b'n' ∷ b'c' ∷ b'y' ∷ []

abbrev pub msr_flex_ratio : ℕ
msr_flex_ratio = 0x194

abbrev pub msr_platform_info : ℕ
msr_platform_info = 0xce

abbrev pub ia32_perf_sts : ℕ
ia32_perf_sts = 0x198

-- BASE_NHM_CLOCK_SOURCE and BASE_ART_CLOCK_SOURCE
abbrev pub base_nhm_clock_source : ℕ
base_nhm_clock_source = 133333333

abbrev pub base_art_clock_source : ℕ
base_art_clock_source = 24000000

unfoldable pub u64_at : Bytes → Addr → ℕ
unfolding u32_at
u64_at mem p = u32_at mem p + u32_at mem (p + 4) * 2 ^ 32

-- A property of eight bytes, or `n` if it is not there or has another size.
unfoldable pub value_or : Bytes → Reply (Addr × ℕ) → ℕ → ℕ
unfolding u64_at
value_or mem error n = n
value_or mem (success (value, size)) n = if size == 8 then u64_at mem value else n

-- The device tree: how it compares strings, the memory, the fuel for its walks, and its variables.
pub record Efi : Type 0 where
  pub strcmp : Bytes → Bytes → ℤ
  pub mem : Bytes
  pub fuel : ℕ
  pub state : State

-- What is made of the property at the entry: the frequency and, if it is there, the initial counter.
unfoldable pub frequency_in : Efi → Addr → Tsc → Reply (Addr × ℕ) → ℕ × Tsc
unfolding value_or
frequency_in efi entry t error = (0, t)
frequency_in efi entry t (success found) = (
  value_or (efi.mem) (success found) 0,
  record t {
    tsc_at_boot =
        value_or (efi.mem) (get_property (efi.strcmp) (efi.mem) entry initial_tsc) (t.tsc_at_boot);
  },
)

unfoldable pub frequency_at : Efi → Bytes → Tsc → Option (Reply Addr) → Outcome (ℕ × Tsc)
unfolding frequency_in
frequency_at efi prop t none = running
frequency_at efi prop t (some error) = done (0, t)
frequency_at efi prop t (some (success entry)) =
    done (frequency_in efi entry t (get_property (efi.strcmp) (efi.mem) entry prop))

-- EFI_get_frequency
unfoldable pub efi_get_frequency : Efi → Bytes → Tsc → Outcome (ℕ × Tsc)
unfolding frequency_at
efi_get_frequency efi prop t =
    frequency_at efi prop t
      (lookup_entry (efi.strcmp) (efi.mem) (efi.fuel) (efi.state) 0 efi_platform)

-- With a hypervisor that gives both frequencies, in kHz.
unfoldable pub set_from_vmm : VmmInfo → Tsc → Outcome Tsc
unfolding divide tmr_cvt
set_from_vmm v t =
    let bus = v.bus_frequency * 1000 in
    let tsc = v.tsc_frequency * 1000 in
    divide giga_scaled bus >>= λ bus_t2n. divide max_uint64 bus_t2n >>= λ bus_n2t.
    divide giga_scaled tsc >>= λ tsc_t2n. divide max_uint64 tsc_t2n >>= λ tsc_n2t.
    divide tsc bus >>= λ ratio. done (record t {
      bus_freq = bus;
      bus_fcvtt2n = bus_t2n;
      bus_fcvtn2t = bus_n2t;
      tsc_freq = tsc;
      tsc_fcvtt2n = tsc_t2n;
      tsc_fcvtn2t = tsc_n2t;
      tsc_granularity = ratio;
      bus2tsc = tmr_cvt bus_t2n tsc_n2t;
    })

-- Skylake and later: the reference clock times N / M. It gives the flag for half a tick, too.
unfoldable pub read_art : Efi → TscLeaf → Tsc → Outcome (Bool × Tsc)
unfolding efi_get_frequency divide
read_art efi leaf t = efi_get_frequency efi art_frequency t >>= λ found.
    let ref = (if found.0 == 0 then base_art_clock_source else found.0) in
    if leaf.numerator == 0 || leaf.denominator == 1
    then failed
    else (divide (ref * leaf.numerator % 2 ^ 64) (leaf.denominator) >>= λ freq.
        done (false, record (found.1) { tsc_freq = freq; bus_freq = freq }))

-- The ratio from the platform's greatest and from the flexible one, if that is in use and less.
unfoldable pub read_flex : (ℕ → ℕ) → Tsc → Tsc
read_flex rdmsr64 t =
    let flex = rdmsr64 msr_flex_ratio in
    let info = rdmsr64 msr_platform_info in
    let greatest = bitfield info 15 8 in
    let programmed = bitfield flex 15 8 in
    let platform = record t {
      flex_ratio_min = bitfield info 47 40;
      flex_ratio_max = greatest;
      tsc_granularity = greatest;
    } in
    if bit flex 16
    then record platform {
      flex_ratio = programmed;
      tsc_granularity = if ltb programmed greatest then programmed else greatest;
    }
    else platform

unfoldable pub read_nehalem : Efi → (ℕ → ℕ) → Tsc → Outcome (Bool × Tsc)
unfolding efi_get_frequency read_flex
read_nehalem efi rdmsr64 t = efi_get_frequency efi fsb_frequency (read_flex rdmsr64 t) >>= λ found.
    done (
      false,
      record (found.1) { bus_freq = if found.0 == 0 then base_nhm_clock_source else found.0 },
    )

-- Merom and Penryn.
unfoldable pub read_merom : Efi → (ℕ → ℕ) → Tsc → Outcome (Bool × Tsc)
unfolding efi_get_frequency
read_merom efi rdmsr64 t =
    let prfsts = rdmsr64 ia32_perf_sts in
    efi_get_frequency efi fsb_frequency (record t { tsc_granularity = bitfield prfsts 44 40 })
    >>= λ found. done (bit prfsts 46, record (found.1) { bus_freq = found.0 })

-- The switch over the family.
unfoldable pub read_family : Efi → (ℕ → ℕ) → CpuInfo → Tsc → Outcome (Bool × Tsc)
unfolding read_art read_nehalem read_merom
read_family efi rdmsr64 i t =
    if i.cpufamily == kabylake || i.cpufamily == skylake
    then read_art efi (i.tsc_leaf) t
    else if i.cpufamily == merom || i.cpufamily == penryn
    then read_merom efi rdmsr64 t
    else read_nehalem efi rdmsr64 t

-- tsc_init, with what cpuid_vmm_present, cpuid_vmm_info and cpuid_info return.
unfoldable pub tsc_init : Efi → (ℕ → ℕ) → Bool → VmmInfo → CpuInfo → Tsc → Outcome Tsc
unfolding set_from_vmm read_family set_bus_factors set_counter_factors
tsc_init efi rdmsr64 vmm_present v i t =
    if vmm_present && not (v.tsc_frequency == 0) && not (v.bus_frequency == 0)
    then set_from_vmm v t
    else (read_family efi rdmsr64 i t >>= λ read.
        set_bus_factors (read.1) >>= λ t'. set_counter_factors (read.0) t')
