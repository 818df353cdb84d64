-- ===== src/Cpuid/Setup.antt =====
-- `cpuid_set_info` of Kernel/Kernel/i386/cpuid.c and the functions that hand its result out.
use beta_os.Prelude.{ℕ, ◌%◌, ◌^◌, Bool, true, false, ◌&&◌, ◌||◌, List, [], ◌∷◌, ◌==◌, if◌then◌else◌}
use beta_os.Prelude.Int.{is_zero}
use beta_os.Libc.Strncmp.{strncmp}
use beta_os.Cpuid.Regs.{Processor, bitfield32, has_bit, Outcome, done, ◌>>=◌}
use beta_os.Cpuid.Info.{CpuInfo, zero_info}
use beta_os.Cpuid.Leaves.{set_generic_info}
use beta_os.Cpuid.Family.{unknown, merom, penryn, westmere, cpufamily_of, set_cpufamily}
use beta_os.Cpuid.Cache.{set_cache_info}

-- CPUID_VID_INTEL
abbrev pub vid_intel : List ℕ
vid_intel = b'G' ∷ b'e' ∷ b'n' ∷ b'u' ∷ b'i' ∷ b'n' ∷ b'e' ∷ b'I' ∷ b'n' ∷ b't' ∷ b'e' ∷ b'l' ∷ []

-- The check of the vendor and the family: whether "Unsupported CPU" is printed, and the structure,
-- in which the family is set only for the one vendor. The kernel goes on in either case.
unfoldable pub verify_cpu : CpuInfo → Bool × CpuInfo
unfolding strncmp cpufamily_of set_cpufamily
verify_cpu i =
    if is_zero (strncmp vid_intel (i.vendor) 16)
    then (cpufamily_of i == unknown, set_cpufamily i)
    else (true, i)

-- The Haswell subset: FMA, SSE4.2, MOVBE, POPCNT and AVX, LZCNT, BMI1, AVX2 and BMI2.
unfoldable pub has_haswell_features : CpuInfo → Bool
has_haswell_features i =
    has_bit (i.features) 44
    && has_bit (i.features) 52
    && has_bit (i.features) 54
    && has_bit (i.features) 55
    && has_bit (i.features) 60
    && has_bit (i.extfeatures) 37
    && has_bit (i.leaf7_features) 3
    && has_bit (i.leaf7_features) 5
    && has_bit (i.leaf7_features) 8

-- CPU_TYPE_X86, and CPU_SUBTYPE_X86_64_H or CPU_SUBTYPE_X86_ARCH1.
unfoldable pub set_cpu_type : CpuInfo → CpuInfo
unfolding has_haswell_features
set_cpu_type i = record i { cpu_type = 7; cpu_subtype = if has_haswell_features i then 8 else 4 }

abbrev pub msr_core_thread_count : ℕ
msr_core_thread_count = 0x35

unfoldable pub counts_of_package : CpuInfo → CpuInfo
counts_of_package i = record i {
  core_count = i.cores_per_package;
  thread_count = i.logical_per_package;
}

-- The numbers of enabled cores and threads.
unfoldable pub read_counts : Processor → CpuInfo → CpuInfo
unfolding counts_of_package
read_counts p i =
    let msr = p.rdmsr64 msr_core_thread_count % 2 ^ 32 in
    if i.cpufamily == merom || i.cpufamily == penryn
    then counts_of_package i
    else if i.cpufamily == westmere
    then record i { core_count = bitfield32 msr 19 16; thread_count = bitfield32 msr 15 0 }
    else record i { core_count = bitfield32 msr 31 16; thread_count = bitfield32 msr 15 0 }

unfoldable pub set_counts : Processor → CpuInfo → CpuInfo
unfolding read_counts counts_of_package
set_counts p i = let j = read_counts p i in if j.core_count == 0 then counts_of_package j else j

-- cpuid_set_info: whether the processor is reported as unsupported, the structure, and the number
-- of page colors.
unfoldable pub set_info : Processor → ℕ → ℕ → CpuInfo → Outcome (Bool × CpuInfo × ℕ)
unfolding set_generic_info verify_cpu set_cpu_type set_cache_info set_counts
set_info p rounds colors i =
    let checked = verify_cpu (set_generic_info p i) in
    set_cache_info p rounds colors (set_cpu_type (checked.1)) >>= λ cached.
    done (checked.0, set_counts p (cached.0), cached.1)

-- The static variables: the structure, whether cpuid_cpu_infop points to it, and the colors.
pub record State : Type 0 where
  pub info : CpuInfo
  pub ready : Bool
  pub colors : ℕ

unfoldable pub boot_state : State
unfolding zero_info
boot_state = record { info = zero_info; ready = false; colors = 0 }

-- cpuid_info
unfoldable pub cpuid_info : Processor → ℕ → State → Outcome State
unfolding set_info
cpuid_info p rounds s =
    if s.ready
    then done s
    else (set_info p rounds (s.colors) (s.info) >>= λ r.
        done (record { info = r.1; ready = true; colors = r.2 }))

-- cpuid_features; its `checked` has no effect.
unfoldable pub cpuid_features : Processor → ℕ → State → Outcome (State × ℕ)
unfolding cpuid_info
cpuid_features p rounds s = cpuid_info p rounds s >>= λ s'. done (s', s'.info.features)

unfoldable pub cpuid_leaf7_features : Processor → ℕ → State → Outcome (State × ℕ)
unfolding cpuid_info
cpuid_leaf7_features p rounds s = cpuid_info p rounds s >>= λ s'. done (s', s'.info.leaf7_features)

-- cpuid_vmm_present
unfoldable pub vmm_present : Processor → ℕ → State → Outcome (State × Bool)
unfolding cpuid_features
vmm_present p rounds s = cpuid_features p rounds s >>= λ r. done (r.0, has_bit (r.1) 63)
