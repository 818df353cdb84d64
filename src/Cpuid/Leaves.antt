-- ===== src/Cpuid/Leaves.antt =====
-- The second half of `cpuid_set_generic_info` of Kernel/Kernel/i386/cpuid.c: the leaves that are
-- read if the processor has them.
use beta_os.Prelude.{ℕ, ◌+◌, ◌^◌, some, leb, if◌then◌else◌}
use beta_os.Cpuid.Regs.{Regs, Processor, cpuid_fn, bitfield32, quad, has_bit, is_set}
use beta_os.Cpuid.Info.{MwaitLeaf, ThermalLeaf, ArchPerfLeaf, CpuInfo}
use beta_os.Cpuid.Generic.{set_vendor, set_max_ext, set_brand, set_sizes, set_signature}

unfoldable pub set_extfeatures : Processor → CpuInfo → CpuInfo
unfolding cpuid_fn
set_extfeatures p i =
    if leb 0x80000001 (i.max_ext)
    then (let r = cpuid_fn p 0x80000001 in record i { extfeatures = quad (r.ecx) (r.edx) })
    else i

-- The bit for the invariant time stamp counter, bit 8, is or-ed in.
unfoldable pub set_tsci : Processor → CpuInfo → CpuInfo
unfolding cpuid_fn
set_tsci p i =
    if leb 0x80000007 (i.max_ext)
    then (if has_bit ((cpuid_fn p 0x80000007).edx) 8
        then (if has_bit (i.extfeatures) 8
            then i
            else record i { extfeatures = i.extfeatures + 2 ^ 8 })
        else i)
    else i

abbrev pub mwait_of : Regs → MwaitLeaf
mwait_of r = record {
  linesize_min = r.eax;
  linesize_max = r.ebx;
  extensions = r.ecx;
  sub_cstates = r.edx;
}

unfoldable pub set_mwait : Processor → CpuInfo → CpuInfo
unfolding cpuid_fn
set_mwait p i =
    if leb 0x5 (i.max_basic) then record i { mwait_leaf = some (mwait_of (cpuid_fn p 5)) } else i

abbrev pub thermal_of : Regs → ThermalLeaf
thermal_of r = record {
  sensor = is_set (bitfield32 (r.eax) 0 0);
  dynamic_acceleration = is_set (bitfield32 (r.eax) 1 1);
  invariant_apic_timer = is_set (bitfield32 (r.eax) 2 2);
  core_power_limits = is_set (bitfield32 (r.eax) 4 4);
  fine_grain_clock_mod = is_set (bitfield32 (r.eax) 5 5);
  package_thermal_intr = is_set (bitfield32 (r.eax) 6 6);
  thresholds = bitfield32 (r.ebx) 3 0;
  acnt_mcnt = is_set (bitfield32 (r.ecx) 0 0);
  hardware_feedback = is_set (bitfield32 (r.ecx) 1 1);
  energy_policy = is_set (bitfield32 (r.ecx) 3 3);
}

unfoldable pub set_thermal : Processor → CpuInfo → CpuInfo
unfolding cpuid_fn
set_thermal p i =
    if leb 0x6 (i.max_basic)
    then record i { thermal_leaf = some (thermal_of (cpuid_fn p 6)) }
    else i

abbrev pub arch_perf_of : Regs → ArchPerfLeaf
arch_perf_of r = record {
  version = bitfield32 (r.eax) 7 0;
  number = bitfield32 (r.eax) 15 8;
  width = bitfield32 (r.eax) 23 16;
  events_number = bitfield32 (r.eax) 31 24;
  events = r.ebx;
  fixed_number = bitfield32 (r.edx) 4 0;
  fixed_width = bitfield32 (r.edx) 12 5;
}

unfoldable pub set_arch_perf : Processor → CpuInfo → CpuInfo
unfolding cpuid_fn
set_arch_perf p i =
    if leb 0xa (i.max_basic)
    then record i { arch_perf_leaf = some (arch_perf_of (cpuid_fn p 0xa)) }
    else i

unfoldable pub set_xsave : Processor → CpuInfo → CpuInfo
set_xsave p i =
    if leb 0xd (i.max_basic)
    then record i {
      xsave_leaf = some (record { main_leaf = p.cpuid 0xd 0; sub_leaf = p.cpuid 0xd 1 });
    }
    else i

-- CPUID_MODEL_IVYBRIDGE
abbrev pub model_ivybridge : ℕ
model_ivybridge = 0x3A

unfoldable pub set_leaf7 : Processor → CpuInfo → CpuInfo
unfolding cpuid_fn
set_leaf7 p i =
    if leb model_ivybridge (i.sign.model)
    then (let r = cpuid_fn p 7 in record i { leaf7_features = quad (r.ecx) (r.ebx) })
    else i

unfoldable pub set_tsc : Processor → CpuInfo → CpuInfo
unfolding cpuid_fn
set_tsc p i =
    if leb 0x15 (i.max_basic)
    then (let r = cpuid_fn p 0x15 in
        record i { tsc_leaf = record { denominator = r.eax; numerator = r.ebx } })
    else i

-- cpuid_set_generic_info
unfoldable pub set_generic_info : Processor → CpuInfo → CpuInfo
set_generic_info p i = set_tsc p (
    set_leaf7 p (
      set_xsave p (
        set_arch_perf p (
          set_thermal p (
            set_mwait p (
              set_tsci p (
                set_extfeatures p (
                  set_signature p
                    (set_sizes p (set_brand p (set_max_ext p (set_vendor p i))))))))))))
