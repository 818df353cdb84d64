-- ===== src/Cpuid/Examples.antt =====
-- Tests of Kernel/Kernel/i386/cpuid.c, and the theorems at a concrete processor.
use beta_os.Prelude.{
  ℕ, ◌^◌, ◌≤◌, ◌<◌, ◌≡◌, refl, ◌⊎◌, inr, List, length, replicate, ◌==◌, if◌then◌else◌, ◌||◌, arith,
}
use beta_os.Libc.Strcmp.{string_eq}
use beta_os.Cpuid.Regs.{Processor, cpuid_fn, Outcome, done, overrun}
use beta_os.Cpuid.Generic.{set_vendor, set_max_ext, set_brand, set_sizes, set_signature}
use beta_os.Cpuid.Leaves.{
  set_extfeatures, set_tsci, set_mwait, set_thermal, set_arch_perf, set_xsave, set_leaf7, set_tsc,
}
use beta_os.Cpuid.Family.{haswell}
use beta_os.Cpuid.Cache.{cache_type_of, load_descriptors}
use beta_os.Cpuid.Setup.{State, boot_state, cpuid_info}
use beta_os.Cpuid.Vmm.{vmware_id, parallels_id, init_vmm_info}
use beta_os.Cpuid.Signature.{encode_signature, folded, folded-encode_signature}
use beta_os.Cpuid.Descriptors.{load_descriptors-bounds}
use beta_os.Cpuid.Published.{IsDescribed}
use beta_os.Cpuid.Boot.{IsKnown, cpuid_info-boot}
use beta_os.DeviceTree.Memory.{until_nul}
use beta_os.Cpuid.Hypervisor.{Spells, init_vmm_info-family}
use beta_os.Cpuid.Samples.{three_caches, sample_cpuid, sample_processor, five_calls}

-- A Haswell with two translation buffers, and what is read of it.
abbrev shown : Outcome State → ℕ × ℕ × ℕ × ℕ × ℕ × ℕ
shown (done s) = (
  s.info.cpufamily,
  s.info.cpu_subtype,
  s.info.core_count,
  s.info.stlb,
  s.info.tlb 1 0 0,
  s.info.sign.model,
)
shown _ = (0, 0, 0, 0, 0, 0)

haswell_test : shown (cpuid_info sample_processor 4 boot_state) ≡ (haswell, 8, 8, 1024, 64, 0x3C)
unfolding boot_state cpuid_info sample_cpuid set_tsc set_leaf7 set_xsave set_arch_perf set_thermal
    set_mwait set_tsci set_extfeatures set_signature set_sizes set_brand set_max_ext set_vendor
haswell_test = refl

folded-encode_signature_example :
    let d = folded (encode_signature 0 6 0x3C 3) in
    (d.type ≡ 0)
    × (d.stepping ≡ 3)
    × (d.family ≡ 6)
    × (d.model ≡ (if 6 == 15 || 6 == 6 then 0x3C else 0xC))
folded-encode_signature_example =
    folded-encode_signature 0 6 0x3C 3 (omega arith) (omega arith) (omega arith) (omega arith)

load_descriptors-bounds_example :
    ((5 < 2 ^ 31) × (4 < 5) × (load_descriptors five_calls (replicate 64 0) ≡ overrun))
    ⊎ ((2 ^ 31 ≤ 5 ⊎ 5 ≤ 4)
        × (s' : List ℕ) × (load_descriptors five_calls (replicate 64 0) ≡ done s')
        × (length s' ≡ 64))
load_descriptors-bounds_example =
    load_descriptors-bounds five_calls (replicate 64 0) (omega arith) refl refl

sample-IsDescribed : IsDescribed sample_processor three_caches
unfolding sample_cpuid cpuid_fn cache_type_of
sample-IsDescribed = record {
  word = omega arith;
  calls = inr (omega arith);
  max_leaf = omega arith;
  describes = (refl, (refl, (refl, refl)));
  caches = (ground arith, (ground arith, (ground arith, tt)));
  second_level = omega arith;
}

cpuid_info-boot_example :
    (s : State) × (cpuid_info sample_processor 4 boot_state ≡ done s)
    × IsKnown three_caches s
    × ((q : Processor) (n : ℕ) → cpuid_info q n s ≡ done s)
cpuid_info-boot_example =
    cpuid_info-boot sample_processor three_caches 4 sample-IsDescribed (omega arith)

-- A processor under VMware.
abbrev guest_processor : Processor
guest_processor = record sample_processor {
  cpuid = λ leaf subleaf. record {
    eax = 0x40000010;
    ebx = 0x61774D56;
    ecx = 0x4D566572;
    edx = 0x65726177;
  };
}

guest-Spells : Spells guest_processor b'V' b'M' b'w' b'a' b'r' b'e' b'V' b'M' b'w' b'a' b'r' b'e'
guest-Spells = record {
  ebx = refl;
  ecx = refl;
  edx = refl;
  bytes_a = (omega arith, (omega arith, (omega arith, (omega arith, tt))));
  bytes_b = (omega arith, (omega arith, (omega arith, (omega arith, tt))));
  bytes_c = (omega arith, (omega arith, (omega arith, (omega arith, tt))));
}

init_vmm_info-family_example : (init_vmm_info guest_processor).family ≡ (
    if string_eq vmware_id vmware_id then 1 else if string_eq vmware_id parallels_id then 2 else 0)
unfolding until_nul
init_vmm_info-family_example =
    init_vmm_info-family guest_processor b'V' b'M' b'w' b'a' b'r' b'e' b'V' b'M' b'w' b'a' b'r' b'e'
      guest-Spells
