-- ===== src/Cpuid/Untouched.antt =====
-- The fields that the leaves of Kernel/Kernel/i386/cpuid.c other than those of the caches leave as
-- they are.
use beta_os.Prelude.{◌≡◌, refl, ◌∙◌, Bool, leb, if_case}
use beta_os.Prelude.Int.{is_zero}
use beta_os.Libc.Strncmp.{strncmp}
use beta_os.Cpuid.Family.{set_cpufamily}
use beta_os.Cpuid.Regs.{Processor, cpuid_fn, has_bit}
use beta_os.Cpuid.Info.{CpuInfo}
use beta_os.Cpuid.Generic.{set_vendor, set_max_ext, set_brand, set_sizes, set_signature}
use beta_os.Cpuid.Leaves.{
  set_extfeatures, set_tsci, set_mwait, set_thermal, set_arch_perf, set_xsave, set_leaf7, set_tsc,
  set_generic_info,
}
use beta_os.Cpuid.Setup.{vid_intel, verify_cpu}

-- The fields that the other leaves leave as they are.
pub record Untouched (i j : CpuInfo) : Type 0 where
  pub bytes : i.cache_info ≡ j.cache_info
  pub sizes : i.cache_size ≡ j.cache_size
  pub sharings : i.cache_sharing ≡ j.cache_sharing
  pub partitions : i.cache_partitions ≡ j.cache_partitions

same : (i : CpuInfo) → Untouched i i
same i = record { bytes = refl; sizes = refl; sharings = refl; partitions = refl }

pub then_same : {i j k : CpuInfo} → Untouched i j → Untouched j k → Untouched i k
then_same p q = record {
  bytes = p.bytes ∙ q.bytes;
  sizes = p.sizes ∙ q.sizes;
  sharings = p.sharings ∙ q.sharings;
  partitions = p.partitions ∙ q.partitions;
}

-- Writing other fields.
other :
    {i j : CpuInfo}
    → j.cache_info ≡ i.cache_info
    → j.cache_size ≡ i.cache_size
    → j.cache_sharing ≡ i.cache_sharing
    → j.cache_partitions ≡ i.cache_partitions
    → Untouched j i
other h k l m = record { bytes = h; sizes = k; sharings = l; partitions = m }

set_tsci-Untouched : (p : Processor) (i : CpuInfo) → Untouched (set_tsci p i) i
unfolding set_tsci
set_tsci-Untouched p i =
    if_case (λ j. Untouched j i) (leb 0x80000007 (i.max_ext))
      (λ e.
        if_case (λ j. Untouched j i) (has_bit ((cpuid_fn p 0x80000007).edx) 8)
          (λ e.
            if_case (λ j. Untouched j i) (has_bit (i.extfeatures) 8) (λ e. same i)
              (λ e. other refl refl refl refl))
          (λ e. same i))
      (λ e. same i)

set_brand-Untouched : (p : Processor) (i : CpuInfo) → Untouched (set_brand p i) i
unfolding set_brand
set_brand-Untouched p i =
    if_case (λ j. Untouched j i) (leb 0x80000004 (i.max_ext))
      (λ e. record { bytes = refl; sizes = refl; sharings = refl; partitions = refl }) (λ e. same i)

set_sizes-Untouched : (p : Processor) (i : CpuInfo) → Untouched (set_sizes p i) i
unfolding set_sizes
set_sizes-Untouched p i =
    if_case (λ j. Untouched j i) (leb 0x80000006 (i.max_ext))
      (λ e. record { bytes = refl; sizes = refl; sharings = refl; partitions = refl }) (λ e. same i)

set_extfeatures-Untouched : (p : Processor) (i : CpuInfo) → Untouched (set_extfeatures p i) i
unfolding set_extfeatures
set_extfeatures-Untouched p i =
    if_case (λ j. Untouched j i) (leb 0x80000001 (i.max_ext))
      (λ e. record { bytes = refl; sizes = refl; sharings = refl; partitions = refl }) (λ e. same i)

set_mwait-Untouched : (p : Processor) (i : CpuInfo) → Untouched (set_mwait p i) i
unfolding set_mwait
set_mwait-Untouched p i =
    if_case (λ j. Untouched j i) (leb 0x5 (i.max_basic))
      (λ e. record { bytes = refl; sizes = refl; sharings = refl; partitions = refl }) (λ e. same i)

set_thermal-Untouched : (p : Processor) (i : CpuInfo) → Untouched (set_thermal p i) i
unfolding set_thermal
set_thermal-Untouched p i =
    if_case (λ j. Untouched j i) (leb 0x6 (i.max_basic))
      (λ e. record { bytes = refl; sizes = refl; sharings = refl; partitions = refl }) (λ e. same i)

set_arch_perf-Untouched : (p : Processor) (i : CpuInfo) → Untouched (set_arch_perf p i) i
unfolding set_arch_perf
set_arch_perf-Untouched p i =
    if_case (λ j. Untouched j i) (leb 0xa (i.max_basic))
      (λ e. record { bytes = refl; sizes = refl; sharings = refl; partitions = refl }) (λ e. same i)

set_xsave-Untouched : (p : Processor) (i : CpuInfo) → Untouched (set_xsave p i) i
unfolding set_xsave
set_xsave-Untouched p i =
    if_case (λ j. Untouched j i) (leb 0xd (i.max_basic))
      (λ e. record { bytes = refl; sizes = refl; sharings = refl; partitions = refl }) (λ e. same i)

set_leaf7-Untouched : (p : Processor) (i : CpuInfo) → Untouched (set_leaf7 p i) i
unfolding set_leaf7
set_leaf7-Untouched p i =
    if_case (λ j. Untouched j i) (leb 0x3A (i.sign.model))
      (λ e. record { bytes = refl; sizes = refl; sharings = refl; partitions = refl }) (λ e. same i)

set_tsc-Untouched : (p : Processor) (i : CpuInfo) → Untouched (set_tsc p i) i
unfolding set_tsc
set_tsc-Untouched p i =
    if_case (λ j. Untouched j i) (leb 0x15 (i.max_basic))
      (λ e. record { bytes = refl; sizes = refl; sharings = refl; partitions = refl }) (λ e. same i)

pub set_generic_info-Untouched : (p : Processor) (i : CpuInfo) → Untouched (set_generic_info p i) i
unfolding set_generic_info set_vendor set_max_ext set_signature
set_generic_info-Untouched p i =
    let a = set_max_ext p (set_vendor p i) in
    let b = set_brand p a in
    let c = set_signature p (set_sizes p b) in
    let d = set_extfeatures p c in
    let e = set_tsci p d in
    let f = set_mwait p e in
    let g = set_thermal p f in
    let j = set_arch_perf p g in
    let k = set_xsave p j in
    let l = set_leaf7 p k in
    let on_a : Untouched a i = record {
      bytes = refl;
      sizes = refl;
      sharings = refl;
      partitions = refl;
    } in
    let on_c : Untouched c (set_sizes p b) = record {
      bytes = refl;
      sizes = refl;
      sharings = refl;
      partitions = refl;
    } in
    let early = then_same (set_sizes-Untouched p b) (then_same (set_brand-Untouched p a) on_a) in
    let middle =
      then_same (set_tsci-Untouched p d) (then_same (set_extfeatures-Untouched p c) on_c) in
    let power =
      then_same (set_arch_perf-Untouched p g)
        (then_same (set_thermal-Untouched p f) (set_mwait-Untouched p e)) in
    let late =
      then_same (set_tsc-Untouched p l)
        (then_same (set_leaf7-Untouched p k) (set_xsave-Untouched p j)) in
    then_same late (then_same power (then_same middle early))

pub verify_cpu-Untouched : (i : CpuInfo) → Untouched ((verify_cpu i).1) i
unfolding verify_cpu set_cpufamily
verify_cpu-Untouched i =
    if_case {A = Bool × CpuInfo} (λ r. Untouched (r.1) i)
      (is_zero (strncmp vid_intel (i.vendor) 16)) (λ e. other refl refl refl refl) (λ e. same i)
