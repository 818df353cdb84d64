-- ===== src/Cpuid/Boot.antt =====
-- `cpuid_info` of Kernel/Kernel/i386/cpuid.c, from its first call on.
use beta_os.Prelude.{ℕ, ◌<◌, ◌≡◌, ◌||◌, refl, ap, ◌∙◌, true, List, length, ◌==◌, if_case, arith}
use beta_os.Libc.Strncmp.{head}
use beta_os.Cpuid.Family.{merom, penryn, westmere}
use beta_os.Cpuid.Regs.{Processor, done}
use beta_os.Cpuid.Info.{CacheType, l2u, CpuInfo, zero_info}
use beta_os.Cpuid.Leaves.{set_generic_info}
use beta_os.Cpuid.Setup.{
  State, verify_cpu, set_cpu_type, counts_of_package, read_counts, set_counts, set_info, boot_state,
  cpuid_info,
}
use beta_os.Cpuid.Described.{Cache, of_last, size_of, most_colors}
use beta_os.Cpuid.Untouched.{then_same, set_generic_info-Untouched, verify_cpu-Untouched}
use beta_os.Cpuid.Published.{IsDescribed, SameCaches, set_cache_info-IsPublished}

read_counts-SameCaches : (p : Processor) (i : CpuInfo) → SameCaches (read_counts p i) i
unfolding read_counts counts_of_package
read_counts-SameCaches p i =
    if_case (λ j. SameCaches j i) (i.cpufamily == merom || i.cpufamily == penryn)
      (λ e. record {
        sizes = refl;
        sharings = refl;
        partitions = refl;
        linesize = refl;
        cores = refl;
      })
      (λ e.
        if_case (λ j. SameCaches j i) (i.cpufamily == westmere)
          (λ e. record {
            sizes = refl;
            sharings = refl;
            partitions = refl;
            linesize = refl;
            cores = refl;
          })
          (λ e. record {
            sizes = refl;
            sharings = refl;
            partitions = refl;
            linesize = refl;
            cores = refl;
          }))

set_counts-SameCaches : (p : Processor) (i : CpuInfo) → SameCaches (set_counts p i) i
unfolding set_counts counts_of_package
set_counts-SameCaches p i =
    let same_read = read_counts-SameCaches p i in
    if_case (λ j. SameCaches j i) ((read_counts p i).core_count == 0)
      (λ e. record {
        sizes = same_read.sizes;
        sharings = same_read.sharings;
        partitions = same_read.partitions;
        linesize = same_read.linesize;
        cores = same_read.cores;
      })
      (λ e. same_read)

set_counts-pos :
    (p : Processor) (i : CpuInfo) → 0 < i.cores_per_package → 0 < (set_counts p i).core_count
unfolding set_counts counts_of_package
set_counts-pos p i h =
    if_case {A = CpuInfo} (λ j. 0 < j.core_count) ((read_counts p i).core_count == 0)
      (λ e. rw ((read_counts-SameCaches p i).cores) h) (λ e. ground arith)

-- What is known of the processor when `cpuid_info` has returned.
pub record IsKnown (cs : List Cache) (s : State) : Type 0 where
  pub ready : s.ready ≡ true
  pub sizes : (t : CacheType) → s.info.cache_size t ≡ of_last size_of t cs 0
  pub sharings : (t : CacheType) → s.info.cache_sharing t ≡ of_last (λ c. c.sharing) t cs 0
  pub partitions : (t : CacheType) → s.info.cache_partitions t ≡ of_last (λ c. c.partitions) t cs 0
  pub linesize : s.info.cache_linesize ≡ of_last (λ c. c.linesize) l2u cs 0
  pub some_cores : 0 < s.info.core_count
  pub colors : s.colors ≡ most_colors cs 0

-- The first call of cpuid_info, on a processor that describes its caches, returns, with rounds for
-- all of them: for each type, the structure has the size, the threads that share it and the
-- partitions of the last such cache, and it has the line size of the second level, at least one
-- core, and is ready. Any later call gives the same structure, whatever the processor says by then.
pub cpuid_info-boot :
    (p : Processor) (cs : List Cache) (rounds : ℕ)
    → IsDescribed p cs
    → length cs < rounds
    → (s : State) × (cpuid_info p rounds boot_state ≡ done s)
      × IsKnown cs s
      × ((q : Processor) (n : ℕ) → cpuid_info q n s ≡ done s)
unfolding cpuid_info set_info zero_info boot_state set_cpu_type
cpuid_info-boot p cs rounds h enough =
    let i = set_generic_info p zero_info in
    let checked = verify_cpu i in
    let j = set_cpu_type (checked.1) in
    let kept = then_same (verify_cpu-Untouched i) (set_generic_info-Untouched p zero_info) in
    let (r, e, k) =
      set_cache_info-IsPublished p cs h rounds 0 j (ap length (kept.bytes)) (ap head (kept.bytes))
        enough in
    let same_caches = set_counts-SameCaches p (r.0) in
    (
      record { info = set_counts p (r.0); ready = true; colors = r.1 },
      rw e refl,
      record {
        ready = refl;
        sizes = λ t. rw (same_caches.sizes, k.sizes t, kept.sizes) refl;
        sharings = λ t. rw (same_caches.sharings, k.sharings t, kept.sharings) refl;
        partitions = λ t. rw (same_caches.partitions, k.partitions t, kept.partitions) refl;
        linesize = same_caches.linesize ∙ k.linesize;
        some_cores = set_counts-pos p (r.0) (k.some_cores);
        colors = k.colors;
      },
      λ q n. refl,
    )
