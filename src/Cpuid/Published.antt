-- ===== src/Cpuid/Published.antt =====
-- `cpuid_set_cache_info` of Kernel/Kernel/i386/cpuid.c on a processor that describes its caches.
use beta_os.Prelude.{
  ℕ, ◌%◌, ◌^◌, ◌≤◌, ◌<◌, ◌≡◌, ◌≢◌, refl, ◌∙◌, ◌⊎◌, inl, inr, true, false, Option, none, some, List,
  [], ◌∷◌, length, leb, ◌==◌, arith, All,
}
use beta_os.Libc.Strncmp.{head, tail}
use beta_os.Cpuid.Regs.{Processor, cpuid_fn, done}
use beta_os.Cpuid.Table.{DescriptorType, Descriptor, null, cache, tlb, stlb, prefetch, leaf2_find}
use beta_os.Cpuid.Info.{CacheType, l2u, CpuInfo}
use beta_os.Cpuid.Cache.{
  CacheScan, load_descriptors, set_fallback, choose_linesize, tlb_id, set_entries, set_descriptor,
  set_found, scan_tlbs, set_cache_info,
}
use beta_os.Cpuid.Descriptors.{load_descriptors-bounds}
use beta_os.Cpuid.Described.{
  Cache, IsCache, Describes, of_last, size_of, last_cores, most_colors, scan_caches-Published,
}

-- The fields that the loop over the translation buffers leaves as they are.
pub record SameCaches (i j : CpuInfo) : Type 0 where
  pub sizes : i.cache_size ≡ j.cache_size
  pub sharings : i.cache_sharing ≡ j.cache_sharing
  pub partitions : i.cache_partitions ≡ j.cache_partitions
  pub linesize : i.cache_linesize ≡ j.cache_linesize
  pub cores : i.cores_per_package ≡ j.cores_per_package

same : (i : CpuInfo) → SameCaches i i
same i = record { sizes = refl; sharings = refl; partitions = refl; linesize = refl; cores = refl }

SameCaches-trans : {i j k : CpuInfo} → SameCaches i j → SameCaches j k → SameCaches i k
SameCaches-trans p q = record {
  sizes = p.sizes ∙ q.sizes;
  sharings = p.sharings ∙ q.sharings;
  partitions = p.partitions ∙ q.partitions;
  linesize = p.linesize ∙ q.linesize;
  cores = p.cores ∙ q.cores;
}

set_entries-SameCaches :
    (o : Option ℕ) (d : Descriptor) (i : CpuInfo) → SameCaches (set_entries o d i) i
unfolding set_entries
set_entries-SameCaches none d i = same i
set_entries-SameCaches (some id) d i = record {
  sizes = refl;
  sharings = refl;
  partitions = refl;
  linesize = refl;
  cores = refl;
}

set_descriptor-SameCaches :
    (t : DescriptorType) (d : Descriptor) (i : CpuInfo) → SameCaches (set_descriptor t d i) i
unfolding set_descriptor
set_descriptor-SameCaches tlb d i = set_entries-SameCaches (tlb_id (d.level)) d i
set_descriptor-SameCaches stlb d i = record {
  sizes = refl;
  sharings = refl;
  partitions = refl;
  linesize = refl;
  cores = refl;
}
set_descriptor-SameCaches null d i = same i
set_descriptor-SameCaches cache d i = same i
set_descriptor-SameCaches prefetch d i = same i

set_found-SameCaches : (o : Option Descriptor) (i : CpuInfo) → SameCaches (set_found o i) i
unfolding set_found
set_found-SameCaches none i = same i
set_found-SameCaches (some d) i = set_descriptor-SameCaches (d.kind) d i

scan_tlbs-SameCaches : (bs : List ℕ) (i : CpuInfo) → SameCaches (scan_tlbs bs i) i
unfolding scan_tlbs
scan_tlbs-SameCaches [] i = same i
scan_tlbs-SameCaches (b ∷ bs) i =
    SameCaches-trans (scan_tlbs-SameCaches bs (set_found (leaf2_find b) i))
      (set_found-SameCaches (leaf2_find b) i)

last_cores-pos : (cs : List Cache) (n : ℕ) → All IsCache cs → 0 < n → 0 < last_cores cs n
last_cores-pos [] n ok h = h
last_cores-pos (c ∷ cs) n (ok, oks) h = last_cores-pos cs (c.cores) oks (ok.cores_pos)

last_cores-some :
    (cs : List Cache) (n : ℕ)
    → All IsCache cs
    → of_last (λ c. c.linesize) l2u cs 0 ≢ 0
    → 0 < last_cores cs n
last_cores-some [] n ok ne = absurd (ne refl)
last_cores-some (c ∷ cs) n (ok, oks) ne = last_cores-pos cs (c.cores) oks (ok.cores_pos)

set_fallback-cores : (s : CacheScan) → 0 < s.info.cores_per_package → set_fallback s ≡ s
unfolding set_fallback
set_fallback-cores s h =
    let known : (s.info.cores_per_package == 0) ≡ false = ground arith in rw known refl

choose_linesize-second_level :
    (s : CacheScan)
    → s.linesizes l2u ≢ 0
    → choose_linesize s ≡ done (record (s.info) { cache_linesize = s.linesizes l2u })
unfolding choose_linesize
choose_linesize-second_level s h =
    let known : (s.linesizes l2u == 0) ≡ false = ground arith in rw known refl

-- What the structure and the colors hold of the caches that are described.
pub record IsPublished (cs : List Cache) (n : ℕ) (i : CpuInfo) (r : CpuInfo × ℕ) : Type 0 where
  pub sizes : (t : CacheType) → r.0.cache_size t ≡ of_last size_of t cs (i.cache_size t)
  pub sharings :
      (t : CacheType) → r.0.cache_sharing t ≡ of_last (λ c. c.sharing) t cs (i.cache_sharing t)
  pub partitions :
      (t : CacheType)
      → r.0.cache_partitions t ≡ of_last (λ c. c.partitions) t cs (i.cache_partitions t)
  pub linesize : r.0.cache_linesize ≡ of_last (λ c. c.linesize) l2u cs 0
  pub cores : r.0.cores_per_package ≡ last_cores cs (i.cores_per_package)
  pub some_cores : 0 < r.0.cores_per_package
  pub colors : r.1 ≡ most_colors cs n

-- A processor with leaf 4 that describes these caches, one of them of the second level, and that
-- asks for as many calls of leaf 2 as the array has room for.
pub record IsDescribed (p : Processor) (cs : List Cache) : Type 0 where
  pub word : (cpuid_fn p 2).eax < 2 ^ 32
  pub calls : 2 ^ 31 ≤ (cpuid_fn p 2).eax ⊎ (cpuid_fn p 2).eax % 2 ^ 8 ≤ 4
  pub max_leaf : 4 ≤ (cpuid_fn p 0).eax
  pub describes : Describes p 0 cs
  pub caches : All IsCache cs
  pub second_level : of_last (λ c. c.linesize) l2u cs 0 ≢ 0

module _ (p : Processor) (cs : List Cache) (h : IsDescribed p cs) where
  loaded :
      (s : List ℕ)
      → length s ≡ 64
      → head s ≡ 0
      → (t : List ℕ) × (load_descriptors (cpuid_fn p 2) s ≡ done t)
  loaded s l z = elim (load_descriptors-bounds (cpuid_fn p 2) s (h.word) l z) [
    | inl (low, many, e) ↦ elim (h.calls) [
      | inl high ↦ absurd (omega arith)
      | inr few ↦ absurd (omega arith)
    ]
    | inr (few, t, e, l') ↦ (t, e)
  ]

  -- With a round for each cache and one more, the caches are published: the size of each type is
  -- that of its last cache, the line size that of the second level, the colors the most of any,
  -- and there is a core.
  pub set_cache_info-IsPublished :
      (rounds colors : ℕ) (i : CpuInfo)
      → length (i.cache_info) ≡ 64
      → head (i.cache_info) ≡ 0
      → length cs < rounds
      → (r : CpuInfo × ℕ) × (set_cache_info p rounds colors i ≡ done r) × IsPublished cs colors i r
  unfolding set_cache_info
  set_cache_info-IsPublished rounds colors i l z enough =
      let (bytes, e) = loaded (i.cache_info) l z in
      let start : CacheScan = record {
        info = record i { cache_info = bytes };
        linesizes = λ t. 0;
        colors = colors;
      } in
      let (s, ran, k) = scan_caches-Published p cs rounds 0 start (h.describes) (h.caches) enough in
      let leaf4 : leb 4 ((cpuid_fn p 0).eax) ≡ true = ground (arith, h.max_leaf) in
      let cores : 0 < s.info.cores_per_package =
        rw (k.cores) (last_cores-some cs (i.cores_per_package) (h.caches) (h.second_level)) in
      let second : s.linesizes l2u ≢ 0 = rw (k.linesizes l2u) (h.second_level) in
      let j = record (s.info) { cache_linesize = s.linesizes l2u } in
      let kept = scan_tlbs-SameCaches (tail bytes) j in
      (
        (scan_tlbs (tail bytes) j, s.colors),
        rw (e, leaf4, ran, set_fallback-cores s cores, choose_linesize-second_level s second) refl,
        record {
          sizes = λ t. rw (kept.sizes) (k.sizes t);
          sharings = λ t. rw (kept.sharings) (k.sharings t);
          partitions = λ t. rw (kept.partitions) (k.partitions t);
          linesize = kept.linesize ∙ k.linesizes l2u;
          cores = kept.cores ∙ k.cores;
          some_cores = rw (kept.cores) cores;
          colors = k.colors;
        },
      )
