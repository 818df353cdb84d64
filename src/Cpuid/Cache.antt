-- ===== src/Cpuid/Cache.antt =====
-- `cpuid_set_cache_info` of Kernel/Kernel/i386/cpuid.c: the descriptors of leaf 2, the caches of
-- leaf 4, the line size, and the translation buffers.
use beta_os.Prelude.{
  ℕ, zero, suc, ◌+◌, ◌*◌, ◌/◌, ◌%◌, ◌^◌, ◌||◌, Option, none, some, List, [], ◌∷◌, ◌++◌, ltb, leb,
  ◌==◌, if◌then◌else◌,
}
use beta_os.Libc.Strncmp.{head, tail}
use beta_os.Cpuid.Regs.{
  Regs, Processor, cpuid_fn, bitfield32, bytes_of, Outcome, done, overrun, panic, running, ◌>>=◌,
}
use beta_os.Cpuid.Table.{
  DescriptorType, Descriptor, tlb, stlb, inst, data_tlb, data0, data1, small, leaf2_find,
}
use beta_os.Cpuid.Info.{CacheType, lnone, l1i, l1d, l2u, l3u, update, CpuInfo}

-- `((uint32_t *) bytes)[j] = w`, which is outside the array behind its last four bytes.
unfoldable pub put32 : List ℕ → ℕ → ℕ → Outcome (List ℕ)
put32 (a ∷ b ∷ c ∷ d ∷ s) zero w = done (bytes_of w ++ s)
put32 (a ∷ b ∷ c ∷ d ∷ s) (suc j) w = put32 s j w >>= λ s'. done (a ∷ b ∷ c ∷ d ∷ s')
put32 _ _ _ = overrun

-- The registers from number `j` on; one with bit 31 set is left out.
unfoldable pub store_words : List ℕ → ℕ → List ℕ → Outcome (List ℕ)
unfolding put32
store_words [] j s = done s
store_words (w ∷ ws) j s =
    (if w / 2 ^ 31 == 1 then done s else put32 s j w) >>= λ s'. store_words ws (suc j) s'

abbrev pub words_of : Regs → List ℕ
words_of r = r.eax ∷ r.ebx ∷ r.ecx ∷ r.edx ∷ []

-- The loop over the further calls; the first byte of the array counts them. The array has 64 bytes.
unfoldable pub load_more : ℕ → ℕ → Regs → List ℕ → Outcome (List ℕ)
unfolding store_words
load_more zero i r s = running
load_more (suc rounds) i r s =
    let rest = (store_words (words_of r) (4 * i) s >>= λ s'. load_more rounds (i + 1) r s') in
    if ltb i (head s) then (if ltb 64 (i * 16) then done s else rest) else done s

-- Leaf 2. The loop breaks at the fifth call, so five rounds are all.
unfoldable pub load_descriptors : Regs → List ℕ → Outcome (List ℕ)
unfolding store_words load_more
load_descriptors r s = store_words (words_of r) 0 s >>= λ s'. load_more 5 1 r s'

-- What the loop over the caches works on: the structure, `linesizes`, and the greatest number of
-- page colors, vm_cache_geometry_colors.
pub record CacheScan : Type 0 where
  pub info : CpuInfo
  pub linesizes : CacheType → ℕ
  pub colors : ℕ

-- The type of a cache from its level and the type that leaf 4 gives.
unfoldable pub cache_type_of : ℕ → ℕ → CacheType
cache_type_of level type =
    if level == 1
    then (if type == 1 then l1d else if type == 2 then l1i else lnone)
    else if level == 2
    then (if type == 3 then l2u else lnone)
    else if level == 3
    then (if type == 3 then l3u else lnone)
    else lnone

-- What is stored for a cache of a type other than Lnone.
unfoldable pub set_cache : CacheType → ℕ → ℕ → ℕ → ℕ → ℕ → CacheScan → CacheScan
set_cache type sharing linesize partitions associativity sets s =
    let size = linesize * sets * associativity * partitions % 2 ^ 32 in
    let new_colors = linesize * sets % 2 ^ 32 / 2 ^ 12 in
    record s {
      info = record (s.info) {
        cache_size = update (s.info.cache_size) type size;
        cache_sharing = update (s.info.cache_sharing) type sharing;
        cache_partitions = update (s.info.cache_partitions) type partitions;
        l2_cache_associativity = elim type [
          | l2u ↦ associativity
          | _ ↦ s.info.l2_cache_associativity
        ];
      };
      linesizes = update (s.linesizes) type linesize;
      colors = if ltb (s.colors) new_colors then new_colors else s.colors;
    }

-- One round of the loop, for a cache that is there.
unfoldable pub add_cache : Regs → CacheScan → CacheScan
unfolding cache_type_of set_cache
add_cache r s =
    let t = record s {
      info = record (s.info) { cores_per_package = bitfield32 (r.eax) 31 26 + 1 };
    } in
    elim (cache_type_of (bitfield32 (r.eax) 7 5) (bitfield32 (r.eax) 4 0)) [
      | lnone ↦ t
      | type ↦
          set_cache type (bitfield32 (r.eax) 25 14 + 1) (bitfield32 (r.ebx) 11 0 + 1)
            (bitfield32 (r.ebx) 21 12 + 1) (bitfield32 (r.ebx) 31 22 + 1)
            ((bitfield32 (r.ecx) 31 0 + 1) % 2 ^ 32) t
    ]

-- The loop over the caches, until one of type 0.
unfoldable pub scan_caches : Processor → ℕ → ℕ → CacheScan → Outcome CacheScan
unfolding add_cache
scan_caches p zero index s = running
scan_caches p (suc rounds) index s =
    let r = p.cpuid 4 index in
    let rest = scan_caches p rounds (index + 1) (add_cache r s) in
    if bitfield32 (r.eax) 4 0 == 0 then done s else rest

-- What is taken if leaf 4 gave nothing.
unfoldable pub set_fallback : CacheScan → CacheScan
set_fallback s =
    if s.info.cores_per_package == 0
    then record s {
      info = record (s.info) {
        cores_per_package = 1;
        cache_size = update (s.info.cache_size) l2u (s.info.l2_cache_size * 1024 % 2 ^ 32);
        cache_sharing = update (s.info.cache_sharing) l2u 1;
        cache_partitions = update (s.info.cache_partitions) l2u 1;
      };
      linesizes = update (s.linesizes) l2u (s.info.l2_cache_linesize);
    }
    else s

-- The line size to publish.
unfoldable pub choose_linesize : CacheScan → Outcome CpuInfo
choose_linesize s =
    if s.linesizes l2u == 0
    then (if s.linesizes l1d == 0
        then panic
        else done (record (s.info) { cache_linesize = s.linesizes l1d }))
    else done (record (s.info) { cache_linesize = s.linesizes l2u })

abbrev pub update_tlb : (ℕ → ℕ → ℕ → ℕ) → ℕ → ℕ → ℕ → ℕ → ℕ → ℕ → ℕ → ℕ
update_tlb a id page level n id' page' level' =
    if id == id'
    then (if page == page'
        then (if level == level' then n else a id' page' level')
        else a id' page' level')
    else a id' page' level'

-- The index for a translation buffer, 0 for instructions and 1 for data.
unfoldable pub tlb_id : ℕ → Option ℕ
tlb_id level =
    if level == inst
    then some 0
    else if level == data_tlb || level == data0 || level == data1
    then some 1
    else none

-- The entries of a translation buffer; one that is for neither is left out.
unfoldable pub set_entries : Option ℕ → Descriptor → CpuInfo → CpuInfo
set_entries none d i = i
set_entries (some id) d i = record i {
  tlb =
      update_tlb (i.tlb) id (if d.size == small then 0 else 1) (if d.level == data1 then 1 else 0)
        (d.entries);
}

unfoldable pub set_descriptor : DescriptorType → Descriptor → CpuInfo → CpuInfo
unfolding tlb_id set_entries
set_descriptor tlb d i = set_entries (tlb_id (d.level)) d i
set_descriptor stlb d i = record i { stlb = d.entries }
set_descriptor _ d i = i

unfoldable pub set_found : Option Descriptor → CpuInfo → CpuInfo
unfolding set_descriptor
set_found none i = i
set_found (some d) i = set_descriptor (d.kind) d i

-- The loop over the descriptors, from the second byte on.
unfoldable pub scan_tlbs : List ℕ → CpuInfo → CpuInfo
unfolding leaf2_find set_found
scan_tlbs [] i = i
scan_tlbs (b ∷ bs) i = scan_tlbs bs (set_found (leaf2_find b) i)

-- cpuid_set_cache_info, with the rounds for the loop over the caches. It gives the structure and
-- the greatest number of page colors.
unfoldable pub set_cache_info : Processor → ℕ → ℕ → CpuInfo → Outcome (CpuInfo × ℕ)
unfolding cpuid_fn load_descriptors scan_caches set_fallback choose_linesize scan_tlbs
set_cache_info p rounds colors i = load_descriptors (cpuid_fn p 2) (i.cache_info) >>= λ bytes.
    let start : CacheScan = record {
      info = record i { cache_info = bytes };
      linesizes = λ t. 0;
      colors = colors;
    } in
    (if leb 4 ((cpuid_fn p 0).eax) then scan_caches p rounds 0 start else done start) >>= λ s.
    choose_linesize (set_fallback s) >>= λ i'. done (scan_tlbs (tail bytes) i', s.colors)
