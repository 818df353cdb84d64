-- ===== src/Cpuid/Described.antt =====
-- Leaf 4 in Kernel/Kernel/i386/cpuid.c against a list of caches that a processor describes by it.
use beta_os.Prelude.{
  ℕ, zero, suc, ◌+◌, ◌-◌, ◌*◌, ◌/◌, ◌%◌, ◌^◌, ◌≤◌, ◌<◌, ◌≡◌, refl, ap, ◌∙◌, ◌&&◌, Bool, false, List,
  [], ◌∷◌, length, ltb, ◌==◌, if◌then◌else◌, arith, All,
}
use beta_os.Cpuid.Regs.{Regs, Processor, bitfield32, done}
use beta_os.Cpuid.Info.{CacheType, lnone, l1i, l1d, l2u, l3u, same_type}
use beta_os.Cpuid.Cache.{CacheScan, cache_type_of, set_cache, add_cache, scan_caches}

-- A cache: its level and kind (1 data, 2 instructions, 3 both), how many threads share it, and how
-- many cores the package has.
pub record Cache : Type 0 where
  pub level : ℕ
  pub kind : ℕ
  pub sharing : ℕ
  pub cores : ℕ
  pub linesize : ℕ
  pub partitions : ℕ
  pub associativity : ℕ
  pub sets : ℕ

-- The fields fit the bits that leaf 4 has for them.
pub record IsCache (c : Cache) : Type 0 where
  pub level_fits : c.level < 8
  pub kind_pos : 0 < c.kind
  pub kind_fits : c.kind < 32
  pub sharing_pos : 0 < c.sharing
  pub sharing_fits : c.sharing ≤ 2 ^ 12
  pub cores_pos : 0 < c.cores
  pub cores_fits : c.cores ≤ 2 ^ 6
  pub linesize_pos : 0 < c.linesize
  pub linesize_fits : c.linesize ≤ 2 ^ 12
  pub partitions_pos : 0 < c.partitions
  pub partitions_fits : c.partitions ≤ 2 ^ 10
  pub associativity_pos : 0 < c.associativity
  pub associativity_fits : c.associativity ≤ 2 ^ 10
  pub sets_pos : 0 < c.sets
  pub sets_fits : c.sets < 2 ^ 32

-- How leaf 4 describes a cache.
unfoldable pub encode_cache : Cache → Regs
encode_cache c = record {
  eax = c.kind + c.level * 2 ^ 5 + (c.sharing - 1) * 2 ^ 14 + (c.cores - 1) * 2 ^ 26;
  ebx = c.linesize - 1 + (c.partitions - 1) * 2 ^ 12 + (c.associativity - 1) * 2 ^ 22;
  ecx = c.sets - 1;
  edx = 0;
}

-- Leaf 4 describes the caches from subleaf `index` on, and then no more.
abbrev pub Describes : Processor → ℕ → List Cache → Type 0
Describes p index [] = bitfield32 ((p.cpuid 4 index).eax) 4 0 ≡ 0
Describes p index (c ∷ cs) = (p.cpuid 4 index ≡ encode_cache c) × Describes p (index + 1) cs

-- Which cache a description is of: those of the first level are for data (1) or instructions (2),
-- those of the second and third for both (3), and others are left out.
abbrev pub type_of : Cache → CacheType
type_of c =
    if c.kind == 1 && c.level == 1
    then l1d
    else if c.kind == 2 && c.level == 1
    then l1i
    else if c.kind == 3 && c.level == 2
    then l2u
    else if c.kind == 3 && c.level == 3
    then l3u
    else lnone

cache_type_of-kind : (c : Cache) → cache_type_of (c.level) (c.kind) ≡ type_of c
unfolding cache_type_of
cache_type_of-kind c = ground arith

-- Whether a cache of one type is the one that an array has under another; Lnone is for none.
abbrev stands_for : CacheType → CacheType → Bool
stands_for lnone t = false
stands_for type t = same_type type t

-- A value of the last cache of a type, or `n` if there is none.
abbrev pub of_last : (Cache → ℕ) → CacheType → List Cache → ℕ → ℕ
of_last f t [] n = n
of_last f t (c ∷ cs) n = of_last f t cs (if stands_for (type_of c) t then f c else n)

abbrev pub size_of : Cache → ℕ
size_of c = c.linesize * c.sets * c.associativity * c.partitions % 2 ^ 32

abbrev pub colors_of : Cache → ℕ
colors_of c = c.linesize * c.sets % 2 ^ 32 / 2 ^ 12

abbrev pub last_cores : List Cache → ℕ → ℕ
last_cores [] n = n
last_cores (c ∷ cs) n = last_cores cs (c.cores)

-- The greatest number of page colors of the caches with a type, and `n`.
abbrev pub most_colors : List Cache → ℕ → ℕ
most_colors [] n = n
most_colors (c ∷ cs) n =
    most_colors cs
      (elim (type_of c) [ lnone ↦ n | _ ↦ if ltb n (colors_of c) then colors_of c else n ])

-- What the scan of the caches makes of a state.
pub record Published (cs : List Cache) (s s' : CacheScan) : Type 0 where
  pub sizes : (t : CacheType) → s'.info.cache_size t ≡ of_last size_of t cs (s.info.cache_size t)
  pub linesizes : (t : CacheType) → s'.linesizes t ≡ of_last (λ c. c.linesize) t cs (s.linesizes t)
  pub sharings :
      (t : CacheType)
      → s'.info.cache_sharing t ≡ of_last (λ c. c.sharing) t cs (s.info.cache_sharing t)
  pub partitions :
      (t : CacheType)
      → s'.info.cache_partitions t ≡ of_last (λ c. c.partitions) t cs (s.info.cache_partitions t)
  pub colors : s'.colors ≡ most_colors cs (s.colors)
  pub cores : s'.info.cores_per_package ≡ last_cores cs (s.info.cores_per_package)

decoded :
    (c : Cache)
    → IsCache c
    → let r = encode_cache c in
      (bitfield32 (r.eax) 4 0 ≡ c.kind)
      × (bitfield32 (r.eax) 7 5 ≡ c.level)
      × (bitfield32 (r.eax) 25 14 + 1 ≡ c.sharing)
      × (bitfield32 (r.eax) 31 26 + 1 ≡ c.cores)
      × (bitfield32 (r.ebx) 11 0 + 1 ≡ c.linesize)
      × (bitfield32 (r.ebx) 21 12 + 1 ≡ c.partitions)
      × (bitfield32 (r.ebx) 31 22 + 1 ≡ c.associativity)
      × ((bitfield32 (r.ecx) 31 0 + 1) % 2 ^ 32 ≡ c.sets)
unfolding encode_cache
decoded c ok = ground arith

-- The round for a cache, by its fields.
abbrev with_fields : CacheType → ℕ → ℕ → ℕ → ℕ → ℕ → ℕ → CacheScan → CacheScan
with_fields type sharing cores linesize partitions associativity sets s =
    let t = record s { info = record (s.info) { cores_per_package = cores } } in
    elim type [ lnone ↦ t | type ↦ set_cache type sharing linesize partitions associativity sets t ]

abbrev with_type : CacheType → Cache → CacheScan → CacheScan
with_type type c s =
    with_fields type (c.sharing) (c.cores) (c.linesize) (c.partitions) (c.associativity) (c.sets) s

add_cache-encode_cache :
    (c : Cache) (s : CacheScan)
    → IsCache c
    → add_cache (encode_cache c) s ≡ with_type (type_of c) c s
unfolding add_cache
add_cache-encode_cache c s ok =
    let (h0, h1, h2, h3, h4, h5, h6, h7) = decoded c ok in
    (λ i. with_fields (cache_type_of (h1 i) (h0 i)) (h2 i) (h3 i) (h4 i) (h5 i) (h6 i) (h7 i) s)
    ∙ ap (λ type. with_type type c s) (cache_type_of-kind c)

with_type-Published :
    (type : CacheType) (c : Cache) (s : CacheScan)
    → type_of c ≡ type
    → Published (c ∷ []) s (with_type type c s)
unfolding set_cache
with_type-Published lnone c s e = record {
  sizes = λ t. rw e refl;
  linesizes = λ t. rw e refl;
  sharings = λ t. rw e refl;
  partitions = λ t. rw e refl;
  colors = rw (e, most_colors) refl;
  cores = refl;
}
with_type-Published l1i c s e = record {
  sizes = λ t. rw e refl;
  linesizes = λ t. rw e refl;
  sharings = λ t. rw e refl;
  partitions = λ t. rw e refl;
  colors = rw (e, most_colors) refl;
  cores = refl;
}
with_type-Published l1d c s e = record {
  sizes = λ t. rw e refl;
  linesizes = λ t. rw e refl;
  sharings = λ t. rw e refl;
  partitions = λ t. rw e refl;
  colors = rw (e, most_colors) refl;
  cores = refl;
}
with_type-Published l2u c s e = record {
  sizes = λ t. rw e refl;
  linesizes = λ t. rw e refl;
  sharings = λ t. rw e refl;
  partitions = λ t. rw e refl;
  colors = rw (e, most_colors) refl;
  cores = refl;
}
with_type-Published l3u c s e = record {
  sizes = λ t. rw e refl;
  linesizes = λ t. rw e refl;
  sharings = λ t. rw e refl;
  partitions = λ t. rw e refl;
  colors = rw (e, most_colors) refl;
  cores = refl;
}

Published-cons :
    (c : Cache) (cs : List Cache) (s t u : CacheScan)
    → Published (c ∷ []) s t
    → Published cs t u
    → Published (c ∷ cs) s u
Published-cons c cs s t u h k = record {
  sizes = λ type. rw (k.sizes type, h.sizes type) refl;
  linesizes = λ type. rw (k.linesizes type, h.linesizes type) refl;
  sharings = λ type. rw (k.sharings type, h.sharings type) refl;
  partitions = λ type. rw (k.partitions type, h.partitions type) refl;
  colors = rw (k.colors, h.colors) refl;
  cores = rw (k.cores, h.cores) refl;
}

-- On a processor that describes caches by leaf 4, a round for each and one more are enough, and
-- the scan publishes them.
pub scan_caches-Published :
    (p : Processor) (cs : List Cache) (rounds index : ℕ) (s : CacheScan)
    → Describes p index cs
    → All IsCache cs
    → length cs < rounds
    → (s' : CacheScan) × (scan_caches p rounds index s ≡ done s') × Published cs s s'
unfolding scan_caches
scan_caches-Published p cs zero index s h ok lt = absurd (omega arith)
scan_caches-Published p [] (suc rounds) index s h ok lt =
    let none_left : bitfield32 ((p.cpuid 4 index).eax) 4 0 ≡ 0 = h in
    (
      s,
      rw none_left refl,
      record {
        sizes = λ t. refl;
        linesizes = λ t. refl;
        sharings = λ t. refl;
        partitions = λ t. refl;
        colors = refl;
        cores = refl;
      },
    )
scan_caches-Published p (c ∷ cs) (suc rounds) index s (e, h) (ok, oks) lt =
    let t = add_cache (encode_cache c) s in
    let (u, ran, k) = scan_caches-Published p cs rounds (index + 1) t h oks (omega arith) in
    let there : (bitfield32 ((encode_cache c).eax) 4 0 == 0) ≡ false =
      ground (arith, decoded c ok) in
    (
      u,
      rw (e, there) ran,
      Published-cons c cs s t u
          (rw (add_cache-encode_cache c s ok) (with_type-Published (type_of c) c s refl)) k,
    )
