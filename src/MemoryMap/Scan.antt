-- ===== src/MemoryMap/Scan.antt =====
-- The loop over the firmware's ranges in `i386_vm_init` of Kernel/Kernel/i386/i386_vm_init.c. The
-- limit `maxpg` is 0 there, so the test of it is left out.
use beta_os.Prelude.{
  ℕ, zero, suc, ◌+◌, ◌-◌, ◌*◌, ◌^◌, Bool, not, ◌&&◌, ◌||◌, Option, none, some, List, [], ◌∷◌, ◌++◌,
  length, ltb, leb, ◌==◌, if◌then◌else◌,
}
use beta_os.MemoryMap.Range.{
  Range, Region, Bytes, conventional_memory, is_runtime, is_kern_reserved, base_of, top_of,
  pmap_type_of, count_bytes,
}

-- PMAP_MEMORY_REGIONS_SIZE, PMAP_MAX_RESERVED_RANGES and I386_LOWMEM_RESERVED
abbrev pub regions_size : ℕ
regions_size = 128

abbrev pub max_reserved_ranges : ℕ
max_reserved_ranges = 32

abbrev pub lowmem_reserved : ℕ
lowmem_reserved = 3

-- The table, with the latest region first; how many regions are stored behind the one that
-- `prev_pmptr` points to; the reserved ranges and their indices, latest first.
pub record State : Type 0 where
  pub regions : List Region
  pub prev : Option ℕ
  pub reserved_ranges : ℕ
  pub reserved_indices : List ℕ
  pub avail_end : ℕ
  pub avail_remaining : ℕ
  pub bytes : Bytes

-- How a run ends: with a state, in `panic`, or with a write behind the table.
pub data Outcome {ℓ} (A : Type ℓ) : Type ℓ where
  done : A → Outcome A
  panic : Outcome A
  overrun : Outcome A

infixl 5 ◌>>=◌
abbrev pub ◌>>=◌ {ℓ κ} : {A : Type ℓ} {B : Type κ} → Outcome A → (A → Outcome B) → Outcome B
done a >>= f = f a
panic >>= f = panic
overrun >>= f = overrun

-- A region that is free as a whole.
abbrev pub free_region : ℕ → ℕ → ℕ → Region
free_region base top attribute = record {
  base = base;
  alloc_up = base;
  alloc_down = top;
  end = top;
  type = conventional_memory;
  attribute = attribute;
}

-- A region that is allocated as a whole.
abbrev pub used_region : ℕ → ℕ → ℕ → Region
used_region base top attribute = record {
  base = base;
  alloc_up = top + 1;
  alloc_down = top;
  end = top;
  type = conventional_memory;
  attribute = attribute;
}

-- The base of a region that ends below the first free page.
abbrev pub low_base : ℕ → ℕ
low_base base = if leb lowmem_reserved base then base else lowmem_reserved

-- The region for a range below the first free page: reserved memory below the kernel stays free.
unfoldable pub low_region : ℕ → ℕ → ℕ → ℕ → Region
low_region kernel_page base top attribute =
    if is_kern_reserved attribute && ltb top kernel_page
    then free_region (low_base base) top attribute
    else used_region (low_base base) top attribute

-- The regions for a usable range, the latest first: one, or two if it spans the first free page.
unfoldable pub placed : ℕ → ℕ → ℕ → ℕ → ℕ → Region × List Region
unfolding low_region
placed fap kernel_page base top attribute =
    if ltb top fap
    then (low_region kernel_page base top attribute, [])
    else if ltb base fap && ltb fap top
    then (free_region fap top attribute, used_region base (fap - 1) attribute ∷ [])
    else (free_region base top attribute, [])

-- Whether the index of the latest region is kept for reserved memory.
unfoldable pub keeps_index : ℕ → ℕ → ℕ → ℕ → Bool
keeps_index fap kernel_page top attribute =
    is_kern_reserved attribute && (ltb top kernel_page || not (ltb top fap))

unfoldable pub nth : ℕ → List Region → Option Region
nth k [] = none
nth zero (r ∷ rs) = some r
nth (suc k) (r ∷ rs) = nth k rs

unfoldable pub extend_at : ℕ → Region → List Region → List Region
extend_at k n [] = []
extend_at zero n (r ∷ rs) = record r { end = n.end; alloc_down = n.alloc_down } ∷ rs
extend_at (suc k) n (r ∷ rs) = r ∷ extend_at k n rs

-- Whether a region continues the previous one.
unfoldable pub continues : Region → Region → Bool
continues n p =
    n.type == p.type
    && n.attribute == p.attribute
    && not (is_kern_reserved (n.attribute))
    && n.base == n.alloc_up
    && p.end == p.alloc_down
    && n.base == p.end + 1

-- The latest region is stored behind the others, unless it continues the previous one, which
-- stands at `k`.
unfoldable pub store_after : Region → List Region → ℕ → Option Region → List Region × Option ℕ
unfolding extend_at continues
store_after n others k none = (n ∷ others, some 0)
store_after n others k (some p) =
    if continues n p then (extend_at k n others, some k) else (n ∷ others, some 0)

unfoldable pub store_region : Region → List Region → Option ℕ → List Region × Option ℕ
unfolding nth store_after
store_region n others none = (n ∷ others, some 0)
store_region n others (some k) = store_after n others k (nth k others)

abbrev pub shift : ℕ → Option ℕ → Option ℕ
shift n none = none
shift n (some k) = some (k + n)

-- The state with the regions of a usable range.
unfoldable pub store_usable : ℕ → ℕ → Range → State → State
unfolding placed keeps_index store_region
store_usable fap kernel_page d s =
    let new = placed fap kernel_page (base_of d) (top_of d) (d.attribute) in
    let n = new.0 in
    let others = new.1 ++ s.regions in
    let stored = store_region n others (shift (length (new.1)) (s.prev)) in
    record s {
      regions = stored.0;
      prev = stored.1;
      reserved_ranges =
          if is_kern_reserved (d.attribute) then s.reserved_ranges + 1 else s.reserved_ranges;
      reserved_indices =
          if keeps_index fap kernel_page (top_of d) (d.attribute)
          then length others ∷ s.reserved_indices
          else s.reserved_indices;
      avail_end = if ltb (s.avail_end) (n.end * 2 ^ 12) then n.end * 2 ^ 12 else s.avail_end;
      avail_remaining = s.avail_remaining + (n.end - n.base);
    }

-- A usable range: too many reserved ones are refused, and there is no test that the second of two
-- regions fits the table.
unfoldable pub add_usable : ℕ → ℕ → Range → State → Outcome State
add_usable fap kernel_page d s =
    let new = placed fap kernel_page (base_of d) (top_of d) (d.attribute) in
    if is_kern_reserved (d.attribute) && ltb max_reserved_ranges (s.reserved_ranges + 1)
    then panic
    else if leb regions_size (length (new.1 ++ s.regions))
    then overrun
    else done (store_usable fap kernel_page d s)

-- One round of the loop.
unfoldable pub step : ℕ → ℕ → Range → State → Outcome State
unfolding add_usable
step fap kernel_page d s =
    let counted = record s { bytes = count_bytes d (s.bytes) } in
    if ltb (top_of d) (base_of d)
    then done s
    else if is_runtime (d.attribute) || not (pmap_type_of (d.type) == conventional_memory)
    then done (record counted { prev = none })
    else if ltb (top_of d) lowmem_reserved
    then done (record counted { prev = none })
    else add_usable fap kernel_page d counted

-- The loop. It ends early when the table is full.
unfoldable pub scan : ℕ → ℕ → List Range → State → Outcome State
unfolding step
scan fap kernel_page [] s = done s
scan fap kernel_page (d ∷ ds) s =
    if leb regions_size (length (s.regions))
    then done s
    else (step fap kernel_page d s >>= λ s'. scan fap kernel_page ds s')
