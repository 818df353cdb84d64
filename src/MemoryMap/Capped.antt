-- ===== src/MemoryMap/Capped.antt =====
-- The cut of the table to the memory that may be used, in Kernel/Kernel/i386/i386_vm_init.c.
use beta_os.Prelude.{
  ℕ, zero, suc, ◌+◌, ◌-◌, ◌/◌, ◌%◌, ◌^◌, ◌≤◌, ◌<◌, ◌≡◌, refl, true, inl, inr, List, [], ◌∷◌, length,
  ltb, leb, ◌==◌, if◌then◌else◌, Bool-cases, arith, min, All,
}
use beta_os.MemoryMap.Range.{Region}
use beta_os.MemoryMap.Size.{cut_region, cut_regions, cap_of, size_memory}

-- The pages of a table, from the first to the last of each region.
abbrev pub page_count : List Region → ℕ
page_count [] = 0
page_count (r ∷ rs) = (r.end + 1 - r.base) + page_count rs

-- A region ends where it starts or behind it.
abbrev pub IsOrdered : Region → Type 0
IsOrdered r = r.base ≤ r.end

-- A region that may be cut keeps a page more than it takes of the pages that are left.
cut_region-pages :
    (r : Region) (pages : ℕ)
    → IsOrdered r
    → ((cut_region r pages).1.end + 1 - (cut_region r pages).1.base
        ≡ min pages (r.end - r.base) + 1)
      × ((cut_region r pages).0 ≡ pages - (r.end - r.base))
unfolding cut_region
cut_region-pages r pages h = elim (Bool-cases (leb pages (r.end - r.base))) [
  | inl last ↦ (rw last (ground arith), rw last (ground arith))
  | inr more ↦ (rw more (ground arith), rw more refl)
]

ordered-count : (rs : List Region) → All IsOrdered rs → length rs ≤ page_count rs
ordered-count [] h = omega arith
ordered-count (r ∷ rs) (ok, h) = omega (arith, ordered-count rs h)

cut_regions-pages :
    (rs : List Region) (pages highest : ℕ)
    → All IsOrdered rs
    → pages + length rs ≤ page_count rs
    → page_count ((cut_regions rs pages highest).0)
      ≡ pages + length ((cut_regions rs pages highest).0)
unfolding cut_regions
cut_regions-pages [] pages highest h enough = omega arith
cut_regions-pages (r ∷ rs) zero highest h enough = refl
cut_regions-pages (r ∷ rs) (suc n) highest (ok, h) enough =
    let cut = cut_region r (suc n) in
    let (kept, left) = cut_region-pages r (suc n) ok in
    let used = suc n - cut.0 in
    let last = r.base + used - 1 in
    let others = ordered-count rs h in
    let rest =
      cut_regions-pages rs (cut.0)
        (if used == 0 then highest else if ltb highest last then last else highest) h
        (omega (arith, left, others)) in
    omega (arith, kept, left, rest)

-- Where the memory is capped, and the regions have at least the pages that are counted as
-- available and one more each, the regions that are kept have the pages that are counted as
-- available then, and one more each: the last page of a region is never counted.
pub size_memory-page_count :
    (maxmem actual first_avail : ℕ) (regions : List Region) (avail_end remaining : ℕ)
    → first_avail < cap_of maxmem actual
    → cap_of maxmem actual < actual
    → All IsOrdered regions
    → remaining + length regions ≤ page_count regions
    → let sizes = size_memory maxmem actual first_avail regions avail_end remaining in
      (page_count (sizes.regions) ≡ sizes.avail_remaining + length (sizes.regions))
      × (sizes.avail_remaining ≡ remaining - (actual - cap_of maxmem actual) / 2 ^ 12 % 2 ^ 32)
      × (sizes.sane_size ≡ cap_of maxmem actual)
unfolding size_memory
size_memory-page_count maxmem actual first_avail regions avail_end remaining above below ok enough =
    let a : ltb first_avail (cap_of maxmem actual) ≡ true = ground arith in
    let b : ltb (cap_of maxmem actual) actual ≡ true = ground arith in
    let left = remaining - (actual - cap_of maxmem actual) / 2 ^ 12 % 2 ^ 32 in
    (rw (a, b) (cut_regions-pages regions left 0 ok (omega arith)), rw (a, b) refl, rw (a, b) refl)
