-- ===== src/MemoryMap/Size.antt =====
-- The sizes that `i386_vm_init` of Kernel/Kernel/i386/i386_vm_init.c makes of the memory map: the
-- cap on the memory and the pages reserved for low memory.
use beta_os.Prelude.{
  ℕ, zero, suc, ◌+◌, ◌-◌, ◌*◌, ◌/◌, ◌%◌, ◌^◌, Bool, ◌&&◌, List, [], ◌∷◌, ltb, leb, ◌==◌,
  if◌then◌else◌,
}
use beta_os.MemoryMap.Range.{Region}

abbrev pub gigabyte : ℕ
gigabyte = 2 ^ 30

-- KERNEL_MAXMEM
abbrev pub kernel_maxmem : ℕ
kernel_maxmem = 252 * gigabyte

-- A region that may use only the first pages, as many as are left; it gives the pages that are
-- left then and the end of the region, which is cut if they run out.
unfoldable pub cut_region : Region → ℕ → ℕ × Region
cut_region r pages =
    let span = r.end - r.base in
    if leb pages span
    then (0, record r { end = r.base + pages; alloc_down = r.base + pages })
    else (pages - span, r)

-- The loop over the regions, in the order of the table, with the pages to use; it gives the
-- regions that are kept and the highest page that is used.
unfoldable pub cut_regions : List Region → ℕ → ℕ → List Region × ℕ
unfolding cut_region
cut_regions [] pages highest = ([], highest)
cut_regions (r ∷ rs) zero highest = ([], highest)
cut_regions (r ∷ rs) (suc n) highest =
    let cut = cut_region r (suc n) in
    let used = suc n - cut.0 in
    let last = r.base + used - 1 in
    let rest =
      cut_regions rs (cut.0)
        (if used == 0 then highest else if ltb highest last then last else highest) in
    (cut.1 ∷ rest.0, rest.1)

-- The memory sizes, in bytes.
pub record Sizes : Type 0 where
  pub regions : List Region
  pub avail_end : ℕ
  pub avail_remaining : ℕ
  pub sane_size : ℕ
  pub mem_size : ℕ
  pub lopage_free_limit : ℕ
  pub lopage_lowater : ℕ
  pub lopage_needed : Bool

-- The size that the memory is capped at, from the argument and the size that the loader reports;
-- 0 is no cap.
unfoldable pub cap_of : ℕ → ℕ → ℕ
cap_of maxmem actual = if maxmem == 0 && ltb kernel_maxmem actual then kernel_maxmem else maxmem

-- The reserve of low pages.
unfoldable pub lo_reserve : ℕ → ℕ
lo_reserve sane_size =
    if leb (gigabyte * 15) sane_size
    then 8192 * 4
    else if leb (gigabyte * 7) sane_size
    then 8192 * 2
    else 8192

-- From the table, in its order, to the sizes.
unfoldable pub size_memory : ℕ → ℕ → ℕ → List Region → ℕ → ℕ → Sizes
unfolding cap_of lo_reserve cut_regions
size_memory maxmem actual first_avail regions avail_end remaining =
    let cap = cap_of maxmem actual in
    let capped = ltb first_avail cap && ltb cap actual in
    let discarded = (actual - cap) / 2 ^ 12 % 2 ^ 32 in
    let left = remaining - discarded in
    let cut = cut_regions regions left 0 in
    let sane = (if capped then cap else actual) in
    let top = (if capped then (cut.1 + 1) * 2 ^ 12 else avail_end) in
    let needs = leb (4 * gigabyte) top in
    record {
      regions = if capped then cut.0 else regions;
      avail_end = top;
      avail_remaining = if capped then left else remaining;
      sane_size = sane;
      mem_size = if ltb (2 * gigabyte) sane then 2 * gigabyte else sane;
      lopage_free_limit = if needs then lo_reserve sane else 0;
      lopage_lowater = if needs then lo_reserve sane / 16 else 0;
      lopage_needed = needs;
    }
