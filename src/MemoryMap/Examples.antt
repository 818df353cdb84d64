-- ===== src/MemoryMap/Examples.antt =====
-- Tests of the memory map of Kernel/Kernel/i386/i386_vm_init.c, and the theorems at concrete maps.
use beta_os.Prelude.{
  ℕ, ◌+◌, ◌-◌, ◌*◌, ◌/◌, ◌%◌, ◌^◌, ◌≡◌, refl, none, List, [], ◌∷◌, length, replicate, arith, All,
}
use beta_os.MemoryMap.Range.{Range, Region, Bytes, base_of, top_of, count_bytes, pmap_type_of}
use beta_os.MemoryMap.Scan.{State, Outcome, done, overrun, free_region, placed, store_usable, scan}
use beta_os.MemoryMap.Size.{cap_of, size_memory}
use beta_os.MemoryMap.Capped.{page_count, size_memory-page_count}
use beta_os.MemoryMap.Offered.{is_usable}
use beta_os.MemoryMap.Table.{covered, free, scan-overrun}
use beta_os.MemoryMap.Firmware.{IsRange, with_mark, pieces, given, left_free}
use beta_os.MemoryMap.Marked.{count_as}
use beta_os.MemoryMap.Pages.{scan-pages}

abbrev range : ℕ → ℕ → ℕ → ℕ → Range
range type page pages attribute = record {
  type = type;
  physical_start = page * 2 ^ 12;
  number_of_pages = pages;
  attribute = attribute;
}

-- Low memory, a hole for the firmware, memory that spans the kernel's end, two adjacent pieces, and
-- memory for the firmware's run time.
abbrev sample_map : List Range
sample_map =
    range 7 0 0xA0 0
    ∷ range 0 0xA0 0x60 0
    ∷ range 7 0x100 0x1000 0
    ∷ range 2 0x1100 0x100 0
    ∷ range 4 0x1200 0x100 0
    ∷ range 6 0x1300 0x10 (2 ^ 63)
    ∷ []

abbrev no_bytes : Bytes
no_bytes = record {
  sane_size = 0;
  conventional = 0;
  runtime_services = 0;
  acpi_reclaim = 0;
  acpi_nvs = 0;
  pal_code = 0;
  reserved = 0;
  unusable = 0;
  mmio = 0;
  other = 0;
}

abbrev with_table : List Region → State
with_table regions = record {
  regions = regions;
  prev = none;
  reserved_ranges = 0;
  reserved_indices = [];
  avail_end = 0;
  avail_remaining = 0;
  bytes = no_bytes;
}

abbrev bounds : List Region → List (ℕ × ℕ × ℕ × ℕ)
bounds [] = []
bounds (r ∷ rs) = (r.base, r.alloc_up, r.alloc_down, r.end) ∷ bounds rs

abbrev shown : Outcome State → List (ℕ × ℕ × ℕ × ℕ) × ℕ
shown (done s) = (bounds (s.regions), s.bytes.sane_size)
shown _ = ([], 0)

scan_test : shown (scan 0x800 0x100 sample_map (with_table [])) ≡ (
  (0x800, 0x800, 0x12FF, 0x12FF) ∷ (0x100, 0x800, 0x7FF, 0x7FF) ∷ (3, 0xA0, 0x9F, 0x9F) ∷ [],
  0x12B0 * 2 ^ 12,
)
unfolding scan base_of top_of count_bytes pmap_type_of placed store_usable
scan_test = refl

-- A range that ends on the first free page: the pages below, which are in use, are free, too.
scan_ends_test :
    shown (scan 0x800 0x100 (range 7 0x100 0x701 0 ∷ []) (with_table []))
    ≡ ((0x100, 0x100, 0x800, 0x800) ∷ [], 0x701 * 2 ^ 12)
unfolding scan base_of top_of count_bytes pmap_type_of placed store_usable
scan_ends_test = refl

sample-IsRange : All IsRange sample_map
sample-IsRange = (
  record { has_pages = omega arith; fits = omega arith; attributes = omega arith },
  (
    record { has_pages = omega arith; fits = omega arith; attributes = omega arith },
    (
      record { has_pages = omega arith; fits = omega arith; attributes = omega arith },
      (
        record { has_pages = omega arith; fits = omega arith; attributes = omega arith },
        (
          record { has_pages = omega arith; fits = omega arith; attributes = omega arith },
          (record { has_pages = omega arith; fits = omega arith; attributes = omega arith }, tt),
        ),
      ),
    ),
  ),
)

scan-pages_example :
    (s' : State) × (scan 0x800 0x100 sample_map (with_table []) ≡ done s')
    × ((a q : ℕ) → covered a q (s'.regions) ≡ given 0x800 a q sample_map)
    × ((q : ℕ) → free q (s'.regions) ≡ left_free 0x800 0x100 q sample_map)
    × ((a : ℕ) → count_as (with_mark a) (s'.regions) ≡ pieces 0x800 (with_mark a) sample_map)
scan-pages_example =
    scan-pages 0x800 0x100 sample_map (with_table []) (omega arith) (omega arith) sample-IsRange
      refl refl (omega arith) (omega arith)

abbrev spanning : Range
spanning = range 7 0x100 0x1000 0

abbrev full_table : State
full_table = with_table (replicate 127 (free_region 0x4000 0x4FFF 0))

scan-overrun_example : scan 0x800 0x100 (spanning ∷ []) full_table ≡ overrun
unfolding is_usable base_of top_of pmap_type_of
scan-overrun_example = scan-overrun 0x800 0x100 spanning [] full_table refl refl refl refl

-- 4 GB and 256 MB of memory, capped at 4 GB.
abbrev two_regions : List Region
two_regions = free_region 0x1000 0x80000 0 ∷ free_region 0x90000 0x110000 0 ∷ []

cap_test :
    bounds
      ((size_memory (2 ^ 32) (2 ^ 32 + 2 ^ 28) 0x800000 two_regions 0x110000000 0xFF000).regions)
    ≡ (0x1000, 0x1000, 0x80000, 0x80000) ∷ (0x90000, 0x90000, 0x100000, 0x100000) ∷ []
unfolding size_memory
cap_test = refl

size_memory-page_count_example :
    let sizes = size_memory (2 ^ 32) (2 ^ 32 + 2 ^ 28) 0x800000 two_regions 0x110000000 0xFF000 in
    (page_count (sizes.regions) ≡ sizes.avail_remaining + length (sizes.regions))
    × (sizes.avail_remaining
        ≡ 0xFF000 - (2 ^ 32 + 2 ^ 28 - cap_of (2 ^ 32) (2 ^ 32 + 2 ^ 28)) / 2 ^ 12 % 2 ^ 32)
    × (sizes.sane_size ≡ cap_of (2 ^ 32) (2 ^ 32 + 2 ^ 28))
unfolding cap_of
size_memory-page_count_example =
    size_memory-page_count (2 ^ 32) (2 ^ 32 + 2 ^ 28) 0x800000 two_regions 0x110000000 0xFF000
      (omega arith) (omega arith) (omega arith, (omega arith, tt)) (omega arith)
