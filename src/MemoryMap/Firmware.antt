-- ===== src/MemoryMap/Firmware.antt =====
-- What the ranges of the firmware say of the memory, read without the code of
-- Kernel/Kernel/i386/i386_vm_init.c.
use beta_os.Prelude.{
  ℕ, ◌*◌, ◌+◌, ◌-◌, ◌/◌, ◌%◌, ◌≤◌, ◌<◌, Bool, false, ◌&&◌, ◌||◌, List, [], ◌∷◌, ltb, leb, ◌==◌,
  if◌then◌else◌,
}
use beta_os.MemoryMap.Range.{Range}

-- The first page of a range and the last: the pages are 4096 bytes, and `number_of_pages` of them
-- lie one after the other.
abbrev pub first_page : Range → ℕ
first_page d = d.physical_start / 4096

abbrev pub last_page : Range → ℕ
last_page d = d.physical_start / 4096 + d.number_of_pages - 1

-- A range with a page, whose page numbers have 32 bits, and attributes of 64 bits.
pub record IsRange (d : Range) : Type 0 where
  pub has_pages : 0 < d.number_of_pages
  pub fits : d.physical_start / 4096 + d.number_of_pages ≤ 0x100000000
  pub attributes : d.attribute < 0x10000000000000000

-- Memory for the kernel: of the loader (1 and 2), of the boot services (3 and 4) or conventional
-- (7), and without the highest attribute bit, which is for the firmware's run time.
abbrev pub is_memory : Range → Bool
is_memory d =
    (leb 1 (d.type) && leb (d.type) 4 || d.type == 7) && ltb (d.attribute) 0x8000000000000000

-- The attribute bit 59 is for memory that devices must not have.
abbrev pub is_marked : Range → Bool
is_marked d = leb 0x800000000000000 (d.attribute % 0x1000000000000000)

-- Page `q` is one of the range, other than page 0 and the greatest page number.
abbrev pub has_page : ℕ → Range → Bool
has_page q d = leb (first_page d) q && leb q (last_page d) && leb 1 q && leb q 0xFFFFFFFE

-- Page `q` of memory, except in a range that ends below page 3, and except pages 1 and 2 in a
-- range that ends below the first free page.
abbrev pub gives : ℕ → ℕ → Range → Bool
gives fap q d =
    is_memory d && has_page q d && leb 3 (last_page d) && (leb 3 q || leb fap (last_page d))

-- Such a page is free if it is not below the first free page. Two exceptions: in a range that ends
-- with the first free page, all are; in a marked range that ends below it, and below the kernel,
-- all are.
abbrev pub leaves : ℕ → ℕ → ℕ → Range → Bool
leaves fap kernel_page q d =
    gives fap q d
    && (leb fap q
        || last_page d == fap
        || is_marked d && ltb (last_page d) fap && ltb (last_page d) kernel_page)

-- A range takes two slots of the table if it has pages on either side of the first free page.
abbrev pub slots_for : ℕ → List Range → ℕ
slots_for fap [] = 0
slots_for fap (d ∷ ds) =
    (if ltb (first_page d) fap && ltb fap (last_page d) then 2 else 1) + slots_for fap ds

-- An attribute with bit 59 set.
abbrev pub with_mark : ℕ → ℕ
with_mark a =
    a / 0x1000000000000000 * 0x1000000000000000 + 0x800000000000000 + a % 0x800000000000000

-- A range that goes into the table: memory, from page 3 on, with a page that is not left out.
abbrev pub is_kept : Range → Bool
is_kept d = is_memory d && leb 3 (last_page d) && ltb (first_page d) 0xFFFFFFFF

-- The pieces of the ranges that are kept with an attribute: two of one with pages on either side
-- of the first free page, and one of another.
abbrev pub pieces : ℕ → ℕ → List Range → ℕ
pieces fap a [] = 0
pieces fap a (d ∷ ds) =
    (if is_kept d && d.attribute == a
      then (if ltb (first_page d) fap && ltb fap (last_page d) then 2 else 1)
      else 0)
    + pieces fap a ds

abbrev pub marked : List Range → ℕ
marked [] = 0
marked (d ∷ ds) = (if is_marked d then 1 else 0) + marked ds

abbrev pub given : ℕ → ℕ → ℕ → List Range → Bool
given fap a q [] = false
given fap a q (d ∷ ds) = (d.attribute == a) && gives fap q d || given fap a q ds

abbrev pub left_free : ℕ → ℕ → ℕ → List Range → Bool
left_free fap kernel_page q [] = false
left_free fap kernel_page q (d ∷ ds) = leaves fap kernel_page q d || left_free fap kernel_page q ds
