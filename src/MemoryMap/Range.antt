-- ===== src/MemoryMap/Range.antt =====
-- The structures for memory in Kernel/Platform/platform/boot.h and Kernel/Kernel/i386/pmap.h, and
-- what Kernel/Kernel/i386/i386_vm_init.c reads of a range.
use beta_os.Prelude.{ℕ, ◌+◌, ◌-◌, ◌*◌, ◌/◌, ◌%◌, ◌^◌, Bool, ◌||◌, ◌==◌, if◌then◌else◌}

-- EfiMemoryRange
pub record Range : Type 0 where
  pub type : ℕ
  pub physical_start : ℕ
  pub number_of_pages : ℕ
  pub attribute : ℕ

-- pmap_memory_region_t
pub record Region : Type 0 where
  pub base : ℕ
  pub alloc_up : ℕ
  pub alloc_down : ℕ
  pub end : ℕ
  pub type : ℕ
  pub attribute : ℕ

-- The bytes that the firmware reports, by what they are for.
pub record Bytes : Type 0 where
  pub sane_size : ℕ
  pub conventional : ℕ
  pub runtime_services : ℕ
  pub acpi_reclaim : ℕ
  pub acpi_nvs : ℕ
  pub pal_code : ℕ
  pub reserved : ℕ
  pub unusable : ℕ
  pub mmio : ℕ
  pub other : ℕ

-- kEfiConventionalMemory
abbrev pub conventional_memory : ℕ
conventional_memory = 7

-- EFI_MEMORY_RUNTIME and EFI_MEMORY_KERN_RESERVED, which are single bits.
abbrev pub is_runtime : ℕ → Bool
is_runtime attribute = attribute / 2 ^ 63 % 2 == 1

abbrev pub is_kern_reserved : ℕ → Bool
is_kern_reserved attribute = attribute / 2 ^ 59 % 2 == 1

-- The first and the last page of a range, as page numbers of 32 bits. Page 0 is left out, and the
-- greatest page number.
unfoldable pub base_of : Range → ℕ
base_of d = let base = d.physical_start / 2 ^ 12 % 2 ^ 32 in if base == 0 then base + 1 else base

unfoldable pub top_of : Range → ℕ
top_of d =
    let top = (d.physical_start / 2 ^ 12 + d.number_of_pages + 2 ^ 64 - 1) % 2 ^ 32 in
    if top + 1 == 2 ^ 32 then top - 1 else top

-- The types that are consolidated: loader code and data, boot services code and data, and
-- conventional memory.
unfoldable pub is_conventional : ℕ → Bool
is_conventional type = type == 1 || type == 2 || type == 3 || type == 4 || type == 7

unfoldable pub pmap_type_of : ℕ → ℕ
unfolding is_conventional
pmap_type_of type = if is_conventional type then conventional_memory else type

abbrev add64 : ℕ → ℕ → ℕ
add64 a b = (a + b) % 2 ^ 64

-- The switch over the type of a range: the bytes are counted, and in `sane_size` for memory.
unfoldable pub count_bytes : Range → Bytes → Bytes
unfolding is_conventional
count_bytes d b =
    let n = d.number_of_pages * 2 ^ 12 % 2 ^ 64 in
    let sane = add64 (b.sane_size) n in
    if is_conventional (d.type)
    then record b { sane_size = sane; conventional = add64 (b.conventional) n }
    else if d.type == 5 || d.type == 6
    then record b { sane_size = sane; runtime_services = add64 (b.runtime_services) n }
    else if d.type == 9
    then record b { sane_size = sane; acpi_reclaim = add64 (b.acpi_reclaim) n }
    else if d.type == 10
    then record b { sane_size = sane; acpi_nvs = add64 (b.acpi_nvs) n }
    else if d.type == 13
    then record b { sane_size = sane; pal_code = add64 (b.pal_code) n }
    else if d.type == 0
    then record b { reserved = add64 (b.reserved) n }
    else if d.type == 8
    then record b { unusable = add64 (b.unusable) n }
    else if d.type == 11 || d.type == 12
    then record b { mmio = add64 (b.mmio) n }
    else record b { other = add64 (b.other) n }
