-- ===== src/Cpuid/Table.antt =====
-- The table of cache descriptors for leaf 2, of Kernel/Kernel/i386/cpuid.c.
use beta_os.Prelude.{ℕ, Option, none, some, List, [], ◌∷◌, ◌==◌, if◌then◌else◌}

-- cpuid_leaf2_desc_type_t
pub data DescriptorType : Type 0 where
  null : DescriptorType
  cache : DescriptorType
  tlb : DescriptorType
  stlb : DescriptorType
  prefetch : DescriptorType

-- cpuid_leaf2_qualifier_t: the fields that hold them are bytes, which also hold numbers.
abbrev na : ℕ
na = 0

abbrev fully : ℕ
fully = 1

abbrev trace : ℕ
trace = 2

abbrev pub inst : ℕ
inst = 3

abbrev pub data_tlb : ℕ
data_tlb = 4

abbrev pub data0 : ℕ
data0 = 5

abbrev pub data1 : ℕ
data1 = 6

abbrev l1 : ℕ
l1 = 7

abbrev l1_inst : ℕ
l1_inst = 8

abbrev l1_data : ℕ
l1_data = 9

abbrev l2 : ℕ
l2 = 10

abbrev l3 : ℕ
l3 = 11

abbrev l2_2line_sector : ℕ
l2_2line_sector = 12

abbrev l3_2line_sector : ℕ
l3_2line_sector = 13

abbrev pub small : ℕ
small = 14

abbrev large : ℕ
large = 15

abbrev both : ℕ
both = 16

-- cpuid_cache_descriptor_t. A cache size is in units of 1024 bytes.
pub record Descriptor : Type 0 where
  pub value : ℕ
  pub kind : DescriptorType
  pub level : ℕ
  pub ways : ℕ
  pub size : ℕ
  pub entries : ℕ

abbrev descriptor : ℕ → DescriptorType → ℕ → ℕ → ℕ → ℕ → Descriptor
descriptor value kind level ways size entries = record {
  value = value;
  kind = kind;
  level = level;
  ways = ways;
  size = size;
  entries = entries;
}

unfoldable pub descriptor_table : List Descriptor
descriptor_table =
    descriptor 0x00 null na na na na
    ∷ descriptor 0x01 tlb inst 4 small 32
    ∷ descriptor 0x02 tlb inst fully large 2
    ∷ descriptor 0x03 tlb data_tlb 4 small 64
    ∷ descriptor 0x04 tlb data_tlb 4 large 8
    ∷ descriptor 0x05 tlb data1 4 large 32
    ∷ descriptor 0x06 cache l1_inst 4 8 32
    ∷ descriptor 0x08 cache l1_inst 4 16 32
    ∷ descriptor 0x09 cache l1_inst 4 32 64
    ∷ descriptor 0x0A cache l1_data 2 8 32
    ∷ descriptor 0x0B tlb inst 4 large 4
    ∷ descriptor 0x0C cache l1_data 4 16 32
    ∷ descriptor 0x0D cache l1_data 4 16 64
    ∷ descriptor 0x0E cache l1_data 6 24 64
    ∷ descriptor 0x21 cache l2 8 256 64
    ∷ descriptor 0x22 cache l3_2line_sector 4 512 64
    ∷ descriptor 0x23 cache l3_2line_sector 8 1024 64
    ∷ descriptor 0x25 cache l3_2line_sector 8 2048 64
    ∷ descriptor 0x29 cache l3_2line_sector 8 4096 64
    ∷ descriptor 0x2C cache l1_data 8 32 64
    ∷ descriptor 0x30 cache l1_inst 8 32 64
    ∷ descriptor 0x40 cache l2 na 0 na
    ∷ descriptor 0x41 cache l2 4 128 32
    ∷ descriptor 0x42 cache l2 4 256 32
    ∷ descriptor 0x43 cache l2 4 512 32
    ∷ descriptor 0x44 cache l2 4 1024 32
    ∷ descriptor 0x45 cache l2 4 2048 32
    ∷ descriptor 0x46 cache l3 4 4096 64
    ∷ descriptor 0x47 cache l3 8 8192 64
    ∷ descriptor 0x48 cache l2 12 3072 64
    ∷ descriptor 0x49 cache l2 16 4096 64
    ∷ descriptor 0x4A cache l3 12 6144 64
    ∷ descriptor 0x4B cache l3 16 8192 64
    ∷ descriptor 0x4C cache l3 12 12288 64
    ∷ descriptor 0x4D cache l3 16 16384 64
    ∷ descriptor 0x4E cache l2 24 6144 64
    ∷ descriptor 0x4F tlb inst na small 32
    ∷ descriptor 0x50 tlb inst na both 64
    ∷ descriptor 0x51 tlb inst na both 128
    ∷ descriptor 0x52 tlb inst na both 256
    ∷ descriptor 0x55 tlb inst fully both 7
    ∷ descriptor 0x56 tlb data0 4 large 16
    ∷ descriptor 0x57 tlb data0 4 small 16
    ∷ descriptor 0x59 tlb data0 fully small 16
    ∷ descriptor 0x5A tlb data0 4 large 32
    ∷ descriptor 0x5B tlb data_tlb na both 64
    ∷ descriptor 0x5C tlb data_tlb na both 128
    ∷ descriptor 0x5D tlb data_tlb na both 256
    ∷ descriptor 0x60 cache l1 16 8 64
    ∷ descriptor 0x61 cache l1 4 8 64
    ∷ descriptor 0x62 cache l1 4 16 64
    ∷ descriptor 0x63 cache l1 4 32 64
    ∷ descriptor 0x70 cache trace 8 12 na
    ∷ descriptor 0x71 cache trace 8 16 na
    ∷ descriptor 0x72 cache trace 8 32 na
    ∷ descriptor 0x76 tlb inst na both 8
    ∷ descriptor 0x78 cache l2 4 1024 64
    ∷ descriptor 0x79 cache l2_2line_sector 8 128 64
    ∷ descriptor 0x7A cache l2_2line_sector 8 256 64
    ∷ descriptor 0x7B cache l2_2line_sector 8 512 64
    ∷ descriptor 0x7C cache l2_2line_sector 8 1024 64
    ∷ descriptor 0x7D cache l2 8 2048 64
    ∷ descriptor 0x7F cache l2 2 512 64
    ∷ descriptor 0x80 cache l2 8 512 64
    ∷ descriptor 0x82 cache l2 8 256 32
    ∷ descriptor 0x83 cache l2 8 512 32
    ∷ descriptor 0x84 cache l2 8 1024 32
    ∷ descriptor 0x85 cache l2 8 2048 32
    ∷ descriptor 0x86 cache l2 4 512 64
    ∷ descriptor 0x87 cache l2 8 1024 64
    ∷ descriptor 0xB0 tlb inst 4 small 128
    ∷ descriptor 0xB1 tlb inst 4 large 8
    ∷ descriptor 0xB2 tlb inst 4 small 64
    ∷ descriptor 0xB3 tlb data_tlb 4 small 128
    ∷ descriptor 0xB4 tlb data1 4 small 256
    ∷ descriptor 0xB5 tlb data1 8 small 64
    ∷ descriptor 0xB6 tlb data1 8 small 128
    ∷ descriptor 0xBA tlb data1 4 both 64
    ∷ descriptor 0xC1 stlb data1 8 small 1024
    ∷ descriptor 0xCA stlb data1 4 small 512
    ∷ descriptor 0xD0 cache l3 4 512 64
    ∷ descriptor 0xD1 cache l3 4 1024 64
    ∷ descriptor 0xD2 cache l3 4 2048 64
    ∷ descriptor 0xD3 cache l3 4 4096 64
    ∷ descriptor 0xD4 cache l3 4 8192 64
    ∷ descriptor 0xD6 cache l3 8 1024 64
    ∷ descriptor 0xD7 cache l3 8 2048 64
    ∷ descriptor 0xD8 cache l3 8 4096 64
    ∷ descriptor 0xD9 cache l3 8 8192 64
    ∷ descriptor 0xDA cache l3 8 12288 64
    ∷ descriptor 0xDC cache l3 12 1536 64
    ∷ descriptor 0xDD cache l3 12 3072 64
    ∷ descriptor 0xDE cache l3 12 6144 64
    ∷ descriptor 0xDF cache l3 12 12288 64
    ∷ descriptor 0xE0 cache l3 12 18432 64
    ∷ descriptor 0xE2 cache l3 16 2048 64
    ∷ descriptor 0xE3 cache l3 16 4096 64
    ∷ descriptor 0xE4 cache l3 16 8192 64
    ∷ descriptor 0xE5 cache l3 16 16384 64
    ∷ descriptor 0xE6 cache l3 16 24576 64
    ∷ descriptor 0xF0 prefetch na na 64 na
    ∷ descriptor 0xF1 prefetch na na 128 na
    ∷ descriptor 0xFF cache na na 0 na
    ∷ []

unfoldable pub find_in : List Descriptor → ℕ → Option Descriptor
find_in [] value = none
find_in (d ∷ ds) value = let rest = find_in ds value in if d.value == value then some d else rest

unfoldable pub leaf2_find : ℕ → Option Descriptor
unfolding find_in descriptor_table
leaf2_find value = find_in descriptor_table value
