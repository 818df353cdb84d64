-- ===== src/Cpuid/Samples.antt =====
-- A processor with three caches, for the examples.
use beta_os.Prelude.{ℕ, List, [], ◌∷◌, ◌==◌, if◌then◌else◌}
use beta_os.Cpuid.Regs.{Regs, Processor}
use beta_os.Cpuid.Described.{Cache, encode_cache}

abbrev cache_of : ℕ → ℕ → ℕ → ℕ → ℕ → Cache
cache_of level kind sharing ways sets = record {
  level = level;
  kind = kind;
  sharing = sharing;
  cores = 8;
  linesize = 64;
  partitions = 1;
  associativity = ways;
  sets = sets;
}

abbrev pub data_cache : Cache
data_cache = cache_of 1 1 2 8 64

abbrev pub second_cache : Cache
second_cache = cache_of 2 3 2 8 512

abbrev pub third_cache : Cache
third_cache = cache_of 3 3 16 16 8192

abbrev pub three_caches : List Cache
three_caches = data_cache ∷ second_cache ∷ third_cache ∷ []

abbrev regs : ℕ → ℕ → ℕ → ℕ → Regs
regs a b c d = record { eax = a; ebx = b; ecx = c; edx = d }

abbrev leaf : ℕ → Regs
leaf n =
    if n == 0
    then regs 0x16 0x756e6547 0x6c65746e 0x49656e69
    else if n == 1
    then regs 0x000306C3 0x00100800 0x7ffafbff 0xbfebfbff
    else if n == 2
    then regs 0x76036301 0x00f0b5ff 0x00000000 0x00c10000
    else if n == 7
    then regs 0 0x000027ab 0 0
    else if n == 0x40000000
    then regs 0x40000010 0x61774d56 0x4d566572 0x65726177
    else if n == 0x40000010
    then regs 3400000 66000 0 0
    else if n == 0x80000000
    then regs 0x80000008 0 0 0
    else if n == 0x80000001
    then regs 0 0 0x21 0x2c100800
    else if n == 0x80000007
    then regs 0 0 0 0x100
    else regs 0 0 0 0

unfoldable pub sample_cpuid : ℕ → ℕ → Regs
unfolding encode_cache
sample_cpuid n index =
    if n == 4
    then (if index == 0
        then encode_cache data_cache
        else if index == 1
        then encode_cache second_cache
        else if index == 2
        then encode_cache third_cache
        else regs 0 0 0 0)
    else leaf n

abbrev pub sample_processor : Processor
sample_processor = record { cpuid = sample_cpuid; rdmsr64 = λ a. 0; stack = [] }

-- One that asks for five calls of leaf 2.
abbrev pub five_calls : Regs
five_calls = regs 0x00000005 0 0 0
