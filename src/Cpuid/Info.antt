-- ===== src/Cpuid/Info.antt =====
-- The structures of Kernel/Kernel/i386/cpuid.h. A pointer to a leaf that lies in the structure
-- itself, and is NULL until the leaf is read, is an option of the leaf.
use beta_os.Prelude.{ℕ, Bool, true, false, Option, none, List, [], if◌then◌else◌, replicate}
use beta_os.Cpuid.Regs.{Regs}

-- cache_type_t, the index of the arrays for caches.
pub data CacheType : Type 0 where
  lnone : CacheType
  l1i : CacheType
  l1d : CacheType
  l2u : CacheType
  l3u : CacheType

abbrev pub same_type : CacheType → CacheType → Bool
same_type lnone lnone = true
same_type l1i l1i = true
same_type l1d l1d = true
same_type l2u l2u = true
same_type l3u l3u = true
same_type _ _ = false

-- The assignment `a[type] = n`.
abbrev pub update : (CacheType → ℕ) → CacheType → ℕ → CacheType → ℕ
update a t n t' = if same_type t t' then n else a t'

pub record MwaitLeaf : Type 0 where
  pub linesize_min : ℕ
  pub linesize_max : ℕ
  pub extensions : ℕ
  pub sub_cstates : ℕ

pub record ThermalLeaf : Type 0 where
  pub sensor : Bool
  pub dynamic_acceleration : Bool
  pub invariant_apic_timer : Bool
  pub core_power_limits : Bool
  pub fine_grain_clock_mod : Bool
  pub package_thermal_intr : Bool
  pub thresholds : ℕ
  pub acnt_mcnt : Bool
  pub hardware_feedback : Bool
  pub energy_policy : Bool

pub record ArchPerfLeaf : Type 0 where
  pub version : ℕ
  pub number : ℕ
  pub width : ℕ
  pub events_number : ℕ
  pub events : ℕ
  pub fixed_number : ℕ
  pub fixed_width : ℕ

pub record TscLeaf : Type 0 where
  pub numerator : ℕ
  pub denominator : ℕ

-- The two xsave leaves.
pub record XsaveLeaf : Type 0 where
  pub main_leaf : Regs
  pub sub_leaf : Regs

-- What leaf 1 says of the processor: the fields of i386_cpu_info_t from `cpuid_type` on.
pub record Signature : Type 0 where
  pub type : ℕ
  pub family : ℕ
  pub model : ℕ
  pub extmodel : ℕ
  pub extfamily : ℕ
  pub stepping : ℕ
  pub signature : ℕ

-- i386_cpu_info_t. Strings are the bytes before their NUL.
pub record CpuInfo : Type 0 where
  pub vendor : List ℕ
  pub brand_string : List ℕ
  pub sign : Signature
  pub features : ℕ
  pub extfeatures : ℕ
  pub brand : ℕ
  pub processor_flag : ℕ
  pub cache_size : CacheType → ℕ
  pub cache_linesize : ℕ
  pub cache_info : List ℕ
  pub cores_per_package : ℕ
  pub logical_per_package : ℕ
  pub cache_sharing : CacheType → ℕ
  pub cache_partitions : CacheType → ℕ
  pub cpu_type : ℕ
  pub cpu_subtype : ℕ
  pub mwait_leaf : Option MwaitLeaf
  pub thermal_leaf : Option ThermalLeaf
  pub arch_perf_leaf : Option ArchPerfLeaf
  pub l2_cache_linesize : ℕ
  pub l2_cache_associativity : ℕ
  pub l2_cache_size : ℕ
  pub address_bits_physical : ℕ
  pub address_bits_virtual : ℕ
  pub microcode_version : ℕ
  -- The numbers of entries, by what is cached, page size and level.
  pub tlb : ℕ → ℕ → ℕ → ℕ
  pub stlb : ℕ
  pub core_count : ℕ
  pub thread_count : ℕ
  pub max_basic : ℕ
  pub max_ext : ℕ
  pub cpufamily : ℕ
  pub xsave_leaf : Option XsaveLeaf
  pub leaf7_features : ℕ
  pub tsc_leaf : TscLeaf

-- The static structure before the first call: all bytes are 0.
unfoldable pub zero_info : CpuInfo
zero_info = record {
  vendor = [];
  brand_string = [];
  sign = record {
    type = 0;
    family = 0;
    model = 0;
    extmodel = 0;
    extfamily = 0;
    stepping = 0;
    signature = 0;
  };
  features = 0;
  extfeatures = 0;
  brand = 0;
  processor_flag = 0;
  cache_size = λ t. 0;
  cache_linesize = 0;
  cache_info = replicate 64 0;
  cores_per_package = 0;
  logical_per_package = 0;
  cache_sharing = λ t. 0;
  cache_partitions = λ t. 0;
  cpu_type = 0;
  cpu_subtype = 0;
  mwait_leaf = none;
  thermal_leaf = none;
  arch_perf_leaf = none;
  l2_cache_linesize = 0;
  l2_cache_associativity = 0;
  l2_cache_size = 0;
  address_bits_physical = 0;
  address_bits_virtual = 0;
  microcode_version = 0;
  tlb = λ id page level. 0;
  stlb = 0;
  core_count = 0;
  thread_count = 0;
  max_basic = 0;
  max_ext = 0;
  cpufamily = 0;
  xsave_leaf = none;
  leaf7_features = 0;
  tsc_leaf = record { numerator = 0; denominator = 0 };
}
