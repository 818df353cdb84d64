-- ===== src/Tsc/Examples.antt =====
-- The theorem on Kernel/Kernel/i386/tsc.c at a processor of 3.4 GHz with a bus of 100 MHz.
use beta_os.Prelude.{
  ℕ, ◌*◌, ◌+◌, ◌-◌, ◌/◌, ◌≤◌, ◌≡◌, refl, true, false, [], ◌∷◌, length, replicate, ◌==◌,
  if◌then◌else◌, arith,
}
use beta_os.Prelude.Int.{ℤ, pos}
use beta_os.Libc.Strcmp.{string_eq}
use beta_os.DeviceTree.Memory.{Bytes, string_at, n_properties, n_children, next_prop}
use beta_os.DeviceTree.Entry.{
  get_property, lookup_path, get_next_component, find_child, find_child_from, examine,
  get_first_child, skip_properties,
}
use beta_os.DeviceTree.Search.{lookup_entry}
use beta_os.DeviceTree.Tree.{
  Property, Tree, node, nil, cons, encode_property, encode_properties, encode,
}
use beta_os.Cpuid.Info.{CpuInfo, zero_info}
use beta_os.Cpuid.Family.{haswell}
use beta_os.Cpuid.Vmm.{VmmInfo}
use beta_os.Tsc.Factors.{Tsc, done, giga_scaled, zero_tsc}
use beta_os.Tsc.Setup.{Efi, u64_at, msr_platform_info, read_flex, tsc_init}
use beta_os.Tsc.Accuracy.{HasRatio, IsFound, tsc_init-frequency}

-- A property with its padding.
abbrev make : Bytes → Bytes → Property
make name value = record {
  name = name;
  name_slack = replicate (31 - length name) 0;
  value = value;
  value_slack = replicate ((length value + 3) / 4 * 4 - length value) 0;
}

abbrev name : Bytes
name = b'n' ∷ b'a' ∷ b'm' ∷ b'e' ∷ []

abbrev fsb : Bytes
fsb = b'F' ∷ b'S' ∷ b'B' ∷ b'F' ∷ b'r' ∷ b'e' ∷ b'q' ∷ b'u' ∷ b'e' ∷ b'n' ∷ b'c' ∷ b'y' ∷ []

abbrev platform : Bytes
platform = b'p' ∷ b'l' ∷ b'a' ∷ b't' ∷ b'f' ∷ b'o' ∷ b'r' ∷ b'm' ∷ 0 ∷ []

abbrev hundred_mhz : Bytes
hundred_mhz = 0x00 ∷ 0xE1 ∷ 0xF5 ∷ 0x05 ∷ 0 ∷ 0 ∷ 0 ∷ 0 ∷ []

abbrev platform_tree : Tree
platform_tree = node (make name platform ∷ make fsb hundred_mhz ∷ []) nil

abbrev efi_tree : Tree
efi_tree = node (make name (b'e' ∷ b'f' ∷ b'i' ∷ 0 ∷ []) ∷ []) (cons platform_tree nil)

abbrev root_tree : Tree
root_tree = node (make name (b'r' ∷ 0 ∷ []) ∷ []) (cons efi_tree nil)

-- A comparison that follows C, as far as its result is compared with 0.
abbrev compare : Bytes → Bytes → ℤ
compare s t = if string_eq s t then pos 0 else pos 1

abbrev sample_efi : Efi
sample_efi = record {
  strcmp = compare;
  mem = 0 ∷ 0 ∷ 0 ∷ 0 ∷ encode root_tree;
  fuel = 3;
  state = record { initialized = true; root = 4 };
}

sample-IsFound : IsFound sample_efi 100000000
unfolding lookup_entry lookup_path get_property string_eq encode encode_properties encode_property
    u64_at get_next_component find_child n_children find_child_from examine get_first_child
    skip_properties n_properties next_prop string_at
sample-IsFound = record { entry = 100; value = 192; platform = refl; fsb = refl; holds = refl }

abbrev sample_info : CpuInfo
unfolding zero_info
sample_info = record zero_info { cpufamily = haswell }

sample-HasRatio : HasRatio sample_info
unfolding sample_info zero_info
sample-HasRatio = record {
  not_merom = omega arith;
  not_penryn = omega arith;
  not_skylake = omega arith;
  not_kabylake = omega arith;
}

abbrev ratio_of_34 : ℕ → ℕ
ratio_of_34 n = if n == msr_platform_info then 34 * 256 else 0

abbrev no_vmm : VmmInfo
no_vmm = record { vendor = []; family = 0; bus_frequency = 0; tsc_frequency = 0 }

tsc_init-frequency_example :
    (u : Tsc) × (tsc_init sample_efi ratio_of_34 false no_vmm sample_info zero_tsc ≡ done u)
    × (u.bus_freq ≡ 100000000)
    × (u.tsc_granularity ≡ 34)
    × (100000000 * 34 ≤ u.tsc_freq)
    × (u.tsc_freq * (giga_scaled / (100000000 * 34)) ≤ giga_scaled)
unfolding zero_tsc read_flex
tsc_init-frequency_example =
    tsc_init-frequency sample_efi ratio_of_34 no_vmm sample_info zero_tsc 100000000 34
      sample-HasRatio sample-IsFound refl (omega arith) (omega arith) (omega arith) (omega arith)
