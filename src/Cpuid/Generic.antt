-- ===== src/Cpuid/Generic.antt =====
-- The first half of `cpuid_set_generic_info` of Kernel/Kernel/i386/cpuid.c: the vendor, the brand
-- string, the sizes and the signature of the processor.
use beta_os.Prelude.{
  ℕ, ◌+◌, ◌-◌, ◌*◌, ◌/◌, ◌%◌, ◌^◌, ◌||◌, List, [], ◌∷◌, ◌++◌, length, ltb, leb, ◌==◌, if◌then◌else◌,
}
use beta_os.Prelude.Int.{is_zero}
use beta_os.DeviceTree.Memory.{until_nul}
use beta_os.Libc.Strncmp.{strncmp}
use beta_os.Libc.Compare.{take}
use beta_os.Cpuid.Regs.{Regs, Processor, cpuid_fn, bitfield32, quad, has_bit, bytes_of}
use beta_os.Cpuid.Info.{Signature, CpuInfo}

-- The name of the vendor: ebx, edx, ecx.
unfoldable pub set_vendor : Processor → CpuInfo → CpuInfo
unfolding cpuid_fn until_nul
set_vendor p i =
    let r = cpuid_fn p 0 in
    record i {
      max_basic = r.eax;
      vendor = until_nul (bytes_of (r.ebx) ++ bytes_of (r.edx) ++ bytes_of (r.ecx) ++ (0 ∷ []));
    }

unfoldable pub set_max_ext : Processor → CpuInfo → CpuInfo
unfolding cpuid_fn
set_max_ext p i = record i { max_ext = (cpuid_fn p 0x80000000).eax }

abbrev pub reg_bytes : Regs → List ℕ
reg_bytes r = bytes_of (r.eax) ++ bytes_of (r.ebx) ++ bytes_of (r.ecx) ++ bytes_of (r.edx)

unfoldable pub skip_spaces : List ℕ → List ℕ
skip_spaces [] = []
skip_spaces (c ∷ s) = let rest = skip_spaces s in if c == b' ' then rest else c ∷ s

-- What strlcpy leaves in a destination of `maxlen` bytes, which is not 0.
unfoldable pub strlcpy : List ℕ → ℕ → List ℕ
strlcpy src maxlen = if ltb (length src) maxlen then src else take (maxlen - 1) src

-- CPUID_STRING_UNKNOWN
abbrev pub string_unknown : List ℕ
string_unknown =
    b'U' ∷ b'n' ∷ b'k' ∷ b'n' ∷ b'o' ∷ b'w' ∷ b'n' ∷ b' ' ∷ b'C' ∷ b'P' ∷ b'U' ∷ b' ' ∷ b'T' ∷ b'y'
    ∷ b'p' ∷ []

unfoldable pub read_brand : Processor → List ℕ
unfolding cpuid_fn until_nul skip_spaces strlcpy strncmp
read_brand p =
    let str =
      reg_bytes (cpuid_fn p 0x80000002)
      ++ reg_bytes (cpuid_fn p 0x80000003)
      ++ reg_bytes (cpuid_fn p 0x80000004)
      ++ p.stack in
    let brand = strlcpy (skip_spaces (until_nul str)) 48 in
    if is_zero (strncmp brand string_unknown 16) then [] else brand

unfoldable pub set_brand : Processor → CpuInfo → CpuInfo
unfolding read_brand
set_brand p i = if leb 0x80000004 (i.max_ext) then record i { brand_string = read_brand p } else i

-- The associativity of the second-level cache from its code.
unfoldable pub l2_assoc : ℕ → ℕ
l2_assoc assoc =
    if assoc == 6 then 8 else if assoc == 8 then 16 else if assoc == 0xF then 0xFFFF else assoc

-- The second-level cache and the address sizes.
unfoldable pub set_sizes : Processor → CpuInfo → CpuInfo
unfolding cpuid_fn l2_assoc
set_sizes p i =
    if leb 0x80000006 (i.max_ext)
    then (let r = cpuid_fn p 0x80000006 in
        let a = cpuid_fn p 0x80000008 in
        record i {
          l2_cache_linesize = bitfield32 (r.ecx) 7 0;
          l2_cache_associativity = l2_assoc (bitfield32 (r.ecx) 15 12);
          l2_cache_size = bitfield32 (r.ecx) 31 16;
          address_bits_physical = bitfield32 (a.eax) 7 0;
          address_bits_virtual = bitfield32 (a.eax) 15 8;
        })
    else i

-- The fields of the signature, as the processor gives them.
unfoldable pub decode_signature : ℕ → Signature
decode_signature w = record {
  type = bitfield32 w 13 12;
  family = bitfield32 w 11 8;
  model = bitfield32 w 7 4;
  extmodel = bitfield32 w 19 16;
  extfamily = bitfield32 w 27 20;
  stepping = bitfield32 w 3 0;
  signature = w;
}

-- Fold extensions into the family; it is a byte.
unfoldable pub fold_family : Signature → Signature
fold_family s =
    if s.family == 0x0f then record s { family = (s.family + s.extfamily) % 2 ^ 8 } else s

-- Fold extensions into the model, by the family that is there by now.
unfoldable pub fold_model : Signature → Signature
fold_model s =
    if s.family == 0x0f || s.family == 0x06
    then record s { model = (s.model + s.extmodel * 2 ^ 4) % 2 ^ 8 }
    else s

abbrev pub msr_ia32_platform_id : ℕ
msr_ia32_platform_id = 0x17

abbrev pub msr_ia32_bios_sign_id : ℕ
msr_ia32_bios_sign_id = 0x8b

-- Leaf 1.
unfoldable pub set_signature : Processor → CpuInfo → CpuInfo
unfolding cpuid_fn decode_signature fold_family fold_model
set_signature p i =
    let r = cpuid_fn p 1 in
    record i {
      microcode_version = p.rdmsr64 msr_ia32_bios_sign_id / 2 ^ 32 % 2 ^ 32;
      sign = fold_model (fold_family (decode_signature (r.eax)));
      brand = bitfield32 (r.ebx) 7 0;
      features = quad (r.ecx) (r.edx);
      processor_flag = p.rdmsr64 msr_ia32_platform_id / 2 ^ 50 % 2 ^ 3;
      logical_per_package =
          if has_bit (quad (r.ecx) (r.edx)) 28 then bitfield32 (r.ebx) 23 16 else 1;
    }
