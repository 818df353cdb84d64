-- ===== src/Cpuid/Hypervisor.antt =====
-- The hypervisor that Kernel/Kernel/i386/cpuid.c recognises, with the strcmp of Libc.
use beta_os.Prelude.{
  ℕ, ◌+◌, ◌*◌, ◌/◌, ◌%◌, ◌^◌, ◌≤◌, ◌<◌, ◌≡◌, refl, ap, ◌∙◌, Bool, true, false, some, List, [], ◌∷◌,
  ◌++◌, length, if◌then◌else◌, arith, All,
}
use beta_os.DeviceTree.Memory.{until_nul}
use beta_os.Libc.Strcmp.{string_eq, int_of, strcmp-string_eq}
use beta_os.Cpuid.Regs.{Processor, cpuid_fn, bytes_of}
use beta_os.Cpuid.Vmm.{vmware_id, parallels_id, is_true, vmm_vendor, vmm_family, init_vmm_info}

length-until_nul : (s : List ℕ) → length (until_nul s) ≤ length s
unfolding until_nul
length-until_nul [] = omega arith
length-until_nul (c ∷ s) = ground (arith, length-until_nul s)

is_true-int_of : (b : Bool) → is_true (some (int_of b)) ≡ b
unfolding is_true
is_true-int_of true = refl
is_true-int_of false = refl

vmm_family-string_eq :
    (vendor : List ℕ)
    → length vendor < 255
    → vmm_family vendor
      ≡ (if string_eq vendor vmware_id then 1 else if string_eq vendor parallels_id then 2 else 0)
unfolding vmm_family
vmm_family-string_eq vendor short =
    rw
      (
        strcmp-string_eq vendor vmware_id short,
        strcmp-string_eq vendor parallels_id short,
        is_true-int_of (string_eq vendor vmware_id),
        is_true-int_of (string_eq vendor parallels_id),
      )
      refl

-- The register with these four characters, the first the lowest.
abbrev pub spelled : ℕ → ℕ → ℕ → ℕ → ℕ
spelled a b c d = a + b * 2 ^ 8 + c * 2 ^ 16 + d * 2 ^ 24

bytes_of-spelled :
    (a b c d : ℕ)
    → All (λ c. c < 256) (a ∷ b ∷ c ∷ d ∷ [])
    → bytes_of (spelled a b c d) ≡ a ∷ b ∷ c ∷ d ∷ []
bytes_of-spelled a b c d (ha, (hb, (hc, (hd, _)))) i = one i ∷ two i ∷ three i ∷ four i ∷ []
  where
    one : spelled a b c d % 2 ^ 8 ≡ a
    one = omega arith

    two : spelled a b c d / 2 ^ 8 % 2 ^ 8 ≡ b
    two = omega arith

    three : spelled a b c d / 2 ^ 16 % 2 ^ 8 ≡ c
    three = omega arith

    four : spelled a b c d / 2 ^ 24 % 2 ^ 8 ≡ d
    four = omega arith

-- Leaf 0x40000000 has the characters `a`, `b` and `c`, four each, in ebx, ecx and edx.
pub record Spells (p : Processor) (a0 a1 a2 a3 b0 b1 b2 b3 c0 c1 c2 c3 : ℕ) : Type 0 where
  pub ebx : (p.cpuid 0x40000000 0).ebx ≡ spelled a0 a1 a2 a3
  pub ecx : (p.cpuid 0x40000000 0).ecx ≡ spelled b0 b1 b2 b3
  pub edx : (p.cpuid 0x40000000 0).edx ≡ spelled c0 c1 c2 c3
  pub bytes_a : All (λ c. c < 256) (a0 ∷ a1 ∷ a2 ∷ a3 ∷ [])
  pub bytes_b : All (λ c. c < 256) (b0 ∷ b1 ∷ b2 ∷ b3 ∷ [])
  pub bytes_c : All (λ c. c < 256) (c0 ∷ c1 ∷ c2 ∷ c3 ∷ [])

family_lem :
    (p : Processor) → (init_vmm_info p).family ≡ vmm_family (vmm_vendor (cpuid_fn p 0x40000000))
unfolding init_vmm_info
family_lem p = refl

module _ (p : Processor) (a0 a1 a2 a3 b0 b1 b2 b3 c0 c1 c2 c3 : ℕ)
    (h : Spells p a0 a1 a2 a3 b0 b1 b2 b3 c0 c1 c2 c3) where
  vendor_lem :
      vmm_vendor (cpuid_fn p 0x40000000)
      ≡ until_nul (a0 ∷ a1 ∷ a2 ∷ a3 ∷ b0 ∷ b1 ∷ b2 ∷ b3 ∷ c0 ∷ c1 ∷ c2 ∷ c3 ∷ 0 ∷ [])
  unfolding vmm_vendor cpuid_fn
  vendor_lem =
      let e = ap bytes_of (h.ebx) ∙ bytes_of-spelled a0 a1 a2 a3 (h.bytes_a) in
      let f = ap bytes_of (h.ecx) ∙ bytes_of-spelled b0 b1 b2 b3 (h.bytes_b) in
      let g = ap bytes_of (h.edx) ∙ bytes_of-spelled c0 c1 c2 c3 (h.bytes_c) in
      λ i. until_nul (e i ++ f i ++ g i ++ (0 ∷ []))

-- Where the registers ebx, ecx and edx of leaf 0x40000000 spell twelve characters, the hypervisor is
-- that of VMware or that of Parallels exactly if those up to the first NUL are its name, and unknown
-- if they are any other; this holds with the library's strcmp, which says 1 for equal strings.
pub init_vmm_info-family :
    (p : Processor) (a0 a1 a2 a3 b0 b1 b2 b3 c0 c1 c2 c3 : ℕ)
    → Spells p a0 a1 a2 a3 b0 b1 b2 b3 c0 c1 c2 c3
    → let name = until_nul (a0 ∷ a1 ∷ a2 ∷ a3 ∷ b0 ∷ b1 ∷ b2 ∷ b3 ∷ c0 ∷ c1 ∷ c2 ∷ c3 ∷ 0 ∷ []) in
      (init_vmm_info p).family
      ≡ (if string_eq name vmware_id then 1 else if string_eq name parallels_id then 2 else 0)
init_vmm_info-family p a0 a1 a2 a3 b0 b1 b2 b3 c0 c1 c2 c3 h =
    let name = a0 ∷ a1 ∷ a2 ∷ a3 ∷ b0 ∷ b1 ∷ b2 ∷ b3 ∷ c0 ∷ c1 ∷ c2 ∷ c3 ∷ 0 ∷ [] in
    family_lem p
    ∙ (ap vmm_family (vendor_lem p a0 a1 a2 a3 b0 b1 b2 b3 c0 c1 c2 c3 h)
        ∙ vmm_family-string_eq (until_nul name) (omega (arith, length-until_nul name)))
