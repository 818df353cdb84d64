-- ===== src/Cpuid/Vmm.antt =====
-- `cpuid_init_vmm_info` and `cpuid_vmm_info` of Kernel/Kernel/i386/cpuid.c: the hypervisor.
use beta_os.Prelude.{
  ℕ, Bool, false, Option, none, some, List, [], ◌∷◌, ◌++◌, leb, ◌==◌, if◌then◌else◌,
}
use beta_os.Prelude.Int.{ℤ, pos}
use beta_os.DeviceTree.Memory.{until_nul}
use beta_os.Libc.Strcmp.{strcmp}
use beta_os.Cpuid.Regs.{Regs, Processor, cpuid_fn, bytes_of}

-- i386_vmm_info_t
pub record VmmInfo : Type 0 where
  pub vendor : List ℕ
  pub family : ℕ
  pub bus_frequency : ℕ
  pub tsc_frequency : ℕ

abbrev pub vmware_id : List ℕ
vmware_id = b'V' ∷ b'M' ∷ b'w' ∷ b'a' ∷ b'r' ∷ b'e' ∷ b'V' ∷ b'M' ∷ b'w' ∷ b'a' ∷ b'r' ∷ b'e' ∷ []

-- The literal has NULs behind the name.
abbrev pub parallels_id : List ℕ
parallels_id = b'P' ∷ b'a' ∷ b'r' ∷ b'a' ∷ b'l' ∷ b'l' ∷ b'e' ∷ b'l' ∷ b's' ∷ []

-- `true == strcmp(…)`, with the strcmp of Libc.
unfoldable pub is_true : Option ℤ → Bool
is_true (some (pos n)) = n == 1
is_true _ = false

unfoldable pub vmm_vendor : Regs → List ℕ
unfolding until_nul
vmm_vendor r = until_nul (bytes_of (r.ebx) ++ bytes_of (r.ecx) ++ bytes_of (r.edx) ++ (0 ∷ []))

unfoldable pub vmm_family : List ℕ → ℕ
unfolding strcmp is_true
vmm_family vendor =
    if is_true (strcmp vendor vmware_id)
    then 1
    else if is_true (strcmp vendor parallels_id)
    then 2
    else 0

-- cpuid_init_vmm_info
unfoldable pub init_vmm_info : Processor → VmmInfo
unfolding cpuid_fn vmm_vendor vmm_family
init_vmm_info p =
    let r = cpuid_fn p 0x40000000 in
    let generic = cpuid_fn p 0x40000010 in
    let is_there = leb 0x40000010 (r.eax) in
    record {
      vendor = vmm_vendor r;
      family = vmm_family (vmm_vendor r);
      bus_frequency = if is_there then generic.ebx else 0;
      tsc_frequency = if is_there then generic.eax else 0;
    }

-- cpuid_vmm_info; the state is what _cpuid_vmm_infop points to.
unfoldable pub vmm_info : Processor → Option VmmInfo → VmmInfo × Option VmmInfo
unfolding init_vmm_info
vmm_info p (some i) = (i, some i)
vmm_info p none = (init_vmm_info p, some (init_vmm_info p))
