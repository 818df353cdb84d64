-- ===== src/Cpuid/Family.antt =====
-- `cpuid_set_cpufamily` of Kernel/Kernel/i386/cpuid.c, with the models of cpuid.h.
use beta_os.Prelude.{ℕ, ◌||◌, ◌==◌, if◌then◌else◌}
use beta_os.Cpuid.Info.{CpuInfo}

abbrev pub unknown : ℕ
unknown = 0

abbrev pub merom : ℕ
merom = 0x426f69ef

abbrev pub penryn : ℕ
penryn = 0x78ea4fbc

abbrev pub nehalem : ℕ
nehalem = 0x6b5a4cd2

abbrev pub westmere : ℕ
westmere = 0x573b5eec

abbrev pub sandybridge : ℕ
sandybridge = 0x5490b78c

abbrev pub ivybridge : ℕ
ivybridge = 0x1f65e835

abbrev pub haswell : ℕ
haswell = 0x10b282dc

abbrev pub broadwell : ℕ
broadwell = 0x582ed09c

abbrev pub skylake : ℕ
skylake = 0x37fc219f

abbrev pub kabylake : ℕ
kabylake = 0x0f817246

-- The models of family 6.
unfoldable pub family_of_model : ℕ → ℕ
family_of_model m =
    if m == 15
    then merom
    else if m == 23
    then penryn
    else if m == 0x1A || m == 0x1E || m == 0x1F || m == 0x2E
    then nehalem
    else if m == 0x25 || m == 0x2C || m == 0x2F
    then westmere
    else if m == 0x2A || m == 0x2D
    then sandybridge
    else if m == 0x3A || m == 0x3E
    then ivybridge
    else if m == 0x3C || m == 0x3F || m == 0x45 || m == 0x46
    then haswell
    else if m == 0x3D || m == 0x47
    then broadwell
    else if m == 0x4E || m == 0x5E || m == 0x55
    then skylake
    else if m == 0x8E || m == 0x9E
    then kabylake
    else unknown

-- The family that is stored and returned.
unfoldable pub cpufamily_of : CpuInfo → ℕ
unfolding family_of_model
cpufamily_of i = if i.sign.family == 6 then family_of_model (i.sign.model) else unknown

unfoldable pub set_cpufamily : CpuInfo → CpuInfo
unfolding cpufamily_of
set_cpufamily i = record i { cpufamily = cpufamily_of i }
