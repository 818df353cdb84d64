-- ===== src/Tsc/Accuracy.antt =====
-- How near the frequency of the counter in Kernel/Kernel/i386/tsc.c comes to that of the bus times
-- the ratio.
use beta_os.Prelude.{
  ℕ, ◌*◌, ◌/◌, ◌≤◌, ◌<◌, ◌≡◌, ◌≢◌, refl, sym, subst, ◌∙◌, ap, false, ◌||◌, some, ◌==◌,
  if◌then◌else◌, if_case, arith,
}
use native.Mathlib.Nat.{div-div-eq-div-mul, mul-div-le, div-mul-le_self, le-div_iff_mul-le}
use beta_os.DeviceTree.Memory.{Addr}
use beta_os.DeviceTree.Entry.{success, get_property}
use beta_os.DeviceTree.Search.{lookup_entry}
use beta_os.Cpuid.Info.{CpuInfo}
use beta_os.Cpuid.Family.{merom, penryn, skylake, kabylake}
use beta_os.Cpuid.Vmm.{VmmInfo}
use beta_os.Tsc.Factors.{
  Tsc, done, ◌>>=◌, divide, giga_scaled, max_uint64, tmr_cvt, bit, set_bus_factors, counter_factor,
  set_counter_factors,
}
use beta_os.Tsc.Setup.{
  msr_flex_ratio, base_nhm_clock_source, efi_platform, initial_tsc, fsb_frequency, u64_at, value_or,
  Efi, frequency_in, frequency_at, efi_get_frequency, read_flex, read_nehalem, read_family,
  tsc_init,
}

divide_pos : (a b : ℕ) → 0 < b → divide a b ≡ done (a / b)
unfolding divide
divide_pos a b pos = let known : (b == 0) ≡ false = ground arith in rw known refl

quotient_pos : (a b : ℕ) → 0 < b → b ≤ a → 0 < a / b
quotient_pos a b pos le = (le-div_iff_mul-le {x = 1} pos).1 (omega arith)

module _ (a b g : ℕ) (b_pos : 0 < b) (g_pos : 0 < g) (le : b * g ≤ a) where
  product_pos : 0 < b * g
  product_pos = grind arith

  left_le : b ≤ a
  left_le = grind arith

  factor : a / b / g ≡ a / (b * g)
  factor = div-div-eq-div-mul a b g

  factor_pos : 0 < a / b / g
  factor_pos = rw factor (quotient_pos a (b * g) product_pos le)

  at_least : b * g ≤ a / (a / b / g)
  at_least = (le-div_iff_mul-le factor_pos).1 (rw factor (mul-div-le a (b * g)))

  at_most : a / (a / b / g) * (a / (b * g)) ≤ a
  at_most = subst (λ q. a / (a / b / g) * q ≤ a) factor (div-mul-le_self a (a / b / g))

-- The factors of the bus, and those of the counter from its ratio.
bus_lem :
    (t : Tsc)
    → 0 < t.bus_freq
    → t.bus_freq ≤ giga_scaled
    → set_bus_factors t
      ≡ done (record t {
        bus_fcvtt2n = giga_scaled / t.bus_freq;
        bus_fcvtn2t = max_uint64 / (giga_scaled / t.bus_freq);
      })
unfolding set_bus_factors
bus_lem t pos le =
    let known : (t.bus_freq == 0) ≡ false = ground arith in
    let t2n = giga_scaled / t.bus_freq in
    rw (known, divide_pos max_uint64 t2n (quotient_pos giga_scaled (t.bus_freq) pos le)) refl

counter_lem :
    (t : Tsc)
    → 0 < t.tsc_granularity
    → 0 < t.bus_fcvtt2n / t.tsc_granularity
    → t.tsc_freq ≢ t.bus_freq
    → (u : Tsc) × (set_counter_factors false t ≡ done u)
      × (u.bus_freq ≡ t.bus_freq)
      × (u.tsc_granularity ≡ t.tsc_granularity)
      × (u.tsc_freq ≡ giga_scaled / (t.bus_fcvtt2n / t.tsc_granularity))
unfolding set_counter_factors counter_factor
counter_lem t ratio_pos t2n_pos ne =
    let differ : (t.tsc_freq == t.bus_freq) ≡ false = ground arith in
    let t2n = t.bus_fcvtt2n / t.tsc_granularity in
    let u : Tsc = record t {
      tsc_fcvtt2n = t2n;
      tsc_freq = giga_scaled / t2n;
      tsc_fcvtn2t = max_uint64 / t2n;
      bus2tsc = tmr_cvt (t.bus_fcvtt2n) (max_uint64 / t2n);
    } in
    (
      u,
      rw
          (
            differ,
            divide_pos (t.bus_fcvtt2n) (t.tsc_granularity) ratio_pos,
            divide_pos giga_scaled t2n t2n_pos,
            divide_pos max_uint64 t2n t2n_pos,
          )
          refl,
      refl,
      refl,
      refl,
    )

-- The frequency of the bus is found in the device tree: eight bytes with a value above 0.
pub record IsFound (efi : Efi) (b : ℕ) : Type 0 where
  pub entry : Addr
  pub value : Addr
  pub platform :
      lookup_entry (efi.strcmp) (efi.mem) (efi.fuel) (efi.state) 0 efi_platform
      ≡ some (success entry)
  pub fsb : get_property (efi.strcmp) (efi.mem) entry fsb_frequency ≡ success (value, 8)
  pub holds : u64_at (efi.mem) value ≡ b

frequency_lem :
    (efi : Efi) (b : ℕ) (t : Tsc)
    → IsFound efi b
    → (n : ℕ) × (efi_get_frequency efi fsb_frequency t ≡ done (b, record t { tsc_at_boot = n }))
unfolding efi_get_frequency
frequency_lem efi b t h =
    let n =
      value_or (efi.mem) (get_property (efi.strcmp) (efi.mem) (h.entry) initial_tsc)
        (t.tsc_at_boot) in
    (
      n,
      ap (frequency_at efi fsb_frequency t) (h.platform)
          ∙ (ap (λ found. done (frequency_in efi (h.entry) t found)) (h.fsb)
              ∙ ap (λ k. done (k, record t { tsc_at_boot = n })) (h.holds)),
    )

read_flex-freq : (rdmsr64 : ℕ → ℕ) (t : Tsc) → (read_flex rdmsr64 t).tsc_freq ≡ t.tsc_freq
unfolding read_flex
read_flex-freq rdmsr64 t =
    if_case {A = Tsc} (λ u. u.tsc_freq ≡ t.tsc_freq) (bit (rdmsr64 msr_flex_ratio) 16) (λ e. refl)
      (λ e. refl)

-- A processor that is none of Merom, Penryn, Skylake and Kaby Lake.
pub record HasRatio (i : CpuInfo) : Type 0 where
  pub not_merom : i.cpufamily ≢ merom
  pub not_penryn : i.cpufamily ≢ penryn
  pub not_skylake : i.cpufamily ≢ skylake
  pub not_kabylake : i.cpufamily ≢ kabylake

family_lem :
    (efi : Efi) (rdmsr64 : ℕ → ℕ) (i : CpuInfo) (t : Tsc) (b : ℕ)
    → HasRatio i
    → IsFound efi b
    → 0 < b
    → (n : ℕ) × (read_family efi rdmsr64 i t
        ≡ done (false, record (read_flex rdmsr64 t) { tsc_at_boot = n; bus_freq = b }))
unfolding read_family read_nehalem
family_lem efi rdmsr64 i t b family h pos =
    let art : (i.cpufamily == kabylake || i.cpufamily == skylake) ≡ false =
      ground (arith, family.not_kabylake, family.not_skylake) in
    let old : (i.cpufamily == merom || i.cpufamily == penryn) ≡ false =
      ground (arith, family.not_merom, family.not_penryn) in
    let (n, found) = frequency_lem efi b (read_flex rdmsr64 t) h in
    let given : (b == 0) ≡ false = ground arith in
    (
      n,
      rw (art, old)
          (ap
              (λ r. r >>= λ found. done (
                false,
                record (found.1) {
                  bus_freq = if found.0 == 0 then base_nhm_clock_source else found.0;
                },
              ))
              found
            ∙ rw given refl),
    )

-- Without a hypervisor, on a processor that has a ratio, with the bus frequency b in the device
-- tree and a ratio g, both above 0 and their product at most 2^32 GHz, tsc_init returns, unless
-- it was called before: the bus frequency and the ratio are kept, and the frequency of the counter
-- is not below b * g, and not above it by more than the rounding of the factor allows.
pub tsc_init-frequency :
    (efi : Efi) (rdmsr64 : ℕ → ℕ) (v : VmmInfo) (i : CpuInfo) (t : Tsc) (b g : ℕ)
    → HasRatio i
    → IsFound efi b
    → (read_flex rdmsr64 t).tsc_granularity ≡ g
    → t.tsc_freq ≢ b
    → 0 < b
    → 0 < g
    → b * g ≤ giga_scaled
    → (u : Tsc) × (tsc_init efi rdmsr64 false v i t ≡ done u)
      × (u.bus_freq ≡ b)
      × (u.tsc_granularity ≡ g)
      × (b * g ≤ u.tsc_freq)
      × (u.tsc_freq * (giga_scaled / (b * g)) ≤ giga_scaled)
unfolding tsc_init
tsc_init-frequency efi rdmsr64 v i t b g family h ratio ne b_pos g_pos le =
    let flex = read_flex rdmsr64 t in
    let (n, read) = family_lem efi rdmsr64 i t b family h b_pos in
    let bus : Tsc = record flex { tsc_at_boot = n; bus_freq = b } in
    let scaled : Tsc = record bus {
      bus_fcvtt2n = giga_scaled / b;
      bus_fcvtn2t = max_uint64 / (giga_scaled / b);
    } in
    let scaling = bus_lem bus b_pos (left_le giga_scaled b g b_pos g_pos le) in
    let (u, counting, same_bus, same_ratio, freq) =
      counter_lem scaled (rw ratio g_pos) (rw ratio (factor_pos giga_scaled b g b_pos g_pos le))
        (λ q. ne (sym (read_flex-freq rdmsr64 t) ∙ q)) in
    let exact : u.tsc_freq ≡ giga_scaled / (giga_scaled / b / g) =
      freq ∙ ap (λ k. giga_scaled / (giga_scaled / b / k)) ratio in
    (
      u,
      ap (λ r. r >>= λ read. set_bus_factors (read.1) >>= λ t'. set_counter_factors (read.0) t')
            read
          ∙ (ap (λ r. r >>= λ t'. set_counter_factors false t') scaling ∙ counting),
      same_bus,
      same_ratio ∙ ratio,
      rw exact (at_least giga_scaled b g b_pos g_pos le),
      rw exact (at_most giga_scaled b g b_pos g_pos le),
    )
