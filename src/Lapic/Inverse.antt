-- ===== src/Lapic/Inverse.antt =====
-- The two maps of Kernel/Kernel/i386/lapic.c between processors and controllers.
use beta_os.Prelude.{ℕ, ◌^◌, ◌<◌, ◌≡◌, ◌↔◌, refl, some, ◌==◌, if◌then◌else◌, arith}
use beta_os.Prelude.Int.{ℤ, pos, negsuc}
use beta_os.Lapic.State.{Lapic}
use beta_os.Lapic.CpuMap.{lapic_cpu_map_init, lapic_cpu_map, to_uint32, ml_get_apicid, ml_get_cpuid}

-- The states of the maps: as initialised, and after a call for a processor and a controller that
-- have none yet.
pub data Reach : Lapic → Type 0 where
  start : (l : Lapic) → Reach (lapic_cpu_map_init l)
  map :
      {l l' : Lapic} (apic_id cpu : ℕ)
      → Reach l
      → l.cpu_to_lapic cpu ≡ negsuc 0
      → l.lapic_to_cpu apic_id ≡ negsuc 0
      → lapic_cpu_map apic_id cpu l ≡ some l'
      → Reach l'

record IsInverse (l : Lapic) : Type 0 where
  there : (c a : ℕ) → l.cpu_to_lapic c ≡ pos a → l.lapic_to_cpu a ≡ pos c
  back : (c a : ℕ) → l.lapic_to_cpu a ≡ pos c → l.cpu_to_lapic c ≡ pos a
  cpu_unset : (c n : ℕ) → l.cpu_to_lapic c ≡ negsuc n → n ≡ 0
  lapic_unset : (a n : ℕ) → l.lapic_to_cpu a ≡ negsuc n → n ≡ 0

module _ (l l' : Lapic) (apic cpu : ℕ) (inverse : IsInverse l)
    (free_cpu : l.cpu_to_lapic cpu ≡ negsuc 0) (free_lapic : l.lapic_to_cpu apic ≡ negsuc 0)
    (e : lapic_cpu_map apic cpu l ≡ some l') where
  cpus : (c : ℕ) → l'.cpu_to_lapic c ≡ (if cpu == c then pos apic else l.cpu_to_lapic c)
  unfolding lapic_cpu_map
  cpus c = ground arith

  lapics : (a : ℕ) → l'.lapic_to_cpu a ≡ (if apic == a then pos cpu else l.lapic_to_cpu a)
  unfolding lapic_cpu_map
  lapics a = ground arith

  map-IsInverse : IsInverse l'
  map-IsInverse = record {
    there = λ c a h. ground (arith, cpus c, lapics a, inverse.there c a, inverse.back c a);
    back = λ c a h. ground (arith, cpus c, lapics a, inverse.there c a, inverse.back c a);
    cpu_unset = λ c n h. ground (arith, cpus c, inverse.cpu_unset c n);
    lapic_unset = λ a n h. ground (arith, lapics a, inverse.lapic_unset a n);
  }

Reach-IsInverse : (l : Lapic) → Reach l → IsInverse l
unfolding lapic_cpu_map_init
Reach-IsInverse l (start l0) = record {
  there = λ c a h. cc;
  back = λ c a h. cc;
  cpu_unset = λ c n h. cc;
  lapic_unset = λ a n h. cc;
}
Reach-IsInverse l (map {l = l0} apic cpu r free_cpu free_lapic e) =
    map-IsInverse l0 l apic cpu (Reach-IsInverse l0 r) free_cpu free_lapic e

to_uint32_small :
    (z : ℤ) (n : ℕ)
    → ((k : ℕ) → z ≡ negsuc k → k ≡ 0)
    → n < 2 ^ 16
    → (to_uint32 z ≡ n) ↔ (z ≡ pos n)
to_uint32_small (pos m) n unset small = ground arith
to_uint32_small (negsuc k) n unset small = ground (arith, unset k refl)

-- Whatever processors were mapped, each once: a processor's controller is the one whose processor
-- it is. ml_get_apicid and ml_get_cpuid are inverse where they give an identifier.
pub ml_get_apicid-ml_get_cpuid :
    (l : Lapic) (cpu apic : ℕ)
    → Reach l
    → cpu < 64
    → apic < 256
    → (ml_get_apicid l cpu ≡ apic) ↔ (ml_get_cpuid l apic ≡ cpu)
unfolding ml_get_apicid ml_get_cpuid
ml_get_apicid-ml_get_cpuid l cpu apic r lt lt' =
    let inverse = Reach-IsInverse l r in
    ground (
      arith,
      inverse.there cpu apic,
      inverse.back cpu apic,
      to_uint32_small (l.cpu_to_lapic cpu) apic (inverse.cpu_unset cpu),
      to_uint32_small (l.lapic_to_cpu apic) cpu (inverse.lapic_unset apic),
    )
