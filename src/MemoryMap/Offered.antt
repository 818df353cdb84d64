-- ===== src/MemoryMap/Offered.antt =====
-- What one range of the firmware adds to the table in Kernel/Kernel/i386/i386_vm_init.c.
use beta_os.Prelude.{
  ℕ, zero, suc, ◌-◌, ◌≤◌, ◌≡◌, refl, Bool, true, not, ◌&&◌, Option, none, some, List, [], ◌∷◌,
  length, ltb, leb, ◌==◌, if◌then◌else◌, if_case, arith, All,
}
use beta_os.MemoryMap.Range.{
  Range, Region, conventional_memory, is_runtime, is_kern_reserved, base_of, top_of, pmap_type_of,
}
use beta_os.MemoryMap.Scan.{
  lowmem_reserved, free_region, used_region, low_base, low_region, placed, extend_at, store_after,
  store_region, nth,
}
use beta_os.MemoryMap.Coverage.{any_within, first_as, last_as, IsRegion}

-- A range whose pages go into the table: conventional memory that the firmware does not use at run
-- time, and that reaches above the lowest pages.
unfoldable pub is_usable : Range → Bool
is_usable d =
    not (ltb (top_of d) (base_of d))
    && not (is_runtime (d.attribute))
    && pmap_type_of (d.type) == conventional_memory
    && not (ltb (top_of d) lowmem_reserved)

abbrev pub spans : ℕ → Range → Bool
spans fap d = not (ltb (top_of d) fap) && ltb (base_of d) fap && ltb fap (top_of d)

-- Page `q` is one of a usable range; below the first free page, one above the lowest pages.
unfoldable pub offers : ℕ → ℕ → Range → Bool
offers fap q d =
    is_usable d
    && leb (if ltb (top_of d) fap then low_base (base_of d) else base_of d) q
    && leb q (top_of d)

-- Page `q` is one of a usable range, and free: from the first free page on, if the range spans it;
-- in a range that ends below it, if it is reserved and ends below the kernel.
unfoldable pub frees : ℕ → ℕ → ℕ → Range → Bool
frees fap kernel_page q d =
    is_usable d
    && (if ltb (top_of d) fap
        then is_kern_reserved (d.attribute)
          && ltb (top_of d) kernel_page
          && leb (low_base (base_of d)) q
        else if ltb (base_of d) fap && ltb fap (top_of d)
        then leb fap q
        else leb (base_of d) q)
    && leb q (top_of d)

free-IsRegion : (base top attribute : ℕ) → base ≤ top → IsRegion (free_region base top attribute)
free-IsRegion base top attribute h = record { not_empty = h; free_part = omega arith }

used-IsRegion : (base top attribute : ℕ) → base ≤ top → IsRegion (used_region base top attribute)
used-IsRegion base top attribute h = record { not_empty = h; free_part = omega arith }

module _ (fap kernel_page : ℕ) (d : Range) (ordered : base_of d ≤ top_of d)
    (reaches : 3 ≤ top_of d) where
  abbrev new : Region × List Region
  new = placed fap kernel_page (base_of d) (top_of d) (d.attribute)

  pub placed-IsRegion : IsRegion (new.0) × All IsRegion (new.1)
  unfolding placed low_region
  placed-IsRegion =
      let low : low_base (base_of d) ≤ top_of d = ground arith in
      if_case {A = Region × List Region} (λ r. IsRegion (r.0) × All IsRegion (r.1))
        (ltb (top_of d) fap)
        (λ below. (
          if_case IsRegion (is_kern_reserved (d.attribute) && ltb (top_of d) kernel_page)
              (λ e. free-IsRegion _ _ _ low) (λ e. used-IsRegion _ _ _ low),
          tt,
        ))
        (λ above.
          if_case {A = Region × List Region} (λ r. IsRegion (r.0) × All IsRegion (r.1))
            (ltb (base_of d) fap && ltb fap (top_of d))
            (λ e.
              let first : base_of d ≤ fap - 1 = ground arith in
              let second : fap ≤ top_of d = ground arith in
              (free-IsRegion _ _ _ second, (used-IsRegion _ _ _ first, tt)))
            (λ e. (free-IsRegion _ _ _ ordered, tt)))

  pub length-placed : length (new.1) ≡ (if spans fap d then 1 else 0)
  unfolding placed
  length-placed = ground arith

  pub placed-pages :
      (a q : ℕ)
      → is_usable d ≡ true
      → any_within (first_as a) (last_as a) q (new.0 ∷ new.1) ≡ (d.attribute == a) && offers fap q d
  unfolding placed low_region offers
  placed-pages a q usable = ground arith

  pub placed-free :
      (q : ℕ)
      → is_usable d ≡ true
      → any_within (λ r. r.alloc_up) (λ r. r.alloc_down) q (new.0 ∷ new.1)
        ≡ frees fap kernel_page q d
  unfolding placed low_region frees
  placed-free q usable = ground arith

-- Storing a region makes the table longer by one at most.
length-extend_at : (k : ℕ) (n : Region) (rs : List Region) → length (extend_at k n rs) ≡ length rs
unfolding extend_at
length-extend_at k n [] = refl
length-extend_at zero n (r ∷ rs) = refl
length-extend_at (suc k) n (r ∷ rs) = omega (arith, length-extend_at k n rs)

length-store_after :
    (n : Region) (others : List Region) (k : ℕ) (found : Option Region)
    → length ((store_after n others k found).0) ≤ suc (length others)
unfolding store_after
length-store_after n others k none = omega arith
length-store_after n others k (some p) = ground (arith, length-extend_at k n others)

pub length-store_region :
    (n : Region) (others : List Region) (prev : Option ℕ)
    → length ((store_region n others prev).0) ≤ suc (length others)
unfolding store_region
length-store_region n others none = omega arith
length-store_region n others (some k) = length-store_after n others k (nth k others)
