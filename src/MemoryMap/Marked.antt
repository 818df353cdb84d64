-- ===== src/MemoryMap/Marked.antt =====
-- The regions of memory that is marked as reserved are not merged in
-- Kernel/Kernel/i386/i386_vm_init.c: how many regions have such an attribute.
use beta_os.Prelude.{
  ℕ, zero, suc, ◌+◌, ◌≤◌, ◌≡◌, refl, ap, true, false, inl, inr, Option, none, some, List, [], ◌∷◌,
  ◌++◌, ◌==◌, if◌then◌else◌, Bool-cases, arith,
}
use beta_os.MemoryMap.Range.{Range, Region, is_kern_reserved, base_of, top_of}
use beta_os.MemoryMap.Scan.{
  placed, low_region, nth, extend_at, continues, store_after, store_region,
}
use beta_os.MemoryMap.Offered.{spans}

-- How many regions have the attribute `a`.
abbrev pub count_as : ℕ → List Region → ℕ
count_as a [] = 0
count_as a (r ∷ rs) = (if r.attribute == a then 1 else 0) + count_as a rs

pub count_as-append :
    (a : ℕ) (rs ss : List Region) → count_as a (rs ++ ss) ≡ count_as a rs + count_as a ss
count_as-append a [] ss = omega arith
count_as-append a (r ∷ rs) ss = omega (arith, count_as-append a rs ss)

count_as-extend_at :
    (a k : ℕ) (n : Region) (rs : List Region) → count_as a (extend_at k n rs) ≡ count_as a rs
unfolding extend_at
count_as-extend_at a k n [] = refl
count_as-extend_at a zero n (r ∷ rs) = refl
count_as-extend_at a (suc k) n (r ∷ rs) = omega (arith, count_as-extend_at a k n rs)

continues-differs :
    (a : ℕ) (n p : Region)
    → is_kern_reserved a ≡ true
    → continues n p ≡ true
    → (n.attribute == a) ≡ false
unfolding continues
continues-differs a n p kept c = elim (Bool-cases (n.attribute == a)) [
  | inr other ↦ other
  | inl same ↦
      let e : n.attribute ≡ a = ground (arith, same) in
      absurd (ground (arith, ap is_kern_reserved e))
]

module _ (a : ℕ) (kept : is_kern_reserved a ≡ true) where
  count_as-store_after :
      (n : Region) (others : List Region) (k : ℕ) (found : Option Region)
      → count_as a ((store_after n others k found).0) ≡ count_as a (n ∷ others)
  unfolding store_after
  count_as-store_after n others k none = refl
  count_as-store_after n others k (some p) = elim (Bool-cases (continues n p)) [
    | inr c ↦ rw c refl
    | inl c ↦
        let differs = continues-differs a n p kept c in
        rw (c, differs) (omega (arith, count_as-extend_at a k n others))
  ]

  -- Storing a region adds one of its attribute, if it is marked.
  pub count_as-store_region :
      (n : Region) (others : List Region) (prev : Option ℕ)
      → count_as a ((store_region n others prev).0) ≡ count_as a (n ∷ others)
  unfolding store_region
  count_as-store_region n others none = refl
  count_as-store_region n others (some k) = count_as-store_after n others k (nth k others)

pub count_as-placed :
    (fap kernel_page a : ℕ) (d : Range)
    → base_of d ≤ top_of d
    → (let new = placed fap kernel_page (base_of d) (top_of d) (d.attribute) in
        count_as a (new.0 ∷ new.1)
        ≡ (if d.attribute == a then (if spans fap d then 2 else 1) else 0))
unfolding placed low_region
count_as-placed fap kernel_page a d ordered = ground arith
