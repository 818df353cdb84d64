-- ===== src/MemoryMap/Table.antt =====
-- The whole loop over the firmware's ranges in Kernel/Kernel/i386/i386_vm_init.c.
use beta_os.Prelude.{
  ℕ, ◌+◌, ◌≤◌, ◌≡◌, refl, ap, ◌∙◌, Bool, true, false, not, ◌&&◌, ◌||◌, inl, inr, none, List, [],
  ◌∷◌, ◌++◌, length, length-append, ltb, leb, ◌==◌, if◌then◌else◌, Bool-cases, arith, All,
}
use beta_os.MemoryMap.Range.{
  Range, Region, conventional_memory, is_runtime, is_kern_reserved, base_of, top_of, pmap_type_of,
  count_bytes,
}
use beta_os.MemoryMap.Scan.{
  regions_size, lowmem_reserved, State, done, overrun, placed, shift, store_usable, add_usable,
  step, scan,
}
use beta_os.MemoryMap.Coverage.{
  first_as, last_as, any_within, first_as, last_as, any_within-append, IsRegion, pages-Joins,
  free-Joins, within-store_region, store_region-IsRegion,
}
use beta_os.MemoryMap.Marked.{count_as, count_as-append, count_as-store_region, count_as-placed}
use beta_os.MemoryMap.Offered.{
  is_usable, spans, offers, frees, placed-IsRegion, length-placed, placed-pages, placed-free,
  length-store_region,
}

-- Page `q` is one of a region with the attribute `a`.
abbrev pub covered : ℕ → ℕ → List Region → Bool
covered a = any_within (first_as a) (last_as a)

abbrev pub free : ℕ → List Region → Bool
free = any_within (λ r. r.alloc_up) (λ r. r.alloc_down)

-- The slots that ranges take at most, and how many of them are marked as reserved.
abbrev pub slots : ℕ → List Range → ℕ
slots fap [] = 0
slots fap (d ∷ ds) = (if spans fap d then 2 else 1) + slots fap ds

abbrev pub reserved : List Range → ℕ
reserved [] = 0
reserved (d ∷ ds) = (if is_kern_reserved (d.attribute) then 1 else 0) + reserved ds

abbrev pub offered : ℕ → ℕ → ℕ → List Range → Bool
offered fap a q [] = false
offered fap a q (d ∷ ds) = (d.attribute == a) && offers fap q d || offered fap a q ds

abbrev pub freed : ℕ → ℕ → ℕ → List Range → Bool
freed fap kernel_page q [] = false
freed fap kernel_page q (d ∷ ds) = frees fap kernel_page q d || freed fap kernel_page q ds

-- The regions that the usable ranges with an attribute take, where none are merged.
abbrev pub regions_of : ℕ → ℕ → Range → ℕ
regions_of fap a d = if is_usable d && d.attribute == a then (if spans fap d then 2 else 1) else 0

abbrev pub all_regions_of : ℕ → ℕ → List Range → ℕ
all_regions_of fap a [] = 0
all_regions_of fap a (d ∷ ds) = regions_of fap a d + all_regions_of fap a ds

All-append : (rs ss : List Region) → All IsRegion rs → All IsRegion ss → All IsRegion (rs ++ ss)
All-append [] ss h k = k
All-append (r ∷ rs) ss (p, h) k = (p, All-append rs ss h k)

-- What a round makes of a state.
record Adds (fap kernel_page : ℕ) (d : Range) (s s' : State) : Type 0 where
  regions : All IsRegion (s'.regions)
  pages :
      (a q : ℕ)
      → covered a q (s'.regions) ≡ (d.attribute == a) && offers fap q d || covered a q (s.regions)
  free_pages : (q : ℕ) → free q (s'.regions) ≡ frees fap kernel_page q d || free q (s.regions)
  own :
      (a : ℕ)
      → is_kern_reserved a ≡ true
      → count_as a (s'.regions) ≡ regions_of fap a d + count_as a (s.regions)
  size : length (s'.regions) ≤ length (s.regions) + (if spans fap d then 2 else 1)
  marks : s'.reserved_ranges ≤ s.reserved_ranges + (if is_kern_reserved (d.attribute) then 1 else 0)

module _ (fap kernel_page : ℕ) (d : Range) (s : State) (regions : All IsRegion (s.regions))
    (room : length (s.regions) + (if spans fap d then 2 else 1) ≤ 128)
    (marks : s.reserved_ranges + (if is_kern_reserved (d.attribute) then 1 else 0) ≤ 32) where
  add_usable-Adds :
      is_usable d ≡ true
      → base_of d ≤ top_of d
      → 3 ≤ top_of d
      → (s' : State) × (add_usable fap kernel_page d s ≡ done s') × Adds fap kernel_page d s s'
  unfolding add_usable store_usable
  add_usable-Adds usable ordered reaches =
      let new = placed fap kernel_page (base_of d) (top_of d) (d.attribute) in
      let others = new.1 ++ s.regions in
      let kept = is_kern_reserved (d.attribute) in
      let (first, more) = placed-IsRegion fap kernel_page d ordered reaches in
      let all = All-append (new.1) (s.regions) more regions in
      let prev = shift (length (new.1)) (s.prev) in
      let size : length others ≡ (if spans fap d then 1 else 0) + length (s.regions) =
        length-append (new.1) (s.regions)
        ∙ ap (λ n. n + length (s.regions)) (length-placed fap kernel_page d ordered reaches) in
      let few : (kept && ltb 32 (s.reserved_ranges + 1)) ≡ false = ground arith in
      let fits : leb 128 (length others) ≡ false = ground (arith, size) in
      (
        store_usable fap kernel_page d s,
        rw (few, fits) refl,
        record {
          regions = store_region-IsRegion (new.0) others prev first all;
          pages = λ a q.
              within-store_region (first_as a) (last_as a) (pages-Joins a) q (new.0) others prev
                first all
              ∙ (any_within-append (first_as a) (last_as a) q (new.0 ∷ new.1) (s.regions)
                  ∙ ap (λ b. b || covered a q (s.regions))
                      (placed-pages fap kernel_page d ordered reaches a q usable));
          free_pages = λ q.
              within-store_region (λ r. r.alloc_up) (λ r. r.alloc_down) free-Joins q (new.0) others
                prev first all
              ∙ (any_within-append (λ r. r.alloc_up) (λ r. r.alloc_down) q (new.0 ∷ new.1)
                    (s.regions)
                  ∙ ap (λ b. b || free q (s.regions))
                      (placed-free fap kernel_page d ordered reaches q usable));
          own = λ a marked.
              count_as-store_region a marked (new.0) others prev
              ∙ (count_as-append a (new.0 ∷ new.1) (s.regions)
                  ∙ ap (λ n. n + count_as a (s.regions))
                      (count_as-placed fap kernel_page a d ordered ∙ rw usable refl));
          size = ground (arith, size, length-store_region (new.0) others prev);
          marks = ground arith;
        },
      )

  -- A range that is not usable changes none of this.
  skip-Adds :
      (t : State)
      → is_usable d ≡ false
      → t.regions ≡ s.regions
      → t.reserved_ranges ≡ s.reserved_ranges
      → Adds fap kernel_page d s t
  unfolding offers frees
  skip-Adds t usable e e' = record {
    regions = rw e regions;
    pages = λ a q. rw (usable, e) (ground arith);
    free_pages = λ q. rw (usable, e) refl;
    own = λ a marked. rw (usable, e) (omega arith);
    size = ground (arith, ap length e);
    marks = ground (arith, e');
  }

module _ (fap kernel_page : ℕ) (d : Range) (s : State) (regions : All IsRegion (s.regions))
    (room : length (s.regions) + (if spans fap d then 2 else 1) ≤ 128)
    (marks : s.reserved_ranges + (if is_kern_reserved (d.attribute) then 1 else 0) ≤ 32) where
  abbrev counted : State
  counted = record s { bytes = count_bytes d (s.bytes) }

  unusable :
      is_usable d ≡ false
      → (s' : State) × (done (record counted { prev = none }) ≡ done s')
        × Adds fap kernel_page d s s'
  unusable h = (
    record counted { prev = none },
    refl,
    skip-Adds fap kernel_page d s regions room marks _ h refl refl,
  )

  step-Adds : (s' : State) × (step fap kernel_page d s ≡ done s') × Adds fap kernel_page d s s'
  unfolding step is_usable
  step-Adds = elim (Bool-cases (ltb (top_of d) (base_of d))) [
    | inl empty ↦ (
      s,
      rw empty refl,
      skip-Adds fap kernel_page d s regions room marks s (rw empty refl) refl refl,
    )
    | inr some_pages ↦
        let other =
          is_runtime (d.attribute) || not (pmap_type_of (d.type) == conventional_memory) in
        elim (Bool-cases other) [
          | inl not_ours ↦
              let no : is_usable d ≡ false = ground arith in
              let (s', e, h) = unusable no in (s', rw (some_pages, not_ours) e, h)
          | inr ours ↦ elim (Bool-cases (ltb (top_of d) lowmem_reserved)) [
            | inl low ↦
                let no : is_usable d ≡ false = ground arith in
                let (s', e, h) = unusable no in (s', rw (some_pages, ours, low) e, h)
            | inr reaches ↦
                let usable : is_usable d ≡ true = ground arith in
                let (s', e, h) =
                  add_usable-Adds fap kernel_page d counted regions room marks usable (ground arith)
                    (ground arith) in
                (
                  s',
                  rw (some_pages, ours, reaches) e,
                  record {
                    regions = h.regions;
                    pages = h.pages;
                    free_pages = h.free_pages;
                    own = h.own;
                    size = h.size;
                    marks = h.marks;
                  },
                )
          ]
        ]
  ]

or_swap : (a b c : Bool) → b || (a || c) ≡ (a || b) || c
or_swap a b c = ground arith

-- The loop over the ranges, with room in the table, in the terms of the code.
pub scan-offered :
    (fap kernel_page : ℕ) (ds : List Range) (s : State)
    → All IsRegion (s.regions)
    → length (s.regions) + slots fap ds ≤ 128
    → s.reserved_ranges + reserved ds ≤ 32
    → (s' : State) × (scan fap kernel_page ds s ≡ done s')
      × ((a q : ℕ) → covered a q (s'.regions) ≡ offered fap a q ds || covered a q (s.regions))
      × ((q : ℕ) → free q (s'.regions) ≡ freed fap kernel_page q ds || free q (s.regions))
      × ((a : ℕ)
          → is_kern_reserved a ≡ true
          → count_as a (s'.regions) ≡ all_regions_of fap a ds + count_as a (s.regions))
unfolding scan
scan-offered fap kernel_page [] s regions room marks =
    (s, refl, λ a q. refl, λ q. refl, λ a marked. omega arith)
scan-offered fap kernel_page (d ∷ ds) s regions room marks =
    let open_slot : leb regions_size (length (s.regions)) ≡ false = ground arith in
    let (t, e, h) = step-Adds fap kernel_page d s regions (omega arith) (omega arith) in
    let (u, e', pages, free_pages, own) =
      scan-offered fap kernel_page ds t (h.regions) (omega (arith, h.size))
        (omega (arith, h.marks)) in
    (
      u,
      rw (open_slot, e) e',
      λ a q.
          rw (pages a q, h.pages a q)
            (or_swap ((d.attribute == a) && offers fap q d) (offered fap a q ds)
              (covered a q (s.regions))),
      λ q.
          rw (free_pages q, h.free_pages q)
            (or_swap (frees fap kernel_page q d) (freed fap kernel_page q ds) (free q (s.regions))),
      λ a marked. omega (arith, own a marked, h.own a marked),
    )

-- With 127 regions in the table, a usable range that spans the first free page and is not marked
-- as reserved has its second region written behind the table.
pub scan-overrun :
    (fap kernel_page : ℕ) (d : Range) (ds : List Range) (s : State)
    → length (s.regions) ≡ 127
    → is_usable d ≡ true
    → spans fap d ≡ true
    → is_kern_reserved (d.attribute) ≡ false
    → scan fap kernel_page (d ∷ ds) s ≡ overrun
unfolding scan step add_usable is_usable
scan-overrun fap kernel_page d ds s full usable spanning plain =
    let open_slot : leb regions_size (length (s.regions)) ≡ false = ground arith in
    let some_pages : ltb (top_of d) (base_of d) ≡ false = ground arith in
    let ours : (is_runtime (d.attribute) || not (pmap_type_of (d.type) == conventional_memory))
        ≡ false =
      ground arith in
    let reaches : ltb (top_of d) lowmem_reserved ≡ false = ground arith in
    let new = placed fap kernel_page (base_of d) (top_of d) (d.attribute) in
    let two : length (new.1) ≡ 1 =
      ground (arith, length-placed fap kernel_page d (ground arith) (ground arith)) in
    let past : leb regions_size (length (new.1 ++ s.regions)) ≡ true =
      ground (arith, length-append (new.1) (s.regions), two) in
    rw (open_slot, some_pages, ours, reaches, past, plain) refl
