-- ===== src/MemoryMap/Pages.antt =====
-- The whole table of Kernel/Kernel/i386/i386_vm_init.c against what the firmware's ranges say.
use beta_os.Prelude.{
  ℕ, ◌+◌, ◌-◌, ◌/◌, ◌%◌, ◌^◌, ◌≤◌, ◌<◌, ◌≡◌, refl, ap, ap₂, ◌∙◌, sym, subst, inl, inr, Bool-cases,
  Bool, true, false, not, ◌&&◌, ◌||◌, List, [], ◌∷◌, length, ltb, leb, ◌==◌, if◌then◌else◌, arith,
  All,
}
use beta_os.MemoryMap.Range.{
  Range, is_kern_reserved, base_of, top_of, is_conventional, pmap_type_of,
}
use beta_os.MemoryMap.Scan.{State, done, low_base, scan}
use beta_os.MemoryMap.Coverage.{IsRegion}
use beta_os.MemoryMap.Marked.{count_as}
use beta_os.MemoryMap.Offered.{is_usable, spans, offers, frees}
use beta_os.MemoryMap.Table.{
  all_regions_of, covered, free, slots, reserved, offered, freed, scan-offered,
}
use beta_os.MemoryMap.Firmware.{
  pieces, with_mark, first_page, last_page, IsRange, is_memory, is_marked, gives, leaves, slots_for,
  marked, given, left_free,
}

or_false : (b : Bool) → b || false ≡ b
or_false true = refl
or_false false = refl

-- The code's bounds of a range.
base_lem : (d : Range) → IsRange d → base_of d ≡ (if first_page d == 0 then 1 else first_page d)
unfolding base_of
base_lem d h =
    let fits : d.physical_start / 2 ^ 12 % 2 ^ 32 ≡ d.physical_start / 4096 =
      omega (arith, h.has_pages, h.fits) in
    rw fits (ground arith)

top_lem :
    (d : Range)
    → IsRange d
    → top_of d ≡ (if last_page d == 0xFFFFFFFF then 0xFFFFFFFE else last_page d)
unfolding top_of
top_lem d h =
    let fits : (d.physical_start / 2 ^ 12 + d.number_of_pages + 2 ^ 64 - 1) % 2 ^ 32 ≡ last_page d =
      omega (arith, h.has_pages, h.fits) in
    rw fits (ground arith)

marked_lem : (d : Range) → is_kern_reserved (d.attribute) ≡ is_marked d
marked_lem d = ground arith

usable_lem :
    (d : Range)
    → IsRange d
    → is_usable d ≡ not (ltb (top_of d) (base_of d)) && is_memory d && not (ltb (top_of d) 3)
unfolding is_usable pmap_type_of is_conventional
usable_lem d h = ground (arith, h.attributes)

-- The bounds without the range: the code's `b` and `t` against the first page `p` and the last `l`.
module _ (fap kernel_page q p l b t : ℕ) (m k : Bool) (base : b ≡ (if p == 0 then 1 else p))
    (top : t ≡ (if l == 0xFFFFFFFF then 0xFFFFFFFE else l)) (ordered : p ≤ l)
    (word : l < 0x100000000) (low : fap ≤ 0xFFFFFFFD) where
  gives_core :
      (not (ltb t b) && m && not (ltb t 3))
        && leb (if ltb t fap then low_base b else b) q
        && leb q t
      ≡ m
        && (leb p q && leb q l && leb 1 q && leb q 0xFFFFFFFE)
        && leb 3 l
        && (leb 3 q || leb fap l)
  gives_core = ground arith

  leaves_core :
      (not (ltb t b) && m && not (ltb t 3))
        && (if ltb t fap
            then k && ltb t kernel_page && leb (low_base b) q
            else if ltb b fap && ltb fap t
            then leb fap q
            else leb b q)
        && leb q t
      ≡ (m
          && (leb p q && leb q l && leb 1 q && leb q 0xFFFFFFFE)
          && leb 3 l
          && (leb 3 q || leb fap l))
        && (leb fap q || l == fap || k && ltb l fap && ltb l kernel_page)
  leaves_core = elim (Bool-cases (leb fap l)) [
    | inr below ↦
        let same : t ≡ l = ground arith in
        let under : ltb l fap ≡ true = ground arith in
        let differs : (l == fap) ≡ false = ground arith in
        rw (same, under, below, differs) (ground (arith, base))
    | inl above ↦ elim (Bool-cases (l == fap)) [
      | inl ends ↦
          let last : l ≡ fap = ground arith in
          let same : t ≡ fap = ground (arith, last) in
          let over : ltb fap fap ≡ false = ground arith in
          let within : leb fap fap ≡ true = ground arith in
          let equal : (fap == fap) ≡ true = ground arith in
          rw (same, last, over, within, equal) (ground (arith, base))
      | inr passes ↦
          let over : ltb t fap ≡ false = ground arith in
          let beyond : ltb fap t ≡ true = ground arith in
          let beyond' : ltb l fap ≡ false = ground arith in
          rw (over, beyond, above, passes, beyond') (ground (arith, base, top))
    ]
  ]

page_bounds : (d : Range) → IsRange d → (first_page d ≤ last_page d) × (last_page d < 0x100000000)
page_bounds d h = (omega (arith, h.has_pages), omega (arith, h.has_pages, h.fits))

gives_lem : (fap q : ℕ) (d : Range) → fap ≤ 0xFFFFFFFD → IsRange d → offers fap q d ≡ gives fap q d
unfolding offers
gives_lem fap q d low h =
    let (ordered, word) = page_bounds d h in
    rw (usable_lem d h) (
      gives_core fap 0 q (first_page d) (last_page d) (base_of d) (top_of d) (is_memory d) true
        (base_lem d h) (top_lem d h) ordered word low)

leaves_lem :
    (fap kernel_page q : ℕ) (d : Range)
    → fap ≤ 0xFFFFFFFD
    → IsRange d
    → frees fap kernel_page q d ≡ leaves fap kernel_page q d
unfolding frees
leaves_lem fap kernel_page q d low h =
    let (ordered, word) = page_bounds d h in
    rw (usable_lem d h, marked_lem d)
      (leaves_core fap kernel_page q (first_page d) (last_page d) (base_of d) (top_of d)
        (is_memory d) (is_marked d) (base_lem d h) (top_lem d h) ordered word low)

slots_lem : (fap : ℕ) (ds : List Range) → All IsRange ds → slots fap ds ≤ slots_for fap ds
slots_lem fap [] h = omega arith
slots_lem fap (d ∷ ds) (h, hs) =
    let one : (if spans fap d then 2 else 1)
        ≤ (if ltb (first_page d) fap && ltb fap (last_page d) then 2 else 1) =
      ground (arith, base_lem d h, top_lem d h) in
    omega (arith, one, slots_lem fap ds hs)

reserved_lem : (ds : List Range) → reserved ds ≡ marked ds
reserved_lem [] = refl
reserved_lem (d ∷ ds) = ap₂ (λ b n. (if b then 1 else 0) + n) (marked_lem d) (reserved_lem ds)

pieces_core :
    (fap p l b t : ℕ) (m : Bool)
    → b ≡ (if p == 0 then 1 else p)
    → t ≡ (if l == 0xFFFFFFFF then 0xFFFFFFFE else l)
    → p ≤ l
    → l < 0x100000000
    → 1 < fap
    → fap ≤ 0xFFFFFFFD
    → (not (ltb t b) && m && not (ltb t 3) ≡ m && leb 3 l && ltb p 0xFFFFFFFF)
      × (not (ltb t fap) && ltb b fap && ltb fap t ≡ ltb p fap && ltb fap l)
pieces_core fap p l b t m base top ordered word above low = (ground arith, ground arith)

pieces_lem :
    (fap a : ℕ) (ds : List Range)
    → 1 < fap
    → fap ≤ 0xFFFFFFFD
    → All IsRange ds
    → all_regions_of fap a ds ≡ pieces fap a ds
pieces_lem fap a [] above low h = refl
pieces_lem fap a (d ∷ ds) above low (h, hs) =
    let (ordered, word) = page_bounds d h in
    let (kept, crosses) =
      pieces_core fap (first_page d) (last_page d) (base_of d) (top_of d) (is_memory d)
        (base_lem d h) (top_lem d h) ordered word above low in
    let rest = pieces_lem fap a ds above low hs in
    λ i.
      (if (usable_lem d h ∙ kept) i && d.attribute == a then (if crosses i then 2 else 1) else 0)
      + rest i

plus_zero : (n : ℕ) → n + 0 ≡ n
plus_zero n = omega arith

mark_lem : (a : ℕ) → is_kern_reserved (with_mark a) ≡ true
mark_lem a = ground arith

given_lem :
    (fap a q : ℕ) (ds : List Range)
    → fap ≤ 0xFFFFFFFD
    → All IsRange ds
    → offered fap a q ds ≡ given fap a q ds
given_lem fap a q [] low h = refl
given_lem fap a q (d ∷ ds) low (h, hs) =
    ap₂ (λ x y. (d.attribute == a) && x || y) (gives_lem fap q d low h)
      (given_lem fap a q ds low hs)

left_free_lem :
    (fap kernel_page q : ℕ) (ds : List Range)
    → fap ≤ 0xFFFFFFFD
    → All IsRange ds
    → freed fap kernel_page q ds ≡ left_free fap kernel_page q ds
left_free_lem fap kernel_page q [] low h = refl
left_free_lem fap kernel_page q (d ∷ ds) low (h, hs) =
    ap₂ (λ x y. x || y) (leaves_lem fap kernel_page q d low h)
      (left_free_lem fap kernel_page q ds low hs)

-- The loop over the ranges, each with a page and with page numbers of 32 bits, from an empty table,
-- with the first free page above 1 and below the two greatest page numbers. If the slots that the ranges take are 128 at most, and at most 32 are marked, it ends
-- with a table whose regions with an attribute have exactly the pages that the ranges of memory
-- with this attribute give; one that has the mark has a region for each piece, since none of these
-- are merged. Of the pages that are given, those are free that lie from the first free page on, or
-- in a marked range that ends below it and below the kernel, or, although they are in use, below it
-- in a range that ends with it.
pub scan-pages :
    (fap kernel_page : ℕ) (ds : List Range) (s : State)
    → 1 < fap
    → fap ≤ 0xFFFFFFFD
    → All IsRange ds
    → s.regions ≡ []
    → s.reserved_ranges ≡ 0
    → slots_for fap ds ≤ 128
    → marked ds ≤ 32
    → (s' : State) × (scan fap kernel_page ds s ≡ done s')
      × ((a q : ℕ) → covered a q (s'.regions) ≡ given fap a q ds)
      × ((q : ℕ) → free q (s'.regions) ≡ left_free fap kernel_page q ds)
      × ((a : ℕ) → count_as (with_mark a) (s'.regions) ≡ pieces fap (with_mark a) ds)
scan-pages fap kernel_page ds s above low ranges none_yet unmarked room few =
    let (s', e, pages, free_pages, own) =
      scan-offered fap kernel_page ds s (subst (λ rs. All IsRegion rs) (sym none_yet) tt)
        (omega (arith, ap length none_yet, slots_lem fap ds ranges))
        (omega (arith, unmarked, reserved_lem ds)) in
    (
      s',
      e,
      λ a q.
          pages a q
          ∙ (ap₂ (λ b rs. b || covered a q rs) (given_lem fap a q ds low ranges) none_yet
              ∙ or_false (given fap a q ds)),
      λ q.
          free_pages q
          ∙ (ap₂ (λ b rs. b || free q rs) (left_free_lem fap kernel_page q ds low ranges) none_yet
              ∙ or_false (left_free fap kernel_page q ds)),
      λ a.
          own (with_mark a) (mark_lem a)
          ∙ (ap₂ (λ n rs. n + count_as (with_mark a) rs)
                (pieces_lem fap (with_mark a) ds above low ranges) none_yet
              ∙ plus_zero (pieces fap (with_mark a) ds)),
    )
