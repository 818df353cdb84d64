-- ===== src/MemoryMap/Coverage.antt =====
-- Which pages the regions of Kernel/Kernel/i386/i386_vm_init.c stand for: between the bounds `lo`
-- and `hi` of a region, which are either its first and last page, or those of its free part.
use beta_os.Prelude.{
  ℕ, zero, suc, ◌+◌, ◌≤◌, ◌≡◌, refl, ap, sym, ◌∙◌, Bool, true, false, ◌&&◌, ◌||◌, inl, inr, Option,
  none, some, List, [], ◌∷◌, ◌++◌, leb, ◌==◌, if◌then◌else◌, Bool-cases, if_case, arith, All,
}
use beta_os.MemoryMap.Range.{Region}
use beta_os.MemoryMap.Scan.{nth, extend_at, continues, store_after, store_region}

abbrev pub within : (Region → ℕ) → (Region → ℕ) → ℕ → Region → Bool
within lo hi q r = leb (lo r) q && leb q (hi r)

abbrev pub any_within : (Region → ℕ) → (Region → ℕ) → ℕ → List Region → Bool
any_within lo hi q [] = false
any_within lo hi q (r ∷ rs) = within lo hi q r || any_within lo hi q rs

-- A region is not empty, and its free part is at worst empty.
pub record IsRegion (r : Region) : Type 0 where
  pub not_empty : r.base ≤ r.end
  pub free_part : r.alloc_up ≤ r.alloc_down + 1

abbrev joined : Region → Region → Region
joined p n = record p { end = n.end; alloc_down = n.alloc_down }

or_assoc : (a b c : Bool) → (a || b) || c ≡ a || (b || c)
or_assoc a b c = ground arith

or_comm : (a b : Bool) → a || b ≡ b || a
or_comm a b = ground arith

pub any_within-append :
    (lo hi : Region → ℕ) (q : ℕ) (rs ss : List Region)
    → any_within lo hi q (rs ++ ss) ≡ any_within lo hi q rs || any_within lo hi q ss
any_within-append lo hi q [] ss = refl
any_within-append lo hi q (r ∷ rs) ss =
    rw (any_within-append lo hi q rs ss) (sym (or_assoc (within lo hi q r) _ _))

joined-IsRegion :
    (n p : Region) → IsRegion n → IsRegion p → continues n p ≡ true → IsRegion (joined p n)
unfolding continues
joined-IsRegion n p hn hp c = record {
  not_empty = ground (arith, hn.not_empty, hp.not_empty);
  free_part = ground (arith, hn.free_part, hp.free_part);
}

-- The bounds are such that a region that continues another one joins on to it.
pub record Joins (lo hi : Region → ℕ) : Type 0 where
  pub starts : (p n : Region) → lo (joined p n) ≡ lo p
  pub ends : (p n : Region) → continues n p ≡ true → hi (joined p n) ≡ hi n
  pub meets : (p n : Region) → continues n p ≡ true → lo n ≡ hi p + 1
  pub ordered : (r : Region) → IsRegion r → lo r ≤ hi r + 1

-- The first and the last page of a region with the attribute `a`; no page for another one.
abbrev pub first_as : ℕ → Region → ℕ
first_as a r = if r.attribute == a then r.base else 1

abbrev pub last_as : ℕ → Region → ℕ
last_as a r = if r.attribute == a then r.end else 0

pub pages-Joins : (a : ℕ) → Joins (first_as a) (last_as a)
unfolding continues
pages-Joins a = record {
  starts = λ p n. refl;
  ends = λ p n h. ground arith;
  meets = λ p n h. ground arith;
  ordered = λ r h. ground (arith, h.not_empty);
}

pub free-Joins : Joins (λ r. r.alloc_up) (λ r. r.alloc_down)
unfolding continues
free-Joins = record {
  starts = λ p n. refl;
  ends = λ p n h. refl;
  meets = λ p n h. ground arith;
  ordered = λ r h. h.free_part;
}

module _ (lo hi : Region → ℕ) (joins : Joins lo hi) (q : ℕ) where
  joined-within :
      (n p : Region)
      → IsRegion n
      → IsRegion p
      → continues n p ≡ true
      → within lo hi q (joined p n) ≡ within lo hi q n || within lo hi q p
  joined-within n p hn hp c = ground (
    arith,
    joins.starts p n,
    joins.ends p n c,
    joins.meets p n c,
    joins.ordered n hn,
    joins.ordered p hp,
  )

  within-extend_at :
      (k : ℕ) (n p : Region) (rs : List Region)
      → IsRegion n
      → All IsRegion rs
      → nth k rs ≡ some p
      → continues n p ≡ true
      → any_within lo hi q (extend_at k n rs) ≡ any_within lo hi q (n ∷ rs)
  unfolding nth extend_at
  within-extend_at k n p [] hn hs e c = absurd (ground arith)
  within-extend_at zero n p (r ∷ rs) hn (hr, hs) e c =
      let same : r ≡ p = ground arith in
      rw (joined-within n r hn hr (rw same c)) (or_assoc (within lo hi q n) _ _)
  within-extend_at (suc k) n p (r ∷ rs) hn (hr, hs) e c = rw (within-extend_at k n p rs hn hs e c) (
      sym (or_assoc (within lo hi q r) _ _)
      ∙ (ap (λ b. b || any_within lo hi q rs) (or_comm (within lo hi q r) (within lo hi q n))
          ∙ or_assoc (within lo hi q n) _ _))

  within-store_after :
      (n : Region) (others : List Region) (k : ℕ) (found : Option Region)
      → IsRegion n
      → All IsRegion others
      → nth k others ≡ found
      → any_within lo hi q ((store_after n others k found).0) ≡ any_within lo hi q (n ∷ others)
  unfolding store_after
  within-store_after n others k none hn hs e = refl
  within-store_after n others k (some p) hn hs e = elim (Bool-cases (continues n p)) [
    | inl c ↦ rw c (within-extend_at k n p others hn hs e c)
    | inr c ↦ rw c refl
  ]

  -- Storing a region adds its pages.
  pub within-store_region :
      (n : Region) (others : List Region) (prev : Option ℕ)
      → IsRegion n
      → All IsRegion others
      → any_within lo hi q ((store_region n others prev).0) ≡ any_within lo hi q (n ∷ others)
  unfolding store_region
  within-store_region n others none hn hs = refl
  within-store_region n others (some k) hn hs =
      within-store_after n others k (nth k others) hn hs refl

extend_at-IsRegion :
    (k : ℕ) (n p : Region) (rs : List Region)
    → IsRegion n
    → All IsRegion rs
    → nth k rs ≡ some p
    → continues n p ≡ true
    → All IsRegion (extend_at k n rs)
unfolding nth extend_at
extend_at-IsRegion k n p [] hn hs e c = tt
extend_at-IsRegion zero n p (r ∷ rs) hn (hr, hs) e c =
    let same : r ≡ p = ground arith in (joined-IsRegion n r hn hr (rw same c), hs)
extend_at-IsRegion (suc k) n p (r ∷ rs) hn (hr, hs) e c =
    (hr, extend_at-IsRegion k n p rs hn hs e c)

store_after-IsRegion :
    (n : Region) (others : List Region) (k : ℕ) (found : Option Region)
    → IsRegion n
    → All IsRegion others
    → nth k others ≡ found
    → All IsRegion ((store_after n others k found).0)
unfolding store_after
store_after-IsRegion n others k none hn hs e = (hn, hs)
store_after-IsRegion n others k (some p) hn hs e =
    if_case {A = List Region × Option ℕ} (λ r. All IsRegion (r.0)) (continues n p)
      (λ c. extend_at-IsRegion k n p others hn hs e c) (λ c. (hn, hs))

pub store_region-IsRegion :
    (n : Region) (others : List Region) (prev : Option ℕ)
    → IsRegion n
    → All IsRegion others
    → All IsRegion ((store_region n others prev).0)
unfolding store_region
store_region-IsRegion n others none hn hs = (hn, hs)
store_region-IsRegion n others (some k) hn hs =
    store_after-IsRegion n others k (nth k others) hn hs refl
