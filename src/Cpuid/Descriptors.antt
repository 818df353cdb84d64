-- ===== src/Cpuid/Descriptors.antt =====
-- The array of 64 descriptor bytes in Kernel/Kernel/i386/cpuid.c, and the writes to it.
use beta_os.Prelude.{
  ℕ, zero, suc, ◌+◌, ◌*◌, ◌/◌, ◌%◌, ◌^◌, ◌≤◌, ◌<◌, ◌≡◌, ◌⊎◌, refl, ◌∙◌, true, false, inl, inr, List,
  [], ◌∷◌, ◌++◌, length, ltb, ◌==◌, if◌then◌else◌, Bool-cases, arith,
}
use native.Mathlib.Decide.{dec_lt}
use beta_os.Libc.Strncmp.{head}
use beta_os.Cpuid.Regs.{Regs, bytes_of, done, overrun}
use beta_os.Cpuid.Cache.{put32, store_words, words_of, load_more, load_descriptors}

-- A write inside the array leaves its length, and its first byte if it is not to the first word.
put32-inside :
    (s : List ℕ) (j w : ℕ)
    → 4 * j + 4 ≤ length s
    → (s' : List ℕ) × (put32 s j w ≡ done s') × (length s' ≡ length s) × (0 < j → head s' ≡ head s)
unfolding put32
put32-inside (a ∷ b ∷ c ∷ d ∷ s) zero w h = (bytes_of w ++ s, refl, refl, λ k. absurd (omega arith))
put32-inside (a ∷ b ∷ c ∷ d ∷ s) (suc j) w h =
    let (s', e, l, k) = put32-inside s j w (omega arith) in
    (a ∷ b ∷ c ∷ d ∷ s', rw e refl, omega arith, λ k. refl)
put32-inside [] j w h = absurd (omega arith)
put32-inside (a ∷ []) j w h = absurd (omega arith)
put32-inside (a ∷ b ∷ []) j w h = absurd (omega arith)
put32-inside (a ∷ b ∷ c ∷ []) j w h = absurd (omega arith)

store_words-inside :
    (ws : List ℕ) (j : ℕ) (s : List ℕ)
    → 4 * (j + length ws) ≤ length s
    → (s' : List ℕ) × (store_words ws j s ≡ done s')
      × (length s' ≡ length s)
      × (0 < j → head s' ≡ head s)
unfolding store_words
store_words-inside [] j s h = (s, refl, refl, λ k. refl)
store_words-inside (w ∷ ws) j s h = elim (Bool-cases (w / 2 ^ 31 == 1)) [
  | inl skipped ↦
      let (s', e, l, k) = store_words-inside ws (suc j) s (omega arith) in
      (s', rw skipped e, l, λ q. k (omega arith))
  | inr valid ↦
      let (t, e, l, k) = put32-inside s j w (omega arith) in
      let (s', e', l', k') = store_words-inside ws (suc j) t (omega arith) in
      (s', rw (valid, e) e', omega arith, λ q. k' (omega arith) ∙ k q)
]

put32-outside : (s : List ℕ) (j w : ℕ) → length s < 4 * j + 4 → put32 s j w ≡ overrun
unfolding put32
put32-outside (a ∷ b ∷ c ∷ d ∷ s) zero w h = absurd (omega arith)
put32-outside (a ∷ b ∷ c ∷ d ∷ s) (suc j) w h = rw (put32-outside s j w (omega arith)) refl
put32-outside [] j w h = refl
put32-outside (a ∷ []) j w h = refl
put32-outside (a ∷ b ∷ []) j w h = refl
put32-outside (a ∷ b ∷ c ∷ []) j w h = refl

-- The registers, and that the first of them is stored or left out.
module _ (r : Regs) where
  load_more-inside :
      (rounds i : ℕ) (s : List ℕ)
      → length s ≡ 64
      → head s ≤ 4
      → 0 < i
      → i ≤ 4
      → 4 < i + rounds
      → (s' : List ℕ) × (load_more rounds i r s ≡ done s') × (length s' ≡ 64)
  unfolding load_more
  load_more-inside zero i s l few pos inside enough = absurd (omega arith)
  load_more-inside (suc rounds) i s l few pos inside enough = elim (Bool-cases (ltb i (head s))) [
    | inr over ↦ (s, rw over refl, l)
    | inl more ↦
        let below : i < head s = ground arith in
        let small : ltb 64 (i * 16) ≡ false = ground arith in
        let (t, e, l', k) = store_words-inside (words_of r) (4 * i) s (omega arith) in
        let kept : head t ≡ head s = k (omega arith) in
        let (s', e', l'') =
          load_more-inside rounds (i + 1) t (omega arith) (omega arith) (omega arith) (omega arith)
            (omega arith) in
        (s', rw (more, small, e) e', l'')
  ]

  store_words-outside :
      (s : List ℕ) (j : ℕ)
      → (r.eax / 2 ^ 31 == 1) ≡ false
      → length s < 4 * j + 4
      → store_words (words_of r) j s ≡ overrun
  unfolding store_words
  store_words-outside s j valid h = rw (valid, put32-outside s j (r.eax) h) refl

  load_more-outside :
      (rounds i : ℕ) (s : List ℕ)
      → (r.eax / 2 ^ 31 == 1) ≡ false
      → length s ≡ 64
      → 4 < head s
      → 0 < i
      → i ≤ 4
      → 4 < i + rounds
      → load_more rounds i r s ≡ overrun
  unfolding load_more
  load_more-outside zero i s valid l many pos inside enough = absurd (omega arith)
  load_more-outside (suc rounds) i s valid l many pos inside enough =
      let more : ltb i (head s) ≡ true = ground arith in
      let small : ltb 64 (i * 16) ≡ false = ground arith in
      elim (dec_lt i 4) [
        | yes before ↦
            let (t, e, l', k) = store_words-inside (words_of r) (4 * i) s (omega arith) in
            let kept : head t ≡ head s = k (omega arith) in
            rw (more, small, e)
              (load_more-outside rounds (i + 1) t valid (omega arith) (omega arith) (omega arith)
                (omega arith) (omega arith))
        | no last ↦
            let e : store_words (words_of r) (4 * i) s ≡ overrun =
              store_words-outside s (4 * i) valid (omega arith) in
            rw (more, small, e) refl
      ]

  -- The first word goes to the front, or is left out.
  first_word :
      (s : List ℕ)
      → length s ≡ 64
      → head s ≡ 0
      → (t : List ℕ) × (store_words (words_of r) 0 s ≡ done t)
        × (length t ≡ 64)
        × (head t ≡ (if r.eax / 2 ^ 31 == 1 then 0 else r.eax % 2 ^ 8))
  unfolding store_words put32
  first_word (a ∷ b ∷ c ∷ d ∷ s) l z = elim (Bool-cases (r.eax / 2 ^ 31 == 1)) [
    | inl skipped ↦
        let (t, e, l', k) =
          store_words-inside (r.ebx ∷ r.ecx ∷ r.edx ∷ []) 1 (a ∷ b ∷ c ∷ d ∷ s) (omega arith) in
        (t, rw skipped e, omega arith, rw skipped (k (omega arith) ∙ z))
    | inr valid ↦
        let (t, e, l', k) =
          store_words-inside (r.ebx ∷ r.ecx ∷ r.edx ∷ []) 1 (bytes_of (r.eax) ++ s) (omega arith) in
        (t, rw valid e, omega arith, rw valid (k (omega arith)))
  ]
  first_word [] l z = absurd (omega arith)
  first_word (a ∷ []) l z = absurd (omega arith)
  first_word (a ∷ b ∷ []) l z = absurd (omega arith)
  first_word (a ∷ b ∷ c ∷ []) l z = absurd (omega arith)

-- Leaf 2 writes outside the 64 bytes, which begin with 0, exactly if eax is valid and its first
-- byte, the number of calls that the processor asks for, is above 4. Else the loop ends and the
-- array keeps its length.
pub load_descriptors-bounds :
    (r : Regs) (s : List ℕ)
    → r.eax < 2 ^ 32
    → length s ≡ 64
    → head s ≡ 0
    → ((r.eax < 2 ^ 31) × (4 < r.eax % 2 ^ 8) × (load_descriptors r s ≡ overrun))
      ⊎ ((2 ^ 31 ≤ r.eax ⊎ r.eax % 2 ^ 8 ≤ 4)
          × (s' : List ℕ) × (load_descriptors r s ≡ done s')
          × (length s' ≡ 64))
unfolding load_descriptors
load_descriptors-bounds r s word l z =
    let (t, e, l', k) = first_word r s l z in
    let small : 4 < head t → (r.eax < 2 ^ 31) × (4 < r.eax % 2 ^ 8) = λ q. ground (arith, k) in
    elim (dec_lt 4 (head t)) [
      | yes many ↦
          let (valid, count) = small many in
          let bit : (r.eax / 2 ^ 31 == 1) ≡ false = ground arith in
          inl (
            valid,
            count,
            rw e (load_more-outside r 5 1 t bit l' many (omega arith) (omega arith) (omega arith)),
          )
      | no few ↦
          let (s', e', l'') =
            load_more-inside r 5 1 t l' (omega arith) (omega arith) (omega arith) (omega arith) in
          inr (
            elim (dec_lt (r.eax) (2 ^ 31)) [
              | yes valid ↦ inr (ground (arith, k))
              | no skipped ↦ inl (omega arith)
            ],
            s',
            rw e e',
            l'',
          )
    ]
