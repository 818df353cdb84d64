-- ===== src/Libc/Printf/Numeral.antt =====
-- What the digits of Libc/Libc/stdio/printf.c are worth, and that there is room for them.
use beta_os.Prelude.{
  ℕ, zero, suc, ◌+◌, ◌*◌, ◌/◌, ◌%◌, ◌^◌, ◌≤◌, ◌<◌, ◌≡◌, refl, ap, sym, ◌∙◌, Option, some, List, [],
  ◌∷◌, ◌++◌, map, ◌==◌, arith, All, if_case, subst, ◌⊎◌, inl, inr, append-nil,
}
use native.Mathlib.Nat.{pow-succ'}
use beta_os.BootArgs.Digits.{value, IsRadix}
use beta_os.Libc.Printf.Digits.{Bytes, char_of, digit_char-char_of, fill_digits, number_chars}

-- A numeral of `u` behind which `buf` stands: digits of the base that are worth `u`, the first of
-- them 0 only for 0 itself.
abbrev pub Numeral : ℕ → ℕ → ℕ → Option Bytes → Bytes → Type 0
Numeral base capitals u result buf =
    (d : ℕ) × (ds : List ℕ) × (result ≡ some (map (char_of capitals) (d ∷ ds) ++ buf))
    × All (λ x. x < base) (d ∷ ds)
    × (value base 0 (d ∷ ds) ≡ u)
    × (0 < u → 0 < d)

value-append :
    (base v x : ℕ) (ds : List ℕ) → value base v (ds ++ (x ∷ [])) ≡ value base v ds * base + x
value-append base v x [] = refl
value-append base v x (d ∷ ds) = value-append base (v * base + d) x ds

map-append :
    (f : ℕ → ℕ) (xs : List ℕ) (y : ℕ) (buf : Bytes)
    → map f (xs ++ (y ∷ [])) ++ buf ≡ map f xs ++ (f y ∷ buf)
map-append f [] y buf = refl
map-append f (x ∷ xs) y buf = ap (λ t. f x ∷ t) (map-append f xs y buf)

All-append : (P : ℕ → Type 0) (xs : List ℕ) (y : ℕ) → All P xs → P y → All P (xs ++ (y ∷ []))
All-append P [] y h p = (p, tt)
All-append P (x ∷ xs) y (q, h) p = (q, All-append P xs y h p)

-- The last digit and what is before it.
split_lem : (base u : ℕ) → IsRadix base → u / base * base + u % base ≡ u
split_lem base u (inl e) = rw e (omega arith)
split_lem base u (inr (inl e)) = rw e (omega arith)
split_lem base u (inr (inr (inl e))) = rw e (omega arith)
split_lem base u (inr (inr (inr e))) = rw e (omega arith)

below_lem : (base u : ℕ) → IsRadix base → u % base < base
below_lem base u (inl e) = rw e (omega arith)
below_lem base u (inr (inl e)) = rw e (omega arith)
below_lem base u (inr (inr (inl e))) = rw e (omega arith)
below_lem base u (inr (inr (inr e))) = rw e (omega arith)

half_lem : (base u bound : ℕ) → IsRadix base → u < 2 * bound → u / base < bound
half_lem base u bound (inl e) h = rw e (omega arith)
half_lem base u bound (inr (inl e)) h = rw e (omega arith)
half_lem base u bound (inr (inr (inl e))) h = rw e (omega arith)
half_lem base u bound (inr (inr (inr e))) h = rw e (omega arith)

radix_le : (base : ℕ) → IsRadix base → base ≤ 16
radix_le base r = ground arith

digit_lt : (base u : ℕ) → IsRadix base → u % base < 16
digit_lt base u r = let h1 = below_lem base u r in let h2 = radix_le base r in omega arith

last_digit :
    (base capitals u : ℕ) (buf : Bytes)
    → IsRadix base
    → u / base ≡ 0
    → Numeral base capitals u (some (char_of capitals (u % base) ∷ buf)) buf
last_digit base capitals u buf r e =
    let eq : 0 * base + u % base ≡ u =
      subst (λ q. q * base + u % base ≡ u) e (split_lem base u r) in
    (u % base, [], refl, (below_lem base u r, tt), eq, λ p. omega arith)

more_digits :
    (base capitals u : ℕ) (buf : Bytes) (result : Option Bytes)
    → IsRadix base
    → 0 < u / base
    → Numeral base capitals (u / base) result (char_of capitals (u % base) ∷ buf)
    → Numeral base capitals u result buf
more_digits base capitals u buf result r pos (d, ds, e, below, worth, lead) =
    let x = u % base in
    (
      d,
      ds ++ (x ∷ []),
      e ∙ ap some (sym (map-append (char_of capitals) (d ∷ ds) x buf)),
      All-append (λ y. y < base) (d ∷ ds) x below (below_lem base u r),
      value-append base 0 x (d ∷ ds) ∙ ap (λ v. v * base + x) worth ∙ split_lem base u r,
      λ _. lead pos,
    )

fill_digits-Numeral :
    (room base capitals u : ℕ) (buf : Bytes)
    → IsRadix base
    → (capitals ≡ 0) ⊎ (capitals ≡ 16)
    → u < 2 ^ suc room
    → Numeral base capitals u (fill_digits (suc room) base capitals u buf) buf
unfolding fill_digits
fill_digits-Numeral zero base capitals u buf r cap h =
    let single : u / base < 1 = half_lem base u 1 r (omega arith) in
    rw (digit_char-char_of (u % base) capitals (digit_lt base u r) cap) (
      if_case (λ o. Numeral base capitals u o buf) (u / base == 0)
        (λ e. last_digit base capitals u buf r (omega arith))
        (λ e. absurd (ground (arith, e, single))))
fill_digits-Numeral (suc room) base capitals u buf r cap h =
    let shorter : u / base < 2 ^ suc room =
      half_lem base u (2 ^ suc room) r (subst (λ x. u < x) (pow-succ' 2 (suc room)) h) in
    let x = char_of capitals (u % base) in
    rw (digit_char-char_of (u % base) capitals (digit_lt base u r) cap) (
      if_case (λ o. Numeral base capitals u o buf) (u / base == 0)
        (λ e. last_digit base capitals u buf r (ground (arith, e)))
        (λ e.
          more_digits base capitals u buf
            (fill_digits (suc room) base capitals (u / base) (x ∷ buf)) r (ground (arith, e))
            (fill_digits-Numeral room base capitals (u / base) (x ∷ buf) r cap shorter)))

-- In the radixes 2, 8, 10 and 16 every 64-bit number has its digits: they fit the buffer, they are
-- worth the number, and the first of them is 0 only for 0.
pub number_chars-digits :
    (base capitals u : ℕ)
    → IsRadix base
    → (capitals ≡ 0) ⊎ (capitals ≡ 16)
    → u < 2 ^ 64
    → (d : ℕ) × (ds : List ℕ) × (number_chars base capitals u
        ≡ some (map (char_of capitals) (d ∷ ds)))
      × All (λ x. x < base) (d ∷ ds)
      × (value base 0 (d ∷ ds) ≡ u)
      × (0 < u → 0 < d)
unfolding number_chars
number_chars-digits base capitals u r cap h =
    let (d, ds, e, below, worth, lead) = fill_digits-Numeral 63 base capitals u [] r cap h in
    (d, ds, e ∙ ap some (append-nil (map (char_of capitals) (d ∷ ds))), below, worth, lead)
