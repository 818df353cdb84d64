-- ===== src/BootArgs/Digits.antt =====
-- The digits that `getval` of Kernel/Platform/bootargs.c reads, against positional notation.
use beta_os.Prelude.{
  ℕ, ◌+◌, ◌-◌, ◌*◌, ◌%◌, ◌^◌, ◌≤◌, ◌<◌, ◌≡◌, refl, ap, sym, ◌∙◌, ◌⊎◌, inl, inr, Bool, true, false,
  some, List, [], ◌∷◌, ◌++◌, map, ltb, leb, ◌==◌, if◌then◌else◌, ◌>>=◌, arith, All,
}
use beta_os.Libc.Strncmp.{head}
use beta_os.BootArgs.Copy.{Bytes, isargsep}
use beta_os.BootArgs.Number.{
  finish, read_number, radix_of, scan_digits, digit_value, scale, char_value,
}

-- The digit of a value below 16.
abbrev pub digit : ℕ → ℕ
digit d = if ltb d 10 then d + b'0' else d + (b'a' - 10)

-- The value of digits, the first digit first, behind the value `v`.
abbrev pub value : ℕ → ℕ → List ℕ → ℕ
value radix v [] = v
value radix v (d ∷ ds) = value radix (v * radix + d) ds

-- The four radixes that the code knows.
abbrev pub IsRadix : ℕ → Type 0
IsRadix r = (r ≡ 2) ⊎ (r ≡ 8) ⊎ (r ≡ 10) ⊎ (r ≡ 16)

digit_value-digit : (radix d : ℕ) → IsRadix radix → d < radix → digit_value radix (digit d) ≡ some d
unfolding digit_value
digit_value-digit radix d r lt = ground arith

isargsep-digit : (d : ℕ) → isargsep (digit d) ≡ false
isargsep-digit d = ground arith

step_lem :
    (radix v d : ℕ)
    → IsRadix radix
    → (v % 2 ^ 64 * radix % 2 ^ 64 + d) % 2 ^ 64 ≡ (v * radix + d) % 2 ^ 64
step_lem radix v d (inl e) = rw e (omega arith)
step_lem radix v d (inr (inl e)) = rw e (omega arith)
step_lem radix v d (inr (inr (inl e))) = rw e (omega arith)
step_lem radix v d (inr (inr (inr e))) = rw e (omega arith)

scan_digits-digits :
    (radix v : ℕ) (ds : List ℕ) (s : Bytes)
    → IsRadix radix
    → All (λ d. d < radix) ds
    → scan_digits radix (v % 2 ^ 64) (map digit ds ++ s)
      ≡ scan_digits radix (value radix v ds % 2 ^ 64) s
unfolding scan_digits
scan_digits-digits radix v [] s r h = refl
scan_digits-digits radix v (d ∷ ds) s r (lt, h) =
    let e = scan_digits-digits radix (v * radix + d) ds s r h in
    let e' : leb radix d ≡ false = ground arith in
    rw (isargsep-digit d, digit_value-digit radix d r lt, e', step_lem radix v d r) e

-- What may stand behind the digits.
pub data Magnitude : Type 0 where
  ones : Magnitude
  kilo : Magnitude
  mega : Magnitude
  giga : Magnitude

abbrev pub letter : Magnitude → Bytes
letter ones = []
letter kilo = b'k' ∷ []
letter mega = b'M' ∷ []
letter giga = b'g' ∷ []

abbrev pub times : Magnitude → ℕ
times ones = 1
times kilo = 2 ^ 10
times mega = 2 ^ 20
times giga = 2 ^ 30

-- How the radix is written.
abbrev pub prefix : ℕ → Bytes
prefix radix =
    if radix == 16
    then b'0' ∷ b'x' ∷ []
    else if radix == 8
    then b'0' ∷ []
    else if radix == 2
    then b'0' ∷ b'b' ∷ []
    else []

-- A number as it is written on the command line, before `rest`.
abbrev pub written : Bool → ℕ → List ℕ → Magnitude → Bytes → Bytes
written negative radix ds magnitude rest =
    (if negative then b'-' ∷ [] else [])
    ++ (prefix radix ++ (map digit ds ++ (letter magnitude ++ rest)))

end_lem :
    (negative : Bool) (radix v : ℕ) (m : Magnitude) (rest : Bytes)
    → IsRadix radix
    → isargsep (head rest) ≡ true
    → scan_digits radix v (letter m ++ rest) >>= finish negative
      ≡ some (v * (if negative then 2 ^ 64 - times m else times m) % 2 ^ 64)
unfolding scan_digits digit_value scale finish
end_lem negative radix v ones [] r h = ground arith
end_lem negative radix v ones (c ∷ rest) r h = ground arith
end_lem negative radix v kilo rest r h = ground arith
end_lem negative radix v mega rest r h = ground arith
end_lem negative radix v giga rest r h = ground arith

-- The result of reading: what the digits stand for, times the magnitude, with the sign.
abbrev pub meaning : Bool → ℕ → List ℕ → Magnitude → ℕ
meaning negative radix ds m =
    value radix 0 ds % 2 ^ 64 * (if negative then 2 ^ 64 - times m else times m) % 2 ^ 64

small_lem : (d : ℕ) → d < 16 → d % 2 ^ 64 ≡ d
small_lem d h = omega arith

char_value-digit : (d : ℕ) → d < 10 → char_value (digit d) ≡ d
char_value-digit d h = ground arith

radix_of-decimal : (d : ℕ) (s : Bytes) → 1 ≤ d → d < 10 → radix_of d s ≡ some (10, d, s)
unfolding radix_of
radix_of-decimal d s lo hi = ground arith

radix_of-octal :
    (d : ℕ) (s : Bytes) → d < 8 → radix_of 0 (digit d ∷ s) ≡ some (8, char_value (digit d), s)
unfolding radix_of
radix_of-octal d s hi = ground arith

radix_of-binary : (s : Bytes) → radix_of 0 (b'b' ∷ s) ≡ some (2, 0, s)
unfolding radix_of
radix_of-binary s = refl

radix_of-hex : (s : Bytes) → radix_of 0 (b'x' ∷ s) ≡ some (16, 0, s)
unfolding radix_of
radix_of-hex s = refl

module _ (negative : Bool) (m : Magnitude) (rest : Bytes) (stop : isargsep (head rest) ≡ true) where
  -- From the radix and the first value on.
  from_lem :
      (radix v : ℕ) (ds : List ℕ)
      → IsRadix radix
      → v < 16
      → All (λ d. d < radix) ds
      → scan_digits radix v (map digit ds ++ (letter m ++ rest)) >>= finish negative
        ≡ some
            (value radix v ds % 2 ^ 64 * (if negative then 2 ^ 64 - times m else times m) % 2 ^ 64)
  from_lem radix v ds r small h =
      let s = map digit ds ++ (letter m ++ rest) in
      ap (λ x. scan_digits radix x s >>= finish negative) (sym (small_lem v small))
      ∙ rw (scan_digits-digits radix v ds (letter m ++ rest) r h)
          (end_lem negative radix (value radix v ds % 2 ^ 64) m rest r stop)

  -- The digits are read after the prefix of their radix.
  abbrev Reads : ℕ → ℕ → List ℕ → Type 0
  Reads radix d ds =
      read_number negative (prefix radix ++ (map digit (d ∷ ds) ++ (letter m ++ rest)))
      ≡ some (meaning negative radix (d ∷ ds) m)

  pub read_number-binary : (d : ℕ) (ds : List ℕ) → All (λ d. d < 2) (d ∷ ds) → Reads 2 d ds
  unfolding read_number
  read_number-binary d ds h =
      rw (radix_of-binary (map digit (d ∷ ds) ++ (letter m ++ rest)))
        (from_lem 2 0 (d ∷ ds) (inl refl) (omega arith) h)

  pub read_number-hex : (d : ℕ) (ds : List ℕ) → All (λ d. d < 16) (d ∷ ds) → Reads 16 d ds
  unfolding read_number
  read_number-hex d ds h =
      rw (radix_of-hex (map digit (d ∷ ds) ++ (letter m ++ rest)))
        (from_lem 16 0 (d ∷ ds) (inr (inr (inr refl))) (omega arith) h)

  pub read_number-octal : (d : ℕ) (ds : List ℕ) → All (λ d. d < 8) (d ∷ ds) → Reads 8 d ds
  unfolding read_number
  read_number-octal d ds (lt, h) =
      let e : 0 * 8 + d ≡ d = omega arith in
      rw
        (
          radix_of-octal d (map digit ds ++ (letter m ++ rest)) lt,
          char_value-digit d (omega arith),
          e,
        )
        (from_lem 8 d ds (inr (inl refl)) (omega arith) h)

  pub read_number-decimal :
      (d : ℕ) (ds : List ℕ) → 1 ≤ d → All (λ d. d < 10) (d ∷ ds) → Reads 10 d ds
  unfolding read_number
  read_number-decimal d ds lead (lt, h) =
      let e : 0 * 10 + d ≡ d = omega arith in
      rw (char_value-digit d lt, radix_of-decimal d (map digit ds ++ (letter m ++ rest)) lead lt, e)
        (from_lem 10 d ds (inr (inr (inl refl))) (omega arith) h)
