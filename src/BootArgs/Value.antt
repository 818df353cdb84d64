-- ===== src/BootArgs/Value.antt =====
-- `getval` of Kernel/Platform/bootargs.c on the numbers of a command line.
use beta_os.Prelude.{
  ℕ, ◌≤◌, ◌<◌, ◌≡◌, sym, subst, inl, inr, Bool, true, false, some, List, ◌∷◌, ◌++◌, map, ◌==◌,
  arith, All,
}
use beta_os.Libc.Strncmp.{head}
use beta_os.BootArgs.Copy.{Bytes, isargsep}
use beta_os.BootArgs.Number.{getval, read_number}
use beta_os.BootArgs.Digits.{
  IsRadix, Magnitude, digit, prefix, letter, written, meaning, read_number-binary,
  read_number-octal, read_number-decimal, read_number-hex,
}

module _ (negative : Bool) (m : Magnitude) (rest : Bytes) (stop : isargsep (head rest) ≡ true)
    (d : ℕ) (ds : List ℕ) where
  abbrev Reads : ℕ → Type 0
  Reads radix =
      read_number negative (prefix radix ++ (map digit (d ∷ ds) ++ (letter m ++ rest)))
      ≡ some (meaning negative radix (d ∷ ds) m)

  abbrev Below : ℕ → Type 0
  Below radix = All (λ x. x < radix) (d ∷ ds)

  read_number-written :
      (radix : ℕ) → IsRadix radix → Below radix → (radix ≡ 10 → 1 ≤ d) → Reads radix
  read_number-written radix (inl e) h lead =
      subst Reads (sym e) (read_number-binary negative m rest stop d ds (subst Below e h))
  read_number-written radix (inr (inl e)) h lead =
      subst Reads (sym e) (read_number-octal negative m rest stop d ds (subst Below e h))
  read_number-written radix (inr (inr (inl e))) h lead =
      subst Reads (sym e) (read_number-decimal negative m rest stop d ds (lead e) (subst Below e h))
  read_number-written radix (inr (inr (inr e))) h lead =
      subst Reads (sym e) (read_number-hex negative m rest stop d ds (subst Below e h))

no_sign_lem :
    (radix d : ℕ) (s : Bytes) → d < 16 → (head (prefix radix ++ (digit d ∷ s)) == b'-') ≡ false
no_sign_lem radix d s h = ground arith

below_16 : (radix d : ℕ) → IsRadix radix → d < radix → d < 16
below_16 radix d r h = ground arith

-- A numeral in any of the four radixes, with a sign and a magnitude or without, that a separator
-- ends is read as its value, in 64 bits of two's complement; in base ten it does not start with 0.
pub getval-written :
    (negative : Bool) (radix d : ℕ) (ds : List ℕ) (m : Magnitude) (rest : Bytes)
    → IsRadix radix
    → All (λ x. x < radix) (d ∷ ds)
    → (radix ≡ 10 → 1 ≤ d)
    → isargsep (head rest) ≡ true
    → getval (b'=' ∷ written negative radix (d ∷ ds) m rest) false
      ≡ some (meaning negative radix (d ∷ ds) m)
unfolding getval
getval-written true radix d ds m rest r h lead stop =
    read_number-written true m rest stop d ds radix r h lead
getval-written false radix d ds m rest r h lead stop =
    rw (no_sign_lem radix d (map digit ds ++ (letter m ++ rest)) (below_16 radix d r (h.0)))
      (read_number-written false m rest stop d ds radix r h lead)
