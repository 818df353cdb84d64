-- ===== src/Libc/Strcmp.antt =====
-- `strcmp` of Libc/Libc/string/strcmp.cpp, on the bytes of two C strings before their NULs.
use beta_os.Prelude.{
  ℕ, zero, suc, ◌+◌, ◌%◌, ◌^◌, ◌≤◌, ◌<◌, ◌≡◌, ◌≢◌, refl, Bool, true, false, Option, none, some,
  List, [], ◌∷◌, length, get_or, drop, leb, ◌==◌, if◌then◌else◌, arith,
}
use native.Mathlib.Decide.{dec_lt}
use native.Mathlib.Numerals.{add-one}
use beta_os.Prelude.Int.{ℤ, pos}

-- `string[i]` for an index up to the NUL.
abbrev pub char_at : List ℕ → ℕ → ℕ
char_at s i = get_or s i 0

-- The loop over `unsigned char i`, which wraps at 256; `none` when the rounds run out.
unfoldable pub compare_from : ℕ → List ℕ → List ℕ → ℕ → Option ℤ
compare_from zero str1 str2 i = none
compare_from (suc rounds) str1 str2 i =
    let rest = compare_from rounds str1 str2 ((i + 1) % 2 ^ 8) in
    if leb i (length str1)
    then (if char_at str1 i == char_at str2 i then rest else some (pos 0))
    else some (pos 1)

-- 257 rounds are all: the loop has the state `i` alone, so a run that goes on for more repeats.
unfoldable pub strcmp : List ℕ → List ℕ → Option ℤ
strcmp str1 str2 = if length str1 == length str2 then compare_from 257 str1 str2 0 else some (pos 0)

-- Whether two strings are the same.
unfoldable pub string_eq : List ℕ → List ℕ → Bool
string_eq [] [] = true
string_eq [] (_ ∷ _) = false
string_eq (_ ∷ _) [] = false
string_eq (x ∷ xs) (y ∷ ys) = if x == y then string_eq xs ys else false

pub string_eq_refl : (s : List ℕ) → string_eq s s ≡ true
unfolding string_eq
string_eq_refl [] = refl
string_eq_refl (x ∷ xs) = ground (arith, string_eq_refl xs)

pub eq_of_string_eq : (s t : List ℕ) → string_eq s t ≡ true → s ≡ t
unfolding string_eq
eq_of_string_eq [] [] h = refl
eq_of_string_eq [] (y ∷ ys) h = cc
eq_of_string_eq (x ∷ xs) [] h = cc
eq_of_string_eq (x ∷ xs) (y ∷ ys) h = ground (arith, eq_of_string_eq xs ys)

drop-cons : (s : List ℕ) (i : ℕ) → i < length s → drop i s ≡ char_at s i ∷ drop (suc i) s
drop-cons [] i h = absurd (omega arith)
drop-cons (x ∷ s) zero h = refl
drop-cons (x ∷ s) (suc i) h = drop-cons s i (omega arith)

drop-end : (s : List ℕ) (i : ℕ) → length s ≤ i → drop i s ≡ []
drop-end [] zero h = refl
drop-end [] (suc i) h = refl
drop-end (x ∷ s) zero h = absurd (omega arith)
drop-end (x ∷ s) (suc i) h = drop-end s i (omega arith)

char_at-end : (s : List ℕ) (i : ℕ) → length s ≤ i → char_at s i ≡ 0
char_at-end [] zero h = refl
char_at-end [] (suc i) h = refl
char_at-end (x ∷ s) zero h = absurd (omega arith)
char_at-end (x ∷ s) (suc i) h = char_at-end s i (omega arith)

-- `true` or `false` as the `int` that is returned.
abbrev pub int_of : Bool → ℤ
int_of true = pos 1
int_of false = pos 0

compare_from-string_eq :
    (rounds : ℕ) (s t : List ℕ) (i : ℕ)
    → length s ≡ length t
    → length s < 255
    → i ≤ length s + 1
    → length s + 1 < i + rounds
    → compare_from rounds s t i ≡ some (int_of (string_eq (drop i s) (drop i t)))
unfolding compare_from string_eq
compare_from-string_eq zero s t i same short below enough = absurd (omega arith)
compare_from-string_eq (suc rounds) s t i same short below enough = elim (dec_lt i (length s)) [
  | yes inside ↦ ground (
    arith,
    drop-cons s i inside,
    drop-cons t i (omega arith),
    add-one i,
    compare_from-string_eq rounds s t (suc i) same short (omega arith) (omega arith),
  )
  | no outside ↦ elim (dec_lt (length s) i) [
    | yes past ↦ ground (arith, drop-end s i (omega arith), drop-end t i (omega arith))
    | no at ↦ ground (
      arith,
      drop-end s i (omega arith),
      drop-end t i (omega arith),
      drop-end s (suc i) (omega arith),
      drop-end t (suc i) (omega arith),
      char_at-end s i (omega arith),
      char_at-end t i (omega arith),
      add-one i,
      compare_from-string_eq rounds s t (suc i) same short (omega arith) (omega arith),
    )
  ]
]

string_eq-length : (s t : List ℕ) → length s ≢ length t → string_eq s t ≡ false
unfolding string_eq
string_eq-length [] [] ne = absurd (ne refl)
string_eq-length [] (y ∷ ys) ne = refl
string_eq-length (x ∷ xs) [] ne = refl
string_eq-length (x ∷ xs) (y ∷ ys) ne = ground (arith, string_eq-length xs ys)

-- `strcmp` of a string of fewer than 255 bytes with any other returns 1 if they are the same, and
-- 0 if they differ: the library's convention is the opposite of C's.
pub strcmp-string_eq : (s t : List ℕ) → length s < 255 → strcmp s t ≡ some (int_of (string_eq s t))
unfolding strcmp
strcmp-string_eq s t short = ground (arith, string_eq-length s t, compare_from-string_eq 257 s t 0)

-- On two equal strings of 255 bytes or more the loop ends within no number of rounds: its index is
-- an `unsigned char`, and never passes the length.
pub compare_from-long :
    (rounds i : ℕ) (s : List ℕ) → 255 ≤ length s → i < 256 → compare_from rounds s s i ≡ none
unfolding compare_from
compare_from-long zero i s long small = refl
compare_from-long (suc rounds) i s long small =
    ground (arith, compare_from-long rounds ((i + 1) % 2 ^ 8) s)
