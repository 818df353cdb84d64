-- ===== src/Libc/Examples.antt =====
-- The theorems on the C library at concrete strings.
use beta_os.Prelude.{ℕ, ◌≡◌, none, some, List, [], ◌∷◌, replicate, arith}
use beta_os.Prelude.Int.{pos, is_zero}
use beta_os.Libc.Strncmp.{strncmp}
use beta_os.Libc.Compare.{take, strncmp-string_eq}
use beta_os.Libc.Strcmp.{strcmp, compare_from, string_eq, strcmp-string_eq, compare_from-long}

abbrev long_string : List ℕ
long_string = replicate 255 b'a'

strcmp-string_eq_example : strcmp (b'o' ∷ b'k' ∷ []) (b'n' ∷ b'o' ∷ []) ≡ some (pos 0)
unfolding string_eq
strcmp-string_eq_example = strcmp-string_eq (b'o' ∷ b'k' ∷ []) (b'n' ∷ b'o' ∷ []) (omega arith)

compare_from-long_example : compare_from 1000 long_string long_string 0 ≡ none
compare_from-long_example = compare_from-long 1000 0 long_string (omega arith) (omega arith)

strncmp-string_eq_example :
    is_zero (strncmp (b'c' ∷ b'p' ∷ b'u' ∷ []) (b'c' ∷ b'p' ∷ []) 2)
    ≡ string_eq (take 2 (b'c' ∷ b'p' ∷ b'u' ∷ [])) (take 2 (b'c' ∷ b'p' ∷ []))
strncmp-string_eq_example =
    strncmp-string_eq (b'c' ∷ b'p' ∷ b'u' ∷ []) (b'c' ∷ b'p' ∷ []) 2
      (omega arith, (omega arith, (omega arith, tt))) (omega arith, (omega arith, tt))
