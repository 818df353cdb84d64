-- ===== src/Libc/Compare.antt =====
-- `strncmp` of Libc/Libc/string/strncmp.cpp against the equality of the first bytes.
use beta_os.Prelude.{ℕ, zero, suc, ◌<◌, ◌≡◌, refl, List, [], ◌∷◌, arith, All}
use beta_os.Prelude.Int.{is_zero}
use beta_os.Libc.Strcmp.{string_eq}
use beta_os.Libc.Strncmp.{strncmp}

-- The first `n` bytes, or all there are.
abbrev pub take : ℕ → List ℕ → List ℕ
take zero s = []
take (suc n) [] = []
take (suc n) (c ∷ s) = c ∷ take n s

-- For strings without a NUL inside, strncmp says 0 exactly if the first `n` bytes are the same.
pub strncmp-string_eq :
    (s t : List ℕ) (n : ℕ)
    → All (λ c. 0 < c) s
    → All (λ c. 0 < c) t
    → is_zero (strncmp s t n) ≡ string_eq (take n s) (take n t)
unfolding strncmp string_eq
strncmp-string_eq s t zero h k = refl
strncmp-string_eq [] [] (suc n) h k = refl
strncmp-string_eq [] (d ∷ t) (suc n) h (lt, k) = ground arith
strncmp-string_eq (c ∷ s) [] (suc n) (lt, h) k = ground arith
strncmp-string_eq (c ∷ s) (d ∷ t) (suc n) (lt, h) (lt', k) =
    ground (arith, strncmp-string_eq s t n h k)
