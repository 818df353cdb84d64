-- ===== src/Libc/Strncmp.antt =====
-- `strncmp` of Libc/Libc/string/strncmp.cpp, on the bytes of two C strings before their NULs.
use beta_os.Prelude.{ℕ, zero, suc, List, [], ◌∷◌, ltb, ◌==◌, if◌then◌else◌}
use beta_os.Prelude.Int.{ℤ, pos, negsuc}

-- `*s`, which is the NUL at the end.
abbrev pub head : List ℕ → ℕ
head [] = 0
head (c ∷ s) = c

-- `s + 1`; no caller reads behind the NUL.
abbrev pub tail : List ℕ → List ℕ
tail [] = []
tail (c ∷ s) = s

-- strncmp
unfoldable pub strncmp : List ℕ → List ℕ → ℕ → ℤ
strncmp s1 s2 zero = pos 0
strncmp s1 s2 (suc n) =
    let rest = strncmp (tail s1) (tail s2) n in
    if head s1 == head s2
    then (if head s1 == 0 then pos 0 else rest)
    else if ltb (head s1) (head s2)
    then negsuc 0
    else pos 1
