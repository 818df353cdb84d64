-- ===== src/BootArgs/Copy.antt =====
-- The separators and the two copies of Kernel/Platform/bootargs.c. A `char *` is the list of the
-- bytes from there to the NUL; a destination is the list of the bytes that it has room for, and
-- `none` is a write behind them.
use beta_os.Prelude.{
  ℕ, zero, suc, ◌/◌, ◌%◌, ◌^◌, Bool, ◌||◌, Option, none, some, List, [], ◌∷◌, ◌==◌, if◌then◌else◌,
  ◌>>=◌,
}

abbrev pub Bytes : Type 0
Bytes = List ℕ

-- isargsep
abbrev pub isargsep : ℕ → Bool
isargsep c = c == b' ' || c == 0 || c == b'\t'

-- `*to = c`, and what follows is written behind it.
abbrev put : ℕ → Bytes → Option Bytes
put c [] = none
put c (_ ∷ to) = some (c ∷ to)

-- argstrlcpy: the bytes copied and the destination afterwards.
unfoldable pub argstrlcpy : Bytes → Bytes → ℕ → Option (ℕ × Bytes)
argstrlcpy [] to maxlen = put 0 to >>= λ to'. some (0, to')
argstrlcpy (c ∷ from) to zero = put 0 to >>= λ to'. some (0, to')
argstrlcpy (c ∷ from) [] (suc maxlen) = none
argstrlcpy (c ∷ from) (b ∷ to) (suc maxlen) =
    let rest = argstrlcpy from to maxlen in
    if isargsep c then some (0, 0 ∷ to) else rest >>= λ (i, to'). some (suc i, c ∷ to')

-- The low `n` bytes of a value, the lowest first.
unfoldable pub store : ℕ → ℕ → Bytes → Option Bytes
store zero val to = some to
store (suc n) val [] = none
store (suc n) val (_ ∷ to) = store n (val / 2 ^ 8) to >>= λ to'. some (val % 2 ^ 8 ∷ to')

-- The field `i24` of a `struct i24`, an object of four bytes: the word is read, and written back
-- with its fourth byte as it was.
unfoldable pub store_field : ℕ → Bytes → Option Bytes
store_field val (_ ∷ _ ∷ _ ∷ pad ∷ to) =
    some (val % 2 ^ 8 ∷ val / 2 ^ 8 % 2 ^ 8 ∷ val / 2 ^ 16 % 2 ^ 8 ∷ pad ∷ to)
store_field val _ = none

-- argnumcpy: the number of bytes and the destination afterwards. The value is the 64 bits of the
-- `long long`.
unfoldable pub argnumcpy : ℕ → Bytes → ℕ → Option (ℕ × Bytes)
unfolding store store_field
argnumcpy val to maxlen =
    let width =
      if maxlen == 0 || maxlen == 1 || maxlen == 2 || maxlen == 4 || maxlen == 8
      then maxlen
      else 4 in
    if maxlen == 3
    then (store_field val to >>= λ to'. some (3, to'))
    else (store width val to >>= λ to'. some (width, to'))
