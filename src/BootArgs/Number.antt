-- ===== src/BootArgs/Number.antt =====
-- `getval` of Kernel/Platform/bootargs.c, the value of an argument as a number.
use beta_os.Prelude.{
  ℕ, ◌+◌, ◌-◌, ◌*◌, ◌%◌, ◌^◌, Bool, true, false, not, ◌&&◌, ◌||◌, Option, none, some, [], ◌∷◌, leb,
  ◌==◌, if◌then◌else◌, ◌>>=◌,
}
use beta_os.Libc.Strncmp.{head, tail}
use beta_os.BootArgs.Copy.{Bytes, isargsep}

-- `c - '0'` as an `unsigned long long`.
abbrev pub char_value : ℕ → ℕ
char_value c = (c + 2 ^ 64 - b'0') % 2 ^ 64

abbrev between : ℕ → ℕ → ℕ → Bool
between lo c hi = leb lo c && leb c hi

-- The value of a digit, before it is compared with the radix; `none` is no digit.
unfoldable pub digit_value : ℕ → ℕ → Option ℕ
digit_value radix c =
    if leb radix 10 && between b'0' c (b'9' - (10 - radix))
    then some (c - b'0')
    else if radix == 16 && between b'0' c b'9'
    then some (c - b'0')
    else if radix == 16 && between b'a' c b'f'
    then some (c - (b'a' - 10))
    else if radix == 16 && between b'A' c b'F'
    then some (c - (b'A' - 10))
    else none

-- What the letter behind the digits multiplies the value by.
unfoldable pub scale : ℕ → Option ℕ
scale c =
    if c == b'k' || c == b'K'
    then some 1024
    else if c == b'm' || c == b'M'
    then some (1024 * 1024)
    else if c == b'g' || c == b'G'
    then some (1024 * 1024 * 1024)
    else none

-- Where the loop over the digits is left: the value, the scale, the last byte and what follows.
pub record Scan : Type 0 where
  pub intval : ℕ
  pub factor : ℕ
  pub last : ℕ
  pub rest : Bytes

-- The loop over the digits; `none` is STR.
unfoldable pub scan_digits : ℕ → ℕ → Bytes → Option Scan
scan_digits radix intval [] = some (record { intval = intval; factor = 1; last = 0; rest = [] })
scan_digits radix intval (c ∷ s) =
    if isargsep c
    then some (record { intval = intval; factor = 1; last = c; rest = s })
    else elim (digit_value radix c) [
      | some d ↦
          let next = scan_digits radix ((intval * radix % 2 ^ 64 + d) % 2 ^ 64) s in
          if leb radix d then none else next
      | none ↦ scale c >>= λ k. some (record { intval = intval; factor = k; last = c; rest = s })
    ]

-- The radix, the first value and where the digits go on, behind the first byte; `none` is STR.
unfoldable pub radix_of : ℕ → Bytes → Option (ℕ × ℕ × Bytes)
radix_of intval s =
    if intval == 0
    then (if head s == b'x'
        then some (16, intval, tail s)
        else if head s == b'b'
        then some (2, intval, tail s)
        else if between b'0' (head s) b'7'
        then some (8, char_value (head s), tail s)
        else if not (isargsep (head s))
        then none
        else some (10, intval, s))
    else if leb 10 intval
    then none
    else some (10, intval, s)

-- What follows the loop. `intval * sign` is an `unsigned long long`.
unfoldable pub finish : Bool → Scan → Option ℕ
finish negative e =
    let sign = if negative then 2 ^ 64 - e.factor else e.factor in
    if not (isargsep (e.last)) && not (isargsep (head (e.rest)))
    then none
    else some (e.intval * sign % 2 ^ 64)

-- The number behind the sign.
unfoldable pub read_number : Bool → Bytes → Option ℕ
read_number negative s = radix_of (char_value (head s)) (tail s) >>= λ (radix, intval, s').
    scan_digits radix intval s' >>= finish negative

-- getval: the 64 bits of the value for NUM, `none` for STR.
unfoldable pub getval : Bytes → Bool → Option ℕ
getval s skip_equal_sign =
    let has_value = head s == b'=' in
    let s' = if has_value then tail s else s in
    if has_value || skip_equal_sign
    then (if head s' == b'-' then read_number true (tail s') else read_number false s')
    else some 1
