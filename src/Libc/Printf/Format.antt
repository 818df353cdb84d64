-- ===== src/Libc/Printf/Format.antt =====
-- The part of `__doprnt` of Libc/Libc/stdio/printf.c that reads a conversion specification.
use beta_os.Prelude.{
  ℕ, ◌+◌, ◌-◌, ◌*◌, ◌%◌, ◌^◌, Bool, true, false, not, ◌&&◌, ◌||◌, Option, none, some, List, [], ◌∷◌,
  ltb, leb, ◌==◌, if◌then◌else◌, ◌>>=◌,
}
use beta_os.Libc.Strncmp.{head, tail}
use beta_os.Libc.Printf.Digits.{Bytes}

-- A variable argument: the 64 bits of a number, the string behind a pointer, or NULL.
pub data Arg : Type 0 where
  number : ℕ → Arg
  text : Bytes → Arg
  null : Arg

-- `va_arg` at a number type; `none` for another argument, or for none.
abbrev pub take_number : List Arg → Option (ℕ × List Arg)
take_number (number v ∷ args) = some (v, args)
take_number (text s ∷ args) = none
take_number (null ∷ args) = none
take_number [] = none

-- `va_arg` at a string, where NULL stands for the empty string.
abbrev pub take_text : List Arg → Option (Bytes × List Arg)
take_text (text s ∷ args) = some (s, args)
take_text (null ∷ args) = some ([], args)
take_text (number v ∷ args) = none
take_text [] = none

-- The locals that a specification sets; 0 stands for no sign, and no precision for -1.
pub record Spec : Type 0 where
  pub length : ℕ
  pub prec : Option ℕ
  pub ladjust : Bool
  pub padc : ℕ
  pub plus_sign : ℕ
  pub altfmt : Bool
  pub long_long : Bool

abbrev pub initial : Spec
initial = record {
  length = 0;
  prec = none;
  ladjust = false;
  padc = b' ';
  plus_sign = 0;
  altfmt = false;
  long_long = false;
}

abbrev pub isdigit : ℕ → Bool
isdigit c = leb b'0' c && leb c b'9'

-- One round of the loop over the flags; `none` leaves it.
abbrev pub flag : ℕ → Spec → Option Spec
flag c s =
    if c == b'#'
    then some (record s { altfmt = true })
    else if c == b'-'
    then some (record s { ladjust = true })
    else if c == b'+'
    then some (record s { plus_sign = b'+' })
    else if c == b' '
    then some (if s.plus_sign == 0 then record s { plus_sign = b' ' } else s)
    else none

unfoldable pub read_flags : Bytes → Spec → Spec × Bytes
read_flags [] s = (s, [])
read_flags (c ∷ fmt) s = elim (flag c s) [ none ↦ (s, c ∷ fmt) | some s' ↦ read_flags fmt s' ]

-- The loop over the digits of a width or a precision, which fit an `int`.
unfoldable pub read_digits : Bytes → ℕ → ℕ × Bytes
read_digits [] v = (v, [])
read_digits (c ∷ fmt) v =
    let rest = read_digits fmt (10 * v + (c - b'0')) in if isdigit c then rest else (v, c ∷ fmt)

-- The 0 for padding.
unfoldable pub read_padc : Spec × Bytes → Spec × Bytes
read_padc (s, fmt) = if head fmt == b'0' then (record s { padc = b'0' }, tail fmt) else (s, fmt)

-- The width: digits, or an `int` argument that turns the adjustment around when it is negative.
unfoldable pub read_length : Spec × Bytes → List Arg → Option (Spec × Bytes × List Arg)
read_length (s, fmt) args =
    let (digits, rest) = read_digits fmt 0 in
    if isdigit (head fmt)
    then some (record s { length = digits }, rest, args)
    else if head fmt == b'*'
    then (take_number args >>= λ (v, args').
        let n = v % 2 ^ 32 in
        some (
          if ltb n (2 ^ 31)
              then record s { length = n }
              else record s { ladjust = not (s.ladjust); length = 2 ^ 32 - n },
          tail fmt,
          args',
        ))
    else some (s, fmt, args)

-- The precision; of the negative ones -1 is as good as none, and the others leave no room.
unfoldable pub read_prec : Spec × Bytes × List Arg → Option (Spec × Bytes × List Arg)
read_prec (s, fmt, args) =
    let fmt' = tail fmt in
    let (digits, rest) = read_digits fmt' 0 in
    if not (head fmt == b'.')
    then some (s, fmt, args)
    else if isdigit (head fmt')
    then some (record s { prec = some digits }, rest, args)
    else if head fmt' == b'*'
    then (take_number args >>= λ (v, args').
        let n = v % 2 ^ 32 in
        let prec = if n == 2 ^ 32 - 1 then none else if ltb n (2 ^ 31) then some n else some 0 in
        some (record s { prec = prec }, tail fmt', args'))
    else some (s, fmt', args)

-- The size: `long` is as wide as `long long`.
unfoldable pub read_size : Spec × Bytes × List Arg → Spec × Bytes × List Arg
read_size (s, fmt, args) =
    let long = record s { long_long = true } in
    if head fmt == b'l'
    then (long, if head (tail fmt) == b'l' then tail (tail fmt) else tail fmt, args)
    else if head fmt == b'q' || head fmt == b'L'
    then (long, tail fmt, args)
    else (s, fmt, args)

-- From behind the percent sign to the conversion character.
unfoldable pub read_spec : Bytes → List Arg → Option (Spec × Bytes × List Arg)
read_spec fmt args = read_length (read_padc (read_flags fmt initial)) args >>= λ r.
    read_prec r >>= λ r'. some (read_size r')
