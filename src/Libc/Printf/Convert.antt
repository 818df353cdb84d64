-- ===== src/Libc/Printf/Convert.antt =====
-- The conversions and the main loop of `__doprnt` of Libc/Libc/stdio/printf.c. The conversions b,
-- B and D are not modelled: they have no result here.
use beta_os.Prelude.{
  ℕ, zero, suc, ◌+◌, ◌-◌, ◌/◌, ◌%◌, ◌^◌, Bool, true, false, not, ◌&&◌, ◌||◌, Option, none, some,
  List, [], ◌∷◌, ◌++◌, length, replicate, min, ltb, leb, ◌==◌, if◌then◌else◌, ◌>>=◌,
}
use beta_os.Libc.Strncmp.{head, tail}
use beta_os.Libc.Printf.Digits.{Bytes, number_chars}
use beta_os.Libc.Printf.Format.{Spec, Arg, take_number, take_text, read_spec}

-- What has been put, and `nprinted`.
pub record Out : Type 0 where
  pub output : Bytes
  pub nprinted : ℕ

-- The parameters of the call, and the two globals that are read.
pub record Config : Type 0 where
  pub radix : ℕ
  pub is_log : Bool
  pub truncates : Bool
  pub hide_pointers : Bool

-- `(*putc)(c)`
abbrev pub put_byte : ℕ → Out → Out
put_byte c o = record o { output = o.output ++ (c ∷ []) }

-- `nprinted += n`
abbrev pub count : ℕ → Out → Out
count n o = record o { nprinted = o.nprinted + n }

-- A loop with `(*putc)(c); nprinted++;` as its body.
unfoldable pub emit : Bytes → Out → Out
emit [] o = o
emit (c ∷ s) o = emit s (count 1 (put_byte c o))

-- A loop with `(*putc)(c);` as its body.
unfoldable pub put_all : Bytes → Out → Out
put_all [] o = o
put_all (c ∷ s) o = put_all s (put_byte c o)

-- `(long long) (int) u`
abbrev pub sign_extend : ℕ → ℕ
sign_extend u = if ltb (u % 2 ^ 32) (2 ^ 31) then u % 2 ^ 32 else u % 2 ^ 32 + 2 ^ 64 - 2 ^ 32

-- VM_MIN_KERNEL_AND_KEXT_ADDRESS to VM_MAX_KERNEL_ADDRESS
abbrev pub is_kernel_address : ℕ → Bool
is_kernel_address u = leb (0xFFFFFF8000000000 - 0x80000000) u && leb u 0xFFFFFFFFFFFFEFFF

-- The prefix of the alternative format.
abbrev pub prefix : Spec → ℕ → ℕ → Bytes
prefix spec base u =
    if not (u == 0) && spec.altfmt
    then (if base == 8 then b'0' ∷ [] else if base == 16 then b'0' ∷ b'x' ∷ [] else [])
    else []

abbrev pub sign : ℕ → Bytes
sign c = if c == 0 then [] else c ∷ []

-- The digits with what stands around them. A `length` that is used up is negative in the source
-- and 0 here: either way no loop pads.
unfoldable pub layout : Spec → ℕ → Bytes → Bytes → Bytes
layout spec sign_char prefix digits =
    let room = spec.length - length digits - length (sign sign_char) - length prefix in
    let before = if spec.padc == b' ' && not (spec.ladjust) then replicate room b' ' else [] in
    let zeros = if spec.padc == b'0' then replicate room b'0' else [] in
    let after = if spec.ladjust && not (spec.padc == b'0') then replicate room b' ' else [] in
    before ++ (sign sign_char ++ (prefix ++ (zeros ++ (digits ++ after))))

-- print_num
unfoldable pub print_num : Config → Spec → ℕ → ℕ → Bool → ℕ → ℕ → Out → Option Out
print_num config spec base capitals truncate sign_char u o =
    let u' = if truncate then sign_extend u else u in
    if config.hide_pointers && config.is_log && is_kernel_address u'
    then some (count 5 (put_all (b'<' ∷ b'p' ∷ b't' ∷ b'r' ∷ b'>' ∷ []) o))
    else (number_chars base capitals u' >>= λ digits.
        some (emit (layout spec sign_char (prefix spec base u') digits) o))

-- print_signed: the magnitude and the sign of the argument.
unfoldable pub print_signed : Config → Spec → ℕ → ℕ → Bool → ℕ → Out → Option Out
print_signed config spec base capitals truncate v o =
    let bits = if spec.long_long then 2 ^ 64 else 2 ^ 32 in
    let n = v % bits in
    if ltb n (bits / 2)
    then print_num config spec base capitals truncate (spec.plus_sign) n o
    else print_num config spec base capitals truncate b'-' (bits - n) o

-- print_unsigned
unfoldable pub print_unsigned : Config → Spec → ℕ → ℕ → Bool → ℕ → Out → Option Out
print_unsigned config spec base capitals truncate v o =
    let bits = if spec.long_long then 2 ^ 64 else 2 ^ 32 in
    print_num config spec base capitals truncate 0 (v % bits) o

-- `c | 0xC0` on a byte.
abbrev pub or_c0 : ℕ → ℕ
or_c0 c = c % 64 + 192

-- The loop over the bytes of a string, at most `n` of them; `none` is a read behind the NUL. A
-- byte 0xC3 does not move the pointer over the byte that it turns into.
unfoldable pub string_chars : ℕ → Bytes → Option Bytes
string_chars zero p = some []
string_chars (suc n) [] = some []
string_chars (suc n) (c ∷ []) =
    if c == 0xC2 then none else if c == 0xC3 then some (0xC0 ∷ []) else some (c ∷ [])
string_chars (suc n) (c ∷ d ∷ p) =
    let behind = string_chars n p in
    let next = string_chars n (d ∷ p) in
    if c == 0xC2
    then (behind >>= λ s. some (d ∷ s))
    else if c == 0xC3
    then (next >>= λ s. some (or_c0 d ∷ s))
    else next >>= λ s. some (c ∷ s)

-- MAXINT
abbrev pub max_int : ℕ
max_int = 0x7fffffff

-- The bytes of a string that are put, with the blanks around them.
unfoldable pub layout_string : Spec → ℕ → Bytes → Bytes → Bytes
layout_string spec prec p s =
    let before =
      if ltb 0 (spec.length) && not (spec.ladjust)
      then replicate (spec.length - min (length p) prec) b' '
      else [] in
    let after = if spec.ladjust then replicate (spec.length - length s) b' ' else [] in
    before ++ (s ++ after)

-- The precision of a string, MAXINT unless it is given.
abbrev pub precision : Option ℕ → ℕ
precision none = max_int
precision (some n) = n

-- The conversion s.
unfoldable pub print_string : Spec → Bytes → Out → Option Out
print_string spec p o =
    let prec = precision (spec.prec) in
    let limit = if ltb 0 (spec.length) then min prec (spec.length) else prec in
    string_chars limit p >>= λ s. some (emit (layout_string spec prec p s) o)

-- A conversion of a signed, and one of an unsigned number.
unfoldable pub put_signed : Config → Spec → ℕ → ℕ → Bool → List Arg → Out → Option (Out × List Arg)
put_signed config spec base capitals truncate args o = take_number args >>= λ (v, args').
    print_signed config spec base capitals truncate v o >>= λ o'. some (o', args')

unfoldable pub put_unsigned :
    Config → Spec → ℕ → ℕ → Bool → List Arg → Out → Option (Out × List Arg)
put_unsigned config spec base capitals truncate args o = take_number args >>= λ (v, args').
    print_unsigned config spec base capitals truncate v o >>= λ o'. some (o', args')

-- The `switch` on the conversion character.
unfoldable pub convert : Config → ℕ → Spec → List Arg → Out → Option (Out × List Arg)
convert config c spec args o =
    let signed : ℕ → ℕ → Bool → Option (Out × List Arg) =
      λ base capitals truncate. put_signed config spec base capitals truncate args o in
    let unsigned : ℕ → ℕ → Bool → Option (Out × List Arg) =
      λ base capitals truncate. put_unsigned config spec base capitals truncate args o in
    let pointer = record spec { altfmt = true; long_long = true } in
    if c == b'b' || c == b'B' || c == b'D'
    then none
    else if c == b'c'
    then (take_number args >>= λ (v, args'). some (emit (v % 2 ^ 8 ∷ []) o, args'))
    else if c == b's'
    then (take_text args >>= λ (p, args'). print_string spec p o >>= λ o'. some (o', args'))
    else if c == b'o'
    then unsigned 8 0 (config.truncates)
    else if c == b'O'
    then unsigned 8 0 false
    else if c == b'd'
    then signed 10 0 (config.truncates)
    else if c == b'u'
    then unsigned 10 0 (config.truncates)
    else if c == b'U'
    then unsigned 10 0 false
    else if c == b'p'
    then put_unsigned config pointer 16 0 (config.truncates) args o
    else if c == b'x'
    then unsigned 16 0 (config.truncates)
    else if c == b'X'
    then unsigned 16 16 false
    else if c == b'z'
    then signed 16 0 (config.truncates)
    else if c == b'Z'
    then signed 16 16 false
    else if c == b'r'
    then signed (config.radix) 0 (config.truncates)
    else if c == b'R'
    then signed (config.radix) 0 false
    else if c == b'n'
    then unsigned (config.radix) 0 (config.truncates)
    else if c == b'N'
    then unsigned (config.radix) 0 false
    else if c == 0
    then some (o, args)
    else some (emit (c ∷ []) o, args)

-- One specification and its conversion, with where the format goes on.
unfoldable pub specification : Config → Bytes → List Arg → Out → Option (Out × Bytes × List Arg)
specification config fmt args o = read_spec fmt args >>= λ (spec, fmt', args').
    convert config (head fmt') spec args' o >>= λ (o', args''). some (o', tail fmt', args'')

-- __doprnt, at most `fuel` rounds of its loop; `none` too for a read behind the NUL. A byte above
-- 0xC3 leaves the format where it is.
unfoldable pub doprnt : ℕ → Config → Bytes → List Arg → Out → Option Out
doprnt fuel config [] args o = some o
doprnt zero config (c ∷ fmt) args o = none
doprnt (suc fuel) config (c ∷ fmt) args o =
    let again = doprnt fuel config (c ∷ fmt) args o in
    let plain = doprnt fuel config fmt args (emit (c ∷ []) o) in
    let d = if c == 0xC2 then head fmt else or_c0 (head fmt) in
    let latin = doprnt fuel config (tail fmt) args (emit (d ∷ []) o) in
    let conversion : Bytes → Option Out = λ from.
      specification config from args o >>= λ (o', rest, args'). doprnt fuel config rest args' o' in
    if not (c == b'%') && ltb c 0xC0
    then plain
    else if ltb 0xC3 c
    then again
    else if c == b'%' || c == 0xC0
    then conversion fmt
    else if head fmt == 0
    then none
    else if c == 0xC1
    then conversion (tail fmt)
    else latin
