-- ===== src/BootArgs/Examples.antt =====
-- The theorems on the boot arguments at concrete command lines, and runs of the parser.
use beta_os.Prelude.{
  ◌*◌, ◌%◌, ◌^◌, ◌≡◌, refl, inr, Bool, true, false, none, some, [], ◌∷◌, ◌++◌, replicate, length,
  arith,
}
use beta_os.BootArgs.Copy.{Bytes, argnumcpy, store}
use beta_os.BootArgs.Number.{getval, read_number, radix_of, scan_digits, digit_value, scale, finish}
use beta_os.BootArgs.Digits.{giga, written, meaning}
use beta_os.BootArgs.Value.{getval-written}
use beta_os.BootArgs.Parse.{
  parse_boot_argn, parse_words, examine_word, copy_value, skip_space, skip_word, skip_name,
  next_word,
}
use beta_os.BootArgs.Ends.{parse_boot_argn-Ends}
use beta_os.BootArgs.Stored.{number_at, behind, object_size}
use beta_os.BootArgs.Found.{parse_boot_argn-number, parse_boot_argn-overflow}
use beta_os.Libc.Strncmp.{strncmp}

-- -0x1fG
getval-written_example :
    getval (b'=' ∷ written true 16 (1 ∷ 15 ∷ []) giga []) false
    ≡ some (meaning true 16 (1 ∷ 15 ∷ []) giga)
getval-written_example =
    getval-written true 16 1 (15 ∷ []) giga [] (inr (inr (inr refl)))
      (omega arith, (omega arith, tt)) (λ e. omega arith) refl

abbrev name : Bytes
name = b'c' ∷ b'p' ∷ b'u' ∷ []

abbrev room : Bytes
room = replicate 4 0

-- cpu=8 -v
abbrev line : Bytes
line = name ++ (b'=' ∷ b'8' ∷ b' ' ∷ b'-' ∷ b'v' ∷ [])

parse_boot_argn-Ends_example :
    (found : Bool) × (to' : Bytes) × (parse_boot_argn line name room 4 ≡ some (found, to'))
    × (length to' ≡ length room)
parse_boot_argn-Ends_example =
    parse_boot_argn-Ends line name room 4 (omega arith) (omega arith) (omega arith)

parse_boot_argn-number_example :
    (to' : Bytes) × (parse_boot_argn (name ++ (b'=' ∷ b'8' ∷ [])) name room 4 ≡ some (true, to'))
    × (number_at (object_size 4) to' ≡ 8 % 2 ^ (8 * object_size 4))
    × (behind (object_size 4) to' ≡ behind (object_size 4) room)
unfolding getval read_number radix_of scan_digits finish
parse_boot_argn-number_example =
    parse_boot_argn-number b'c' (b'p' ∷ b'u' ∷ []) (b'8' ∷ []) 4 8 room (refl, (refl, (refl, tt)))
      (refl, tt) (omega arith) (omega arith) refl (omega arith)

parse_boot_argn-overflow_example :
    parse_boot_argn (b'_' ∷ b'f' ∷ b'=' ∷ replicate 8 b'x') (b'_' ∷ b'f' ∷ []) (replicate 8 0) 8
    ≡ none
parse_boot_argn-overflow_example =
    parse_boot_argn-overflow (b'f' ∷ []) (replicate 8 b'x') (replicate 8 0) 8 (refl, tt)
      (refl, (refl, (refl, (refl, (refl, (refl, (refl, (refl, tt)))))))) (omega arith) (omega arith)
      (omega arith)

-- The value of the first argument, the flag behind it, and an argument that is not there.
line_run : parse_boot_argn line name room 4 ≡ some (true, 8 ∷ 0 ∷ 0 ∷ 0 ∷ [])
unfolding parse_boot_argn parse_words examine_word copy_value skip_space skip_word skip_name
    next_word strncmp argnumcpy store getval read_number radix_of scan_digits digit_value scale
    finish
line_run = refl

flag_run : parse_boot_argn line (b'-' ∷ b'v' ∷ []) room 4 ≡ some (true, 1 ∷ 0 ∷ 0 ∷ 0 ∷ [])
unfolding parse_boot_argn parse_words examine_word copy_value skip_space skip_word skip_name
    next_word strncmp argnumcpy store getval read_number radix_of scan_digits digit_value scale
    finish
flag_run = refl

missing_run : parse_boot_argn line (b'v' ∷ []) room 4 ≡ some (false, room)
unfolding parse_boot_argn parse_words examine_word copy_value skip_space skip_word skip_name
    next_word strncmp argnumcpy store getval read_number radix_of scan_digits digit_value scale
    finish
missing_run = refl

-- A field of 24 bits in a destination of three bytes is written as a word of four.
field_run : argnumcpy 8 (0 ∷ 0 ∷ 0 ∷ []) 3 ≡ none
unfolding argnumcpy
field_run = refl
