-- ===== src/Libc/Printf/Examples.antt =====
-- The theorems on formatted output at concrete formats, and runs of the code.
use beta_os.Prelude.{
  ℕ, ◌<◌, ◌≡◌, refl, true, false, none, some, List, [], ◌∷◌, ◌++◌, map, length, arith, All,
}
use beta_os.BootArgs.Digits.{value}
use beta_os.Libc.Printf.Digits.{Bytes, number_chars, fill_digits, char_of}
use beta_os.Libc.Printf.Format.{
  number, text, read_spec, read_flags, read_padc, read_length, read_prec, read_size, read_digits,
}
use beta_os.Libc.Printf.Convert.{
  Out, Config, emit, layout, layout_string, print_num, print_unsigned, print_string, string_chars,
  put_signed, put_unsigned, specification, convert, doprnt,
}
use beta_os.Libc.Printf.Run.{doprnt-IsCounted, doprnt-hangs}
use beta_os.Libc.Printf.Decimal.{minus, magnitude, doprnt-decimal}

-- The configuration of printf.
abbrev screen : Config
screen = record { radix = 16; is_log = false; truncates = false; hide_pointers = true }

abbrev nothing : Out
nothing = record { output = []; nprinted = 0 }

-- [%03X]
abbrev brackets : Bytes
brackets = b'[' ∷ b'%' ∷ b'0' ∷ b'3' ∷ b'X' ∷ b']' ∷ []

abbrev put_brackets : Out
put_brackets = record { output = b'[' ∷ b'0' ∷ b'2' ∷ b'A' ∷ b']' ∷ []; nprinted = 5 }

doprnt-IsCounted_example : put_brackets.nprinted ≡ length (put_brackets.output)
unfolding doprnt specification read_spec read_flags read_padc read_length read_prec read_size
    read_digits convert put_signed put_unsigned print_unsigned print_num number_chars fill_digits
    layout emit
doprnt-IsCounted_example =
    doprnt-IsCounted 6 screen brackets (number 42 ∷ []) nothing put_brackets refl refl

doprnt-hangs_example : doprnt 1000 screen (0xE2 ∷ 0x82 ∷ 0xAC ∷ []) [] nothing ≡ none
doprnt-hangs_example = doprnt-hangs 1000 0xE2 (0x82 ∷ 0xAC ∷ []) screen [] nothing (omega arith)

-- t=%d, of -7.
doprnt-decimal_example :
    (d : ℕ) × (ds : List ℕ) × (doprnt 4 screen
        (b't' ∷ b'=' ∷ b'%' ∷ b'd' ∷ b',' ∷ [])
        (number 4294967289 ∷ [])
        nothing
      ≡ some (
          emit
            ((b't' ∷ b'=' ∷ []) ++ ((minus 4294967289 ++ map (char_of 0) (d ∷ ds)) ++ (b',' ∷ [])))
            nothing))
    × All (λ x. x < 10) (d ∷ ds)
    × (value 10 0 (d ∷ ds) ≡ magnitude 4294967289)
    × (0 < magnitude 4294967289 → 0 < d)
doprnt-decimal_example =
    doprnt-decimal screen (b't' ∷ b'=' ∷ []) (b',' ∷ []) 4294967289 [] nothing (refl, (refl, tt))
      (refl, tt) refl refl

-- A width cuts a string, which C does not.
cut_run :
    doprnt 3 screen (b'%' ∷ b'2' ∷ b's' ∷ []) (text (b'a' ∷ b'b' ∷ b'c' ∷ []) ∷ []) nothing
    ≡ some (record { output = b'a' ∷ b'b' ∷ []; nprinted = 2 })
unfolding doprnt specification read_spec read_flags read_padc read_length read_prec read_size
    read_digits convert print_string string_chars layout_string emit
cut_run = refl
