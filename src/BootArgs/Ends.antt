-- ===== src/BootArgs/Ends.antt =====
-- The loop of `Parse_boot_argn` of Kernel/Platform/bootargs.c over the arguments.
use beta_os.Prelude.{
  ℕ, zero, suc, ◌≤◌, ◌<◌, ◌≡◌, ◌≢◌, refl, inl, inr, Bool, not, ◌&&◌, true, false, Option, some, [],
  ◌∷◌, length, ◌==◌, if_case, arith, All,
}
use beta_os.Libc.Strncmp.{head}
use beta_os.BootArgs.Copy.{Bytes, isargsep}
use beta_os.BootArgs.Parse.{skip_word, skip_space, next_word, parse_words, parse_boot_argn}
use beta_os.BootArgs.Safe.{needed, examine_word-Settles}

-- No separator at the front, or no bytes at all: where the loop takes up an argument.
abbrev AtWord : Bytes → Type 0
AtWord [] = Unit
AtWord (c ∷ s) = isargsep c ≡ false

skip_space-AtWord : (s : Bytes) → All (λ c. 0 < c) s → AtWord (skip_space s)
unfolding skip_space
skip_space-AtWord [] h = tt
skip_space-AtWord (c ∷ s) (lt, h) =
    if_case AtWord (not (c == 0) && isargsep c) (λ _. skip_space-AtWord s h) (λ e. ground arith)

skip_space-shorter : (s : Bytes) → length (skip_space s) ≤ length s
unfolding skip_space
skip_space-shorter [] = omega arith
skip_space-shorter (c ∷ s) = ground (arith, skip_space-shorter s)

skip_word-shorter : (s : Bytes) → length (skip_word s) ≤ length s
unfolding skip_word
skip_word-shorter [] = omega arith
skip_word-shorter (c ∷ s) = ground (arith, skip_word-shorter s)

skip_word-nonzero : (s : Bytes) → All (λ c. 0 < c) s → All (λ c. 0 < c) (skip_word s)
unfolding skip_word
skip_word-nonzero [] h = tt
skip_word-nonzero (c ∷ s) (lt, h) =
    if_case (All (λ c. 0 < c)) (isargsep c) (λ _. (lt, h)) (λ _. skip_word-nonzero s h)

skip_space-nonzero : (s : Bytes) → All (λ c. 0 < c) s → All (λ c. 0 < c) (skip_space s)
unfolding skip_space
skip_space-nonzero [] h = tt
skip_space-nonzero (c ∷ s) (lt, h) =
    if_case (All (λ c. 0 < c)) (not (c == 0) && isargsep c) (λ _. skip_space-nonzero s h)
      (λ _. (lt, h))

next_word-shorter : (c : ℕ) (s : Bytes) → isargsep c ≡ false → length (next_word (c ∷ s)) ≤ length s
unfolding next_word skip_word
next_word-shorter c s e =
    let h1 = skip_space-shorter (skip_word s) in let h2 = skip_word-shorter s in rw e (omega arith)

-- The loop ends, and keeps the size of the destination.
abbrev Ends : Option (Bool × Bytes) → Bytes → Type 0
Ends result to =
    (found : Bool) × (to' : Bytes) × (result ≡ some (found, to')) × (length to' ≡ length to)

module _ (arg_string : Bytes) (max_len : ℕ) (plain : head arg_string ≢ b'_') where
  parse_words-Ends :
      (fuel : ℕ) (args : Bytes) (found : Bool) (to : Bytes)
      → AtWord args
      → All (λ c. 0 < c) args
      → length args ≤ fuel
      → needed max_len ≤ length to
      → Ends (parse_words fuel arg_string max_len args found to) to
  unfolding parse_words next_word
  parse_words-Ends fuel [] found to at nonzero enough room = (found, to, refl, refl)
  parse_words-Ends zero (c ∷ args) found to at nonzero enough room = absurd (omega arith)
  parse_words-Ends (suc fuel) (c ∷ args) found to at nonzero enough room =
      elim (examine_word-Settles arg_string max_len (c ∷ args) found to room plain) [
        | inl (found', to', e, same) ↦
            let next = next_word (c ∷ args) in
            let nonzero' = skip_word-nonzero (c ∷ args) nonzero in
            let (found'', to'', e', same') =
              parse_words-Ends fuel next found' to'
                (skip_space-AtWord (skip_word (c ∷ args)) nonzero')
                (skip_space-nonzero (skip_word (c ∷ args)) nonzero')
                (let short = next_word-shorter c args at in omega arith) (omega arith) in
            (found'', to'', rw e e', omega arith)
        | inr (to', e, same) ↦ (true, to', rw e refl, same)
      ]

-- For an argument whose name does not start with an underscore, the parser comes to an end on every
-- command line, and writes nothing outside a destination of at least `max_len` bytes, or of four if
-- `max_len` is 3.
pub parse_boot_argn-Ends :
    (command_line arg_string to : Bytes) (max_len : ℕ)
    → All (λ c. 0 < c) command_line
    → head arg_string ≢ b'_'
    → needed max_len ≤ length to
    → (found : Bool) × (to' : Bytes) × (parse_boot_argn command_line arg_string to max_len
        ≡ some (found, to'))
      × (length to' ≡ length to)
unfolding parse_boot_argn
parse_boot_argn-Ends command_line arg_string to max_len nonzero plain room =
    parse_words-Ends arg_string max_len plain (length command_line) (skip_space command_line) false
      to (skip_space-AtWord command_line nonzero) (skip_space-nonzero command_line nonzero)
      (skip_space-shorter command_line) room
