-- ===== src/BootArgs/Parse.antt =====
-- `Parse_boot_argn` of Kernel/Platform/bootargs.c.
use beta_os.Prelude.{
  ℕ, zero, suc, ◌-◌, Bool, true, false, not, ◌&&◌, ◌||◌, Option, none, some, [], ◌∷◌, length, ltb,
  ◌==◌, if◌then◌else◌, ◌>>=◌,
}
use beta_os.Prelude.Int.{is_zero}
use beta_os.Libc.Strncmp.{head, tail, strncmp}
use beta_os.BootArgs.Copy.{Bytes, isargsep, argstrlcpy, argnumcpy}
use beta_os.BootArgs.Number.{getval}

-- `while (!isargsep(*cp) && *cp != '=') cp++;`
unfoldable pub skip_name : Bytes → Bytes
skip_name [] = []
skip_name (c ∷ s) = if isargsep c || c == b'=' then c ∷ s else skip_name s

-- `while (!isargsep(*args)) args++;`
unfoldable pub skip_word : Bytes → Bytes
skip_word [] = []
skip_word (c ∷ s) = if isargsep c then c ∷ s else skip_word s

-- `while (*args && isargsep(*args)) args++;`
unfoldable pub skip_space : Bytes → Bytes
skip_space [] = []
skip_space (c ∷ s) = if not (c == 0) && isargsep c then skip_space s else c ∷ s

-- From the end of one argument to the start of the next, at `gotit`.
unfoldable pub next_word : Bytes → Bytes
next_word args = skip_space (skip_word args)

-- What one argument leads to: on with the destination, or out of the loop.
pub data Outcome : Type 0 where
  proceed : Bool → Bytes → Outcome
  leave : Bytes → Outcome

-- The `switch` on what getval says: `some val` is NUM, and `none` is STR.
unfoldable pub copy_value : Bytes → ℕ → Bytes → Option ℕ → Option Outcome
copy_value cp max_len to (some val) =
    argnumcpy val to max_len >>= λ (_, to'). some (proceed true to')
copy_value cp max_len to none =
    if ltb 0 max_len
    then (argstrlcpy (tail cp) to (max_len - 1) >>= λ (_, to'). some (proceed true to'))
    else some (proceed true to)

-- The body of the loop up to `gotit`, with `arg_found` and the destination. The branch on an equal
-- sign behind spaces is never taken: `c` is the byte at `cp`, and the loop over separators does not
-- move from it.
unfoldable pub examine_word : Bytes → ℕ → Bytes → Bool → Bytes → Option Outcome
examine_word arg_string max_len args found to =
    let arg_bool = head args == b'-' in
    let cp = skip_name args in
    let i = length args - length cp in
    if not (head cp == b'=') && not arg_bool
    then some (proceed found to)
    else if not (is_zero (strncmp args arg_string i)) || not (i == length arg_string)
    then some (proceed found to)
    else if arg_bool
    then (argnumcpy 1 to max_len >>= λ (_, to'). some (leave to'))
    else if b'_' == head arg_string
    then (let hacklen = if ltb max_len 17 then 17 else max_len in
        argstrlcpy (tail cp) to (hacklen - 1) >>= λ (_, to'). some (leave to'))
    else copy_value cp max_len to (getval cp false)

-- The loop over the arguments, at most `fuel` of them.
unfoldable pub parse_words : ℕ → Bytes → ℕ → Bytes → Bool → Bytes → Option (Bool × Bytes)
parse_words fuel arg_string max_len [] found to = some (found, to)
parse_words zero arg_string max_len (c ∷ args) found to = none
parse_words (suc fuel) arg_string max_len (c ∷ args) found to =
    examine_word arg_string max_len (c ∷ args) found to >>= λ outcome. elim outcome [
      | proceed found' to' ↦ parse_words fuel arg_string max_len (next_word (c ∷ args)) found' to'
      | leave to' ↦ some (true, to')
    ]

-- Parse_boot_argn: whether the argument was found, and the destination. There are no more
-- arguments than bytes on the line. `max_len` is not negative.
unfoldable pub parse_boot_argn : Bytes → Bytes → Bytes → ℕ → Option (Bool × Bytes)
parse_boot_argn command_line arg_string to max_len =
    parse_words (length command_line) arg_string max_len (skip_space command_line) false to
