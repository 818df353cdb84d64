-- ===== src/BootArgs/Found.antt =====
-- An argument of the form name=value at the front of the command line, in
-- Kernel/Platform/bootargs.c: how it is found, and what its copy does when the name starts with an
-- underscore.
use beta_os.Prelude.{
  ℕ, zero, suc, ◌*◌, ◌%◌, ◌^◌, ◌-◌, ◌≤◌, ◌≡◌, ◌≢◌, refl, Bool, ◌||◌, true, false, Option, none,
  some, [], ◌∷◌, ◌++◌, ltb, length, length-append, ◌==◌, if◌then◌else◌, ◌>>=◌, arith, All,
}
use beta_os.Prelude.Int.{pos}
use beta_os.Libc.Strncmp.{head, strncmp}
use beta_os.BootArgs.Copy.{Bytes, isargsep, argstrlcpy}
use beta_os.BootArgs.Stored.{object_size, number_at, behind, argnumcpy-Holds}
use beta_os.BootArgs.Number.{getval}
use beta_os.BootArgs.Parse.{
  Outcome, leave, proceed, copy_value, skip_name, skip_space, skip_word, next_word, examine_word,
  parse_words, parse_boot_argn,
}

-- A byte of a name: no separator and no equal sign.
abbrev pub IsName : ℕ → Type 0
IsName c = (isargsep c || c == b'=') ≡ false

-- A byte of a value.
abbrev pub IsText : ℕ → Type 0
IsText c = isargsep c ≡ false

skip_name-IsName : (w s : Bytes) → All IsName w → skip_name (w ++ (b'=' ∷ s)) ≡ b'=' ∷ s
unfolding skip_name
skip_name-IsName [] s h = refl
skip_name-IsName (c ∷ w) s (e, h) = rw e (skip_name-IsName w s h)

strncmp-append : (w s : Bytes) → strncmp (w ++ s) w (length w) ≡ pos 0
unfolding strncmp
strncmp-append [] s = refl
strncmp-append (c ∷ w) s = ground (arith, strncmp-append w s)

-- The last branches of the body: what is done with the value of an argument that is found.
abbrev found_value : Bytes → ℕ → Bytes → Bytes → Option Outcome
found_value arg_string max_len s to =
    if b'_' == head arg_string
    then (let hacklen = if ltb max_len 17 then 17 else max_len in
        argstrlcpy s to (hacklen - 1) >>= λ (_, to'). some (leave to'))
    else copy_value (b'=' ∷ s) max_len to (getval (b'=' ∷ s) false)

examine_word-name :
    (c : ℕ) (w s : Bytes) (max_len : ℕ) (found : Bool) (to : Bytes)
    → All IsName (c ∷ w)
    → c ≢ b'-'
    → examine_word (c ∷ w) max_len (c ∷ (w ++ (b'=' ∷ s))) found to
      ≡ found_value (c ∷ w) max_len s to
unfolding examine_word
examine_word-name c w s max_len found to h dash =
    let e1 = skip_name-IsName (c ∷ w) s h in
    let e2 : (c == b'-') ≡ false = ground arith in
    let e3 : length (c ∷ (w ++ (b'=' ∷ s))) - length (b'=' ∷ s) ≡ length (c ∷ w) =
      omega (arith, length-append w (b'=' ∷ s)) in
    let e4 = strncmp-append (c ∷ w) (b'=' ∷ s) in
    let e5 : (length (c ∷ w) == length (c ∷ w)) ≡ true = ground arith in
    rw (e1, e2, e3, e4, e5) refl

argstrlcpy-long :
    (from to : Bytes) (maxlen : ℕ)
    → All IsText from
    → length to ≤ length from
    → length to ≤ maxlen
    → argstrlcpy from to maxlen ≡ none
unfolding argstrlcpy
argstrlcpy-long [] [] maxlen h long room = refl
argstrlcpy-long [] (b ∷ to) maxlen h long room = absurd (omega arith)
argstrlcpy-long (c ∷ from) [] zero h long room = refl
argstrlcpy-long (c ∷ from) [] (suc maxlen) h long room = refl
argstrlcpy-long (c ∷ from) (b ∷ to) zero h long room = absurd (omega arith)
argstrlcpy-long (c ∷ from) (b ∷ to) (suc maxlen) (e, h) long room =
    rw (e, argstrlcpy-long from to maxlen h (omega arith) (omega arith)) refl

skip_word-IsText : (s : Bytes) → All IsText s → skip_word s ≡ []
unfolding skip_word
skip_word-IsText [] h = refl
skip_word-IsText (c ∷ s) (e, h) = rw e (skip_word-IsText s h)

argument-IsText : (w s : Bytes) → All IsName w → All IsText s → All IsText (w ++ (b'=' ∷ s))
argument-IsText [] s h t = (refl, t)
argument-IsText (c ∷ w) s (e, h) t = (ground (arith, e), argument-IsText w s h t)

next_word-argument : (w s : Bytes) → All IsName w → All IsText s → next_word (w ++ (b'=' ∷ s)) ≡ []
unfolding next_word skip_space
next_word-argument w s h t = rw (skip_word-IsText (w ++ (b'=' ∷ s)) (argument-IsText w s h t)) refl

skip_space-IsName : (c : ℕ) (s : Bytes) → IsName c → skip_space (c ∷ s) ≡ c ∷ s
unfolding skip_space
skip_space-IsName c s e = ground (arith, e)

-- What the loop goes on with, behind the last argument.
abbrev conclude : Outcome → Option (Bool × Bytes)
conclude (proceed found to) = some (found, to)
conclude (leave to) = some (true, to)

bind-ext {ℓ κ} :
    {A : Type ℓ} {B : Type κ} {f : A → Option B} (r : Option A) (g : A → Option B)
    → ((a : A) → f a ≡ g a)
    → r >>= f ≡ r >>= g
bind-ext none g h = refl
bind-ext (some a) g h = h a

-- A single argument on the command line.
parse_words-single :
    (c : ℕ) (w s : Bytes) (max_len fuel : ℕ) (to : Bytes)
    → All IsName (c ∷ w)
    → All IsText s
    → c ≢ b'-'
    → parse_words (suc fuel) (c ∷ w) max_len (c ∷ (w ++ (b'=' ∷ s))) false to
      ≡ found_value (c ∷ w) max_len s to >>= conclude
unfolding parse_words
parse_words-single c w s max_len fuel to h t dash =
    rw (examine_word-name c w s max_len false to h dash) (
      bind-ext (found_value (c ∷ w) max_len s to) conclude (elim [
        | proceed found to' ↦ rw (next_word-argument (c ∷ w) s h t) refl
        | leave to' ↦ refl
      ]))

-- On a command line that is name=value, for a name without separators that starts with no dash and
-- no underscore, and a value that is a number, the parser finds the argument and stores the number
-- at its destination: its lowest bytes, the lowest first, as many as `max_len` says if that is 0,
-- 1, 2, 3 or 8, and four otherwise, with the bytes behind them as before. The destination has that
-- many bytes, and four if `max_len` is 3.
pub parse_boot_argn-number :
    (c : ℕ) (w s : Bytes) (max_len val : ℕ) (to : Bytes)
    → All IsName (c ∷ w)
    → All IsText s
    → c ≢ b'-'
    → c ≢ b'_'
    → getval (b'=' ∷ s) false ≡ some val
    → (if max_len == 3 then 4 else object_size max_len) ≤ length to
    → (to' : Bytes) × (parse_boot_argn (c ∷ (w ++ (b'=' ∷ s))) (c ∷ w) to max_len
        ≡ some (true, to'))
      × (number_at (object_size max_len) to' ≡ val % 2 ^ (8 * object_size max_len))
      × (behind (object_size max_len) to' ≡ behind (object_size max_len) to)
unfolding parse_boot_argn copy_value
parse_boot_argn-number c w s max_len val to h t dash under e room =
    let (to', stored, k) = argnumcpy-Holds val max_len to room in
    let e1 = parse_words-single c w s max_len (length (w ++ (b'=' ∷ s))) to h t dash in
    let e2 : (b'_' == c) ≡ false = ground arith in
    (
      to',
      rw (skip_space-IsName c (w ++ (b'=' ∷ s)) (h.0), e1, e2, e, stored) refl,
      k.number,
      k.others,
    )

-- For a name that starts with an underscore, a destination of at most 16 bytes and a value that is
-- longer than it, the copy runs over the end of the destination, whatever `max_len` up to 17 says.
pub parse_boot_argn-overflow :
    (w s to : Bytes) (max_len : ℕ)
    → All IsName w
    → All IsText s
    → max_len ≤ 17
    → length to ≤ 16
    → length to ≤ length s
    → parse_boot_argn (b'_' ∷ (w ++ (b'=' ∷ s))) (b'_' ∷ w) to max_len ≡ none
unfolding parse_boot_argn
parse_boot_argn-overflow w s to max_len h t small room long =
    let e1 =
      parse_words-single b'_' w s max_len (length (w ++ (b'=' ∷ s))) to (refl, h) t (omega arith) in
    let e2 : (if ltb max_len 17 then 17 else max_len) - 1 ≡ 16 = ground arith in
    let e3 = argstrlcpy-long s to 16 t long room in
    rw (skip_space-IsName b'_' (w ++ (b'=' ∷ s)) refl, e1, e2, e3) refl
