-- ===== src/Libc/Printf/Count.antt =====
-- The count that `__doprnt` of Libc/Libc/stdio/printf.c returns, against its output.
use beta_os.Prelude.{
  ℕ, ◌+◌, ◌-◌, ◌/◌, ◌%◌, ◌^◌, ◌≡◌, refl, Bool, true, false, ◌&&◌, ◌||◌, Option, none, some, List,
  [], ◌∷◌, length, length-append, min, ltb, ◌==◌, if◌then◌else◌, if_case, ◌>>=◌, arith,
}
use beta_os.Libc.Printf.Digits.{Bytes, number_chars}
use beta_os.Libc.Printf.Format.{Spec, Arg, take_number, take_text}
use beta_os.Libc.Printf.Convert.{
  Out, Config, put_byte, count, emit, put_all, layout, prefix, print_num, print_signed,
  print_unsigned, print_string, put_signed, put_unsigned, string_chars, layout_string, precision,
  convert, sign_extend, is_kernel_address,
}

-- As many bytes are counted as have been put.
abbrev pub IsCounted : Out → Type 0
IsCounted o = o.nprinted ≡ length (o.output)

pub emit-IsCounted : (s : Bytes) (o : Out) → IsCounted o → IsCounted (emit s o)
unfolding emit
emit-IsCounted [] o h = h
emit-IsCounted (c ∷ s) o h =
    emit-IsCounted s (count 1 (put_byte c o)) (omega (arith, length-append (o.output) (c ∷ [])))

-- Bytes that are put without being counted.
put_all-length :
    (s : Bytes) (o : Out)
    → ((put_all s o).nprinted ≡ o.nprinted)
      × (length ((put_all s o).output) ≡ length (o.output) + length s)
unfolding put_all
put_all-length [] o = (refl, omega arith)
put_all-length (c ∷ s) o =
    let (kept, longer) = put_all-length s (put_byte c o) in
    (kept, omega (arith, longer, length-append (o.output) (c ∷ [])))

-- Every result of a step is counted.
abbrev pub Counts {ℓ} : {A : Type ℓ} → (A → Out) → Option A → Type 0
Counts f none = Unit
Counts f (some a) = IsCounted (f a)

pub Counts-bind {ℓ κ} :
    {A : Type ℓ} {B : Type κ} (f : B → Out) (r : Option A) (g : A → Option B)
    → ((a : A) → Counts f (g a))
    → Counts f (r >>= g)
Counts-bind f none g h = tt
Counts-bind f (some a) g h = h a

pub Counts-then {ℓ κ} :
    {A : Type ℓ} {B : Type κ} (e : A → Out) (f : B → Out) (r : Option A) (g : A → Option B)
    → Counts e r
    → ((a : A) → IsCounted (e a) → Counts f (g a))
    → Counts f (r >>= g)
Counts-then e f none g c h = tt
Counts-then e f (some a) g c h = h a c

abbrev pub itself : Out → Out
itself o = o

print_num-Counts :
    (config : Config) (spec : Spec) (base capitals : ℕ) (truncate : Bool) (sign_char u : ℕ)
    (o : Out)
    → IsCounted o
    → Counts itself (print_num config spec base capitals truncate sign_char u o)
unfolding print_num
print_num-Counts config spec base capitals truncate sign_char u o h =
    let u' = if truncate then sign_extend u else u in
    if_case (Counts itself) (config.hide_pointers && config.is_log && is_kernel_address u')
      (λ _.
        let (kept, longer) = put_all-length (b'<' ∷ b'p' ∷ b't' ∷ b'r' ∷ b'>' ∷ []) o in
        omega (arith, kept, longer))
      (λ _.
        Counts-bind itself (number_chars base capitals u')
          (λ digits. some (emit (layout spec sign_char (prefix spec base u') digits) o))
          (λ digits. emit-IsCounted (layout spec sign_char (prefix spec base u') digits) o h))

print_signed-Counts :
    (config : Config) (spec : Spec) (base capitals : ℕ) (truncate : Bool) (v : ℕ) (o : Out)
    → IsCounted o
    → Counts itself (print_signed config spec base capitals truncate v o)
unfolding print_signed
print_signed-Counts config spec base capitals truncate v o h =
    let bits = if spec.long_long then 2 ^ 64 else 2 ^ 32 in
    if_case (Counts itself) (ltb (v % bits) (bits / 2))
      (λ _. print_num-Counts config spec base capitals truncate (spec.plus_sign) (v % bits) o h)
      (λ _. print_num-Counts config spec base capitals truncate b'-' (bits - v % bits) o h)

print_unsigned-Counts :
    (config : Config) (spec : Spec) (base capitals : ℕ) (truncate : Bool) (v : ℕ) (o : Out)
    → IsCounted o
    → Counts itself (print_unsigned config spec base capitals truncate v o)
unfolding print_unsigned
print_unsigned-Counts config spec base capitals truncate v o h =
    let bits = if spec.long_long then 2 ^ 64 else 2 ^ 32 in
    print_num-Counts config spec base capitals truncate 0 (v % bits) o h

print_string-Counts :
    (spec : Spec) (p : Bytes) (o : Out) → IsCounted o → Counts itself (print_string spec p o)
unfolding print_string
print_string-Counts spec p o h =
    let prec = precision (spec.prec) in
    let limit = if ltb 0 (spec.length) then min prec (spec.length) else prec in
    Counts-bind itself (string_chars limit p) (λ s. some (emit (layout_string spec prec p s) o))
      (λ s. emit-IsCounted (layout_string spec prec p s) o h)

-- The output in a result of several parts.
abbrev pub first {ℓ} : {A : Type ℓ} → Out × A → Out
first p = p.0

put_signed-Counts :
    (config : Config) (spec : Spec) (base capitals : ℕ) (truncate : Bool) (args : List Arg)
    (o : Out)
    → IsCounted o
    → Counts first (put_signed config spec base capitals truncate args o)
unfolding put_signed
put_signed-Counts config spec base capitals truncate args o h =
    Counts-bind first (take_number args)
      (λ r. print_signed config spec base capitals truncate (r.0) o >>= λ o'. some (o', r.1))
      (λ r.
        Counts-then itself first (print_signed config spec base capitals truncate (r.0) o)
          (λ o'. some (o', r.1)) (print_signed-Counts config spec base capitals truncate (r.0) o h)
          (λ o' c. c))

put_unsigned-Counts :
    (config : Config) (spec : Spec) (base capitals : ℕ) (truncate : Bool) (args : List Arg)
    (o : Out)
    → IsCounted o
    → Counts first (put_unsigned config spec base capitals truncate args o)
unfolding put_unsigned
put_unsigned-Counts config spec base capitals truncate args o h =
    Counts-bind first (take_number args)
      (λ r. print_unsigned config spec base capitals truncate (r.0) o >>= λ o'. some (o', r.1))
      (λ r.
        Counts-then itself first (print_unsigned config spec base capitals truncate (r.0) o)
          (λ o'. some (o', r.1))
          (print_unsigned-Counts config spec base capitals truncate (r.0) o h) (λ o' c. c))

put_string-Counts :
    (spec : Spec) (args : List Arg) (o : Out)
    → IsCounted o
    → Counts first
        (take_text args >>= λ (p, args'). print_string spec p o >>= λ o'. some (o', args'))
put_string-Counts spec args o h =
    Counts-bind first (take_text args) (λ r. print_string spec (r.0) o >>= λ o'. some (o', r.1))
      (λ r.
        Counts-then itself first (print_string spec (r.0) o) (λ o'. some (o', r.1))
          (print_string-Counts spec (r.0) o h) (λ o' c. c))

put_char-Counts :
    (args : List Arg) (o : Out)
    → IsCounted o
    → Counts first (take_number args >>= λ (v, args'). some (emit (v % 2 ^ 8 ∷ []) o, args'))
put_char-Counts args o h =
    Counts-bind first (take_number args) (λ r. some (emit (r.0 % 2 ^ 8 ∷ []) o, r.1))
      (λ r. emit-IsCounted (r.0 % 2 ^ 8 ∷ []) o h)

pub convert-Counts :
    (config : Config) (c : ℕ) (spec : Spec) (args : List Arg) (o : Out)
    → IsCounted o
    → Counts first (convert config c spec args o)
unfolding convert
convert-Counts config c spec args o h =
    let P : Option (Out × List Arg) → Type 0 = Counts first in
    let s : (base capitals : ℕ) (t : Bool) → P (put_signed config spec base capitals t args o) =
      λ base capitals t. put_signed-Counts config spec base capitals t args o h in
    let u : (base capitals : ℕ) (t : Bool) → P (put_unsigned config spec base capitals t args o) =
      λ base capitals t. put_unsigned-Counts config spec base capitals t args o h in
    let pointer = record spec { altfmt = true; long_long = true } in
    let t = config.truncates in
    if_case P (c == b'b' || c == b'B' || c == b'D') (λ _. tt)
      (λ _.
        if_case P (c == b'c') (λ _. put_char-Counts args o h)
          (λ _.
            if_case P (c == b's') (λ _. put_string-Counts spec args o h)
              (λ _.
                if_case P (c == b'o') (λ _. u 8 0 t)
                  (λ _.
                    if_case P (c == b'O') (λ _. u 8 0 false)
                      (λ _.
                        if_case P (c == b'd') (λ _. s 10 0 t)
                          (λ _.
                            if_case P (c == b'u') (λ _. u 10 0 t)
                              (λ _.
                                if_case P (c == b'U') (λ _. u 10 0 false)
                                  (λ _.
                                    if_case P (c == b'p')
                                      (λ _. put_unsigned-Counts config pointer 16 0 t args o h)
                                      (λ _.
                                        if_case P (c == b'x') (λ _. u 16 0 t)
                                          (λ _.
                                            if_case P (c == b'X') (λ _. u 16 16 false)
                                              (λ _.
                                                if_case P (c == b'z') (λ _. s 16 0 t)
                                                  (λ _.
                                                    if_case P (c == b'Z') (λ _. s 16 16 false)
                                                      (λ _.
                                                        if_case P (c == b'r')
                                                          (λ _. s (config.radix) 0 t)
                                                          (λ _.
                                                            if_case P (c == b'R')
                                                            (λ _. s (config.radix) 0 false)
                                                            (λ _.
                                                            if_case P (c == b'n')
                                                            (λ _. u (config.radix) 0 t)
                                                            (λ _.
                                                            if_case P (c == b'N')
                                                            (λ _. u (config.radix) 0 false)
                                                            (λ _.
                                                            if_case P (c == 0) (λ _. h)
                                                            (λ _.
                                                            emit-IsCounted (c ∷ []) o
                                                            h))))))))))))))))))
