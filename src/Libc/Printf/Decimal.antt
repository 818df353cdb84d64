-- ===== src/Libc/Printf/Decimal.antt =====
-- A whole call of `__doprnt` of Libc/Libc/stdio/printf.c with the conversion d.
use beta_os.Prelude.{
  ℕ, suc, ◌+◌, ◌-◌, ◌%◌, ◌^◌, ◌<◌, ◌≡◌, refl, ap, ◌∙◌, inl, inr, Bool, true, false, ◌&&◌, Option,
  none, some, List, [], ◌∷◌, ◌++◌, map, length, append-nil, ltb, if◌then◌else◌, ◌>>=◌, arith, All,
}
use beta_os.BootArgs.Digits.{value}
use beta_os.Libc.Printf.Digits.{Bytes, number_chars, char_of}
use beta_os.Libc.Printf.Numeral.{number_chars-digits}
use beta_os.Libc.Printf.Format.{
  Arg, number, initial, read_spec, read_flags, read_padc, read_length, read_prec, read_size,
  read_digits,
}
use beta_os.Libc.Printf.Convert.{
  Out, Config, emit, layout, prefix, sign, print_num, print_signed, put_signed, specification,
  convert, doprnt, is_kernel_address,
}
use beta_os.Libc.Printf.Run.{IsPlain, doprnt-plain, doprnt-verbatim, emit-emit}

-- The sign and the magnitude of an `int` argument.
abbrev pub minus : ℕ → Bytes
minus v = if ltb (v % 2 ^ 32) (2 ^ 31) then [] else b'-' ∷ []

abbrev pub magnitude : ℕ → ℕ
magnitude v = if ltb (v % 2 ^ 32) (2 ^ 31) then v % 2 ^ 32 else 2 ^ 32 - v % 2 ^ 32

abbrev onward : Bytes → List Arg → Out → Option (Out × Bytes × List Arg)
onward post args o = some (o, post, args)

abbrev after_spec : Bytes → Out × List Arg → Option (Out × Bytes × List Arg)
after_spec post p = some (p.0, post, p.1)

abbrev with_args : List Arg → Out → Option (Out × List Arg)
with_args args o = some (o, args)

regroup :
    (post : Bytes) (args : List Arg) (r : Option Out)
    → (r >>= with_args args) >>= after_spec post ≡ r >>= onward post args
regroup post args none = refl
regroup post args (some o') = refl

specification-d :
    (config : Config) (post : Bytes) (v : ℕ) (args : List Arg) (o : Out)
    → specification config (b'd' ∷ post) (number v ∷ args) o
      ≡ print_signed config initial 10 0 (config.truncates) v o >>= onward post args
unfolding specification read_spec read_flags read_padc read_length read_prec read_size read_digits
    convert put_signed
specification-d config post v args o =
    regroup post args (print_signed config initial 10 0 (config.truncates) v o)

layout-initial : (c : ℕ) (digits : Bytes) → layout initial c [] digits ≡ sign c ++ digits
unfolding layout
layout-initial c digits =
    let e : 0 - length digits - length (sign c) - 0 ≡ 0 = omega arith in
    rw (e, append-nil digits) refl

and_false : (a b : Bool) → (a && false && b) ≡ false
and_false true b = refl
and_false false b = refl

print_num-initial :
    (config : Config) (c u : ℕ) (digits : Bytes) (o : Out)
    → config.is_log ≡ false
    → number_chars 10 0 u ≡ some digits
    → print_num config initial 10 0 false c u o ≡ some (emit (sign c ++ digits) o)
unfolding print_num
print_num-initial config c u digits o e1 e2 =
    let unprefixed : prefix initial 10 u ≡ [] = ground arith in
    rw (e1, and_false (config.hide_pointers) (is_kernel_address u), e2, unprefixed)
      (ap (λ s. some (emit s o)) (layout-initial c digits))

print_sign :
    (config : Config) (positive : Bool) (n m : ℕ) (digits : Bytes) (o : Out)
    → config.is_log ≡ false
    → number_chars 10 0 (if positive then n else m) ≡ some digits
    → (if positive
        then print_num config initial 10 0 false 0 n o
        else print_num config initial 10 0 false b'-' m o)
      ≡ some (emit ((if positive then [] else b'-' ∷ []) ++ digits) o)
print_sign config true n m digits o e1 e2 = print_num-initial config 0 n digits o e1 e2
print_sign config false n m digits o e1 e2 = print_num-initial config b'-' m digits o e1 e2

print_signed-initial :
    (config : Config) (v : ℕ) (digits : Bytes) (o : Out)
    → config.is_log ≡ false
    → number_chars 10 0 (magnitude v) ≡ some digits
    → print_signed config initial 10 0 false v o ≡ some (emit (minus v ++ digits) o)
unfolding print_signed
print_signed-initial config v digits o e1 e2 =
    print_sign config (ltb (v % 2 ^ 32) (2 ^ 31)) (v % 2 ^ 32) (2 ^ 32 - v % 2 ^ 32) digits o e1 e2

doprnt-specification :
    (config : Config) (post : Bytes) (args args' : List Arg) (o o' : Out) (fuel : ℕ)
    → specification config (b'd' ∷ post) args o ≡ some (o', post, args')
    → doprnt (suc fuel) config (b'%' ∷ b'd' ∷ post) args o ≡ doprnt fuel config post args' o'
unfolding doprnt
doprnt-specification config post args args' o o' fuel e = rw e refl

-- In a format with the conversion d between plain texts, an `int` argument is put as a minus sign
-- if it is negative and the decimal numeral of its magnitude, if no output is truncated or logged.
pub doprnt-decimal :
    (config : Config) (pre post : Bytes) (v : ℕ) (args : List Arg) (o : Out)
    → All IsPlain pre
    → All IsPlain post
    → config.truncates ≡ false
    → config.is_log ≡ false
    → (d : ℕ) × (ds : List ℕ) × (doprnt
          (length pre + suc (length post))
          config
          (pre ++ (b'%' ∷ b'd' ∷ post))
          (number v ∷ args)
          o
        ≡ some (emit (pre ++ ((minus v ++ map (char_of 0) (d ∷ ds)) ++ post)) o))
      × All (λ x. x < 10) (d ∷ ds)
      × (value 10 0 (d ∷ ds) ≡ magnitude v)
      × (0 < magnitude v → 0 < d)
doprnt-decimal config pre post v args o h1 h2 e1 e2 =
    let small : magnitude v < 2 ^ 64 = ground arith in
    let (d, ds, e, below, worth, lead) =
      number_chars-digits 10 0 (magnitude v) (inr (inr (inl refl))) (inl refl) small in
    let s = minus v ++ map (char_of 0) (d ∷ ds) in
    let o1 = emit pre o in
    let printed : specification config (b'd' ∷ post) (number v ∷ args) o1
        ≡ some (emit s o1, post, args) =
      specification-d config post v args o1
      ∙ ap (λ t. print_signed config initial 10 0 t v o1 >>= onward post args) e1
      ∙ ap (λ r. r >>= onward post args)
          (print_signed-initial config v (map (char_of 0) (d ∷ ds)) o1 e2 e) in
    let run =
      doprnt-plain pre (b'%' ∷ b'd' ∷ post) (suc (length post)) config (number v ∷ args) o h1
      ∙ doprnt-specification config post (number v ∷ args) args o1 (emit s o1) (length post) printed
      ∙ doprnt-verbatim post config args (emit s o1) h2
      ∙ ap some (emit-emit s post o1 ∙ emit-emit pre (s ++ post) o) in
    (d, ds, run, below, worth, lead)
