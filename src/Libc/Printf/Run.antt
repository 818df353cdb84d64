-- ===== src/Libc/Printf/Run.antt =====
-- Whole runs of `__doprnt` of Libc/Libc/stdio/printf.c.
use beta_os.Prelude.{
  ℕ, zero, suc, ◌+◌, ◌<◌, ◌≡◌, refl, ap, ap₂, sym, ◌∙◌, subst, true, false, not, ◌&&◌, ◌||◌, Option,
  none, some, List, [], ◌∷◌, ◌++◌, length, append-nil, ltb, ◌==◌, if◌then◌else◌, if_case, ◌>>=◌,
  arith, All,
}
use beta_os.Libc.Strncmp.{head, tail}
use beta_os.Libc.Printf.Digits.{Bytes}
use beta_os.Libc.Printf.Format.{Arg, read_spec}
use beta_os.Libc.Printf.Convert.{
  Out, Config, put_byte, count, emit, specification, convert, doprnt, or_c0,
}
use beta_os.Libc.Printf.Count.{
  IsCounted, Counts, Counts-bind, Counts-then, itself, first, emit-IsCounted, convert-Counts,
}

abbrev front : Out × Bytes × List Arg → Out
front p = p.0

specification-Counts :
    (config : Config) (fmt : Bytes) (args : List Arg) (o : Out)
    → IsCounted o
    → Counts front (specification config fmt args o)
unfolding specification
specification-Counts config fmt args o h =
    Counts-bind front (read_spec fmt args)
      (λ r.
        convert config (head (r.1)) (r.0) (r.2) o >>= λ (o', args''). some (o', tail (r.1), args''))
      (λ r.
        Counts-then first front (convert config (head (r.1)) (r.0) (r.2) o)
          (λ (o', args''). some (o', tail (r.1), args''))
          (convert-Counts config (head (r.1)) (r.0) (r.2) o h) (λ p c. c))

doprnt-Counts :
    (fuel : ℕ) (config : Config) (fmt : Bytes) (args : List Arg) (o : Out)
    → IsCounted o
    → Counts itself (doprnt fuel config fmt args o)
unfolding doprnt
doprnt-Counts fuel config [] args o h = h
doprnt-Counts zero config (c ∷ fmt) args o h = tt
doprnt-Counts (suc fuel) config (c ∷ fmt) args o h =
    let P : Option Out → Type 0 = Counts itself in
    let again = doprnt-Counts fuel config (c ∷ fmt) args o h in
    let plain =
      doprnt-Counts fuel config fmt args (emit (c ∷ []) o) (emit-IsCounted (c ∷ []) o h) in
    let conversion : (from : Bytes)
        → P (
            specification config from args o >>= λ (o', rest, args').
            doprnt fuel config rest args' o') =
      λ from.
        Counts-then front itself (specification config from args o)
          (λ (o', rest, args'). doprnt fuel config rest args' o')
          (specification-Counts config from args o h)
          (λ p counted. doprnt-Counts fuel config (p.1) (p.2) (p.0) counted) in
    let d = if c == 0xC2 then head fmt else or_c0 (head fmt) in
    if_case P (not (c == b'%') && ltb c 0xC0) (λ _. plain)
      (λ _.
        if_case P (ltb 0xC3 c) (λ _. again)
          (λ _.
            if_case P (c == b'%' || c == 0xC0) (λ _. conversion fmt)
              (λ _.
                if_case P (head fmt == 0) (λ _. tt)
                  (λ _.
                    if_case P (c == 0xC1) (λ _. conversion (tail fmt))
                      (λ _.
                        doprnt-Counts fuel config (tail fmt) args (emit (d ∷ []) o)
                          (emit-IsCounted (d ∷ []) o h))))))

-- Whatever the format and the arguments are, if the call has a result and the bytes before it were
-- counted, the number that is returned is the number of bytes that have been put.
pub doprnt-IsCounted :
    (fuel : ℕ) (config : Config) (fmt : Bytes) (args : List Arg) (o o' : Out)
    → IsCounted o
    → doprnt fuel config fmt args o ≡ some o'
    → o'.nprinted ≡ length (o'.output)
doprnt-IsCounted fuel config fmt args o o' h e =
    subst (Counts itself) e (doprnt-Counts fuel config fmt args o h)

-- A byte that the loop puts as it is.
abbrev pub IsPlain : ℕ → Type 0
IsPlain c = (not (c == b'%') && ltb c 0xC0) ≡ true

pub emit-emit : (s t : Bytes) (o : Out) → emit t (emit s o) ≡ emit (s ++ t) o
unfolding emit
emit-emit [] t o = refl
emit-emit (c ∷ s) t o = emit-emit s t (count 1 (put_byte c o))

emit-nil : (o : Out) → emit [] o ≡ o
unfolding emit
emit-nil o = refl

pub doprnt-plain :
    (pre rest : Bytes) (fuel : ℕ) (config : Config) (args : List Arg) (o : Out)
    → All IsPlain pre
    → doprnt (length pre + fuel) config (pre ++ rest) args o
      ≡ doprnt fuel config rest args (emit pre o)
unfolding doprnt
doprnt-plain [] rest fuel config args o h =
    let e : 0 + fuel ≡ fuel = omega arith in
    ap₂ (λ f o'. doprnt f config rest args o') e (sym (emit-nil o))
doprnt-plain (c ∷ pre) rest fuel config args o (e, h) =
    let same : suc (length pre) + fuel ≡ suc (length pre + fuel) = omega arith in
    ap (λ f. doprnt f config (c ∷ (pre ++ rest)) args o) same
    ∙ rw e (
        doprnt-plain pre rest fuel config args (emit (c ∷ []) o) h
        ∙ ap (doprnt fuel config rest args) (emit-emit (c ∷ []) pre o))

pub doprnt-verbatim :
    (fmt : Bytes) (config : Config) (args : List Arg) (o : Out)
    → All IsPlain fmt
    → doprnt (length fmt) config fmt args o ≡ some (emit fmt o)
unfolding doprnt
doprnt-verbatim fmt config args o h =
    let e1 : length fmt ≡ length fmt + 0 = omega arith in
    ap₂ (λ n f. doprnt n config f args o) e1 (sym (append-nil fmt))
    ∙ doprnt-plain fmt [] 0 config args o h

-- On a byte above 0xC3, as in the UTF-8 of most alphabets, the loop does not end in any number of
-- rounds.
pub doprnt-hangs :
    (fuel c : ℕ) (fmt : Bytes) (config : Config) (args : List Arg) (o : Out)
    → 0xC3 < c
    → doprnt fuel config (c ∷ fmt) args o ≡ none
unfolding doprnt
doprnt-hangs zero c fmt config args o h = refl
doprnt-hangs (suc fuel) c fmt config args o h =
    let e1 : (not (c == b'%') && ltb c 0xC0) ≡ false = ground arith in
    let e2 : ltb 0xC3 c ≡ true = ground arith in
    rw (e1, e2) (doprnt-hangs fuel c fmt config args o h)
