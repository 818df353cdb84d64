-- ===== src/Libc/Printf/Layout.antt =====
-- The output of `__doprnt` of Libc/Libc/stdio/printf.c: its layout, its count, and formats that it
-- does not get through.
use beta_os.Prelude.{
  ℕ, zero, suc, ◌+◌, ◌-◌, ◌≡◌, refl, ap, ◌∙◌, ◌⊎◌, inl, inr, Bool, true, false, not, ◌&&◌, [], ◌++◌,
  length, length-append, replicate, ltb, ◌==◌, if◌then◌else◌, arith,
}
use beta_os.Libc.Printf.Digits.{Bytes}
use beta_os.Libc.Printf.Format.{Spec}
use beta_os.Libc.Printf.Convert.{layout, prefix, sign}

length-replicate : (n c : ℕ) → length (replicate n c) ≡ n
length-replicate zero c = refl
length-replicate (suc n) c = ap suc (length-replicate n c)

-- The larger of two numbers.
abbrev pub larger : ℕ → ℕ → ℕ
larger a b = if ltb a b then b else a

length-layout_parts :
    (a b c d e f : Bytes)
    → length (a ++ (b ++ (c ++ (d ++ (e ++ f)))))
      ≡ length a + length b + length c + length d + length e + length f
length-layout_parts a b c d e f = omega (
  arith,
  length-append a (b ++ (c ++ (d ++ (e ++ f)))),
  length-append b (c ++ (d ++ (e ++ f))),
  length-append c (d ++ (e ++ f)),
  length-append d (e ++ f),
  length-append e f,
)

abbrev when : Bool → ℕ → ℕ
when b n = if b then n else 0

padding_lem : (b : Bool) (n c : ℕ) → length (if b then replicate n c else []) ≡ when b n
padding_lem true n c = length-replicate n c
padding_lem false n c = refl

sum_lem :
    (padc width s p d : ℕ) (ladjust : Bool)
    → (padc ≡ b' ') ⊎ (padc ≡ b'0')
    → when (padc == b' ' && not ladjust) (width - d - s - p)
        + s
        + p
        + when (padc == b'0') (width - d - s - p)
        + d
        + when (ladjust && not (padc == b'0')) (width - d - s - p)
      ≡ larger width (s + p + d)
sum_lem padc width s p d true (inl e) = rw e (ground arith)
sum_lem padc width s p d true (inr e) = rw e (ground arith)
sum_lem padc width s p d false (inl e) = rw e (ground arith)
sum_lem padc width s p d false (inr e) = rw e (ground arith)

-- A number is padded to the width of its specification exactly, with blanks before or behind it or
-- with zeros, and is not cut if it is wider, for both kinds of padding that a specification can set.
pub length-layout :
    (spec : Spec) (sign_char : ℕ) (prefix digits : Bytes)
    → (spec.padc ≡ b' ') ⊎ (spec.padc ≡ b'0')
    → length (layout spec sign_char prefix digits)
      ≡ larger (spec.length) (length (sign sign_char) + length prefix + length digits)
unfolding layout
length-layout spec sign_char prefix digits pad =
    let room = spec.length - length digits - length (sign sign_char) - length prefix in
    let b1 = spec.padc == b' ' && not (spec.ladjust) in
    let b2 = spec.padc == b'0' in
    let b3 = spec.ladjust && not (spec.padc == b'0') in
    let before = if b1 then replicate room b' ' else [] in
    let zeros = if b2 then replicate room b'0' else [] in
    let after = if b3 then replicate room b' ' else [] in
    let total = length-layout_parts before (sign sign_char) prefix zeros digits after in
    let e1 = padding_lem b1 room b' ' in
    let e2 = padding_lem b2 room b'0' in
    let e3 = padding_lem b3 room b' ' in
    total
    ∙ rw (e1, e2, e3)
        (sum_lem (spec.padc) (spec.length) (length (sign sign_char)) (length prefix) (length digits)
          (spec.ladjust) pad)
