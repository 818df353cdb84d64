-- ===== src/Libc/Printf/Digits.antt =====
-- The digits of a number in `printnum` and `__doprnt` of Libc/Libc/stdio/printf.c.
use beta_os.Prelude.{
  ℕ, zero, suc, ◌+◌, ◌-◌, ◌/◌, ◌%◌, ◌<◌, ◌≡◌, refl, Option, none, some, List, [], ◌∷◌, map, get_or,
  ltb, ◌==◌, if◌then◌else◌, ◌>>=◌, arith, ◌⊎◌, inl, inr,
}

abbrev pub Bytes : Type 0
Bytes = List ℕ

-- "0123456789abcdef0123456789ABCDEF"
abbrev pub digit_chars : Bytes
digit_chars =
    b'0' ∷ b'1' ∷ b'2' ∷ b'3' ∷ b'4' ∷ b'5' ∷ b'6' ∷ b'7' ∷ b'8' ∷ b'9' ∷ b'a' ∷ b'b' ∷ b'c' ∷ b'd'
    ∷ b'e' ∷ b'f' ∷ b'0' ∷ b'1' ∷ b'2' ∷ b'3' ∷ b'4' ∷ b'5' ∷ b'6' ∷ b'7' ∷ b'8' ∷ b'9' ∷ b'A'
    ∷ b'B' ∷ b'C' ∷ b'D' ∷ b'E' ∷ b'F' ∷ []

abbrev pub digit_char : ℕ → Option ℕ
digit_char i = get_or (map some digit_chars) i none

-- MAXBUF
abbrev pub max_buf : ℕ
max_buf = 64

-- The `do` loop that fills the buffer from its end, with `room` bytes left of it; `none` is a
-- write before the buffer or a read behind the digits.
unfoldable pub fill_digits : ℕ → ℕ → ℕ → ℕ → Bytes → Option Bytes
fill_digits zero base capitals u buf = none
fill_digits (suc room) base capitals u buf = digit_char (u % base + capitals) >>= λ c.
    let rest = fill_digits room base capitals (u / base) (c ∷ buf) in
    if u / base == 0 then some (c ∷ buf) else rest

-- The digits of `u` in the base, the first digit first.
unfoldable pub number_chars : ℕ → ℕ → ℕ → Option Bytes
number_chars base capitals u = fill_digits max_buf base capitals u []

-- A digit as a character, in lower case or in capitals.
abbrev pub char_of : ℕ → ℕ → ℕ
char_of capitals d =
    if ltb d 10 then d + b'0' else if capitals == 0 then d + (b'a' - 10) else d + (b'A' - 10)

digit_char-lower : (d : ℕ) → d < 16 → digit_char (d + 0) ≡ some (char_of 0 d)
digit_char-lower zero h = refl
digit_char-lower (suc zero) h = refl
digit_char-lower (suc (suc zero)) h = refl
digit_char-lower (suc (suc (suc zero))) h = refl
digit_char-lower (suc (suc (suc (suc zero)))) h = refl
digit_char-lower (suc (suc (suc (suc (suc zero))))) h = refl
digit_char-lower (suc (suc (suc (suc (suc (suc zero)))))) h = refl
digit_char-lower (suc (suc (suc (suc (suc (suc (suc zero))))))) h = refl
digit_char-lower (suc (suc (suc (suc (suc (suc (suc (suc zero)))))))) h = refl
digit_char-lower (suc (suc (suc (suc (suc (suc (suc (suc (suc zero))))))))) h = refl
digit_char-lower (suc (suc (suc (suc (suc (suc (suc (suc (suc (suc zero)))))))))) h = refl
digit_char-lower (suc (suc (suc (suc (suc (suc (suc (suc (suc (suc (suc zero))))))))))) h = refl
digit_char-lower (suc (suc (suc (suc (suc (suc (suc (suc (suc (suc (suc (suc zero)))))))))))) h =
    refl
digit_char-lower (suc (suc (suc (suc (suc (suc (suc (suc (suc (suc (suc (suc (suc zero)))))))))))))
      h =
    refl
digit_char-lower
      (suc (suc (suc (suc (suc (suc (suc (suc (suc (suc (suc (suc (suc (suc zero)))))))))))))) h =
    refl
digit_char-lower
      (suc (suc (suc (suc (suc (suc (suc (suc (suc (suc (suc (suc (suc (suc (suc zero)))))))))))))))
      h =
    refl
digit_char-lower
      (suc
        (suc (suc (suc (suc (suc (suc (suc (suc (suc (suc (suc (suc (suc (suc (suc d))))))))))))))))
      h =
    absurd (omega arith)

digit_char-upper : (d : ℕ) → d < 16 → digit_char (d + 16) ≡ some (char_of 16 d)
digit_char-upper zero h = refl
digit_char-upper (suc zero) h = refl
digit_char-upper (suc (suc zero)) h = refl
digit_char-upper (suc (suc (suc zero))) h = refl
digit_char-upper (suc (suc (suc (suc zero)))) h = refl
digit_char-upper (suc (suc (suc (suc (suc zero))))) h = refl
digit_char-upper (suc (suc (suc (suc (suc (suc zero)))))) h = refl
digit_char-upper (suc (suc (suc (suc (suc (suc (suc zero))))))) h = refl
digit_char-upper (suc (suc (suc (suc (suc (suc (suc (suc zero)))))))) h = refl
digit_char-upper (suc (suc (suc (suc (suc (suc (suc (suc (suc zero))))))))) h = refl
digit_char-upper (suc (suc (suc (suc (suc (suc (suc (suc (suc (suc zero)))))))))) h = refl
digit_char-upper (suc (suc (suc (suc (suc (suc (suc (suc (suc (suc (suc zero))))))))))) h = refl
digit_char-upper (suc (suc (suc (suc (suc (suc (suc (suc (suc (suc (suc (suc zero)))))))))))) h =
    refl
digit_char-upper (suc (suc (suc (suc (suc (suc (suc (suc (suc (suc (suc (suc (suc zero)))))))))))))
      h =
    refl
digit_char-upper
      (suc (suc (suc (suc (suc (suc (suc (suc (suc (suc (suc (suc (suc (suc zero)))))))))))))) h =
    refl
digit_char-upper
      (suc (suc (suc (suc (suc (suc (suc (suc (suc (suc (suc (suc (suc (suc (suc zero)))))))))))))))
      h =
    refl
digit_char-upper
      (suc
        (suc (suc (suc (suc (suc (suc (suc (suc (suc (suc (suc (suc (suc (suc (suc d))))))))))))))))
      h =
    absurd (omega arith)

pub digit_char-char_of :
    (d capitals : ℕ)
    → d < 16
    → (capitals ≡ 0) ⊎ (capitals ≡ 16)
    → digit_char (d + capitals) ≡ some (char_of capitals d)
digit_char-char_of d capitals h (inl e) = rw e (digit_char-lower d h)
digit_char-char_of d capitals h (inr e) = rw e (digit_char-upper d h)
