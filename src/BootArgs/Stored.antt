-- ===== src/BootArgs/Stored.antt =====
-- What `argnumcpy` of Kernel/Platform/bootargs.c leaves in its destination.
use beta_os.Prelude.{
  ℕ, zero, suc, ◌+◌, ◌*◌, ◌/◌, ◌%◌, ◌^◌, ◌<◌, ap, ap₂, sym, ◌∙◌, subst, inl, inr, Bool-cases, ◌≤◌,
  ◌≡◌, refl, ◌||◌, true, false, some, [], ◌∷◌, length, ◌==◌, if◌then◌else◌, arith,
}
use native.Mathlib.Nat.{mod-lt, mod-eq_of_lt, add-mul-mod_self_left, div-add-mod}
use beta_os.BootArgs.Copy.{Bytes, argnumcpy, store, store_field}

-- The size of the object that a number is written to: one of the sizes that the code knows, or 4.
abbrev pub object_size : ℕ → ℕ
object_size n = if n == 1 || n == 2 || n == 3 || n == 8 || n == 0 then n else 4

pow_pos : (n : ℕ) → 0 < 2 ^ n
pow_pos zero = omega arith
pow_pos (suc n) = omega (arith, pow_pos n)

pow_eight : (n : ℕ) → 2 ^ suc (suc (suc (suc (suc (suc (suc (suc n))))))) ≡ 2 ^ 8 * 2 ^ n
pow_eight n = omega arith

power_lem : (n : ℕ) → 2 ^ (8 * suc n) ≡ 2 ^ 8 * 2 ^ (8 * n)
power_lem n = ap (λ k. 2 ^ k) same ∙ pow_eight (8 * n)
  where
    same : 8 * suc n ≡ suc (suc (suc (suc (suc (suc (suc (suc (8 * n))))))))
    same = omega arith

whole_lem :
    (val p : ℕ) → val % 2 ^ 8 + 2 ^ 8 * (val / 2 ^ 8 % p) + 2 ^ 8 * p * (val / 2 ^ 8 / p) ≡ val
whole_lem val p =
    let e : p * (val / 2 ^ 8 / p) + val / 2 ^ 8 % p ≡ val / 2 ^ 8 = div-add-mod (val / 2 ^ 8) p in
    let g : 2 ^ 8 * p * (val / 2 ^ 8 / p) ≡ 2 ^ 8 * (p * (val / 2 ^ 8 / p)) = grind arith in
    omega (arith, e, g)

-- The number in the first `n` bytes, the lowest first, and what stands behind them.
abbrev pub number_at : ℕ → Bytes → ℕ
number_at zero s = 0
number_at (suc n) [] = 0
number_at (suc n) (b ∷ s) = b + 2 ^ 8 * number_at n s

abbrev pub behind : ℕ → Bytes → Bytes
behind zero s = s
behind (suc n) [] = []
behind (suc n) (b ∷ s) = behind n s

-- A destination that holds the lowest `n` bytes of a value, and is otherwise as before.
pub record Holds (n val : ℕ) (to to' : Bytes) : Type 0 where
  pub number : number_at n to' ≡ val % 2 ^ (8 * n)
  pub others : behind n to' ≡ behind n to

bytes_lem : (val n : ℕ) → val % 2 ^ 8 + 2 ^ 8 * (val / 2 ^ 8 % 2 ^ (8 * n)) ≡ val % 2 ^ (8 * suc n)
bytes_lem val n =
    let p = 2 ^ (8 * n) in
    let q = val / 2 ^ 8 in
    let low = val % 2 ^ 8 + 2 ^ 8 * (q % p) in
    let power : 2 ^ (8 * suc n) ≡ 2 ^ 8 * p = power_lem n in
    let positive : 0 < p = pow_pos (8 * n) in
    let below : low < 2 ^ 8 * p = omega (arith, mod-lt q positive) in
    let whole : low + 2 ^ 8 * p * (q / p) ≡ val = whole_lem val p in
    sym (mod-eq_of_lt below)
    ∙ (sym (add-mul-mod_self_left low (2 ^ 8 * p) (q / p)) ∙ ap₂ (λ m k. m % k) whole (sym power))

store-Holds :
    (n val : ℕ) (to : Bytes)
    → n ≤ length to
    → (to' : Bytes) × (store n val to ≡ some to') × Holds n val to to'
unfolding store
store-Holds zero val to h = (to, refl, record { number = omega arith; others = refl })
store-Holds (suc n) val [] h = absurd (omega arith)
store-Holds (suc n) val (b ∷ to) h =
    let (to', e, k) = store-Holds n (val / 2 ^ 8) to (omega arith) in
    (
      val % 2 ^ 8 ∷ to',
      rw e refl,
      record {
        number = ap (λ m. val % 2 ^ 8 + 2 ^ 8 * m) (k.number) ∙ bytes_lem val n;
        others = k.others;
      },
    )

store_field-Holds :
    (val : ℕ) (to : Bytes)
    → 4 ≤ length to
    → (to' : Bytes) × (store_field val to ≡ some to') × Holds 3 val to to'
unfolding store_field
store_field-Holds val [] h = absurd (omega arith)
store_field-Holds val (a ∷ []) h = absurd (omega arith)
store_field-Holds val (a ∷ b ∷ []) h = absurd (omega arith)
store_field-Holds val (a ∷ b ∷ c ∷ []) h = absurd (omega arith)
store_field-Holds val (a ∷ b ∷ c ∷ d ∷ to) h =
    (_, refl, record { number = omega arith; others = refl })

argnumcpy-field :
    (val max_len : ℕ) (to to' : Bytes)
    → (max_len == 3) ≡ true
    → store_field val to ≡ some to'
    → argnumcpy val to max_len ≡ some (3, to')
unfolding argnumcpy
argnumcpy-field val max_len to to' field e = rw (field, e) refl

argnumcpy-number :
    (val max_len width : ℕ) (to to' : Bytes)
    → (max_len == 3) ≡ false
    → (if max_len == 0 || max_len == 1 || max_len == 2 || max_len == 4 || max_len == 8
        then max_len
        else 4)
      ≡ width
    → store width val to ≡ some to'
    → argnumcpy val to max_len ≡ some (width, to')
unfolding argnumcpy
argnumcpy-number val max_len width to to' other same e = rw (other, same, e) refl

pub argnumcpy-Holds :
    (val max_len : ℕ) (to : Bytes)
    → (if max_len == 3 then 4 else object_size max_len) ≤ length to
    → (to' : Bytes) × (argnumcpy val to max_len ≡ some (object_size max_len, to'))
      × Holds (object_size max_len) val to to'
argnumcpy-Holds val max_len to room = elim (Bool-cases (max_len == 3)) [
  | inl field ↦
      let three : 3 ≡ object_size max_len = ground (arith, field) in
      let (to', e, k) = store_field-Holds val to (ground (arith, field, room)) in
      (
        to',
        argnumcpy-field val max_len to to' field e ∙ ap (λ n. some (n, to')) three,
        subst (λ n. Holds n val to to') three k,
      )
  | inr other ↦
      let (to', e, k) = store-Holds (object_size max_len) val to (ground (arith, other, room)) in
      (
        to',
        argnumcpy-number val max_len (object_size max_len) to to' other (ground (arith, other)) e,
        k,
      )
]
