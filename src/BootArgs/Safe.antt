-- ===== src/BootArgs/Safe.antt =====
-- The writes of Kernel/Platform/bootargs.c stay inside a destination of `max_len` bytes, and the
-- loop over the arguments ends.
use beta_os.Prelude.{
  ℕ, zero, suc, ◌-◌, ◌/◌, ◌%◌, ◌^◌, ◌≤◌, ◌<◌, ◌≡◌, ◌≢◌, refl, ap, ◌⊎◌, inl, inr, Bool, Bool-cases,
  not, ◌&&◌, ◌||◌, true, false, Option, none, some, [], ◌∷◌, ltb, length, ◌==◌, if_case,
  if◌then◌else◌, ◌>>=◌, arith,
}
use beta_os.Prelude.Int.{is_zero}
use beta_os.Libc.Strncmp.{head, tail, strncmp}
use beta_os.BootArgs.Copy.{Bytes, isargsep, argstrlcpy, argnumcpy, store, store_field}
use beta_os.BootArgs.Number.{getval}
use beta_os.BootArgs.Parse.{Outcome, proceed, leave, copy_value, skip_name, examine_word}

-- A copy that succeeds and keeps the size of the destination.
abbrev pub Fits : Option (ℕ × Bytes) → Bytes → Type 0
Fits result to = (i : ℕ) × (to' : Bytes) × (result ≡ some (i, to')) × (length to' ≡ length to)

pub argstrlcpy-Fits :
    (from to : Bytes) (maxlen : ℕ) → maxlen < length to → Fits (argstrlcpy from to maxlen) to
unfolding argstrlcpy
argstrlcpy-Fits [] [] maxlen h = absurd (omega arith)
argstrlcpy-Fits [] (b ∷ to) maxlen h = (0, 0 ∷ to, refl, refl)
argstrlcpy-Fits (c ∷ from) [] maxlen h = absurd (omega arith)
argstrlcpy-Fits (c ∷ from) (b ∷ to) zero h = (0, 0 ∷ to, refl, refl)
argstrlcpy-Fits (c ∷ from) (b ∷ to) (suc maxlen) h =
    let (i, to', e, same) = argstrlcpy-Fits from to maxlen (omega arith) in
    elim (Bool-cases (isargsep c)) [
      | inl sep ↦ (0, 0 ∷ to, rw sep refl, refl)
      | inr other ↦ (suc i, c ∷ to', rw (other, e) refl, ap suc same)
    ]

store-fits :
    (n val : ℕ) (to : Bytes)
    → n ≤ length to
    → (to' : Bytes) × (store n val to ≡ some to') × (length to' ≡ length to)
unfolding store
store-fits zero val to h = (to, refl, refl)
store-fits (suc n) val [] h = absurd (omega arith)
store-fits (suc n) val (b ∷ to) h =
    let (to', e, same) = store-fits n (val / 2 ^ 8) to (omega arith) in
    (val % 2 ^ 8 ∷ to', rw e refl, ap suc same)

store_field-fits :
    (val : ℕ) (to : Bytes)
    → 4 ≤ length to
    → (to' : Bytes) × (store_field val to ≡ some to') × (length to' ≡ length to)
unfolding store_field
store_field-fits val [] h = absurd (omega arith)
store_field-fits val (a ∷ []) h = absurd (omega arith)
store_field-fits val (a ∷ b ∷ []) h = absurd (omega arith)
store_field-fits val (a ∷ b ∷ c ∷ []) h = absurd (omega arith)
store_field-fits val (a ∷ b ∷ c ∷ d ∷ to) h = (_, refl, refl)

-- The bytes that a destination needs: the word of the 24-bit field has four.
abbrev pub needed : ℕ → ℕ
needed max_len = if max_len == 3 then 4 else max_len

-- A number is written in at most four bytes, or in eight for a size of eight.
pub argnumcpy-Fits :
    (val : ℕ) (to : Bytes) (maxlen : ℕ)
    → needed maxlen ≤ length to
    → Fits (argnumcpy val to maxlen) to
unfolding argnumcpy
argnumcpy-Fits val to maxlen h =
    let width : ℕ =
      if maxlen == 0 || maxlen == 1 || maxlen == 2 || maxlen == 4 || maxlen == 8
      then maxlen
      else 4 in
    elim (Bool-cases (maxlen == 3)) [
      | inl field ↦
          let (to', e, same) = store_field-fits val to (ground (arith, field, h)) in
          (3, to', rw (field, e) refl, same)
      | inr other ↦
          let bound : width ≤ length to = ground (arith, other, h) in
          let (to', e, same) = store-fits width val to bound in
          (width, to', rw (other, e) refl, same)
    ]

-- An argument that is dealt with, with the destination's size kept.
abbrev pub Settles : Option Outcome → Bytes → Type 0
Settles result to =
    ((found : Bool) × (to' : Bytes) × (result ≡ some (proceed found to'))
      × (length to' ≡ length to))
    ⊎ ((to' : Bytes) × (result ≡ some (leave to')) × (length to' ≡ length to))

proceed-Settles :
    (result : Option (ℕ × Bytes)) (to : Bytes)
    → Fits result to
    → Settles (result >>= λ (_, to'). some (proceed true to')) to
proceed-Settles result to (i, to', e, same) = inl (true, to', rw e refl, same)

leave-Settles :
    (result : Option (ℕ × Bytes)) (to : Bytes)
    → Fits result to
    → Settles (result >>= λ (_, to'). some (leave to')) to
leave-Settles result to (i, to', e, same) = inr (to', rw e refl, same)

copy_value-Settles :
    (cp : Bytes) (max_len : ℕ) (to : Bytes) (value : Option ℕ)
    → needed max_len ≤ length to
    → Settles (copy_value cp max_len to value) to
unfolding copy_value
copy_value-Settles cp max_len to (some val) room =
    proceed-Settles (argnumcpy val to max_len) to (argnumcpy-Fits val to max_len room)
copy_value-Settles cp max_len to none room =
    if_case (λ r. Settles r to) (ltb 0 max_len)
      (λ e.
        let below : max_len - 1 < length to = ground (arith, e, room) in
        proceed-Settles (argstrlcpy (tail cp) to (max_len - 1)) to
          (argstrlcpy-Fits (tail cp) to (max_len - 1) below))
      (λ _. inl (true, to, refl, refl))

pub examine_word-Settles :
    (arg_string : Bytes) (max_len : ℕ) (args : Bytes) (found : Bool) (to : Bytes)
    → needed max_len ≤ length to
    → head arg_string ≢ b'_'
    → Settles (examine_word arg_string max_len args found to) to
unfolding examine_word
examine_word-Settles arg_string max_len args found to room plain =
    let P : Option Outcome → Type 0 = λ r. Settles r to in
    let cp = skip_name args in
    let i = length args - length cp in
    if_case P (not (head cp == b'=') && not (head args == b'-')) (λ _. inl (found, to, refl, refl))
      (λ _.
        if_case P (not (is_zero (strncmp args arg_string i)) || not (i == length arg_string))
          (λ _. inl (found, to, refl, refl))
          (λ _.
            if_case P (head args == b'-')
              (λ _. leave-Settles (argnumcpy 1 to max_len) to (argnumcpy-Fits 1 to max_len room))
              (λ _.
                if_case P (b'_' == head arg_string) (λ e. absurd (ground (arith, e, plain)))
                  (λ _. copy_value-Settles cp max_len to (getval cp false) room))))
