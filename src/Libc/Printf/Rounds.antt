-- ===== src/Libc/Printf/Rounds.antt =====
-- The rounds of the loop of `__doprnt` of Libc/Libc/stdio/printf.c: every specification is left
-- behind where it was read, so each round is on a shorter format.
use beta_os.Prelude.{
  ℕ, zero, suc, ◌+◌, ◌-◌, ◌*◌, ◌≤◌, ◌<◌, ◌≡◌, refl, Bool, true, false, not, ◌&&◌, ◌||◌, Option,
  none, some, List, [], ◌∷◌, length, ltb, ◌==◌, if◌then◌else◌, if_case, ◌>>=◌, arith, All,
}
use beta_os.Libc.Strncmp.{head, tail}
use beta_os.Libc.Printf.Digits.{Bytes}
use beta_os.Libc.Printf.Format.{
  Spec, Arg, flag, isdigit, initial, take_number, read_spec, read_flags, read_padc, read_length,
  read_prec, read_size, read_digits,
}
use beta_os.Libc.Printf.Convert.{Out, Config, emit, specification, convert, doprnt, or_c0}

-- A property of the format in a result.
abbrev pub Keeps {ℓ} : {A : Type ℓ} → (Bytes → Type 0) → (A → Bytes) → Option A → Type 0
Keeps P f none = Unit
Keeps P f (some a) = P (f a)

Keeps-bind {ℓ κ} :
    {A : Type ℓ} {B : Type κ} (P : Bytes → Type 0) (e : A → Bytes) (f : B → Bytes) (r : Option A)
    (g : A → Option B)
    → Keeps P e r
    → ((a : A) → P (e a) → Keeps P f (g a))
    → Keeps P f (r >>= g)
Keeps-bind P e f none g k h = tt
Keeps-bind P e f (some a) g k h = h a k

Keeps-any {ℓ κ} :
    {A : Type ℓ} {B : Type κ} (P : Bytes → Type 0) (f : B → Bytes) (r : Option A) (g : A → Option B)
    → ((a : A) → Keeps P f (g a))
    → Keeps P f (r >>= g)
Keeps-any P f none g h = tt
Keeps-any P f (some a) g h = h a

abbrev middle : Spec × Bytes × List Arg → Bytes
middle r = r.1

abbrev pub rest_of : Out × Bytes × List Arg → Bytes
rest_of r = r.1

-- Two conclusions of a round that agree on every way to go on.
bind-agree {ℓ κ} :
    {A : Type ℓ} {B : Type κ} (P : Bytes → Type 0) (f : A → Bytes) (r : Option A)
    (g g' : A → Option B)
    → Keeps P f r
    → ((a : A) → P (f a) → g a ≡ g' a)
    → r >>= g ≡ r >>= g'
bind-agree P f none g g' k h = refl
bind-agree P f (some a) g g' k h = h a k

-- What the format keeps as it is read.
module _ (P : Bytes → Type 0) (closed : (s : Bytes) → P s → P (tail s)) where
  read_flags-Keeps : (fmt : Bytes) (s : Spec) → P fmt → P ((read_flags fmt s).1)
  unfolding read_flags
  read_flags-Keeps [] s h = h
  read_flags-Keeps (c ∷ fmt) s h =
      elim (flag c s)
        as (λ o. P (
          (elim o as (λ _. Spec × Bytes) [
            | none ↦ (s, c ∷ fmt)
            | some s' ↦ read_flags fmt s'
          ]).1)) [ none ↦ h | some s' ↦ read_flags-Keeps fmt s' (closed (c ∷ fmt) h) ]

  read_digits-Keeps : (fmt : Bytes) (v : ℕ) → P fmt → P ((read_digits fmt v).1)
  unfolding read_digits
  read_digits-Keeps [] v h = h
  read_digits-Keeps (c ∷ fmt) v h =
      if_case {A = ℕ × Bytes} (λ r. P (r.1)) (isdigit c)
        (λ _. read_digits-Keeps fmt (10 * v + (c - b'0')) (closed (c ∷ fmt) h)) (λ _. h)

  read_padc-Keeps : (r : Spec × Bytes) → P (r.1) → P ((read_padc r).1)
  unfolding read_padc
  read_padc-Keeps r h =
      if_case {A = Spec × Bytes} (λ r. P (r.1)) (head (r.1) == b'0') (λ _. closed (r.1) h) (λ _. h)

  read_length-Keeps :
      (r : Spec × Bytes) (args : List Arg) → P (r.1) → Keeps P middle (read_length r args)
  unfolding read_length
  read_length-Keeps r args h =
      if_case (Keeps P middle) (isdigit (head (r.1))) (λ _. read_digits-Keeps (r.1) 0 h)
        (λ _.
          if_case (Keeps P middle) (head (r.1) == b'*')
            (λ _. Keeps-any P middle (take_number args) _ (λ p. closed (r.1) h)) (λ _. h))

  read_prec-Keeps : (r : Spec × Bytes × List Arg) → P (r.1) → Keeps P middle (read_prec r)
  unfolding read_prec
  read_prec-Keeps r h =
      let h' = closed (r.1) h in
      if_case (Keeps P middle) (not (head (r.1) == b'.')) (λ _. h)
        (λ _.
          if_case (Keeps P middle) (isdigit (head (tail (r.1))))
            (λ _. read_digits-Keeps (tail (r.1)) 0 h')
            (λ _.
              if_case (Keeps P middle) (head (tail (r.1)) == b'*')
                (λ _. Keeps-any P middle (take_number (r.2)) _ (λ p. closed (tail (r.1)) h'))
                (λ _. h')))

  read_size-Keeps : (r : Spec × Bytes × List Arg) → P (r.1) → P ((read_size r).1)
  unfolding read_size
  read_size-Keeps r h =
      let h' = closed (r.1) h in
      let Q : Spec × Bytes × List Arg → Type 0 = λ r'. P (r'.1) in
      if_case Q (head (r.1) == b'l')
        (λ _. if_case P (head (tail (r.1)) == b'l') (λ _. closed (tail (r.1)) h') (λ _. h'))
        (λ _. if_case Q (head (r.1) == b'q' || head (r.1) == b'L') (λ _. h') (λ _. h))

  read_spec-Keeps : (fmt : Bytes) (args : List Arg) → P fmt → Keeps P middle (read_spec fmt args)
  unfolding read_spec
  read_spec-Keeps fmt args h =
      let r = read_padc (read_flags fmt initial) in
      let h1 = read_padc-Keeps (read_flags fmt initial) (read_flags-Keeps fmt initial h) in
      Keeps-bind P middle middle (read_length r args)
        (λ r'. read_prec r' >>= λ r''. some (read_size r'')) (read_length-Keeps r args h1)
        (λ r' h2.
          Keeps-bind P middle middle (read_prec r') (λ r''. some (read_size r''))
            (read_prec-Keeps r' h2) (λ r'' h3. read_size-Keeps r'' h3))

  pub specification-Keeps :
      (config : Config) (fmt : Bytes) (args : List Arg) (o : Out)
      → P fmt
      → Keeps P rest_of (specification config fmt args o)
  unfolding specification
  specification-Keeps config fmt args o h =
      Keeps-bind P middle rest_of (read_spec fmt args)
        (λ r. convert config (head (r.1)) (r.0) (r.2) o >>= λ (o', args'').
          some (o', tail (r.1), args''))
        (read_spec-Keeps fmt args h)
        (λ r h'.
          Keeps-any P rest_of (convert config (head (r.1)) (r.0) (r.2) o) _ (λ p. closed (r.1) h'))

-- A format that every round makes shorter: no byte is above 0xC3.
abbrev pub IsRead : ℕ → Type 0
IsRead c = c < 0xC4

-- What is kept of such a format: it is no longer than at the start.
abbrev Left : ℕ → Bytes → Type 0
Left n s = (length s ≤ n) × All IsRead s

Left-tail : (n : ℕ) (s : Bytes) → Left n s → Left n (tail s)
Left-tail n [] h = h
Left-tail n (c ∷ s) (h, (lt, all)) = (omega arith, all)

if_agree {ℓ} :
    {A : Type ℓ} (b : Bool) {x x' y y' : A}
    → (b ≡ true → x ≡ x')
    → (b ≡ false → y ≡ y')
    → (if b then x else y) ≡ (if b then x' else y')
if_agree true t f = t refl
if_agree false t f = f refl

-- Two numbers of rounds that are both enough lead to the same end.
doprnt-agree :
    (fuel fuel' : ℕ) (config : Config) (fmt : Bytes) (args : List Arg) (o : Out)
    → All IsRead fmt
    → length fmt ≤ fuel
    → length fmt ≤ fuel'
    → doprnt fuel config fmt args o ≡ doprnt fuel' config fmt args o
unfolding doprnt
doprnt-agree fuel fuel' config [] args o read h h' = refl
doprnt-agree zero fuel' config (c ∷ fmt) args o read h h' = absurd (omega arith)
doprnt-agree (suc fuel) zero config (c ∷ fmt) args o read h h' = absurd (omega arith)
doprnt-agree (suc fuel) (suc fuel') config (c ∷ fmt) args o (lt, read) h h' =
    let P = Left (length fmt) in
    let left : P fmt = (omega arith, read) in
    let below = Left-tail (length fmt) in
    let agree : (s : Bytes) (args' : List Arg) (o' : Out)
        → P s
        → doprnt fuel config s args' o' ≡ doprnt fuel' config s args' o' =
      λ s args' o' l.
        let short = l.0 in
        doprnt-agree fuel fuel' config s args' o' (l.1) (omega arith) (omega arith) in
    let conversion = λ (s : Bytes) (l : P s).
      bind-agree P rest_of (specification config s args o)
        (λ (o', rest, args'). doprnt fuel config rest args' o')
        (λ (o', rest, args'). doprnt fuel' config rest args' o')
        (specification-Keeps P below config s args o l) (λ r l'. agree (r.1) (r.2) (r.0) l') in
    let d = if c == 0xC2 then head fmt else or_c0 (head fmt) in
    if_agree (not (c == b'%') && ltb c 0xC0) (λ _. agree fmt args (emit (c ∷ []) o) left)
      (λ _.
        if_agree (ltb 0xC3 c) (λ e. absurd (ground (arith, e, lt)))
          (λ _.
            if_agree (c == b'%' || c == 0xC0) (λ _. conversion fmt left)
              (λ _.
                if_agree (head fmt == 0) (λ _. refl)
                  (λ _.
                    if_agree (c == 0xC1) (λ _. conversion (tail fmt) (below fmt left))
                      (λ _. agree (tail fmt) args (emit (d ∷ []) o) (below fmt left))))))

-- On a format without bytes above 0xC3, more rounds than one for each byte of it change nothing,
-- whatever the arguments are.
pub doprnt-rounds :
    (more : ℕ) (config : Config) (fmt : Bytes) (args : List Arg) (o : Out)
    → All IsRead fmt
    → doprnt (length fmt + more) config fmt args o ≡ doprnt (length fmt) config fmt args o
doprnt-rounds more config fmt args o read =
    doprnt-agree (length fmt + more) (length fmt) config fmt args o read (omega arith) (omega arith)
