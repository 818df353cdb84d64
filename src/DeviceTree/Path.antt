-- ===== src/DeviceTree/Path.antt =====
-- GetNextComponent: how a path of names is taken apart.
use beta_os.Prelude.{
  ℕ, ◌+◌, ◌≤◌, ◌<◌, ◌≡◌, ◌≢◌, refl, List, [], ◌∷◌, ◌++◌, length, All, arith, append_assoc,
  append-nil, length-append,
}
use native.Mathlib.Decide.{dec_lt}
use beta_os.DeviceTree.Memory.{Bytes}
use beta_os.DeviceTree.Entry.{separator, max_entry_name_length, next_component, get_next_component}

-- A name that fits the buffer of a component.
pub record IsComponent (n : Bytes) : Type 0 where
  pub nonempty : 0 < length n
  pub fits : length n ≤ max_entry_name_length
  pub plain : All (λ c. c ≢ separator) n

-- The names, with a separator between each two.
abbrev pub path_of : List Bytes → Bytes
path_of [] = []
path_of (n ∷ []) = n
path_of (n ∷ m ∷ ns) = n ++ (separator ∷ path_of (m ∷ ns))

next_component-end :
    (n : Bytes) (k : ℕ) (buf : Bytes)
    → k + length n ≤ max_entry_name_length
    → All (λ c. c ≢ separator) n
    → next_component k n buf ≡ ([], buf ++ n)
unfolding next_component
next_component-end [] k buf fits plain = rw append-nil
next_component-end (c ∷ n) k buf fits plain = ground (
  arith,
  next_component-end n (k + 1) (buf ++ c ∷ []) (omega arith) plain.1,
  append_assoc buf (c ∷ []) n,
)

next_component-separator :
    (n rest : Bytes) (k : ℕ) (buf : Bytes)
    → k + length n ≤ max_entry_name_length
    → All (λ c. c ≢ separator) n
    → next_component k (n ++ (separator ∷ rest)) buf ≡ (rest, buf ++ n)
unfolding next_component
next_component-separator [] rest k buf fits plain = rw append-nil
next_component-separator (c ∷ n) rest k buf fits plain = ground (
  arith,
  next_component-separator n rest (k + 1) (buf ++ c ∷ []) (omega arith) plain.1,
  append_assoc buf (c ∷ []) n,
)

-- The first name of a path and the path of the others.
pub get_next_component-path_of :
    (n : Bytes) (ns : List Bytes)
    → IsComponent n
    → get_next_component (path_of (n ∷ ns)) ≡ (path_of ns, n)
unfolding get_next_component
get_next_component-path_of n [] ok = next_component-end n 0 [] (omega (arith, ok.fits)) ok.plain
get_next_component-path_of n (m ∷ ns) ok =
    next_component-separator n (path_of (m ∷ ns)) 0 [] (omega (arith, ok.fits)) ok.plain

-- A name that is too long empties the buffer, and something of the path is left.
next_component-long :
    (n rest : Bytes) (k : ℕ) (buf : Bytes)
    → max_entry_name_length < k + length n
    → k ≤ max_entry_name_length
    → All (λ c. c ≢ separator) n
    → (c : ℕ) × (s : Bytes) × (next_component k (n ++ rest) buf ≡ (c ∷ s, []))
unfolding next_component
next_component-long [] rest k buf long fits plain = absurd (omega arith)
next_component-long (c ∷ n) rest k buf long fits plain = elim (dec_lt k max_entry_name_length) [
  | yes p ↦
      let more =
        next_component-long n rest (k + 1) (buf ++ c ∷ []) (omega arith) (omega arith) plain.1 in
      (more.0, more.1, ground (arith, more.2))
  | no p ↦ (c, n ++ rest, ground arith)
]

-- GetNextComponent on a path whose first name does not fit.
pub get_next_component-long :
    (n rest : Bytes)
    → max_entry_name_length < length n
    → All (λ c. c ≢ separator) n
    → (c : ℕ) × (s : Bytes) × (get_next_component (n ++ rest) ≡ (c ∷ s, []))
unfolding get_next_component
get_next_component-long n rest long plain =
    next_component-long n rest 0 [] (omega arith) (omega arith) plain

pub length-path_of : (ns : List Bytes) → All IsComponent ns → length ns ≤ length (path_of ns)
length-path_of [] ok = omega arith
length-path_of (n ∷ []) ok = omega (arith, ok.0.nonempty)
length-path_of (n ∷ m ∷ ns) ok =
    omega (arith, length-append n (separator ∷ path_of (m ∷ ns)), length-path_of (m ∷ ns) ok.1)

-- A path of names begins with a byte that is no separator.
pub path_of-start :
    (n : Bytes) (ns : List Bytes)
    → IsComponent n
    → (c : ℕ) × (s : Bytes) × (path_of (n ∷ ns) ≡ c ∷ s) × (c ≢ separator)
path_of-start [] ns ok = absurd (omega (arith, ok.nonempty))
path_of-start (c ∷ s) [] ok = (c, s, refl, ok.plain.0)
path_of-start (c ∷ s) (m ∷ ns) ok = (c, s ++ (separator ∷ path_of (m ∷ ns)), refl, ok.plain.0)
