-- ===== src/DeviceTree/Entry.antt =====
-- The entry operations of Kernel/Platform/DeviceTree.c over a memory. `strcmp` is the comparison
-- of C strings that the file is linked with: a parameter, since it has two readings (Libc/Strcmp).
-- A function that walks subtrees takes fuel, and answers `none` when it runs out.
use beta_os.Prelude.{
  ℕ, zero, suc, ◌+◌, ◌-◌, Bool, not, ◌||◌, Option, none, some, [], ◌∷◌, ◌++◌, ltb, ◌==◌,
  if◌then◌else◌, ◌>>=◌,
}
use beta_os.Prelude.Int.{ℤ, is_zero}
use beta_os.DeviceTree.Memory.{
  Bytes, Addr, string_at, node_size, property_size, n_properties, n_children, prop_length,
  next_prop,
}

-- What an operation returns beside its status: `success e` for kSuccess with `e` stored through
-- the result pointer, `error` for kError with nothing stored.
pub data Reply (A : Type 0) : Type 0 where
  success : A → Reply A
  error : Reply A

-- The static variables of the file.
pub record State : Type 0 where
  pub initialized : Bool
  pub root : Addr

abbrev pub separator : ℕ
separator = b'/'

abbrev pub max_entry_name_length : ℕ
max_entry_name_length = 63

unfoldable pub init : Addr → State
init base = record { initialized = not (base == 0); root = base }

unfoldable pub entry_is_equal : Addr → Addr → Bool
entry_is_equal ref1 ref2 = ref1 == ref2

module _ (mem : Bytes) where
  unfoldable pub skip_props : ℕ → Addr → Addr
  skip_props zero prop = prop
  skip_props (suc k) prop = skip_props k (next_prop mem prop)

  unfoldable pub skip_properties : Addr → Addr
  unfolding skip_props
  skip_properties entry =
      if entry == 0 || n_properties mem entry == 0
      then 0
      else skip_props (n_properties mem entry) (entry + node_size)

  -- `for (k = 0; k < nChildren; k++) entry = skipTree(entry);`
  unfoldable pub skip_children : (Addr → Option Addr) → ℕ → Addr → Option Addr
  skip_children skip zero entry = some entry
  skip_children skip (suc k) entry = skip entry >>= skip_children skip k

  unfoldable pub skip_tree : ℕ → Addr → Option Addr
  unfolding skip_children
  skip_tree zero root = none
  skip_tree (suc fuel) root =
      let entry = skip_properties root in
      if entry == 0 then some 0 else skip_children (skip_tree fuel) (n_children mem root) entry

  unfoldable pub get_first_child : Addr → Addr
  get_first_child parent = skip_properties parent

  unfoldable pub get_next_child : ℕ → Addr → Option Addr
  get_next_child fuel sibling = skip_tree fuel sibling

-- The rest of the path, and the name in the buffer after `length` bytes are stored there.
unfoldable pub next_component : ℕ → Bytes → Bytes → Bytes × Bytes
next_component length [] buf = ([], buf)
next_component length (c ∷ cp) buf =
    if c == separator
    then (cp, buf)
    else if ltb max_entry_name_length (length + 1)
    then (c ∷ cp, [])
    else next_component (length + 1) cp (buf ++ c ∷ [])

unfoldable pub get_next_component : Bytes → Bytes × Bytes
unfolding next_component
get_next_component cp = next_component 0 cp []

-- The code points of "name".
abbrev pub name_property : Bytes
name_property = b'n' ∷ b'a' ∷ b'm' ∷ b'e' ∷ []

-- What FindChild learns of one child.
pub data Verdict : Type 0 where
  unnamed hit miss : Verdict

module _ (strcmp : Bytes → Bytes → ℤ) (mem : Bytes) where
  -- Address and length of the value of the first property whose name compares equal.
  unfoldable pub find_property : ℕ → Addr → Bytes → Reply (Addr × ℕ)
  find_property zero prop name = error
  find_property (suc k) prop name =
      if is_zero (strcmp (string_at mem prop) name)
      then success (prop + property_size, prop_length mem prop)
      else find_property k (next_prop mem prop) name

  unfoldable pub get_property : Addr → Bytes → Reply (Addr × ℕ)
  unfolding find_property
  get_property entry name =
      if entry == 0 || n_properties mem entry == 0
      then error
      else find_property (n_properties mem entry) (entry + node_size) name

  -- The tests of FindChild on what DTGetProperty says of the name of a child.
  unfoldable pub judge : Reply (Addr × ℕ) → Bytes → Verdict
  judge error buf = unnamed
  judge (success (str, _)) buf = if is_zero (strcmp (string_at mem str) buf) then hit else miss

  unfoldable pub examine : Addr → Bytes → Verdict
  unfolding judge
  examine child buf = judge (get_property child name_property) buf

  -- The loop of FindChild; `left` is `nChildren - index`.
  unfoldable pub find_child_from : ℕ → ℕ → Addr → Bytes → Option Addr
  find_child_from fuel zero child buf = elim (examine child buf) [
    | unnamed ↦ some 0
    | hit ↦ some child
    | miss ↦ some 0
  ]
  find_child_from fuel (suc left) child buf = elim (examine child buf) [
    | unnamed ↦ some 0
    | hit ↦ some child
    | miss ↦ get_next_child mem fuel child >>= λ next. find_child_from fuel left next buf
  ]

  unfoldable pub find_child : ℕ → Addr → Bytes → Option Addr
  find_child fuel cur buf =
      if n_children mem cur == 0
      then some 0
      else find_child_from fuel (n_children mem cur - 1) (get_first_child mem cur) buf

  -- The loop of DTLookupEntry, at most `rounds` times.
  unfoldable pub lookup_path : ℕ → ℕ → Addr → Bytes → Option (Reply Addr)
  lookup_path fuel zero cur cp = none
  lookup_path fuel (suc rounds) cur cp =
      let (cp', buf) = get_next_component cp in
      elim buf [
        | [] ↦ elim cp' [ [] ↦ some (success cur) | _ ↦ some error ]
        | c ∷ s ↦ find_child fuel cur (c ∷ s) >>= λ next.
            if next == 0 then some error else lookup_path fuel rounds next cp'
      ]
