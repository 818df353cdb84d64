-- ===== src/DeviceTree/Value.antt =====
-- What a property lookup of Kernel/Platform/DeviceTree.c means on a tree: the value of the first
-- property whose name passes the comparison.
use beta_os.Prelude.{
  ℕ, ◌+◌, ◌≡◌, refl, Bool, true, false, Option, none, some, List, [], ◌∷◌, ◌++◌, length, All, arith,
  if◌then◌else◌, ◌==◌, ◌||◌,
}
use beta_os.Prelude.Int.{ℤ}
use beta_os.DeviceTree.Memory.{Bytes, Addr, property_size, until_nul, string_at}
use beta_os.DeviceTree.Entry.{Reply, success, error, get_property}
use beta_os.DeviceTree.Tree.{
  Property, IsProperty, Tree, properties, encode_property, encode_properties, At, Holds,
}
use beta_os.DeviceTree.Layout.{At-skip, At-front, At-value}
use beta_os.DeviceTree.Node.{IsTree-properties, At-properties}
use beta_os.DeviceTree.Properties.{first_property, equals, get_property-first}

unfoldable pub value_of : (Bytes → Bool) → List Property → Option Bytes
value_of test [] = none
value_of test (x ∷ xs) = if test x.name then some x.value else value_of test xs

-- A reply agrees with the value that a tree gives: no value, or the value's bytes at the address,
-- with their number.
abbrev pub Found : Bytes → Reply (Addr × ℕ) → Option Bytes → Type 0
Found mem error none = Unit
Found mem (success (q, n)) (some v) = (n ≡ length v) × At mem q v
Found mem _ _ = ⊥

module _ (test : Bytes → Bool) {mem : Bytes} where
  first_property-Found :
      (ps : List Property) {p : Addr}
      → All IsProperty ps
      → At mem p (encode_properties ps)
      → Found mem (first_property test p ps) (value_of test ps)
  unfolding first_property value_of encode_properties
  first_property-Found [] ok a = tt
  first_property-Found (x ∷ ps) {p} ok a =
      let v =
        At-front x.value x.value_slack
          (At-value ok.0 (At-front (encode_property x) (encode_properties ps) a)) in
      let rest = first_property-Found ps ok.1 (At-skip (encode_property x) a) in
      elim (test x.name)
        as (λ b.
          Found mem
            (if b
              then success (p + property_size, length x.value)
              else first_property test (p + length (encode_property x)) ps)
            (if b then some x.value else value_of test ps)) [ true ↦ (refl, v) | false ↦ rest ]

-- For any comparison, DTGetProperty fails if no property of the tree has a name that compares
-- equal, and else returns the address and the size of the value of the first such property.
pub get_property-Found :
    (strcmp : Bytes → Bytes → ℤ) {mem : Bytes} (name : Bytes) {e : Addr} {t : Tree}
    → Holds mem e t
    → Found mem (get_property strcmp mem e name) (value_of (equals strcmp name) (properties t))
get_property-Found strcmp name {t} h = rw (get_property-first strcmp name h) (
    first_property-Found (equals strcmp name) (properties t) (IsTree-properties h.is_tree)
      (At-properties h))

unfoldable pub has_nul : Bytes → Bool
has_nul [] = false
has_nul (c ∷ s) = c == 0 || has_nul s

until_nul-front : (xs ys : Bytes) → has_nul xs ≡ true → until_nul (xs ++ ys) ≡ until_nul xs
unfolding until_nul has_nul
until_nul-front [] ys h = cc
until_nul-front (x ∷ xs) ys h = ground (arith, until_nul-front xs ys)

pub string_at-value :
    {mem : Bytes} {q : Addr} (v : Bytes)
    → At mem q v
    → has_nul v ≡ true
    → string_at mem q ≡ until_nul v
unfolding string_at
string_at-value v a h = rw (a.holds) (until_nul-front v a.rest h)
