-- ===== src/DeviceTree/Linked.antt =====
-- DTGetProperty with the `strcmp` of Libc.
use beta_os.Prelude.{
  ◌<◌, ◌≡◌, refl, ap, ◌∙◌, Bool, true, false, not, some, List, [], ◌∷◌, length, All, arith,
}
use beta_os.Prelude.Int.{ℤ, is_zero}
use beta_os.Libc.Strcmp.{strcmp, string_eq, int_of, strcmp-string_eq}
use beta_os.DeviceTree.Memory.{Bytes, Addr}
use beta_os.DeviceTree.Entry.{get_property}
use beta_os.DeviceTree.Tree.{Property, IsProperty, Tree, properties, Holds}
use beta_os.DeviceTree.Node.{IsTree-properties}
use beta_os.DeviceTree.Properties.{equals}
use beta_os.DeviceTree.Value.{value_of, Found, get_property-Found}

-- The comparison is Libc's, wherever that returns.
abbrev pub IsLibc : (Bytes → Bytes → ℤ) → Type 0
IsLibc cmp = (s t : Bytes) (r : ℤ) → strcmp s t ≡ some r → cmp s t ≡ r

is_zero-int_of : (b : Bool) → is_zero (int_of b) ≡ not b
is_zero-int_of true = refl
is_zero-int_of false = refl

equals-Libc :
    (cmp : Bytes → Bytes → ℤ) (s name : Bytes)
    → IsLibc cmp
    → length s < 255
    → equals cmp name s ≡ not (string_eq s name)
equals-Libc cmp s name libc short =
    ap is_zero (libc s name _ (strcmp-string_eq s name short)) ∙ is_zero-int_of (string_eq s name)

-- Two tests that agree on the names of some properties find the same value.
value_of-ext :
    (test test' : Bytes → Bool) (ps : List Property)
    → All (λ y. test y.name ≡ test' y.name) ps
    → value_of test ps ≡ value_of test' ps
unfolding value_of
value_of-ext test test' [] same = refl
value_of-ext test test' (x ∷ ps) same = rw (same.0, value_of-ext test test' ps same.1)

module _ (cmp : Bytes → Bytes → ℤ) (name : Bytes) where
  Libc-names :
      (ps : List Property)
      → IsLibc cmp
      → All IsProperty ps
      → All (λ y. equals cmp name y.name ≡ not (string_eq y.name name)) ps
  Libc-names [] libc ok = tt
  Libc-names (x ∷ ps) libc ok =
      (equals-Libc cmp x.name name libc (omega (arith, ok.0.name_fits)), Libc-names ps libc ok.1)

  module _ {mem : Bytes} {e : Addr} {t : Tree} (h : Holds mem e t) where
    -- With the `strcmp` of Libc, DTGetProperty returns the address and the size of the value of the
    -- first property that has another name, and kError if all have the name.
    pub get_property-Libc :
        IsLibc cmp
        → Found mem
            (get_property cmp mem e name)
            (value_of (λ s. not (string_eq s name)) (properties t))
    get_property-Libc libc =
        rw
          (value_of-ext (equals cmp name) (λ s. not (string_eq s name)) (properties t)
            (Libc-names (properties t) libc (IsTree-properties h.is_tree)))
          at (get_property-Found cmp name h)
