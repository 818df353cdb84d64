-- ===== src/DeviceTree/Properties.antt =====
-- DTGetProperty on an encoded tree, for any comparison of strings.
use beta_os.Prelude.{
  ℕ, ◌+◌, ◌^◌, ◌<◌, ◌≡◌, refl, ap, ◌∙◌, Bool, true, false, List, [], ◌∷◌, ◌++◌, length, All,
  length-append, arith, if◌then◌else◌,
}
use beta_os.Prelude.Int.{ℤ, is_zero}
use beta_os.DeviceTree.Memory.{Bytes, Addr, node_size, property_size}
use beta_os.DeviceTree.Entry.{Reply, success, error, find_property, get_property}
use beta_os.DeviceTree.Tree.{
  Property, IsProperty, Tree, properties, encode_property, encode_properties, At, Holds,
}
use beta_os.DeviceTree.Layout.{
  At-skip, At-front, string_at-name, prop_length-value, next_prop-encode,
}
use beta_os.DeviceTree.Node.{
  IsTree-properties, n_properties-length, n_properties-pos, At-properties,
}

-- Where the value of the first property whose name passes a test stands, and its length.
unfoldable pub first_property : (Bytes → Bool) → Addr → List Property → Reply (Addr × ℕ)
first_property test p [] = error
first_property test p (x ∷ xs) =
    if test x.name
    then success (p + property_size, length x.value)
    else first_property test (p + length (encode_property x)) xs

abbrev pub equals : (Bytes → Bytes → ℤ) → Bytes → Bytes → Bool
equals strcmp name s = is_zero (strcmp s name)

module _ (strcmp : Bytes → Bytes → ℤ) {mem : Bytes} (name : Bytes) where
  find_property-first :
      (ps : List Property) {p : Addr}
      → length mem < 2 ^ 64
      → All IsProperty ps
      → At mem p (encode_properties ps)
      → find_property strcmp mem (length ps) p name ≡ first_property (equals strcmp name) p ps
  unfolding find_property first_property encode_properties
  find_property-first [] small ok a = refl
  find_property-first (x ∷ ps) {p} small ok a =
      let here = At-front (encode_property x) (encode_properties ps) a in
      ground (
        arith,
        string_at-name ok.0 here,
        prop_length-value ok.0 here,
        next_prop-encode ok.0 here small,
        find_property-first ps small ok.1 (At-skip (encode_property x) a),
      )

  pub get_property-first :
      {e : Addr} {t : Tree}
      → Holds mem e t
      → get_property strcmp mem e name
        ≡ first_property (equals strcmp name) (e + node_size) (properties t)
  unfolding get_property
  get_property-first {t} h = ground (
    arith,
    h.not_null,
    n_properties-pos h,
    n_properties-length h,
    find_property-first (properties t) h.small (IsTree-properties h.is_tree) (At-properties h),
  )

-- The search stops at the first property that passes the test, and fails if there is none.
module _ (test : Bytes → Bool) where
  pub first_property-append :
      (before : List Property) (x : Property) (after : List Property) (p : Addr)
      → All (λ y. test y.name ≡ false) before
      → test x.name ≡ true
      → first_property test p (before ++ x ∷ after)
        ≡ success (p + length (encode_properties before) + property_size, length x.value)
  unfolding first_property encode_properties
  first_property-append [] x after p fails passes =
      let e : p + property_size ≡ p + 0 + property_size = omega arith in
      rw passes (ap (λ (q : ℕ). success (q, length x.value)) e)
  first_property-append (y ∷ before) x after p fails passes =
      let q = p + length (encode_property y) in
      let e : q + length (encode_properties before) ≡ p + length (encode_properties (y ∷ before)) =
        omega (arith, length-append (encode_property y) (encode_properties before)) in
      rw (fails.0) (
        first_property-append before x after q fails.1 passes
        ∙ ap (λ (k : ℕ). success (k + property_size, length x.value)) e)

  pub first_property-none :
      (ps : List Property) (p : Addr)
      → All (λ y. test y.name ≡ false) ps
      → first_property test p ps ≡ error
  unfolding first_property
  first_property-none [] p fails = refl
  first_property-none (y ∷ ps) p fails =
      rw (fails.0) (first_property-none ps (p + length (encode_property y)) fails.1)
