-- ===== src/DeviceTree/Skip.antt =====
-- skipProperties, skipTree, GetFirstChild and GetNextChild step over what is encoded.
use beta_os.Prelude.{
  ℕ, zero, suc, ◌+◌, ◌^◌, ◌≤◌, ◌<◌, ◌≡◌, ◌≢◌, ap, ◌∙◌, some, List, [], ◌∷◌, length, All,
  length-append, arith,
}
use beta_os.DeviceTree.Memory.{Bytes, Addr}
use beta_os.DeviceTree.Entry.{
  get_first_child, get_next_child, skip_props, skip_properties, skip_children, skip_tree,
}
use beta_os.DeviceTree.Tree.{
  children, Property, IsProperty, Tree, node, Forest, nil, cons, properties, count, encode_property,
  encode_properties, encode, encode_forest, height, height_forest, IsForest, IsForest-head,
  IsForest-tail, At, Holds,
}
use beta_os.DeviceTree.Layout.{At-skip, At-front, next_prop-encode}
use beta_os.DeviceTree.Node.{
  IsTree-properties, IsTree-children, n_properties-length, n_children-count, n_properties-pos,
  At-properties, At-children, body, size_split,
}

module _ {mem : Bytes} (small : length mem < 2 ^ 64) where
  pub skip_props-encode :
      (ps : List Property) {p : Addr}
      → All IsProperty ps
      → At mem p (encode_properties ps)
      → skip_props mem (length ps) p ≡ p + length (encode_properties ps)
  unfolding skip_props encode_properties
  skip_props-encode [] ok a = omega arith
  skip_props-encode (x ∷ ps) {p} ok a =
      let first = At-front (encode_property x) (encode_properties ps) a in
      ap (skip_props mem (length ps)) (next_prop-encode ok.0 first small)
      ∙ skip_props-encode ps ok.1 (At-skip (encode_property x) a)
      ∙ omega (arith, length-append (encode_property x) (encode_properties ps))

module _ {mem : Bytes} {e : Addr} {t : Tree} (h : Holds mem e t) where
  -- skipProperties ends at the first child (or past the tree, if there is none).
  pub skip_properties-body : skip_properties mem e ≡ body e t
  unfolding skip_properties
  skip_properties-body = ground (
    arith,
    h.not_null,
    n_properties-length h,
    n_properties-pos h,
    skip_props-encode h.small (properties t) (IsTree-properties h.is_tree) (At-properties h),
  )

  pub body-pos : body e t ≢ 0
  body-pos = omega arith

-- The first tree of an encoded forest, and where the next one stands.
module _ {mem : Bytes} {p : Addr} {t : Tree} {cs : Forest} (small : length mem < 2 ^ 64)
    (ne : p ≢ 0) (ok : IsForest (cons t cs)) (a : At mem p (encode_forest (cons t cs))) where
  pub Holds-head : Holds mem p t
  unfolding encode
  Holds-head = record {
    small = small;
    not_null = ne;
    is_tree = IsForest-head ok;
    bytes = At-front (encode t) (encode_forest cs) a;
  }

  pub At-tail : At mem (p + length (encode t)) (encode_forest cs)
  unfolding encode
  At-tail = At-skip (encode t) a

mutual
  unfolding skip_tree skip_children height encode

  pub skip_tree-encode :
      (t : Tree) {mem : Bytes} {e : Addr} (fuel : ℕ)
      → Holds mem e t
      → height t ≤ fuel
      → skip_tree mem fuel e ≡ some (e + length (encode t))
  skip_tree-encode (node ps cs) zero h deep = absurd (omega arith)
  skip_tree-encode (node ps cs) {mem} {e} (suc fuel) h deep =
      let rest =
        skip_children-encode cs {p = body e (node ps cs)} fuel h.small (body-pos h)
          (IsTree-children h.is_tree) (At-children h) (omega arith) in
      ground (
        arith,
        skip_properties-body h,
        body-pos h,
        n_children-count h,
        rest,
        size_split e (node ps cs),
      )

  skip_children-encode :
      (cs : Forest) {mem : Bytes} {p : Addr} (fuel : ℕ)
      → length mem < 2 ^ 64
      → p ≢ 0
      → IsForest cs
      → At mem p (encode_forest cs)
      → height_forest cs ≤ fuel
      → skip_children mem (skip_tree mem fuel) (count cs) p ≡ some (p + length (encode_forest cs))
  skip_children-encode nil fuel small ne ok a deep = ap some (omega arith)
  skip_children-encode (cons t cs) fuel small ne ok a deep =
      let first = skip_tree-encode t fuel (Holds-head small ne ok a) (omega arith) in
      let rest =
        skip_children-encode cs fuel small (omega arith) (IsForest-tail ok) (At-tail small ne ok a)
          (omega arith) in
      rw first (rest ∙ ap some (omega (arith, length-append (encode t) (encode_forest cs))))

-- GetFirstChild returns the address past the node and its properties, where its children stand, and
-- GetNextChild the address past the whole tree, if the fuel covers its height.
pub get_child-encode :
    {mem : Bytes} {e : Addr} {t : Tree} (fuel : ℕ)
    → Holds mem e t
    → height t ≤ fuel
    → (get_first_child mem e ≡ body e t)
      × At mem (body e t) (encode_forest (children t))
      × (get_next_child mem fuel e ≡ some (e + length (encode t)))
unfolding get_first_child get_next_child
get_child-encode {t} fuel h deep =
    (skip_properties-body h, At-children h, skip_tree-encode t fuel h deep)
