-- ===== src/DeviceTree/Node.antt =====
-- The fields of the node at which a tree stands, and the addresses of its parts.
use beta_os.Prelude.{◌+◌, ◌^◌, ◌<◌, ◌≡◌, ◌≢◌, refl, ◌++◌, length, All, length-append, arith}
use beta_os.DeviceTree.Memory.{Bytes, Addr, node_size, n_properties, n_children}
use beta_os.DeviceTree.Tree.{
  IsProperty, Tree, node, properties, children, count, word, encode_properties, encode,
  encode_forest, IsTree, is_node, IsForest, At, Holds,
}
use beta_os.DeviceTree.Layout.{At-skip, At-front, u32_at-word}

pub IsTree-properties : {t : Tree} → IsTree t → All IsProperty (properties t)
IsTree-properties (is_node ps _ _ _) = ps

pub IsTree-children : {t : Tree} → IsTree t → IsForest (children t)
IsTree-children (is_node _ _ _ cs) = cs

pub IsTree-counts :
    {t : Tree}
    → IsTree t
    → (0 < length (properties t)) × (length (properties t) < 2 ^ 32) × (count (children t) < 2 ^ 32)
IsTree-counts (is_node _ n m _) = omega arith

encode-split :
    (t : Tree)
    → encode t
      ≡ word (length (properties t))
        ++ (word (count (children t))
            ++ (encode_properties (properties t) ++ encode_forest (children t)))
unfolding encode
encode-split (node ps cs) = refl

-- The address of the first child, past the node and its properties.
abbrev pub body : Addr → Tree → Addr
body e t = e + node_size + length (encode_properties (properties t))

pub size_split :
    (e : Addr) (t : Tree) → e + length (encode t) ≡ body e t + length (encode_forest (children t))
size_split e t =
    rw encode-split
      (omega (arith, length-append (encode_properties (properties t)) (encode_forest (children t))))

module _ {mem : Bytes} {e : Addr} {t : Tree} (h : Holds mem e t) where
  abbrev parts : Bytes
  parts = encode_properties (properties t) ++ encode_forest (children t)

  At-split : At mem e (word (length (properties t)) ++ (word (count (children t)) ++ parts))
  At-split = rw encode-split at h.bytes

  pub n_properties-length : n_properties mem e ≡ length (properties t)
  unfolding n_properties
  n_properties-length =
      u32_at-word (length (properties t)) (word (count (children t)) ++ parts)
        (IsTree-counts h.is_tree).1 At-split

  At-second : At mem (e + 4) (word (count (children t)) ++ parts)
  At-second = At-skip (word (length (properties t))) At-split

  pub n_children-count : n_children mem e ≡ count (children t)
  unfolding n_children
  n_children-count = u32_at-word (count (children t)) parts (IsTree-counts h.is_tree).2 At-second

  At-parts : At mem (e + node_size) parts
  At-parts =
      let a = At-skip (word (count (children t))) {ys = parts} At-second in
      let e' : e + 4 + 4 ≡ e + node_size = omega arith in rw e' at a

  pub At-properties : At mem (e + node_size) (encode_properties (properties t))
  At-properties = At-front (encode_properties (properties t)) (encode_forest (children t)) At-parts

  pub At-children : At mem (body e t) (encode_forest (children t))
  At-children = At-skip (encode_properties (properties t)) At-parts

  pub n_properties-pos : n_properties mem e ≢ 0
  n_properties-pos = omega (arith, n_properties-length, (IsTree-counts h.is_tree).0)
