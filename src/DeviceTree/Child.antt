-- ===== src/DeviceTree/Child.antt =====
-- FindChild on an encoded tree, for any comparison of strings.
use beta_os.Prelude.{
  ℕ, ◌+◌, ◌^◌, ◌≤◌, ◌<◌, ◌≡◌, ◌≢◌, refl, true, Option, none, some, length, arith, if◌then◌else◌,
}
use beta_os.Prelude.Int.{ℤ}
use beta_os.DeviceTree.Memory.{Bytes, Addr, until_nul}
use beta_os.DeviceTree.Entry.{
  Reply, success, error, name_property, Verdict, unnamed, hit, miss, get_property, judge, examine,
  get_next_child, get_first_child, find_child_from, find_child,
}
use beta_os.DeviceTree.Tree.{
  Tree, node, Forest, nil, cons, properties, children, count, encode, encode_forest, height_forest,
  IsForest, IsForest-tail, At, Holds,
}
use beta_os.DeviceTree.Node.{n_children-count, body, At-children, IsTree-children}
use beta_os.DeviceTree.Skip.{skip_properties-body, skip_tree-encode, Holds-head, At-tail, body-pos}
use beta_os.DeviceTree.Properties.{equals}
use beta_os.DeviceTree.Value.{value_of, Found, get_property-Found, has_nul, string_at-value}

-- An address to return, with NULL for nothing.
abbrev pub address : Option (Addr × Tree) → Addr
address none = 0
address (some (p, _)) = p

module _ (strcmp : Bytes → Bytes → ℤ) where
  -- The value of the "name" property, whose bytes up to a NUL are the name of the entry.
  abbrev pub name_value : Tree → Option Bytes
  name_value t = value_of (equals strcmp name_property) (properties t)

  -- Where the name is a string: it has its NUL.
  abbrev pub IsNamed : Tree → Type 0
  IsNamed t = (v : Bytes) → name_value t ≡ some v → has_nul v ≡ true

  abbrev pub AreNamed : Forest → Type 0
  AreNamed nil = Unit
  AreNamed (cons t cs) = IsNamed t × AreNamed cs

  unfoldable pub verdict : Option Bytes → Bytes → Verdict
  verdict none buf = unnamed
  verdict (some v) buf = if equals strcmp buf (until_nul v) then hit else miss

  -- The first child with the name, with its address. A child without a name ends the search.
  unfoldable pub child_named : Bytes → Addr → Forest → Option (Addr × Tree)
  child_named buf p nil = none
  child_named buf p (cons t cs) = elim (name_value t) [
    | none ↦ none
    | some v ↦
        if equals strcmp buf (until_nul v)
        then some (p, t)
        else child_named buf (p + length (encode t)) cs
  ]

  judge-verdict :
      (mem : Bytes) (buf : Bytes) (r : Reply (Addr × ℕ)) (o : Option Bytes)
      → Found mem r o
      → ((v : Bytes) → o ≡ some v → has_nul v ≡ true)
      → judge strcmp mem r buf ≡ verdict o buf
  unfolding judge verdict
  judge-verdict mem buf error none f named = refl
  judge-verdict mem buf error (some v) f named = elim f [ ]
  judge-verdict mem buf (success r) none f named = elim f [ ]
  judge-verdict mem buf (success (q, n)) (some v) f named =
      rw (string_at-value v f.1 (named v refl)) refl

  examine-verdict :
      {mem : Bytes} {e : Addr} {t : Tree} (buf : Bytes)
      → Holds mem e t
      → IsNamed t
      → examine strcmp mem e buf ≡ verdict (name_value t) buf
  unfolding examine
  examine-verdict {mem} {e} {t} buf h named =
      judge-verdict mem buf (get_property strcmp mem e name_property) (name_value t)
        (get_property-Found strcmp name_property h) named

  module _ {mem : Bytes} (small : length mem < 2 ^ 64) (fuel : ℕ) (buf : Bytes) where
    find_child_from-first :
        (t : Tree) (cs : Forest) {p : Addr}
        → p ≢ 0
        → IsForest (cons t cs)
        → At mem p (encode_forest (cons t cs))
        → AreNamed (cons t cs)
        → height_forest (cons t cs) ≤ fuel
        → find_child_from strcmp mem fuel (count cs) p buf
          ≡ some (address (child_named buf p (cons t cs)))
    unfolding find_child_from child_named verdict get_next_child height_forest
    find_child_from-first t nil ne ok a named deep =
        ground (arith, examine-verdict buf (Holds-head small ne ok a) named.0)
    find_child_from-first t (cons u cs) {p} ne ok a named deep =
        let first = Holds-head small ne ok a in
        let rest =
          find_child_from-first u cs {p = p + length (encode t)} (omega arith) (IsForest-tail ok)
            (At-tail small ne ok a) named.1 (omega arith) in
        ground (
          arith,
          examine-verdict buf first named.0,
          skip_tree-encode t fuel first (omega arith),
          rest,
        )

    -- FindChild returns the address of the first child with the name, or NULL.
    pub find_child-named :
        (t : Tree) {e : Addr}
        → Holds mem e t
        → AreNamed (children t)
        → height_forest (children t) ≤ fuel
        → find_child strcmp mem fuel e buf
          ≡ some (address (child_named buf (body e t) (children t)))
    unfolding find_child child_named get_first_child
    find_child-named (node ps nil) h named deep = ground (arith, n_children-count h)
    find_child-named (node ps (cons u cs)) {e} h named deep = ground (
      arith,
      n_children-count h,
      skip_properties-body h,
      find_child_from-first u cs {p = body e (node ps (cons u cs))} (body-pos h)
          (IsTree-children h.is_tree) (At-children h) named deep,
    )
