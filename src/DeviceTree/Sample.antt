-- ===== src/DeviceTree/Sample.antt =====
-- A small device tree in memory, on which the operations are run.
use beta_os.Prelude.{
  ◌+◌, ◌-◌, ◌*◌, ◌/◌, ◌≡◌, refl, sym, true, none, some, [], ◌∷◌, ◌++◌, length, replicate,
  append-nil, arith, if◌then◌else◌,
}
use beta_os.Prelude.Int.{ℤ, pos}
use beta_os.Libc.Strcmp.{strcmp, string_eq}
use beta_os.DeviceTree.Memory.{Bytes}
use beta_os.DeviceTree.Entry.{State}
use beta_os.DeviceTree.Tree.{
  Property, Tree, node, nil, cons, encode_property, encode_properties, encode, height, IsTree,
  is_node, is_nil, is_cons, Holds,
}
use beta_os.DeviceTree.Value.{value_of, has_nul}
use beta_os.DeviceTree.Child.{name_value, IsNamed}
use beta_os.DeviceTree.Lookup.{NamedTree, named_node, named_nil, named_cons, Stands}
use beta_os.DeviceTree.Linked.{IsLibc}

-- A property with its padding.
abbrev pub make : Bytes → Bytes → Property
make name value = record {
  name = name;
  name_slack = replicate (31 - length name) 0;
  value = value;
  value_slack = replicate ((length value + 3) / 4 * 4 - length value) 0;
}

abbrev pub name : Bytes
name = b'n' ∷ b'a' ∷ b'm' ∷ b'e' ∷ []

abbrev pub size : Bytes
size = b's' ∷ b'i' ∷ b'z' ∷ b'e' ∷ []

abbrev pub efi : Bytes
efi = b'e' ∷ b'f' ∷ b'i' ∷ []

abbrev pub cpu : Bytes
cpu = b'c' ∷ b'p' ∷ b'u' ∷ []

abbrev pub cpu_tree : Tree
cpu_tree = node (make name (cpu ++ 0 ∷ []) ∷ make size (7 ∷ 0 ∷ []) ∷ []) nil

abbrev pub efi_tree : Tree
efi_tree = node (make name (efi ++ 0 ∷ []) ∷ []) (cons cpu_tree nil)

abbrev pub root_tree : Tree
root_tree = node (make name (b'r' ∷ 0 ∷ []) ∷ make size (9 ∷ []) ∷ []) (cons efi_tree nil)

abbrev pub mem : Bytes
mem = 0 ∷ 0 ∷ 0 ∷ 0 ∷ encode root_tree

pub cpu_tree-IsTree : IsTree cpu_tree
cpu_tree-IsTree = is_node (omega arith) (omega arith) (omega arith) is_nil

pub root_tree-IsTree : IsTree root_tree
root_tree-IsTree = is_node (omega arith) (omega arith) (omega arith) (
    is_cons (is_node (omega arith) (omega arith) (omega arith) (is_cons cpu_tree-IsTree is_nil))
      is_nil)

pub root_tree-Holds : Holds mem 4 root_tree
unfolding encode encode_properties encode_property
root_tree-Holds = record {
  small = omega arith;
  not_null = omega arith;
  is_tree = root_tree-IsTree;
  bytes = record { rest = []; holds = sym (append-nil (encode root_tree)) };
}

-- A comparison that follows C, and one that is Libc's.
abbrev pub compare_standard : Bytes → Bytes → ℤ
compare_standard s t = if string_eq s t then pos 0 else pos 1

abbrev pub compare_libc : Bytes → Bytes → ℤ
compare_libc s t = elim (strcmp s t) [ none ↦ pos 0 | some r ↦ r ]

pub compare_libc-IsLibc : IsLibc compare_libc
compare_libc-IsLibc s t r e = rw (e, compare_libc)

-- The state after DTInit(4).
abbrev pub state : State
state = record { initialized = true; root = 4 }

-- Every entry of the tree has a name.
pub named :
    (t : Tree) (v : Bytes)
    → has_nul v ≡ true
    → name_value compare_standard t ≡ some v
    → IsNamed compare_standard t
named t v ends here w e = ground arith

pub root_tree-NamedTree : NamedTree compare_standard root_tree
unfolding value_of string_eq has_nul
root_tree-NamedTree = named_node (
    named_cons (named efi_tree (efi ++ 0 ∷ []) refl refl)
      (named_node
        (named_cons (named cpu_tree (cpu ++ 0 ∷ []) refl refl) (named_node named_nil) named_nil))
      named_nil)

pub root_tree-Stands : Stands compare_standard mem 3 4 root_tree
unfolding height
root_tree-Stands = record {
  holds = root_tree-Holds;
  named = root_tree-NamedTree;
  deep = omega arith;
}
