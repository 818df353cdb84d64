-- ===== src/DeviceTree/Examples.antt =====
-- Runs on the sample tree, and the theorems at it.
use beta_os.Prelude.{◌+◌, ◌≡◌, refl, some, [], ◌∷◌, length, All, arith}
use beta_os.Libc.Strcmp.{strcmp, compare_from, string_eq}
use beta_os.DeviceTree.Memory.{until_nul, string_at, n_properties, next_prop}
use beta_os.DeviceTree.Entry.{
  success, init, get_property, find_property, get_first_child, get_next_child, separator,
}
use beta_os.DeviceTree.Tree.{
  children, encode_property, encode_properties, encode, encode_forest, height, At,
}
use beta_os.DeviceTree.Node.{body}
use beta_os.DeviceTree.Skip.{get_child-encode}
use beta_os.DeviceTree.Value.{value_of, Found}
use beta_os.DeviceTree.Child.{child_named}
use beta_os.DeviceTree.Path.{IsComponent, path_of}
use beta_os.DeviceTree.Lookup.{descend}
use beta_os.DeviceTree.Search.{lookup_entry}
use beta_os.DeviceTree.Resolve.{lookup_entry-descend}
use beta_os.DeviceTree.Linked.{get_property-Libc}
use beta_os.DeviceTree.Sample.{
  size, efi, cpu, root_tree, mem, root_tree-Holds, compare_standard, compare_libc,
  compare_libc-IsLibc, state, root_tree-Stands,
}

init_run : init 4 ≡ state
unfolding init
init_run = refl

-- The value of "size" of the root starts at 4 + 8 + 36 + 4 + 36.
get_property_standard_run : get_property compare_standard mem 4 size ≡ success (88, 1)
unfolding get_property find_property string_eq encode encode_properties encode_property next_prop
    n_properties string_at until_nul
get_property_standard_run = refl

-- Libc's comparison takes "name" for "size".
get_property_libc_run : get_property compare_libc mem 4 size ≡ success (48, 2)
unfolding get_property find_property strcmp compare_from string_eq encode encode_properties
    encode_property next_prop n_properties string_at until_nul
get_property_libc_run = refl

get_property-Libc_example : Found mem (get_property compare_libc mem 4 size) (some (b'r' ∷ 0 ∷ []))
unfolding value_of string_eq
get_property-Libc_example = get_property-Libc compare_libc size root_tree-Holds compare_libc-IsLibc

get_child-encode_example :
    (get_first_child mem 4 ≡ body 4 root_tree)
    × At mem (body 4 root_tree) (encode_forest (children root_tree))
    × (get_next_child mem 3 4 ≡ some (4 + length (encode root_tree)))
unfolding height
get_child-encode_example = get_child-encode 3 root_tree-Holds (omega arith)

efi-cpu-AreComponents : All IsComponent (efi ∷ cpu ∷ [])
efi-cpu-AreComponents = omega arith

lookup_entry-descend_example :
    (lookup_entry compare_standard mem 3 state 0 (path_of (efi ∷ cpu ∷ [])) ≡ some (success 140))
    × (lookup_entry compare_standard mem 3 state 0 (separator ∷ path_of (efi ∷ cpu ∷ []))
        ≡ some (success 140))
unfolding descend child_named value_of string_eq until_nul encode encode_properties encode_property
lookup_entry-descend_example =
    lookup_entry-descend compare_standard mem 3 state 0 refl refl (efi ∷ cpu ∷ []) root_tree-Stands
      efi-cpu-AreComponents
