-- ===== src/DeviceTree/IterationExamples.antt =====
-- The theorems on searches, iterators and scopes at the sample tree.
use beta_os.Prelude.{◌≡◌, refl, none, some, [], ◌∷◌, ◌++◌, replicate, arith}
use beta_os.DeviceTree.Memory.{Bytes, until_nul}
use beta_os.DeviceTree.Entry.{success, error, separator}
use beta_os.DeviceTree.Search.{lookup_entry, find_entry_in_tree}
use beta_os.DeviceTree.Resolve.{lookup_entry-long}
use beta_os.DeviceTree.Tree.{
  children, encode, encode_properties, encode_property, height, Everywhere, every_node, every_nil,
  every_cons,
}
use beta_os.DeviceTree.Node.{body}
use beta_os.DeviceTree.Value.{has_nul}
use beta_os.DeviceTree.Preorder.{
  IsReadable, first_in_tree, is_match, any_match, find_entry_in_tree-first,
}
use beta_os.DeviceTree.Iterator.{
  Store, PropertyIterator, create_entry_iterator, restart_entry_iteration, enter_entry, exit_entry,
  dispose_entry_iterator, create_property_iterator, restart_property_iteration,
}
use beta_os.DeviceTree.Enumerate.{addresses, collect, collect-children}
use beta_os.DeviceTree.EachProperty.{collect_names, names, collect_names-properties}
use beta_os.DeviceTree.Scopes.{
  exits, exit_entry-enter_entry, exits-nested, dispose_entry_iterator-nested,
}
use beta_os.Libc.Strcmp.{string_eq}
use beta_os.DeviceTree.Sample.{
  name, size, cpu, root_tree, mem, compare_standard, root_tree-Holds, state,
}

-- An iterator at the root, outside every scope.
abbrev store : Store
store = record {
  iter = record {
    outer_scope = 4;
    current_scope = 4;
    current_entry = 0;
    saved_scope = 0;
    current_index = 0;
  };
  cell = record { next_scope = 0; scope = 0; entry = 0; index = 0 };
}

abbrev property_iterator : PropertyIterator
property_iterator = record { entry = 4; current_property = 12; current_index = 1 }

abbrev long_name : Bytes
long_name = replicate 64 b'a'

lookup_entry-long_example :
    lookup_entry compare_standard mem 3 state 0 (long_name ++ separator ∷ cpu) ≡ some error
lookup_entry-long_example =
    lookup_entry-long compare_standard mem 3 state 0 refl refl long_name (separator ∷ cpu)
      (omega arith) (omega arith)

-- The search is for an entry whose name is "cpu".
all-IsReadable : Everywhere (IsReadable compare_standard name (some cpu)) root_tree
unfolding string_eq has_nul
all-IsReadable =
    every_node (λ _. refl, (λ other. cc, tt))
      (every_cons
        (every_node (λ _. refl, tt)
          (every_cons (every_node (λ _. refl, (λ other. cc, tt)) every_nil) every_nil))
        every_nil)

find_entry_in_tree-first_example :
    find_entry_in_tree compare_standard mem 3 state name (some cpu) ≡ some (success 140)
unfolding first_in_tree is_match any_match string_eq until_nul encode encode_properties
    encode_property height
find_entry_in_tree-first_example =
    find_entry_in_tree-first compare_standard name (some cpu) 3 state refl refl root_tree-Holds
      all-IsReadable (omega arith)

collect-children_example :
    ((s : Store) × (collect mem 3 2 (create_entry_iterator state 4 store).1
        ≡ some (addresses (body 4 root_tree) (children root_tree), s)))
    × ((s : Store) × (collect mem 3 2 (restart_entry_iteration store)
          ≡ some (addresses (body 4 root_tree) (children root_tree), s)))
unfolding height
collect-children_example = collect-children 3 state store refl root_tree-Holds (omega arith) refl

collect_names-properties_example :
    (collect_names mem 3 (create_property_iterator 4) ≡ some (name ∷ size ∷ []))
    × (collect_names mem 3 (restart_property_iteration property_iterator) ≡ some (name ∷ size ∷ []))
unfolding names
collect_names-properties_example = collect_names-properties property_iterator root_tree-Holds refl

exit_entry-enter_entry_example :
    (s : Store) × (exit_entry (enter_entry 92 store).1 ≡ some (success 0, s))
    × (s.iter ≡ store.iter)
exit_entry-enter_entry_example = exit_entry-enter_entry 92 store (omega arith)

exits-nested_example :
    (s : Store) × (exits 3 (enter_entry 140 (enter_entry 92 store).1).1 ≡ some s)
    × (s.iter.current_scope ≡ 92)
exits-nested_example = exits-nested 92 140 store (omega arith) (omega arith) 2

dispose_entry_iterator-nested_example :
    dispose_entry_iterator 9 (enter_entry 140 (enter_entry 92 store).1).1 ≡ none
dispose_entry_iterator-nested_example =
    dispose_entry_iterator-nested 92 140 store (omega arith) (omega arith) 9
