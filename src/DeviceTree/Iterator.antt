-- ===== src/DeviceTree/Iterator.antt =====
-- The iterators of Kernel/Platform/DeviceTree.c. The calls of kalloc are commented out in the
-- source and fixed addresses stand in their place, so every entry iterator is one object and every
-- saved scope is another; the store holds these objects, and no others can be reached.
use beta_os.Prelude.{ℕ, zero, suc, ◌+◌, Option, none, some, leb, ◌==◌, if◌then◌else◌, ◌>>=◌}
use beta_os.DeviceTree.Memory.{Bytes, Addr, node_size, n_properties, n_children, next_prop}
use beta_os.DeviceTree.Entry.{Reply, success, error, State, get_first_child, get_next_child}

-- DTSavedScope
pub record SavedScope : Type 0 where
  pub next_scope : Addr
  pub scope : Addr
  pub entry : Addr
  pub index : ℕ

-- OpaqueDTEntryIterator
pub record EntryIterator : Type 0 where
  pub outer_scope : Addr
  pub current_scope : Addr
  pub current_entry : Addr
  pub saved_scope : Addr
  pub current_index : ℕ

-- OpaqueDTPropertyIterator
pub record PropertyIterator : Type 0 where
  pub entry : Addr
  pub current_property : Addr
  pub current_index : ℕ

-- The objects at 0x100000 and 0x1000000.
pub record Store : Type 0 where
  pub iter : EntryIterator
  pub cell : SavedScope

-- The address that every new saved scope gets.
abbrev pub scope_address : Addr
scope_address = 0x1000000

-- A saved scope behind a pointer; `none` is a fault.
unfoldable pub load_scope : Store → Addr → Option SavedScope
load_scope s p = if p == scope_address then some s.cell else none

-- What an iteration stores: the next item for kSuccess, or NULL for kIterationDone.
pub data Step (A : Type 0) : Type 0 where
  item : A → Step A
  iteration_done : Step A

-- DTCreateEntryIterator
unfoldable pub create_entry_iterator : State → Addr → Store → Reply (Unit {0}) × Store
create_entry_iterator st start s =
    let from = if start == 0 then st.root else start in
    let fresh : EntryIterator = record {
      outer_scope = from;
      current_scope = from;
      current_entry = 0;
      saved_scope = 0;
      current_index = 0;
    } in
    if st.initialized then (success tt, record s { iter = fresh }) else (error, s)

-- The loop of DTDisposeEntryIterator, at most `fuel` rounds.
unfoldable pub dispose_entry_iterator : ℕ → Store → Option Store
unfolding load_scope
dispose_entry_iterator zero s = none
dispose_entry_iterator (suc fuel) s =
    if s.iter.saved_scope == 0
    then some s
    else load_scope s s.iter.saved_scope >>= λ scope.
        dispose_entry_iterator fuel
          (record s { iter = record (s.iter) { saved_scope = scope.next_scope } })

-- DTEnterEntry
unfoldable pub enter_entry : Addr → Store → Reply (Unit {0}) × Store
enter_entry child s =
    let saved : SavedScope = record {
      next_scope = s.iter.saved_scope;
      scope = s.iter.current_scope;
      entry = s.iter.current_entry;
      index = s.iter.current_index;
    } in
    let iter' : EntryIterator = record {
      outer_scope = s.iter.outer_scope;
      current_scope = child;
      current_entry = 0;
      saved_scope = scope_address;
      current_index = 0;
    } in
    if child == 0 then (error, s) else (success tt, record { iter = iter'; cell = saved })

-- DTExitEntry, with the entry that it stores through `currentPosition`.
unfoldable pub exit_entry : Store → Option (Reply Addr × Store)
unfolding load_scope
exit_entry s =
    if s.iter.saved_scope == 0
    then some (error, s)
    else load_scope s s.iter.saved_scope >>= λ saved. some (
      success saved.entry,
      record s {
        iter = record {
          outer_scope = s.iter.outer_scope;
          current_scope = saved.scope;
          current_entry = saved.entry;
          saved_scope = saved.next_scope;
          current_index = saved.index;
        };
      },
    )

-- DTRestartEntryIteration
unfoldable pub restart_entry_iteration : Store → Store
restart_entry_iteration s = record s {
  iter = record (s.iter) { current_entry = 0; current_index = 0 };
}

module _ (mem : Bytes) where
  -- DTIterateEntries
  unfoldable pub iterate_entries : ℕ → Store → Option (Step Addr × Store)
  iterate_entries fuel s =
      let index = s.iter.current_index + 1 in
      let next : Option Addr =
        if index == 1
        then some (get_first_child mem s.iter.current_scope)
        else get_next_child mem fuel s.iter.current_entry in
      if leb (n_children mem s.iter.current_scope) s.iter.current_index
      then some (iteration_done, s)
      else next >>= λ entry. some (
        item entry,
        record s { iter = record (s.iter) { current_entry = entry; current_index = index } },
      )

  -- DTIterateProperties; `name` is the first field of a property, so its address is the property's.
  unfoldable pub iterate_properties : PropertyIterator → Step Addr × PropertyIterator
  iterate_properties iter =
      let index = iter.current_index + 1 in
      let prop : Addr =
        if index == 1 then iter.entry + node_size else next_prop mem iter.current_property in
      if leb (n_properties mem iter.entry) iter.current_index
      then (iteration_done, iter)
      else (item prop, record iter { current_property = prop; current_index = index })

-- DTCreatePropertyIterator
unfoldable pub create_property_iterator : Addr → PropertyIterator
create_property_iterator entry = record { entry = entry; current_property = 0; current_index = 0 }

-- DTRestartPropertyIteration
unfoldable pub restart_property_iteration : PropertyIterator → PropertyIterator
restart_property_iteration iter = record iter { current_property = 0; current_index = 0 }

-- DTDisposePropertyIterator: `free` is the allocator's, on the state of its heap.
unfoldable pub dispose_property_iterator :
    {H : Type 0} (free : Addr → H → H) → Addr → H → Reply (Unit {0}) × H
dispose_property_iterator free iterator heap = (success tt, free iterator heap)
