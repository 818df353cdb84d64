-- ===== src/DeviceTree/Search.antt =====
-- DTLookupEntry, DTFindEntry and find_entry of Kernel/Platform/DeviceTree.c.
use beta_os.Prelude.{
  ℕ, zero, suc, ◌+◌, Bool, true, false, not, ◌&&◌, Option, none, some, [], ◌∷◌, length, ◌==◌,
  if◌then◌else◌, ◌>>=◌,
}
use beta_os.Prelude.Int.{ℤ, is_zero}
use beta_os.DeviceTree.Memory.{
  Bytes, Addr, string_at, round_word, node_size, property_size, n_properties, n_children,
  prop_length,
}
use beta_os.DeviceTree.Entry.{Reply, success, error, State, separator, lookup_path}

module _ (strcmp : Bytes → Bytes → ℤ) (mem : Bytes) where
  -- DTLookupEntry. Each round of its loop takes at least one byte of the path, so `length path + 1`
  -- rounds are enough; `fuel` bounds the depth of the subtrees that are skipped.
  unfoldable pub lookup_entry : ℕ → State → Addr → Bytes → Option (Reply Addr)
  unfolding lookup_path
  lookup_entry fuel st search_point path =
      let cur = if search_point == 0 then st.root else search_point in
      let walk : Bytes → Option (Reply Addr) = lookup_path strcmp mem fuel (length path + 1) cur in
      if not st.initialized then some error else elim path [
        | [] ↦ walk []
        | c ∷ cp ↦
            if c == separator
            then elim cp [ [] ↦ some (success cur) | d ∷ cp' ↦ walk (d ∷ cp') ]
            else walk (c ∷ cp)
      ]

  -- The test of find_entry on one property; no `prop_value` stands for NULL.
  unfoldable pub matches : Addr → Bytes → Option Bytes → Bool
  matches prop prop_name prop_value =
      is_zero (strcmp (string_at mem prop) prop_name) && elim prop_value [
        | none ↦ true
        | some value ↦ is_zero (strcmp (string_at mem (prop + property_size)) value)
      ]

  -- The loop over the properties of the current entry, with the final `startingP`.
  unfoldable pub search_properties : ℕ → Addr → Bytes → Option Bytes → Bool × Addr
  unfolding matches
  search_properties zero starting prop_name prop_value = (false, starting)
  search_properties (suc k) starting prop_name prop_value =
      let next = starting + property_size + round_word (prop_length mem starting) in
      let rest = search_properties k next prop_name prop_value in
      if matches starting prop_name prop_value then (true, next) else rest

  -- The loop over the children; `find` is the recursive call.
  unfoldable pub search_children :
      (Addr → Option (Reply Addr × Addr)) → ℕ → Addr → Option (Reply Addr × Addr)
  search_children find zero starting = some (error, starting)
  search_children find (suc k) starting = find starting >>= λ (reply, starting'). elim reply [
    | success entry ↦ some (success entry, starting')
    | error ↦ search_children find k starting'
  ]

  -- find_entry, with `startingP` passed in and out.
  unfoldable pub find_entry : ℕ → Addr → Bytes → Option Bytes → Option (Reply Addr × Addr)
  unfolding search_properties search_children
  find_entry zero starting prop_name prop_value = none
  find_entry (suc fuel) starting prop_name prop_value =
      let (found, starting') =
        search_properties (n_properties mem starting) (starting + node_size) prop_name prop_value in
      let below =
        search_children (λ p. find_entry fuel p prop_name prop_value) (n_children mem starting)
          starting' in
      if n_properties mem starting == 0
      then some (error, starting)
      else if found
      then some (success starting, starting')
      else below

  -- DTFindEntry.
  unfoldable pub find_entry_in_tree : ℕ → State → Bytes → Option Bytes → Option (Reply Addr)
  unfolding find_entry
  find_entry_in_tree fuel st prop_name prop_value =
      if not st.initialized
      then some error
      else find_entry fuel st.root prop_name prop_value >>= λ (reply, _). some reply
