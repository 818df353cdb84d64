-- ===== src/DeviceTree/Enumerate.antt =====
-- DTIterateEntries on an encoded tree: it runs through the children in order.
use beta_os.Prelude.{
  ℕ, zero, suc, ◌+◌, ◌^◌, ◌≤◌, ◌<◌, ◌≡◌, ◌≢◌, refl, ap, ◌∙◌, true, Option, none, some, List, [],
  ◌∷◌, length, arith, ◌>>=◌,
}
use beta_os.DeviceTree.Memory.{Bytes, Addr, n_children}
use beta_os.DeviceTree.Entry.{State, skip_properties, get_first_child, get_next_child}
use beta_os.DeviceTree.Iterator.{
  Store, item, iteration_done, iterate_entries, create_entry_iterator, restart_entry_iteration,
}
use beta_os.DeviceTree.Tree.{
  Tree, node, Forest, nil, cons, children, count, encode, encode_forest, height, height_forest,
  IsForest, IsForest-tail, At, Holds,
}
use beta_os.DeviceTree.Node.{body, n_children-count, At-children, IsTree-children}
use beta_os.DeviceTree.Skip.{Holds-head, At-tail, body-pos, skip_properties-body, skip_tree-encode}

-- The addresses of the trees of a forest that stands at `p`.
unfoldable pub addresses : Addr → Forest → List Addr
addresses p nil = []
addresses p (cons t cs) = p ∷ addresses (p + length (encode t)) cs

-- A client's loop: call DTIterateEntries until it says kIterationDone.
unfoldable pub collect : Bytes → ℕ → ℕ → Store → Option (List Addr × Store)
collect mem fuel zero s = none
collect mem fuel (suc rounds) s = iterate_entries mem fuel s >>= λ (step, s'). elim step [
  | iteration_done ↦ some ([], s')
  | item e ↦ collect mem fuel rounds s' >>= λ (es, s''). some (e ∷ es, s'')
]

module _ {mem : Bytes} (small : length mem < 2 ^ 64) (fuel : ℕ) where
  -- The iterator has passed `t`, which stands at its current entry; `cs` is left.
  collect-rest :
      (t : Tree) (cs : Forest) (rounds : ℕ) (s : Store)
      → s.iter.current_entry ≢ 0
      → IsForest (cons t cs)
      → At mem s.iter.current_entry (encode_forest (cons t cs))
      → height_forest (cons t cs) ≤ fuel
      → 0 < s.iter.current_index
      → n_children mem s.iter.current_scope ≡ s.iter.current_index + count cs
      → count cs < rounds
      → (s' : Store) × (collect mem fuel rounds s
          ≡ some (addresses (s.iter.current_entry + length (encode t)) cs, s'))
  unfolding collect iterate_entries addresses get_next_child height_forest
  collect-rest t cs zero s ne ok a deep pos total enough = absurd (omega arith)
  collect-rest t nil (suc rounds) s ne ok a deep pos total enough = (s, ground arith)
  collect-rest t (cons u cs) (suc rounds) s ne ok a deep pos total enough =
      let skipped = skip_tree-encode t fuel (Holds-head small ne ok a) (omega arith) in
      let s' : Store = record s {
        iter = record (s.iter) {
          current_entry = s.iter.current_entry + length (encode t);
          current_index = s.iter.current_index + 1;
        };
      } in
      let rest =
        collect-rest u cs rounds s' (omega arith) (IsForest-tail ok) (At-tail small ne ok a)
          (omega arith) (omega arith) (omega arith) (omega arith) in
      (rest.0, ground (arith, skipped, rest.1))

  -- From the start of a scope.
  collect-scope :
      (t : Tree) {e : Addr} (s : Store)
      → Holds mem e t
      → height t ≤ fuel
      → s.iter.current_scope ≡ e
      → s.iter.current_index ≡ 0
      → (s' : Store) × (collect mem fuel (suc (count (children t))) s
          ≡ some (addresses (body e t) (children t), s'))
  unfolding collect iterate_entries addresses get_first_child height
  collect-scope (node ps nil) s h deep scope index =
      (s, ground (arith, n_children-count h, ap (n_children mem) scope))
  collect-scope (node ps (cons t cs)) {e} s h deep scope index =
      let p = body e (node ps (cons t cs)) in
      let s' : Store = record s {
        iter = record (s.iter) { current_entry = p; current_index = 1 };
      } in
      let total : n_children mem s.iter.current_scope ≡ 1 + count cs =
        ap (n_children mem) scope ∙ n_children-count h ∙ omega arith in
      let rest =
        collect-rest t cs (suc (count cs)) s' (body-pos h) (IsTree-children h.is_tree)
          (At-children h) (omega arith) (omega arith) total (omega arith) in
      let start : skip_properties mem s.iter.current_scope ≡ p =
        ap (skip_properties mem) scope ∙ skip_properties-body h in
      let first : iterate_entries mem fuel s ≡ some (item p, s') =
        ground (arith, start, total, index) in
      (rest.0, rw first (ground (arith, rest.1)))

-- Once DTInit has been called, on an encoded entry and with a fuel of at least its height:
-- DTCreateEntryIterator, then DTIterateEntries until it says kIterationDone, yields the addresses
-- of the children in order; so does DTRestartEntryIteration at any point of an iteration of the
-- same scope.
pub collect-children :
    {mem : Bytes} {e : Addr} {t : Tree} (fuel : ℕ) (state : State) (s : Store)
    → state.initialized ≡ true
    → Holds mem e t
    → height t ≤ fuel
    → s.iter.current_scope ≡ e
    → ((s' : Store) × (collect mem fuel
            (suc (count (children t)))
            (create_entry_iterator state e s).1
          ≡ some (addresses (body e t) (children t), s')))
      × ((s' : Store) × (collect mem fuel (suc (count (children t))) (restart_entry_iteration s)
            ≡ some (addresses (body e t) (children t), s')))
unfolding create_entry_iterator restart_entry_iteration
collect-children {e} {t} fuel state s ready h deep scope = (
  collect-scope h.small fuel t (create_entry_iterator state e s).1 h deep
      (ground (arith, h.not_null)) (ground (arith, h.not_null)),
  collect-scope h.small fuel t (restart_entry_iteration s) h deep scope refl,
)
