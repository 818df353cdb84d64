-- ===== src/DeviceTree/EachProperty.antt =====
-- DTIterateProperties on an encoded tree: it runs through the properties in order.
use beta_os.Prelude.{
  ℕ, zero, suc, ◌+◌, ◌^◌, ◌<◌, ◌≡◌, refl, ap, ◌∙◌, Option, none, some, List, [], ◌∷◌, length, All,
  arith, ◌>>=◌,
}
use beta_os.DeviceTree.Memory.{Bytes, Addr, node_size, n_properties, string_at}
use beta_os.DeviceTree.Iterator.{
  PropertyIterator, item, iteration_done, iterate_properties, create_property_iterator,
  restart_property_iteration,
}
use beta_os.DeviceTree.Tree.{
  Property, IsProperty, Tree, properties, encode_property, encode_properties, At, Holds,
}
use beta_os.DeviceTree.Layout.{At-skip, At-front, next_prop-encode, string_at-name}
use beta_os.DeviceTree.Node.{IsTree-properties, n_properties-length, At-properties}

-- A client's loop: the C strings at the addresses that DTIterateProperties stores, until it says
-- kIterationDone.
unfoldable pub collect_names : Bytes → ℕ → PropertyIterator → Option (List Bytes)
collect_names mem zero iter = none
collect_names mem (suc rounds) iter =
    let (step, iter') = iterate_properties mem iter in
    elim step [
      | iteration_done ↦ some []
      | item p ↦ collect_names mem rounds iter' >>= λ ns. some (string_at mem p ∷ ns)
    ]

unfoldable pub names : List Property → List Bytes
names [] = []
names (x ∷ xs) = x.name ∷ names xs

module _ {mem : Bytes} (small : length mem < 2 ^ 64) where
  -- The iterator has passed `x`, which stands at its current property; `ps` is left.
  collect_names-rest :
      (x : Property) (ps : List Property) (rounds : ℕ) (iter : PropertyIterator)
      → All IsProperty (x ∷ ps)
      → At mem iter.current_property (encode_properties (x ∷ ps))
      → 0 < iter.current_index
      → n_properties mem iter.entry ≡ iter.current_index + length ps
      → length ps < rounds
      → collect_names mem rounds iter ≡ some (names ps)
  unfolding collect_names iterate_properties names encode_properties
  collect_names-rest x ps zero iter ok a pos total enough = absurd (omega arith)
  collect_names-rest x [] (suc rounds) iter ok a pos total enough = ground arith
  collect_names-rest x (y ∷ ps) (suc rounds) iter ok a pos total enough =
      let next =
        next_prop-encode ok.0 (At-front (encode_property x) (encode_properties (y ∷ ps)) a) small in
      let here = At-skip (encode_property x) a in
      let iter' : PropertyIterator = record iter {
        current_property = iter.current_property + length (encode_property x);
        current_index = iter.current_index + 1;
      } in
      let rest =
        collect_names-rest y ps rounds iter' ok.1 here (omega arith) (omega arith) (omega arith) in
      ground (
        arith,
        next,
        string_at-name ok.1.0 (At-front (encode_property y) (encode_properties ps) here),
        rest,
      )

  collect_names-start :
      (ps : List Property) (iter : PropertyIterator)
      → All IsProperty ps
      → At mem (iter.entry + node_size) (encode_properties ps)
      → n_properties mem iter.entry ≡ length ps
      → iter.current_index ≡ 0
      → collect_names mem (suc (length ps)) iter ≡ some (names ps)
  unfolding collect_names iterate_properties names encode_properties
  collect_names-start [] iter ok a total index = ground arith
  collect_names-start (y ∷ ps) iter ok a total index =
      let iter' : PropertyIterator = record iter {
        current_property = iter.entry + node_size;
        current_index = 1;
      } in
      let rest =
        collect_names-rest y ps (suc (length ps)) iter' ok a (omega arith) (omega arith)
          (omega arith) in
      ground
        (arith, string_at-name ok.0 (At-front (encode_property y) (encode_properties ps) a), rest)

-- DTCreatePropertyIterator, then DTIterateProperties until it says kIterationDone, yields the names
-- of the properties in order; so does DTRestartPropertyIteration, from any point of the iteration.
pub collect_names-properties :
    {mem : Bytes} {e : Addr} {t : Tree} (iter : PropertyIterator)
    → Holds mem e t
    → iter.entry ≡ e
    → (collect_names mem (suc (length (properties t))) (create_property_iterator e)
        ≡ some (names (properties t)))
      × (collect_names mem (suc (length (properties t))) (restart_property_iteration iter)
          ≡ some (names (properties t)))
unfolding create_property_iterator restart_property_iteration
collect_names-properties {mem} {e} {t} iter h same = (
  collect_names-start h.small (properties t) (create_property_iterator e)
      (IsTree-properties h.is_tree) (At-properties h) (n_properties-length h) refl,
  collect_names-start h.small (properties t) (restart_property_iteration iter)
      (IsTree-properties h.is_tree) (rw same (At-properties h))
      (ap (n_properties mem) same ∙ n_properties-length h) refl,
)
