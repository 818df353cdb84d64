-- ===== src/DeviceTree/Preorder.antt =====
-- find_entry and DTFindEntry on an encoded tree: the first entry in preorder with the property.
use beta_os.Prelude.{
  Bool-cases, ◌⊎◌, inl, inr, ℕ, zero, suc, ◌+◌, ◌^◌, ◌≤◌, ◌<◌, ◌≡◌, ◌≢◌, refl, Bool, true, false,
  ◌&&◌, ◌||◌, Option, none, some, List, [], ◌∷◌, length, All, length-append, arith, if◌then◌else◌,
}
use beta_os.Prelude.Int.{ℤ}
use beta_os.DeviceTree.Memory.{
  Bytes, Addr, until_nul, node_size, property_size, round_word, prop_length,
}
use beta_os.DeviceTree.Entry.{Reply, success, error, State}
use beta_os.DeviceTree.Search.{
  matches, search_properties, search_children, find_entry, find_entry_in_tree,
}
use beta_os.DeviceTree.Tree.{
  Property, IsProperty, Tree, node, Forest, nil, cons, properties, children, count, encode_property,
  encode_properties, encode, encode_forest, height, height_forest, IsForest, IsForest-tail,
  Everywhere, EverywhereIn, every_node, every_cons, At, Holds,
}
use beta_os.DeviceTree.Layout.{
  At-skip, At-front, At-value, string_at-name, prop_length-value, length-encode_property,
}
use beta_os.DeviceTree.Node.{
  IsTree-properties, IsTree-children, n_properties-length, n_properties-pos, n_children-count,
  At-properties, At-children, body, size_split,
}
use beta_os.DeviceTree.Skip.{Holds-head, At-tail, body-pos}
use beta_os.DeviceTree.Properties.{equals}
use beta_os.DeviceTree.Value.{has_nul, string_at-value}

Reply-cases : {A : Type 0} (r : Reply A) → (r ≡ error) ⊎ ((a : A) × (r ≡ success a))
Reply-cases (success a) = inr (a, refl)
Reply-cases error = inl refl

-- An entry is readable where its own properties and all those below are.
every-properties : {P : Property → Type 0} {t : Tree} → Everywhere P t → All P (properties t)
every-properties (every_node ps _) = ps

every-children : {P : Property → Type 0} {t : Tree} → Everywhere P t → EverywhereIn P (children t)
every-children (every_node _ cs) = cs

every-head :
    {P : Property → Type 0} {t : Tree} {cs : Forest} → EverywhereIn P (cons t cs) → Everywhere P t
every-head (every_cons t _) = t

every-tail :
    {P : Property → Type 0} {t : Tree} {cs : Forest}
    → EverywhereIn P (cons t cs)
    → EverywhereIn P cs
every-tail (every_cons _ cs) = cs

module _ (strcmp : Bytes → Bytes → ℤ) (name : Bytes) (value : Option Bytes) where
  value_matches : Bytes → Option Bytes → Bool
  value_matches v none = true
  value_matches v (some w) = equals strcmp w (until_nul v)

  -- A property with the name, and with the value where one is asked for.
  unfoldable pub is_match : Property → Bool
  unfolding value_matches
  is_match x = equals strcmp name x.name && value_matches x.value value

  unfoldable pub any_match : List Property → Bool
  any_match [] = false
  any_match (x ∷ xs) = is_match x || any_match xs

  -- The value of a property with the name is a string.
  abbrev pub IsReadable : Property → Type 0
  IsReadable x = equals strcmp name x.name ≡ true → has_nul x.value ≡ true

  -- The address of the first entry in preorder with a matching property.
  unfoldable mutual
    pub first_in_tree : Addr → Tree → Reply Addr
    first_in_tree e (node ps cs) =
        if any_match ps then success e else first_in_forest (body e (node ps cs)) cs

    pub first_in_forest : Addr → Forest → Reply Addr
    first_in_forest p nil = error
    first_in_forest p (cons t cs) = elim (first_in_tree p t) [
      | success q ↦ success q
      | error ↦ first_in_forest (p + length (encode t)) cs
    ]

  module _ {mem : Bytes} {p : Addr} {x : Property} (ok : IsProperty x)
      (a : At mem p (encode_property x)) where
    round_word-next :
        p + property_size + round_word (prop_length mem p) ≡ p + length (encode_property x)
    round_word-next =
        omega (arith, prop_length-value ok a, length-encode_property ok, ok.value_fits)

    matches-is_match : IsReadable x → matches strcmp mem p name value ≡ is_match x
    unfolding matches is_match
    matches-is_match readable = elim (Bool-cases (equals strcmp name x.name)) [
      | inl named ↦ ground (
        arith,
        string_at-name ok a,
        string_at-value x.value (At-front x.value x.value_slack (At-value ok a)) (readable named),
      )
      | inr other ↦ ground (arith, string_at-name ok a)
    ]

  -- The loop over the properties of an entry, and where it leaves `startingP`.
  seek : Addr → List Property → Bool × Addr
  seek p [] = (false, p)
  seek p (x ∷ xs) =
      let next = p + length (encode_property x) in
      let rest = seek next xs in if is_match x then (true, next) else rest

  seek-any_match : (p : Addr) (ps : List Property) → (seek p ps).0 ≡ any_match ps
  unfolding seek any_match
  seek-any_match p [] = refl
  seek-any_match p (x ∷ xs) = ground (arith, seek-any_match (p + length (encode_property x)) xs)

  seek-end :
      (p : Addr) (ps : List Property)
      → any_match ps ≡ false
      → (seek p ps).1 ≡ p + length (encode_properties ps)
  unfolding seek any_match encode_properties
  seek-end p [] none_matches = omega arith
  seek-end p (x ∷ xs) none_matches = ground (
    arith,
    seek-end (p + length (encode_property x)) xs,
    length-append (encode_property x) (encode_properties xs),
  )

  search_properties-seek :
      (ps : List Property) {mem : Bytes} {p : Addr}
      → All IsProperty ps
      → All IsReadable ps
      → At mem p (encode_properties ps)
      → search_properties strcmp mem (length ps) p name value ≡ seek p ps
  unfolding search_properties seek encode_properties
  search_properties-seek [] ok readable a = refl
  search_properties-seek (x ∷ xs) {mem} {p} ok readable a =
      let here = At-front (encode_property x) (encode_properties xs) a in
      ground (
        arith,
        round_word-next ok.0 here,
        matches-is_match ok.0 here readable.0,
        search_properties-seek xs {p = p + length (encode_property x)} ok.1 readable.1
            (At-skip (encode_property x) a),
      )

  -- What find_entry returns on a tree at `e`: the first match, or kError past the whole tree.
  abbrev Searched : Reply Addr → Addr → Option (Reply Addr × Addr) → Type 0
  Searched found end result = (s : Addr) × (result ≡ some (found, s)) × (found ≡ error → s ≡ end)

  mutual
    unfolding find_entry search_children first_in_tree height encode

    find_entry-first :
        (t : Tree) {mem : Bytes} {e : Addr} (fuel : ℕ)
        → Holds mem e t
        → Everywhere IsReadable t
        → height t ≤ fuel
        → Searched
            (first_in_tree e t)
            (e + length (encode t))
            (find_entry strcmp mem fuel e name value)
    find_entry-first (node ps cs) zero h every deep = absurd (omega arith)
    find_entry-first (node ps cs) {mem} {e} (suc fuel) h every deep =
        let t = node ps cs in
        let scan =
          search_properties-seek ps (IsTree-properties h.is_tree) (every-properties every)
            (At-properties h) in
        let below =
          search_children-first cs {p = body e t} fuel h.small (body-pos h)
            (IsTree-children h.is_tree) (At-children h) (every-children every) (omega arith) in
        elim (Bool-cases (any_match ps)) [
          | inl yes' ↦ (
            (seek (e + node_size) ps).1,
            ground (
              arith,
              scan,
              seek-any_match (e + node_size) ps,
              n_properties-length h,
              n_properties-pos h,
            ),
            λ failed. ground arith,
          )
          | inr no' ↦ (
            below.0,
            ground (
              arith,
              scan,
              seek-any_match (e + node_size) ps,
              seek-end (e + node_size) ps no',
              n_properties-length h,
              n_properties-pos h,
              n_children-count h,
              below.1,
            ),
            λ failed. ground (arith, below.2, size_split e t),
          )
        ]

    search_children-first :
        (cs : Forest) {mem : Bytes} {p : Addr} (fuel : ℕ)
        → length mem < 2 ^ 64
        → p ≢ 0
        → IsForest cs
        → At mem p (encode_forest cs)
        → EverywhereIn IsReadable cs
        → height_forest cs ≤ fuel
        → Searched
            (first_in_forest p cs)
            (p + length (encode_forest cs))
            (search_children strcmp mem (λ q. find_entry strcmp mem fuel q name value) (count cs) p)
    search_children-first nil {p} fuel small ne ok a every deep = (p, refl, λ _. omega arith)
    search_children-first (cons t cs) {mem} {p} fuel small ne ok a every deep =
        let first =
          find_entry-first t fuel (Holds-head small ne ok a) (every-head every) (omega arith) in
        let rest =
          search_children-first cs {p = p + length (encode t)} fuel small (omega arith)
            (IsForest-tail ok) (At-tail small ne ok a) (every-tail every) (omega arith) in
        elim (Reply-cases (first_in_tree p t)) [
          | inl failed ↦ (
            rest.0,
            ground (arith, failed, first.1, first.2 failed, rest.1),
            λ all_failed.
                ground (arith, failed, rest.2, length-append (encode t) (encode_forest cs)),
          )
          | inr (q, found) ↦
              (first.0, ground (arith, found, first.1), λ failed. ground (arith, found))
        ]

  -- Once DTInit has been called on an encoded tree whose properties can be compared, and with a
  -- fuel of at least the height of the tree, DTFindEntry returns the first entry in preorder that
  -- has the property, or kError if none has.
  pub find_entry_in_tree-first :
      {mem : Bytes} {e : Addr} {t : Tree} (fuel : ℕ) (state : State)
      → state.initialized ≡ true
      → state.root ≡ e
      → Holds mem e t
      → Everywhere IsReadable t
      → height t ≤ fuel
      → find_entry_in_tree strcmp mem fuel state name value ≡ some (first_in_tree e t)
  unfolding find_entry_in_tree
  find_entry_in_tree-first {t} fuel state ready root h every deep =
      rw (ready, root) (ground (arith, (find_entry-first t fuel h every deep).1))
