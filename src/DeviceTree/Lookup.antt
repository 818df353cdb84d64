-- ===== src/DeviceTree/Lookup.antt =====
-- DTLookupEntry on an encoded tree: the names of a path lead down from child to child.
use beta_os.Prelude.{
  ℕ, zero, suc, ◌+◌, ◌^◌, ◌≤◌, ◌<◌, ◌≡◌, ◌≢◌, refl, ap, true, false, Option, none, some, List, [],
  ◌∷◌, length, All, arith, if◌then◌else◌, ◌==◌, ◌>>=◌,
}
use beta_os.Prelude.Int.{ℤ}
use beta_os.DeviceTree.Memory.{Bytes, Addr, until_nul}
use beta_os.DeviceTree.Entry.{Reply, success, error, get_next_component, find_child, lookup_path}
use beta_os.DeviceTree.Tree.{
  Tree, Forest, nil, cons, children, encode, encode_forest, height, height_forest, height-children,
  IsForest, IsForest-tail, At, Holds,
}
use beta_os.DeviceTree.Node.{body, At-children, IsTree-children}
use beta_os.DeviceTree.Skip.{Holds-head, At-tail, body-pos}
use beta_os.DeviceTree.Properties.{equals}
use beta_os.DeviceTree.Child.{address, name_value, IsNamed, AreNamed, child_named, find_child-named}
use beta_os.DeviceTree.Path.{IsComponent, path_of, get_next_component-path_of}

-- At every level the names are strings.
mutual
  pub data NamedTree (strcmp : Bytes → Bytes → ℤ) : Tree → Type 0 where
    named_node : {t : Tree} → NamedForest strcmp (children t) → NamedTree strcmp t

  pub data NamedForest (strcmp : Bytes → Bytes → ℤ) : Forest → Type 0 where
    named_nil : NamedForest strcmp nil
    named_cons :
        {t : Tree} {cs : Forest}
        → IsNamed strcmp t
        → NamedTree strcmp t
        → NamedForest strcmp cs
        → NamedForest strcmp (cons t cs)

module _ (strcmp : Bytes → Bytes → ℤ) where
  AreNamed-children : {t : Tree} → NamedTree strcmp t → NamedForest strcmp (children t)
  AreNamed-children (named_node cs) = cs

  NamedForest-AreNamed : {cs : Forest} → NamedForest strcmp cs → AreNamed strcmp cs
  NamedForest-AreNamed named_nil = tt
  NamedForest-AreNamed (named_cons n _ cs) = (n, NamedForest-AreNamed cs)

  -- A tree in memory, not higher than the fuel, whose entries have names.
  pub record Stands (mem : Bytes) (fuel : ℕ) (e : Addr) (t : Tree) : Type 0 where
    pub holds : Holds mem e t
    pub named : NamedTree strcmp t
    pub deep : height t ≤ fuel

  abbrev AllStand : Bytes → ℕ → Option (Addr × Tree) → Type 0
  AllStand mem fuel none = Unit
  AllStand mem fuel (some (q, u)) = Stands mem fuel q u

  -- The entry that the names lead to.
  unfoldable pub descend : List Bytes → Addr → Tree → Reply Addr
  descend [] e t = success e
  descend (n ∷ ns) e t = elim (child_named strcmp n (body e t) (children t)) [
    | none ↦ error
    | some (q, u) ↦ descend ns q u
  ]

  module _ {mem : Bytes} (small : length mem < 2 ^ 64) (fuel : ℕ) (buf : Bytes) where
    child_named-Stands :
        (cs : Forest) {p : Addr}
        → p ≢ 0
        → IsForest cs
        → At mem p (encode_forest cs)
        → NamedForest strcmp cs
        → height_forest cs ≤ fuel
        → AllStand mem fuel (child_named strcmp buf p cs)
    unfolding child_named height_forest
    child_named-Stands nil ne ok a named deep = tt
    child_named-Stands (cons t cs) {p} ne ok a (named_cons _ nt ncs) deep =
        let rest =
          child_named-Stands cs {p = p + length (encode t)} (omega arith) (IsForest-tail ok)
            (At-tail small ne ok a) ncs (omega arith) in
        let here : Stands mem fuel p t = record {
          holds = Holds-head small ne ok a;
          named = nt;
          deep = omega arith;
        } in
        let below = child_named strcmp buf (p + length (encode t)) cs in
        elim (name_value strcmp t)
          as (λ o. AllStand mem fuel (elim o [
            | none ↦ none
            | some v ↦ if equals strcmp buf (until_nul v) then some (p, t) else below
          ])) [
            | none ↦ tt
            | some v ↦
                elim (equals strcmp buf (until_nul v))
                  as (λ b. AllStand mem fuel (if b then some (p, t) else below)) [
                    | true ↦ here
                    | false ↦ rest
                  ]
          ]

  module _ {mem : Bytes} {fuel : ℕ} {e : Addr} {t : Tree} (st : Stands mem fuel e t) where
    find_child-Stands :
        (buf : Bytes)
        → find_child strcmp mem fuel e buf
          ≡ some (address (child_named strcmp buf (body e t) (children t)))
    find_child-Stands buf =
        find_child-named strcmp st.holds.small fuel buf t st.holds
          (NamedForest-AreNamed (AreNamed-children st.named))
          (omega (arith, height-children t, st.deep))

    children-Stand :
        (buf : Bytes) → AllStand mem fuel (child_named strcmp buf (body e t) (children t))
    children-Stand buf =
        child_named-Stands st.holds.small fuel buf (children t) (body-pos st.holds)
          (IsTree-children st.holds.is_tree) (At-children st.holds) (AreNamed-children st.named)
          (omega (arith, height-children t, st.deep))

  -- What a round of the loop does with the rest of the path and the buffer.
  abbrev round : Bytes → ℕ → ℕ → Addr → Bytes × Bytes → Option (Reply Addr)
  round mem fuel rounds e (rest, buf) = elim buf [
    | [] ↦ elim rest [ [] ↦ some (success e) | _ ↦ some error ]
    | b ∷ bs ↦ find_child strcmp mem fuel e (b ∷ bs) >>= λ next.
        if next == 0 then some error else lookup_path strcmp mem fuel rounds next rest
  ]

  -- One round of the loop on a path that begins with a name.
  lookup_path-round :
      (mem : Bytes) (fuel rounds : ℕ) (e : Addr) (cp cp' : Bytes) (c : ℕ) (s : Bytes)
      → get_next_component cp ≡ (cp', c ∷ s)
      → lookup_path strcmp mem fuel (suc rounds) e cp ≡ (
          find_child strcmp mem fuel e (c ∷ s) >>= λ next.
          if next == 0 then some error else lookup_path strcmp mem fuel rounds next cp')
  unfolding lookup_path
  lookup_path-round mem fuel rounds e cp cp' c s split = ap (round mem fuel rounds e) split

  -- A name that does not fit leaves the buffer empty before the end of the path.
  pub lookup_path-long :
      (mem : Bytes) (fuel rounds : ℕ) (e : Addr) (cp : Bytes) (c : ℕ) (s : Bytes)
      → get_next_component cp ≡ (c ∷ s, [])
      → lookup_path strcmp mem fuel (suc rounds) e cp ≡ some error
  unfolding lookup_path
  lookup_path-long mem fuel rounds e cp c s split = ap (round mem fuel rounds e) split

  -- One round: from what FindChild returns to the rest of the path.
  descend-address :
      (ns : List Bytes) (rounds : ℕ) {mem : Bytes} {fuel : ℕ} (o : Option (Addr × Tree))
      → AllStand mem fuel o
      → ((q : Addr) (u : Tree)
          → Stands mem fuel q u
          → lookup_path strcmp mem fuel rounds q (path_of ns) ≡ some (descend ns q u))
      → (if address o == 0
          then some error
          else lookup_path strcmp mem fuel rounds (address o) (path_of ns))
        ≡ some (elim o [ none ↦ error | some (q, u) ↦ descend ns q u ])
  descend-address ns rounds none stand ih = refl
  descend-address ns rounds (some (q, u)) stand ih =
      ground (arith, stand.holds.not_null, ih q u stand)

  pub lookup_path-nil :
      (mem : Bytes) (fuel rounds : ℕ) (e : Addr)
      → lookup_path strcmp mem fuel (suc rounds) e [] ≡ some (success e)
  unfolding lookup_path get_next_component
  lookup_path-nil mem fuel rounds e = refl

  -- The loop of DTLookupEntry ends with the entry that the names lead to, or with kError.
  pub lookup_path-descend :
      (ns : List Bytes) {mem : Bytes} {fuel : ℕ} {e : Addr} {t : Tree} (rounds : ℕ)
      → Stands mem fuel e t
      → All IsComponent ns
      → length ns < rounds
      → lookup_path strcmp mem fuel rounds e (path_of ns) ≡ some (descend ns e t)
  unfolding descend
  lookup_path-descend ns zero st ok long = absurd (omega arith)
  lookup_path-descend [] {mem} {fuel} {e} (suc rounds) st ok long =
      lookup_path-nil mem fuel rounds e
  lookup_path-descend ([] ∷ ns) (suc rounds) st ok long = absurd (omega (arith, ok.0.nonempty))
  lookup_path-descend ((c ∷ s) ∷ ns) {mem} {fuel} {e} {t} (suc rounds) st ok long =
      rw
        (
          lookup_path-round mem fuel rounds e (path_of ((c ∷ s) ∷ ns)) (path_of ns) c s
              (get_next_component-path_of (c ∷ s) ns ok.0),
          find_child-Stands st (c ∷ s),
        )
        (descend-address ns rounds (child_named strcmp (c ∷ s) (body e t) (children t))
          (children-Stand st (c ∷ s))
          (λ q u below. lookup_path-descend ns rounds below ok.1 (omega arith)))
