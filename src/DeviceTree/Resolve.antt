-- ===== src/DeviceTree/Resolve.antt =====
-- DTLookupEntry as a whole: where it starts, the separator in front, and names that do not fit.
use beta_os.Prelude.{
  ℕ, suc, ◌+◌, ◌<◌, ◌≡◌, ◌≢◌, refl, ◌∙◌, true, some, List, [], ◌∷◌, ◌++◌, length, All, arith,
  if◌then◌else◌, ◌==◌,
}
use native.Mathlib.Numerals.{add-one}
use beta_os.Prelude.Int.{ℤ}
use beta_os.DeviceTree.Memory.{Bytes, Addr}
use beta_os.DeviceTree.Entry.{success, error, State, separator, max_entry_name_length, lookup_path}
use beta_os.DeviceTree.Search.{lookup_entry}
use beta_os.DeviceTree.Tree.{Tree}
use beta_os.DeviceTree.Path.{
  IsComponent, path_of, get_next_component-long, length-path_of, path_of-start,
}
use beta_os.DeviceTree.Lookup.{
  Stands, descend, lookup_path-descend, lookup_path-nil, lookup_path-long,
}

module _ (strcmp : Bytes → Bytes → ℤ) (mem : Bytes) (fuel : ℕ) {e : Addr} (state : State)
    (search_point : Addr) (ready : state.initialized ≡ true)
    (start : e ≡ (if search_point == 0 then state.root else search_point)) where
  lookup_entry-plain :
      (p : Bytes) (c : ℕ) (s : Bytes)
      → p ≡ c ∷ s
      → c ≢ separator
      → lookup_entry strcmp mem fuel state search_point p
        ≡ lookup_path strcmp mem fuel (length p + 1) e p
  unfolding lookup_entry
  lookup_entry-plain p c s e' ne = rw (e', ready, start) (ground arith)

  lookup_entry-separator_cons :
      (c : ℕ) (s : Bytes)
      → lookup_entry strcmp mem fuel state search_point (separator ∷ c ∷ s)
        ≡ lookup_path strcmp mem fuel (suc (length (c ∷ s)) + 1) e (c ∷ s)
  unfolding lookup_entry
  lookup_entry-separator_cons c s = rw (ready, start) refl

  lookup_entry-separator :
      (p : Bytes) (c : ℕ) (s : Bytes)
      → p ≡ c ∷ s
      → lookup_entry strcmp mem fuel state search_point (separator ∷ p)
        ≡ lookup_path strcmp mem fuel (suc (length p) + 1) e p
  lookup_entry-separator p c s e' = rw e' (lookup_entry-separator_cons c s)

  lookup_entry-nil :
      (lookup_entry strcmp mem fuel state search_point [] ≡ some (success e))
      × (lookup_entry strcmp mem fuel state search_point (separator ∷ []) ≡ some (success e))
  unfolding lookup_entry
  lookup_entry-nil = rw (ready, start) (lookup_path-nil strcmp mem fuel 0 _, refl)

  -- Once DTInit has been called, and where the memory at the start of the search (the root for
  -- NULL) holds an encoded tree, DTLookupEntry follows a path of names that are components, with or
  -- without a separator in front, as descending from child to child does.
  pub lookup_entry-descend :
      {t : Tree} (ns : List Bytes)
      → Stands strcmp mem fuel e t
      → All IsComponent ns
      → (lookup_entry strcmp mem fuel state search_point (path_of ns)
          ≡ some (descend strcmp ns e t))
        × (lookup_entry strcmp mem fuel state search_point (separator ∷ path_of ns)
            ≡ some (descend strcmp ns e t))
  lookup_entry-descend [] st ok = unfold descend in lookup_entry-nil
  lookup_entry-descend (n ∷ ns) st ok =
      let p = path_of (n ∷ ns) in
      let (c, s, e', ne) = path_of-start n ns ok.0 in
      let enough = length-path_of (n ∷ ns) ok in
      (
        lookup_entry-plain p c s e' ne
            ∙ lookup_path-descend strcmp (n ∷ ns) (length p + 1) st ok (omega arith),
        lookup_entry-separator p c s e'
            ∙ lookup_path-descend strcmp (n ∷ ns) (suc (length p) + 1) st ok (omega arith),
      )

  -- A path whose first name is longer than 63 bytes is not found, whatever the tree holds.
  pub lookup_entry-long :
      (n rest : Bytes)
      → max_entry_name_length < length n
      → All (λ c. c ≢ separator) n
      → lookup_entry strcmp mem fuel state search_point (n ++ rest) ≡ some error
  lookup_entry-long [] rest long plain = absurd (omega arith)
  lookup_entry-long (c ∷ n) rest long plain =
      lookup_entry-plain ((c ∷ n) ++ rest) c (n ++ rest) refl plain.0
      ∙ (let (b, bs, split) = get_next_component-long (c ∷ n) rest long plain in
          rw add-one (
            lookup_path-long strcmp mem fuel (length ((c ∷ n) ++ rest)) e ((c ∷ n) ++ rest) b bs
              split))
