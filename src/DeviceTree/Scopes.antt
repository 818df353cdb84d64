-- ===== src/DeviceTree/Scopes.antt =====
-- DTEnterEntry, DTExitEntry and DTDisposeEntryIterator: one level of scopes works, and two do not,
-- since each saved scope is stored over the one before.
use beta_os.Prelude.{ℕ, zero, suc, ◌≡◌, ◌≢◌, refl, Option, none, some, arith, ◌>>=◌}
use beta_os.DeviceTree.Memory.{Addr}
use beta_os.DeviceTree.Entry.{success}
use beta_os.DeviceTree.Iterator.{
  Store, scope_address, dispose_entry_iterator, enter_entry, exit_entry,
}

-- DTExitEntry called a number of times.
unfoldable pub exits : ℕ → Store → Option Store
exits zero s = some s
exits (suc n) s = exit_entry s >>= λ (_, s'). exits n s'

-- DTExitEntry after DTEnterEntry succeeds, reports the entry at which the scope was left, and
-- restores the iterator, from any state of it.
pub exit_entry-enter_entry :
    (child : Addr) (s : Store)
    → child ≢ 0
    → (s' : Store) × (exit_entry (enter_entry child s).1 ≡ some (success s.iter.current_entry, s'))
      × (s'.iter ≡ s.iter)
unfolding exit_entry enter_entry
exit_entry-enter_entry child s ne =
    (record { iter = s.iter; cell = (enter_entry child s).1.cell }, ground arith, refl)

-- The saved scope is its own next one, and belongs to the entry `a`.
record IsTrapped (a : Addr) (s : Store) : Type 0 where
  saved : s.iter.saved_scope ≡ scope_address
  looped : s.cell.next_scope ≡ scope_address
  inner : s.cell.scope ≡ a

exit_entry-IsTrapped :
    {a : Addr} (s : Store)
    → IsTrapped a s
    → (s' : Store) × (exit_entry s ≡ some (success s.cell.entry, s'))
      × IsTrapped a s'
      × (s'.iter.current_scope ≡ a)
unfolding exit_entry
exit_entry-IsTrapped {a} s trap = (
  record s {
    iter = record {
      outer_scope = s.iter.outer_scope;
      current_scope = s.cell.scope;
      current_entry = s.cell.entry;
      saved_scope = s.cell.next_scope;
      current_index = s.cell.index;
    };
  },
  ground arith,
  ground arith,
  trap.inner,
)

exits-IsTrapped :
    {a : Addr} (n : ℕ) (s : Store)
    → IsTrapped a s
    → (s' : Store) × (exits (suc n) s ≡ some s') × (s'.iter.current_scope ≡ a)
unfolding exits
exits-IsTrapped zero s trap =
    let (s', e, trap', scope) = exit_entry-IsTrapped s trap in (s', rw e refl, scope)
exits-IsTrapped (suc n) s trap =
    let (s', e, trap', scope) = exit_entry-IsTrapped s trap in
    let (s'', e', scope') = exits-IsTrapped n s' trap' in (s'', rw e e', scope')

dispose_entry_iterator-IsTrapped :
    {a : Addr} (fuel : ℕ) (s : Store) → IsTrapped a s → dispose_entry_iterator fuel s ≡ none
unfolding dispose_entry_iterator
dispose_entry_iterator-IsTrapped zero s trap = refl
dispose_entry_iterator-IsTrapped {a} (suc fuel) s trap = ground (
  arith,
  dispose_entry_iterator-IsTrapped {a = a} fuel
      (record s { iter = record (s.iter) { saved_scope = s.cell.next_scope } })
      (record { saved = trap.looped; looped = trap.looped; inner = trap.inner }),
)

module _ (a b : Addr) (s : Store) (first : a ≢ 0) (second : b ≢ 0) where
  nested-IsTrapped : IsTrapped a (enter_entry b (enter_entry a s).1).1
  unfolding enter_entry
  nested-IsTrapped = ground arith

  -- After DTEnterEntry into `a` and then into `b`, DTExitEntry never leaves `a`, however often it
  -- is called, and never fails.
  pub exits-nested :
      (n : ℕ)
      → (s' : Store) × (exits (suc n) (enter_entry b (enter_entry a s).1).1 ≡ some s')
        × (s'.iter.current_scope ≡ a)
  exits-nested n = exits-IsTrapped n _ nested-IsTrapped

  -- After DTEnterEntry twice, the loop of DTDisposeEntryIterator ends within no number of rounds.
  pub dispose_entry_iterator-nested :
      (fuel : ℕ) → dispose_entry_iterator fuel (enter_entry b (enter_entry a s).1).1 ≡ none
  dispose_entry_iterator-nested fuel =
      dispose_entry_iterator-IsTrapped {a = a} fuel _ nested-IsTrapped

-- Outside every scope, and inside one, the iterator is disposed of.
pub dispose_entry_iterator-flat :
    (child : Addr) (s : Store)
    → s.iter.saved_scope ≡ 0
    → child ≢ 0
    → (dispose_entry_iterator 2 s ≡ some s)
      × ((s' : Store) × (dispose_entry_iterator 2 (enter_entry child s).1 ≡ some s')
          × (s'.iter.saved_scope ≡ 0))
unfolding dispose_entry_iterator enter_entry
dispose_entry_iterator-flat child s flat ne =
    let inside = (enter_entry child s).1 in
    let outside : Store = record inside {
      iter = record (inside.iter) { saved_scope = s.iter.saved_scope };
    } in
    (ground arith, (outside, ground arith, flat))
