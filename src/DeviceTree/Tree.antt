-- ===== src/DeviceTree/Tree.antt =====
-- What the bytes of a flattened device tree stand for: the structures of
-- Kernel/Platform/platform/device_tree.h as trees, and their layout in memory.
use beta_os.Prelude.{
  ℕ, suc, ◌+◌, ◌*◌, ◌/◌, ◌%◌, ◌^◌, ◌<◌, ◌≡◌, ◌≢◌, refl, List, [], ◌∷◌, ◌++◌, length, drop, All,
}
use Prim.Native.Nat.{max}
use beta_os.DeviceTree.Memory.{Bytes, Addr}

-- The name, what follows its NUL in `char name[32]`, the value, and what pads it to a word.
pub record Property : Type 0 where
  pub name : Bytes
  pub name_slack : Bytes
  pub value : Bytes
  pub value_slack : Bytes

mutual
  pub data Tree : Type 0 where
    node : List Property → Forest → Tree

  pub data Forest : Type 0 where
    nil : Forest
    cons : Tree → Forest → Forest

abbrev pub properties : Tree → List Property
properties (node ps _) = ps

abbrev pub children : Tree → Forest
children (node _ cs) = cs

abbrev pub count : Forest → ℕ
count nil = 0
count (cons _ cs) = suc (count cs)

abbrev pub word : ℕ → Bytes
word n = n % 256 ∷ n / 256 % 256 ∷ n / 65536 % 256 ∷ n / 16777216 ∷ []

unfoldable pub encode_property : Property → Bytes
encode_property x =
    x.name ++ (0 ∷ (x.name_slack ++ (word (length x.value) ++ (x.value ++ x.value_slack))))

unfoldable pub encode_properties : List Property → Bytes
encode_properties [] = []
encode_properties (x ∷ xs) = encode_property x ++ encode_properties xs

-- The bytes of a tree: the node, its properties, then its children.
unfoldable mutual
  pub encode : Tree → Bytes
  encode (node ps cs) =
      word (length ps) ++ (word (count cs) ++ (encode_properties ps ++ encode_forest cs))

  pub encode_forest : Forest → Bytes
  encode_forest nil = []
  encode_forest (cons t cs) = encode t ++ encode_forest cs

unfoldable mutual
  pub height : Tree → ℕ
  height (node _ cs) = suc (height_forest cs)

  pub height_forest : Forest → ℕ
  height_forest nil = 0
  height_forest (cons t cs) = max (height t) (height_forest cs)

pub height-children : (t : Tree) → height t ≡ suc (height_forest (children t))
unfolding height
height-children (node _ cs) = refl

-- `name` is a C string of at most 31 bytes in its array, and the value is padded to whole words.
pub record IsProperty (x : Property) : Type 0 where
  pub no_nul : All (λ c. c ≢ 0) x.name
  pub name_fits : length x.name + length x.name_slack ≡ 31
  pub value_fits : length x.value + 3 < 2 ^ 32
  pub padded : length x.value + length x.value_slack ≡ (length x.value + 3) / 4 * 4

-- Each node has a property (a node without one ends the tree), and the counts fit 32 bits.
mutual
  pub data IsTree : Tree → Type 0 where
    is_node :
        {p : Property} {ps : List Property} {cs : Forest}
        → All IsProperty (p ∷ ps)
        → length (p ∷ ps) < 2 ^ 32
        → count cs < 2 ^ 32
        → IsForest cs
        → IsTree (node (p ∷ ps) cs)

  pub data IsForest : Forest → Type 0 where
    is_nil : IsForest nil
    is_cons : {t : Tree} {cs : Forest} → IsTree t → IsForest cs → IsForest (cons t cs)

pub IsForest-head : {t : Tree} {cs : Forest} → IsForest (cons t cs) → IsTree t
IsForest-head (is_cons t _) = t

pub IsForest-tail : {t : Tree} {cs : Forest} → IsForest (cons t cs) → IsForest cs
IsForest-tail (is_cons _ cs) = cs

-- A predicate of every property of a tree.
mutual
  pub data Everywhere (P : Property → Type 0) : Tree → Type 0 where
    every_node :
        {ps : List Property} {cs : Forest}
        → All P ps
        → EverywhereIn P cs
        → Everywhere P (node ps cs)

  pub data EverywhereIn (P : Property → Type 0) : Forest → Type 0 where
    every_nil : EverywhereIn P nil
    every_cons :
        {t : Tree} {cs : Forest} → Everywhere P t → EverywhereIn P cs → EverywhereIn P (cons t cs)

-- The memory from `p` on begins with these bytes.
pub record At (mem : Bytes) (p : Addr) (bs : Bytes) : Type 0 where
  pub rest : Bytes
  pub holds : drop p mem ≡ bs ++ rest

-- A well-formed tree stands at the address `e`, which is not NULL, in an address space of 64 bits.
pub record Holds (mem : Bytes) (e : Addr) (t : Tree) : Type 0 where
  pub small : length mem < 2 ^ 64
  pub not_null : e ≢ 0
  pub is_tree : IsTree t
  pub bytes : At mem e (encode t)
