-- ===== src/DeviceTree/Memory.antt =====
-- The memory that holds the flattened device tree of Kernel/Platform/DeviceTree.c, and the loads
-- of that file. An address is an index into the bytes of memory, and NULL is address 0.
use beta_os.Prelude.{ℕ, ◌+◌, ◌*◌, ◌/◌, ◌%◌, ◌^◌, List, [], ◌∷◌, drop, ◌==◌, if◌then◌else◌}

abbrev pub Bytes : Type 0
Bytes = List ℕ

abbrev pub Addr : Type 0
Addr = ℕ

-- A little-endian `uint32_t`.
abbrev pub le32 : Bytes → ℕ
le32 (a ∷ b ∷ c ∷ d ∷ _) = a + 256 * b + 65536 * c + 16777216 * d
le32 _ = 0

unfoldable pub u32_at : Bytes → Addr → ℕ
u32_at mem p = le32 (drop p mem)

-- The bytes of a C string, up to its NUL.
unfoldable pub until_nul : Bytes → Bytes
until_nul [] = []
until_nul (c ∷ s) = if c == 0 then [] else c ∷ until_nul s

unfoldable pub string_at : Bytes → Addr → Bytes
unfolding until_nul
string_at mem p = until_nul (drop p mem)

-- `x & ~3`: the two low bits are cleared.
abbrev pub clear_low2 : ℕ → ℕ
clear_low2 x = x / 4 * 4

-- `round_long`, in 64 bits: its constants are `unsigned long`.
abbrev pub round_long : ℕ → ℕ
round_long x = clear_low2 ((x + 3) % 2 ^ 64)

-- `(length + 3) & -4` on a `uint32_t`, which wraps at 32 bits.
abbrev pub round_word : ℕ → ℕ
round_word x = clear_low2 ((x + 3) % 2 ^ 32)

-- sizeof(DeviceTreeNode) and sizeof(DeviceTreeNodeProperty), and the offsets of their fields.
abbrev pub node_size : ℕ
node_size = 8

abbrev pub property_size : ℕ
property_size = 36

unfoldable pub n_properties : Bytes → Addr → ℕ
unfolding u32_at
n_properties mem entry = u32_at mem entry

unfoldable pub n_children : Bytes → Addr → ℕ
unfolding u32_at
n_children mem entry = u32_at mem (entry + 4)

unfoldable pub prop_length : Bytes → Addr → ℕ
unfolding u32_at
prop_length mem prop = u32_at mem (prop + 32)

-- `next_prop`: the address is computed in a `uintptr_t`.
unfoldable pub next_prop : Bytes → Addr → Addr
unfolding prop_length
next_prop mem prop = (prop + property_size + round_long (prop_length mem prop)) % 2 ^ 64
