-- ===== src/Cpuid/Regs.antt =====
-- The registers and bit fields of Kernel/Kernel/i386/cpuid.c, and how a run may end.
use beta_os.Prelude.{ℕ, ◌+◌, ◌-◌, ◌*◌, ◌/◌, ◌%◌, ◌^◌, Bool, List, [], ◌∷◌, ◌==◌}

-- The array that `cpuid` leaves its result in, indexed by eax, ebx, ecx and edx.
pub record Regs : Type 0 where
  pub eax : ℕ
  pub ebx : ℕ
  pub ecx : ℕ
  pub edx : ℕ

-- The processor: the result of the instruction for a leaf and a subleaf, the model-specific
-- registers, and what the stack holds behind the 48 bytes that the brand string is read to.
-- BIOS_SIGN_ID is what that register holds after it was cleared and leaf 1 was read.
pub record Processor : Type 0 where
  pub cpuid : ℕ → ℕ → Regs
  pub rdmsr64 : ℕ → ℕ
  pub stack : List ℕ

-- cpuid_fn and do_cpuid: the subleaf is 0.
unfoldable pub cpuid_fn : Processor → ℕ → Regs
cpuid_fn p selector = p.cpuid selector 0

abbrev pub bitfield32 : ℕ → ℕ → ℕ → ℕ
bitfield32 x h l = x / 2 ^ l % 2 ^ (h - l + 1)

-- `hi` shifted and or-ed with a `lo` of 32 bits.
abbrev pub quad : ℕ → ℕ → ℕ
quad hi lo = hi * 2 ^ 32 + lo

-- One bit of a mask, `x & _Bit(n)`; a bit of the upper half, _HBit(n), is bit n + 32.
abbrev pub has_bit : ℕ → ℕ → Bool
has_bit x n = x / 2 ^ n % 2 == 1

abbrev pub is_set : ℕ → Bool
is_set n = n == 1

-- The four bytes of a register, as `bcopy` copies them.
abbrev pub bytes_of : ℕ → List ℕ
bytes_of w = w % 2 ^ 8 ∷ w / 2 ^ 8 % 2 ^ 8 ∷ w / 2 ^ 16 % 2 ^ 8 ∷ w / 2 ^ 24 % 2 ^ 8 ∷ []

-- How a run ends: with a value, with a write outside an array, in `panic`, or not within the
-- rounds that were given.
pub data Outcome {ℓ} (A : Type ℓ) : Type ℓ where
  done : A → Outcome A
  overrun : Outcome A
  panic : Outcome A
  running : Outcome A

infixl 5 ◌>>=◌
abbrev pub ◌>>=◌ {ℓ κ} : {A : Type ℓ} {B : Type κ} → Outcome A → (A → Outcome B) → Outcome B
done a >>= f = f a
overrun >>= f = overrun
panic >>= f = panic
running >>= f = running
