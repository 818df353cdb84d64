-- ===== src/Tsc/Factors.antt =====
-- The variables of Kernel/Kernel/i386/tsc.c and the conversion factors that it computes.
use beta_os.Prelude.{ℕ, ◌+◌, ◌-◌, ◌*◌, ◌/◌, ◌%◌, ◌^◌, Bool, ◌==◌, if◌then◌else◌}

-- The frequencies in Hz, and the factors between ticks and nanoseconds, scaled by 2^32.
pub record Tsc : Type 0 where
  pub bus_fcvtt2n : ℕ
  pub bus_fcvtn2t : ℕ
  pub tsc_freq : ℕ
  pub tsc_fcvtt2n : ℕ
  pub tsc_fcvtn2t : ℕ
  pub tsc_granularity : ℕ
  pub bus2tsc : ℕ
  pub bus_freq : ℕ
  pub flex_ratio : ℕ
  pub flex_ratio_min : ℕ
  pub flex_ratio_max : ℕ
  pub tsc_at_boot : ℕ

-- The variables before the first call.
unfoldable pub zero_tsc : Tsc
zero_tsc = record {
  bus_fcvtt2n = 0;
  bus_fcvtn2t = 0;
  tsc_freq = 0;
  tsc_fcvtt2n = 0;
  tsc_fcvtn2t = 0;
  tsc_granularity = 0;
  bus2tsc = 0;
  bus_freq = 0;
  flex_ratio = 0;
  flex_ratio_min = 0;
  flex_ratio_max = 0;
  tsc_at_boot = 0;
}

-- How a run ends: with a value, in `panic`, in a failed assertion, in a division by zero, or
-- without an answer for lack of fuel.
pub data Outcome {ℓ} (A : Type ℓ) : Type ℓ where
  done : A → Outcome A
  panic : Outcome A
  failed : Outcome A
  divide_error : Outcome A
  running : Outcome A

infixl 5 ◌>>=◌
abbrev pub ◌>>=◌ {ℓ κ} : {A : Type ℓ} {B : Type κ} → Outcome A → (A → Outcome B) → Outcome B
done a >>= f = f a
panic >>= f = panic
failed >>= f = failed
divide_error >>= f = divide_error
running >>= f = running

unfoldable pub divide : ℕ → ℕ → Outcome ℕ
divide a b = if b == 0 then divide_error else done (a / b)

-- `(1 * Giga) << 32`, and the greatest uint64_t.
abbrev pub giga_scaled : ℕ
giga_scaled = 1000000000 * 2 ^ 32

abbrev pub max_uint64 : ℕ
max_uint64 = 2 ^ 64 - 1

-- tmrCvt, which is assembly: the product of 128 bits, shifted right by 32 and cut to 64; a factor
-- of 1 is no factor.
unfoldable pub tmr_cvt : ℕ → ℕ → ℕ
tmr_cvt time conversion = if conversion == 1 then time else time * conversion / 2 ^ 32 % 2 ^ 64

-- `bitfield`, on 64 bits.
abbrev pub bitfield : ℕ → ℕ → ℕ → ℕ
bitfield x h l = x / 2 ^ l % 2 ^ (h - l + 1)

abbrev pub bit : ℕ → ℕ → Bool
bit x n = x / 2 ^ n % 2 == 1

-- The factors of the bus.
unfoldable pub set_bus_factors : Tsc → Outcome Tsc
unfolding divide
set_bus_factors t =
    if t.bus_freq == 0
    then panic
    else (divide giga_scaled (t.bus_freq) >>= λ t2n.
        divide max_uint64 t2n >>= λ n2t. done (record t { bus_fcvtt2n = t2n; bus_fcvtn2t = n2t }))

-- The factor of the counter: that of the bus over the ratio, which is half a tick more if the
-- flag says so.
unfoldable pub counter_factor : Bool → Tsc → Outcome ℕ
unfolding divide
counter_factor half t =
    if half
    then divide (t.bus_fcvtt2n * 2 % 2 ^ 64) ((1 + 2 * t.tsc_granularity) % 2 ^ 64)
    else divide (t.bus_fcvtt2n) (t.tsc_granularity)

unfoldable pub set_counter_factors : Bool → Tsc → Outcome Tsc
unfolding divide counter_factor tmr_cvt
set_counter_factors half t =
    if t.tsc_freq == t.bus_freq
    then done (record t {
      bus2tsc = 1;
      tsc_granularity = 1;
      tsc_fcvtn2t = t.bus_fcvtn2t;
      tsc_fcvtt2n = t.bus_fcvtt2n;
    })
    else (counter_factor half t >>= λ t2n. divide giga_scaled t2n >>= λ freq.
        divide max_uint64 t2n >>= λ n2t. done (record t {
          tsc_fcvtt2n = t2n;
          tsc_freq = freq;
          tsc_fcvtn2t = n2t;
          bus2tsc = tmr_cvt (t.bus_fcvtt2n) n2t;
        }))
