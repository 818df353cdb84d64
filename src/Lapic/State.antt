-- ===== src/Lapic/State.antt =====
-- The registers, vectors and variables of Kernel/Kernel/i386/lapic.c and lapic.h.
use beta_os.Prelude.{ℕ, ◌+◌, ◌-◌, ◌/◌, ◌%◌, ◌^◌, Bool, Option, List, ◌∷◌, ◌==◌, if◌then◌else◌}
use beta_os.Prelude.Int.{ℤ}

-- lapic_register_t
abbrev pub id : ℕ
id = 0x02

abbrev pub version : ℕ
version = 0x03

abbrev pub tpr : ℕ
tpr = 0x08

abbrev pub eoi : ℕ
eoi = 0x0B

abbrev pub ldr : ℕ
ldr = 0x0D

abbrev pub dfr : ℕ
dfr = 0x0E

abbrev pub svr : ℕ
svr = 0x0F

abbrev pub error_status : ℕ
error_status = 0x28

abbrev pub icr : ℕ
icr = 0x30

abbrev pub icrd : ℕ
icrd = 0x31

abbrev pub lvt_timer : ℕ
lvt_timer = 0x32

abbrev pub lvt_thermal : ℕ
lvt_thermal = 0x33

abbrev pub lvt_perfcnt : ℕ
lvt_perfcnt = 0x34

abbrev pub lvt_error : ℕ
lvt_error = 0x37

abbrev pub timer_initial_count : ℕ
timer_initial_count = 0x38

abbrev pub timer_divide_config : ℕ
timer_divide_config = 0x3E

-- The interrupts, relative to the base.
abbrev pub perfcnt_interrupt : ℕ
perfcnt_interrupt = 0xF

abbrev pub interprocessor_interrupt : ℕ
interprocessor_interrupt = 0xE

abbrev pub timer_interrupt : ℕ
timer_interrupt = 0xD

abbrev pub thermal_interrupt : ℕ
thermal_interrupt = 0xC

abbrev pub error_interrupt : ℕ
error_interrupt = 0xB

abbrev pub spurious_interrupt : ℕ
spurious_interrupt = 0xA

abbrev pub cmci_interrupt : ℕ
cmci_interrupt = 0x9

abbrev pub pm_interrupt : ℕ
pm_interrupt = 0x7

abbrev pub nmi_interrupt : ℕ
nmi_interrupt = 0x2

-- lapic_interrupt_base, which nothing changes.
abbrev pub interrupt_base : ℕ
interrupt_base = 0xD0

-- LAPIC_VECTOR
abbrev pub vector_of : ℕ → ℕ
vector_of interrupt = interrupt_base + interrupt

abbrev pub bit : ℕ → ℕ → Bool
bit x n = x / 2 ^ n % 2 == 1

-- `x | 1 << n` and `x & ~(1 << n)`
abbrev pub set_bit : ℕ → ℕ → ℕ
set_bit x n = if bit x n then x else x + 2 ^ n

abbrev pub clear_bit : ℕ → ℕ → ℕ
clear_bit x n = if bit x n then x - 2 ^ n else x

-- The bits of a local vector table entry.
abbrev pub lvt_masked : ℕ
lvt_masked = 16

abbrev pub lvt_periodic : ℕ
lvt_periodic = 17

abbrev pub lvt_tsc_deadline : ℕ
lvt_tsc_deadline = 18

-- What is done that others see: a register written, a registered function called, interrupts
-- enabled or disabled, and a value that is seen in a register.
pub data Event : Type 0 where
  wrote : ℕ → ℕ → Event
  called : ℕ → Event
  interrupts : Bool → Event
  saw : ℕ → ℕ → Event

-- The memory-mapped registers by address, the model-specific registers, and the variables of the
-- file. A registered function is known by a number. The latest event comes first. `io_map` gives
-- the address that a physical address is mapped to, `cpu` is the number of the processor that
-- runs, and `phys_number` what its data block has for the controller.
pub record Lapic : Type 0 where
  pub io_map : ℕ → ℕ
  pub cpu : ℕ
  pub master_cpu : ℕ
  pub phys_number : ℤ
  pub mmio : ℕ → ℕ
  pub msr : ℕ → ℕ
  pub pbase : ℕ
  pub vbase : ℕ
  pub is_x2apic : Bool
  pub errors_masked : Bool
  pub cpu_to_lapic : ℕ → ℤ
  pub lapic_to_cpu : ℕ → ℤ
  pub intr_func : ℕ → Option ℕ
  pub log : List Event

abbrev pub update {ℓ} : {A : Type ℓ} → (ℕ → A) → ℕ → A → ℕ → A
update f n a k = if n == k then a else f k

abbrev pub record_event : Event → Lapic → Lapic
record_event e l = record l { log = e ∷ l.log }
