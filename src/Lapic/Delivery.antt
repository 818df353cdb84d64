-- ===== src/Lapic/Delivery.antt =====
-- `lapic_send_ipi` of Kernel/Kernel/i386/lapic.c, in either mode.
use beta_os.Prelude.{
  ℕ, zero, suc, ◌+◌, ◌/◌, ◌%◌, ◌^◌, ◌≤◌, ◌<◌, ◌≡◌, refl, Bool, true, false, inl, inr, some, List,
  ◌∷◌, ltb, if◌then◌else◌, Bool-cases, arith,
}
use native.Mathlib.Decide.{dec_lt}
use beta_os.Prelude.Int.{pos}
use beta_os.Lapic.State.{
  icr, icrd, interrupt_base, bit, wrote, interrupts, saw, Event, Lapic, record_event,
}
use beta_os.Lapic.Ops.{mmio_address, msr_number, lapic_write_icr}
use beta_os.Lapic.Interrupt.{wait_delivery, lapic_send_ipi}

-- The controller that a command goes to, and the command, as the hardware takes them.
unfoldable pub destination : Lapic → ℕ
destination l =
    if l.is_x2apic then l.msr (msr_number icr) / 2 ^ 32 else l.mmio (mmio_address l icrd) / 2 ^ 24

unfoldable pub command : Lapic → ℕ
command l = if l.is_x2apic then l.msr (msr_number icr) % 2 ^ 32 else l.mmio (mmio_address l icr)

module _ (a cmd : ℕ) (l : Lapic) (small : a < 256) (word : cmd < 2 ^ 32) where
  sent :
      let l' = lapic_write_icr a cmd l in
      (destination l' ≡ a) × (command l' ≡ cmd) × (l'.log ≡ wrote icr cmd ∷ l.log)
  unfolding destination command lapic_write_icr
  sent = elim (Bool-cases (l.is_x2apic)) [ inl x2 ↦ ground arith | inr legacy ↦ ground arith ]

-- The reads that a wait makes from the n-th on: each but the last finds the bit set.
pub data Waits (status : ℕ → ℕ) : ℕ → List Event → List Event → Type 0 where
  ready :
      {n : ℕ} {log : List Event}
      → bit (status n) 12 ≡ false
      → Waits status n log (saw icr (status n) ∷ log)
  pending :
      {n : ℕ} {log log' : List Event}
      → bit (status n) 12 ≡ true
      → Waits status (n + 1) (saw icr (status n) ∷ log) log'
      → Waits status n log log'

-- The loop ends with the first read that finds the bit clear.
wait_delivery-Waits :
    (rounds : ℕ) (status : ℕ → ℕ) (n k : ℕ) (l : Lapic)
    → bit (status k) 12 ≡ false
    → n ≤ k
    → k < n + rounds
    → (log : List Event) × (wait_delivery rounds status n l ≡ some (record l { log = log }))
      × Waits status n (l.log) log
unfolding wait_delivery
wait_delivery-Waits zero status n k l clear le lt = absurd (omega arith)
wait_delivery-Waits (suc rounds) status n k l clear le lt = elim (Bool-cases (bit (status n) 12)) [
  | inr clear_now ↦ (saw icr (status n) ∷ l.log, rw clear_now refl, ready clear_now)
  | inl set ↦ elim (dec_lt n k) [
    | yes before ↦
        let (log, e, w) =
          wait_delivery-Waits rounds status (n + 1) k (record_event (saw icr (status n)) l) clear
            (omega arith) (omega arith) in
        (log, rw set e, pending set w)
    | no at ↦ let same : n ≡ k = omega arith in absurd (ground (arith, same))
  ]
]

-- If the status of an earlier command is found clear at some read within the rounds, the command
-- is sent after the first such read, and not before: with interrupts disabled, the status is read
-- until it is found clear, and then the command goes once to the controller that the processor is
-- mapped to, with the vector, moved to the base if it lies below; interrupts are then as they were.
pub lapic_send_ipi-delivers :
    (rounds : ℕ) (status : ℕ → ℕ) (k : ℕ) (enabled : Bool) (cpu vector a : ℕ) (l : Lapic)
    → l.cpu_to_lapic cpu ≡ pos a
    → a < 256
    → vector < 256
    → bit (status k) 12 ≡ false
    → k < rounds
    → let v = (if ltb vector interrupt_base then vector + interrupt_base else vector) in
      (l' : Lapic) × (lapic_send_ipi rounds status enabled cpu vector l ≡ some l')
      × (destination l' ≡ a)
      × (command l' ≡ v)
      × (log : List Event) × Waits status 0 (interrupts false ∷ l.log) log
      × (l'.log ≡ interrupts enabled ∷ wrote icr v ∷ log)
unfolding lapic_send_ipi destination command
lapic_send_ipi-delivers rounds status k enabled cpu vector a l mapped small below clear lt =
    let v = (if ltb vector interrupt_base then vector + interrupt_base else vector) in
    let word : v < 2 ^ 32 = ground arith in
    let quiet = record_event (interrupts false) l in
    let (log, e, w) =
      wait_delivery-Waits rounds status 0 k quiet clear (omega arith) (omega arith) in
    let ready = record quiet { log = log } in
    let (h, h', h'') = sent a v ready small word in
    (
      record_event (interrupts enabled) (lapic_write_icr a v ready),
      rw (e, mapped) refl,
      h,
      h',
      log,
      w,
      rw h'' refl,
    )
