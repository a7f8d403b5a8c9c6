-- ===== src/Devices/Framebuffer/Registers.antt =====
-- The interrupt line of the display controller.
use rabbits.Base.{
  ℕ, ◌-◌, ◌^◌, ◌<◌, min, max, ◌≡◌, ◌∙◌, inl, inr, refl, ap, Bool, true, ◌&&◌, ==_of_ne,
  if◌then◌else◌, Bool-cases, bit_and, bit_or, arith,
}
use rabbits.Bits.{bit, complement, bit-bit_and, bit-bit_or, bit-complement, bit-two_pow, bit-lt}
use rabbits.Devices.Framebuffer.{Fb, test, irq_update_thread}

-- The causes are the bits below the global one.
abbrev pub pending : ℕ → Bool
pending irqstat = test irqstat (complement 32 (2 ^ 31))

or_global : (x k : ℕ) → k < 31 → bit (bit_or x (2 ^ 31)) k ≡ bit x k
or_global x k low =
    bit-bit_or k x (2 ^ 31)
    ∙ ap (max (bit x k)) (
        bit-two_pow k 31 ∙ ap (λ b. if b then 1 else 0) (==_of_ne 31 k (λ e. absurd (omega arith))))
    ∙ omega arith

and_global : (x k : ℕ) → k < 31 → bit (bit_and x (complement 32 (2 ^ 31))) k ≡ bit x k
and_global x k low =
    bit-bit_and k x (complement 32 (2 ^ 31))
    ∙ ap (min (bit x k)) (
        bit-complement k 32 (2 ^ 31) (omega arith) (omega arith)
        ∙ ap (λ b. 1 - b)
            (bit-two_pow k 31
              ∙ ap (λ b. if b then 1 else 0) (==_of_ne 31 k (λ e. absurd (omega arith)))))
    ∙ omega (arith, bit-lt k x)

or_top : (x : ℕ) → bit (bit_or x (2 ^ 31)) 31 ≡ 1
or_top x = bit-bit_or 31 x (2 ^ 31) ∙ omega (arith, bit-lt 31 x, bit-two_pow 31 31)

and_top : (x : ℕ) → bit (bit_and x (complement 32 (2 ^ 31))) 31 ≡ 0
and_top x = bit-bit_and 31 x (complement 32 (2 ^ 31)) ∙ omega (arith, bit-lt 31 x)

-- A round of the interrupt thread raises the line when interrupts are enabled and a cause is pending,
-- and lowers it otherwise. While they are enabled the global bit of the status shows the line. The
-- causes are not changed.
pub irq_update_thread_lem :
    (s : Fb)
    → ((irq_update_thread s).irq ≡ (test s.ctrl 2 && pending s.irqstat))
      × (test s.ctrl 2 ≡ true
          → bit (irq_update_thread s).irqstat 31 ≡ (if (irq_update_thread s).irq then 1 else 0))
      × ((k : ℕ) → k < 31 → bit (irq_update_thread s).irqstat k ≡ bit s.irqstat k)
unfolding irq_update_thread
irq_update_thread_lem s = elim (Bool-cases (test s.ctrl 2)) [
  | inl on ↦ elim (Bool-cases (pending s.irqstat)) [
    | inl some_cause ↦
        rw (on, some_cause) (refl, λ e. or_top s.irqstat, λ k low. or_global s.irqstat k low)
    | inr none_left ↦
        rw (on, none_left) (refl, λ e. and_top s.irqstat, λ k low. and_global s.irqstat k low)
  ]
  | inr off ↦ rw off (refl, λ e. cc, λ k low. refl)
]
