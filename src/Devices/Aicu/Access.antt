-- ===== src/Devices/Aicu/Access.antt =====
-- Accesses to the registers of the interrupt controller: they keep its invariant, and a read of the
-- address register acknowledges the current interrupt.
use native.Mathlib.Nat.{one-le-pow}
use rabbits.Base.{
  ℕ, zero, suc, ◌+◌, ◌-◌, ◌/◌, ◌%◌, ◌^◌, ◌<◌, ◌≤◌, ◌≡◌, ◌⊎◌, inl, inr, refl, ap, ◌∙◌, Bool, true,
  ◌&&◌, List, [], ◌∷◌, some, ◌==◌, if◌then◌else◌, bit_and, bit_xor, arith, returns, load-eq,
  store-eq, get_elem?, get_or, set, length, length-set, length-replicate, below_four, Bool-cases,
}
use rabbits.Bits.{
  bit, complement, bit-bit_and, bit-complement, bit-two_pow, bit-lt, bit_and-le, two_pow-lt,
}
use rabbits.Bytes.{reg_index}
use rabbits.Devices.Aicu.{
  Output, Aicu, nb_irqs, aicu_local, aicu_handler0, reset_outputs, reset_registers, write_control,
  write_global, write_local, output_at, read_local,
}

-- The status and the current interrupt name interrupts that there are.
pub record IsOutput (n : ℕ) (o : Output) : Type 0 where
  pub inside : o.stat < 2 ^ n
  pub current : o.crt_irq < n

abbrev pub AllOutputs : ℕ → List Output → Type 0
AllOutputs n [] = Unit
AllOutputs n (o ∷ rest) = IsOutput n o × AllOutputs n rest

-- `nb_out` outputs over `n` interrupts, as the constructor sizes them.
pub record Inv (nb_out n : ℕ) (s : Aicu) : Type 0 where
  pub irqs : nb_irqs s ≡ n
  pub some_irq : 0 < n
  pub few : n ≤ 32
  pub handled : length s.handlers ≡ n
  pub sized : length s.outputs ≡ nb_out
  pub outs : AllOutputs n s.outputs

-- The registers that the device has: a global one, or one of an output, of which two are read only.
abbrev pub Legal : ℕ → ℕ → ℕ → ℕ → Bool → Type 0
Legal nb_out n ofs be w =
    ((reg_index ofs be < aicu_local)
      × ((reg_index ofs be ≡ 0)
          ⊎ ((aicu_handler0 ≤ reg_index ofs be) × (reg_index ofs be < aicu_handler0 + n))))
    ⊎ ((aicu_local ≤ reg_index ofs be)
        × ((reg_index ofs be - aicu_local) / 4 < nb_out)
        × (w ≡ true → (reg_index ofs be - aicu_local) % 4 < 2))

reset_outputs-All : (n : ℕ) (outs : List Output) → 0 < n → AllOutputs n (reset_outputs outs)
unfolding reset_outputs
reset_outputs-All n [] h = tt
reset_outputs-All n (o ∷ rest) h =
    (record { inside = one-le-pow n 2 (omega arith); current = h }, reset_outputs-All n rest h)

length-reset_outputs : (outs : List Output) → length (reset_outputs outs) ≡ length outs
unfolding reset_outputs
length-reset_outputs [] = refl
length-reset_outputs (o ∷ rest) = ap suc (length-reset_outputs rest)

pub All-set :
    (n : ℕ) (outs : List Output) (i : ℕ) (o : Output)
    → AllOutputs n outs
    → IsOutput n o
    → AllOutputs n (set outs i o)
All-set n [] i o all is = tt
All-set n (p ∷ rest) zero o all is = (is, all.1)
All-set n (p ∷ rest) (suc i) o all is = (all.0, All-set n rest i o all.1 is)

pub reset-Inv : (nb_out n : ℕ) (s : Aicu) → Inv nb_out n s → Inv nb_out n (reset_registers s)
unfolding reset_registers
reset-Inv nb_out n s inv = record {
  irqs = inv.irqs;
  some_irq = inv.some_irq;
  few = inv.few;
  handled = length-replicate (nb_irqs s) 0 ∙ inv.irqs;
  sized = length-reset_outputs s.outputs ∙ inv.sized;
  outs = reset_outputs-All n s.outputs inv.some_irq;
}

-- An output in range is found, and meets the invariant.
pub output_at-lt :
    (n : ℕ) (outs : List Output) (i : ℕ)
    → AllOutputs n outs
    → i < length outs
    → (o : Output) × (output_at outs i ≡ returns o) × (get_elem? outs i ≡ some o) × IsOutput n o
unfolding output_at
output_at-lt n [] i all h = absurd (omega arith)
output_at-lt n (o ∷ rest) zero all h = (o, refl, refl, all.0)
output_at-lt n (o ∷ rest) (suc i) all h = output_at-lt n rest i all.1 (omega arith)

write_control-Inv :
    (nb_out n : ℕ) (s : Aicu) (v : ℕ) → Inv nb_out n s → Inv nb_out n (write_control s v)
unfolding write_control
write_control-Inv nb_out n s v inv = elim (Bool-cases (bit_and (bit_xor s.control v) 1 == 0)) [
  | inl same ↦ rw same (record {
    irqs = inv.irqs;
    some_irq = inv.some_irq;
    few = inv.few;
    handled = inv.handled;
    sized = inv.sized;
    outs = inv.outs;
  })
  | inr toggled ↦
      let fresh = reset-Inv nb_out n s inv in
      rw toggled (record {
        irqs = fresh.irqs;
        some_irq = inv.some_irq;
        few = inv.few;
        handled = fresh.handled;
        sized = fresh.sized;
        outs = fresh.outs;
      })
]

-- The global write keeps the invariant.
pub write_global-Inv :
    (nb_out n : ℕ) (s : Aicu) (idx v : ℕ)
    → Inv nb_out n s
    → (idx ≡ 0) ⊎ ((aicu_handler0 ≤ idx) × (idx < aicu_handler0 + n))
    → (s' : Aicu) × (write_global s idx v ≡ returns s') × Inv nb_out n s'
unfolding write_global
write_global-Inv nb_out n s idx v inv (inl e) =
    (write_control s v, rw e refl, write_control-Inv nb_out n s v inv)
write_global-Inv nb_out n s idx v inv (inr (lo, hi)) = (
  record s { handlers = set s.handlers (idx - 4) v },
  ground (arith, inv, store-eq s.handlers (idx - 4) v),
  record {
    irqs = inv.irqs;
    some_irq = inv.some_irq;
    few = inv.few;
    handled = length-set s.handlers (idx - 4) v ∙ inv.handled;
    sized = inv.sized;
    outs = inv.outs;
  },
)

-- A register of an output is written inside the invariant.
pub write_local-Inv :
    (n : ℕ) (o : Output) (reg v : ℕ)
    → IsOutput n o
    → reg < 2
    → (o' : Output) × (write_local o reg v ≡ returns o') × IsOutput n o'
unfolding write_local
write_local-Inv n o zero v is h = (
  record o { stat = bit_and o.stat (complement 32 v) },
  refl,
  record { inside = omega (arith, is, bit_and-le o.stat (complement 32 v)); current = is.current },
)
write_local-Inv n o (suc zero) v is h =
    (record o { mask = v }, refl, record { inside = is.inside; current = is.current })
write_local-Inv n o (suc (suc reg)) v is h = absurd (omega arith)

-- What the registers of an output show: status, mask, handler and number of the current interrupt.
abbrev pub shown : List ℕ → Output → ℕ → ℕ
shown handlers o reg =
    if reg == 0
    then o.stat
    else if reg == 1
    then o.mask
    else if reg == 2
    then get_or handlers o.crt_irq 0
    else o.crt_irq

-- A read of the address register, register 2, answers the handler of the current interrupt, and
-- clears the status bit of that interrupt and no other; the other registers are only read.
pub read_local_lem :
    (n : ℕ) (handlers : List ℕ) (o : Output) (reg : ℕ)
    → IsOutput n o
    → n ≤ 32
    → length handlers ≡ n
    → reg < 4
    → (o' : Output) × (read_local handlers o reg ≡ returns (shown handlers o reg, o'))
      × IsOutput n o'
      × (o'.mask ≡ o.mask)
      × (o'.crt_irq ≡ o.crt_irq)
      × (o'.line ≡ o.line)
      × ((k : ℕ)
          → k < 32
          → bit o'.stat k ≡ (if (reg == 2) && (k == o.crt_irq) then 0 else bit o.stat k))
unfolding read_local
read_local_lem n handlers o reg is few len four = elim (below_four reg four) [
  | inl e ↦ (o, rw e refl, is, refl, refl, refl, λ k h. rw e refl)
  | inr (inl e) ↦ (o, rw e refl, is, refl, refl, refl, λ k h. rw e refl)
  | inr (inr (inl e)) ↦ (
    record o { stat = bit_and o.stat (complement 32 (2 ^ o.crt_irq)) },
    rw (e, load-eq handlers o.crt_irq 0 (omega (arith, is))) refl,
    record {
      inside = omega (arith, is, bit_and-le o.stat (complement 32 (2 ^ o.crt_irq)));
      current = is.current;
    },
    refl,
    refl,
    refl,
    λ k h. rw e (acknowledged k h),
  )
  | inr (inr (inr e)) ↦ (o, rw e refl, is, refl, refl, refl, λ k h. rw e refl)
]
  where
    acknowledged :
        (k : ℕ)
        → k < 32
        → bit (bit_and o.stat (complement 32 (2 ^ o.crt_irq))) k
          ≡ (if k == o.crt_irq then 0 else bit o.stat k)
    acknowledged k h = ground (
      arith,
      is,
      bit-bit_and k o.stat (complement 32 (2 ^ o.crt_irq)),
      bit-complement k 32 (2 ^ o.crt_irq) h (two_pow-lt o.crt_irq 32 (omega (arith, is))),
      bit-two_pow k o.crt_irq,
      bit-lt k o.stat,
    )
