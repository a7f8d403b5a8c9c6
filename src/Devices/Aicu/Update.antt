-- ===== src/Devices/Aicu/Update.antt =====
-- What a round of `irq_update_thread` does to an output: its status follows the edges, and its
-- current interrupt is the pending one of the lowest number.
use rabbits.Base.{
  ℕ, zero, suc, ◌+◌, ◌*◌, ◌^◌, ◌<◌, ◌≤◌, ◌≡◌, ◌≢◌, ◌⊎◌, inl, inr, refl, ap, ◌∙◌, true, false, not,
  List, [], ◌∷◌, some, ◌==◌, bit_and, arith, get_elem?, ==_iff, ==_of_ne,
}
use rabbits.Bits.{bit, bit-lt, bit-zero, bit-bit_and, bit_of_ne_zero, bit_and-le, bit_and_two_pow}
use native.Mathlib.Nat.{one-le-pow, zero-mul}
use native.Mathlib.Decide.{ℕ_discrete}
use rabbits.Devices.Aicu.{
  Output, Aicu, nb_irqs, Edge, input_of, scan_edges, find_irq, update_output, update_outputs,
  irq_update,
}
use rabbits.Devices.Aicu.Edges.{bit-scan_edges, edge_bit, scan_edges-lt}

-- No bit from `lo` up to `hi` is set.
abbrev pub NoneSet : ℕ → ℕ → ℕ → Type 0
NoneSet pending lo hi = (k : ℕ) → lo ≤ k → k < hi → bit pending k ≡ 0

-- What the search returns: the lowest bit set, or what it was given.
abbrev Found : ℕ → ℕ → ℕ → ℕ → ℕ → Type 0
Found n j pending crt r =
    ((r ≡ crt) × NoneSet pending j (j + n))
    ⊎ ((j ≤ r) × (r < j + n) × (bit pending r ≡ 1) × NoneSet pending j r)

bit_test : (pending j : ℕ) → (bit_and pending (2 ^ j) == 0) ≡ (bit pending j == 0)
bit_test pending j = elim (ℕ_discrete (bit pending j) 0) [
  | yes e ↦ rw (bit_and_two_pow j pending, e, zero-mul) refl
  | no ne ↦
      let set_bit : bit pending j ≡ 1 = omega (arith, bit-lt j pending) in
      rw (bit_and_two_pow j pending, set_bit)
        (==_of_ne (1 * 2 ^ j) 0 (omega (arith, one-le-pow j 2 (omega arith))))
]

NoneSet-step :
    (pending j hi : ℕ) → bit pending j ≡ 0 → NoneSet pending (j + 1) hi → NoneSet pending j hi
NoneSet-step pending j hi zero_bit none_above k from below = elim (ℕ_discrete j k) [
  | yes e ↦ rw (← e) zero_bit
  | no ne ↦ none_above k (omega arith) below
]

find_irq-Found : (n j pending crt : ℕ) → Found n j pending crt (find_irq n j pending crt)
unfolding find_irq
find_irq-Found zero j pending crt = inl (refl, λ k lo hi. absurd (omega arith))
find_irq-Found (suc n) j pending crt = elim (ℕ_discrete (bit pending j) 0) [
  | yes e ↦
      let test : (bit_and pending (2 ^ j) == 0) ≡ true = bit_test pending j ∙ (==_iff _ _).1 e in
      rw test (elim (find_irq-Found n (j + 1) pending crt) [
        | inl (same, none_above) ↦ inl (
          same,
          λ k from below. NoneSet-step pending j (j + 1 + n) e none_above k from (omega arith),
        )
        | inr (from, below, one, none_above) ↦
            inr (omega arith, omega arith, one, NoneSet-step pending j _ e none_above)
      ])
  | no ne ↦
      let test : (bit_and pending (2 ^ j) == 0) ≡ false = bit_test pending j ∙ ==_of_ne _ _ ne in
      rw test (
        inr (
          omega arith,
          omega arith,
          omega (arith, bit-lt j pending),
          λ k from below. absurd (omega arith),
        ))
]

-- An interrupt that is both raised and let through.
abbrev pub Pending : Output → ℕ → Type 0
Pending o k = (bit o.stat k ≡ 1) × (bit o.mask k ≡ 1)

-- After a round over `n` interrupts, at most 32 of them and no status bit outside them: each status
-- bit follows its edge, and the mask stays. The line is raised exactly if an interrupt is pending;
-- then the current interrupt is the pending one of the lowest number, and else the old one.
pub record Updated (n : ℕ) (edge : ℕ → Edge) (o o' : Output) : Type 0 where
  pub follows : (k : ℕ) → k < n → bit o'.stat k ≡ edge_bit (edge k) (bit o.stat k)
  pub inside : o'.stat < 2 ^ n
  pub masked : o'.mask ≡ o.mask
  pub decides :
      ((o'.line ≡ true)
        × (o'.crt_irq < n)
        × Pending o' o'.crt_irq
        × ((k : ℕ) → k < o'.crt_irq → ¬ Pending o' k))
      ⊎ ((o'.line ≡ false) × (o'.crt_irq ≡ o.crt_irq) × ((k : ℕ) → k < n → ¬ Pending o' k))

both_bits : (a b k : ℕ) → bit (bit_and a b) k ≡ 1 → (bit a k ≡ 1) × (bit b k ≡ 1)
both_bits a b k h = (
  omega (arith, bit-bit_and k a b, bit-lt k a, bit-lt k b),
  omega (arith, bit-bit_and k a b, bit-lt k a, bit-lt k b),
)

not_both : (a b k : ℕ) → bit (bit_and a b) k ≡ 0 → ¬ ((bit a k ≡ 1) × (bit b k ≡ 1))
not_both a b k h both = omega (arith, bit-bit_and k a b)

module _ (n : ℕ) (edge : ℕ → Edge) (o : Output) (few : n ≤ 32) (small : o.stat < 2 ^ n) where
  abbrev stat' : ℕ
  stat' = scan_edges edge n 0 o.stat

  abbrev pending : ℕ
  pending = bit_and stat' o.mask

  stat'-lt : stat' < 2 ^ n
  stat'-lt = scan_edges-lt edge n 0 n o.stat (omega arith) few small

  pending-lt : pending < 2 ^ n
  pending-lt = omega (arith, bit_and-le stat' o.mask, stat'-lt)

  quiet_when : NoneSet pending 0 (0 + n) → pending ≡ 0
  quiet_when none_set = elim (ℕ_discrete pending 0) [
    | yes e ↦ e
    | no ne ↦
        let (k, below, one) = bit_of_ne_zero n pending pending-lt ne in
        absurd (omega (arith, none_set k (omega arith) (omega arith)))
  ]

  raised_when : (k : ℕ) → bit pending k ≡ 1 → pending ≢ 0
  raised_when k one e = let none_left : bit 0 k ≡ 1 = rw e at one in omega (arith, bit-zero k)

  pub update_output_lem : Updated n edge o (update_output n edge o)
  unfolding update_output
  update_output_lem = record {
    follows = λ k h. ground (arith, bit-scan_edges edge n 0 k o.stat (omega arith) (omega arith));
    inside = stat'-lt;
    masked = refl;
    decides = elim (find_irq-Found n 0 pending o.crt_irq) [
      | inl (same, none_set) ↦ inr (
        ap not ((==_iff pending 0).1 (quiet_when none_set)),
        same,
        λ k h. not_both stat' o.mask k (none_set k (omega arith) (omega arith)),
      )
      | inr (from, below, one, none_set) ↦ inl (
        ap not (==_of_ne pending 0 (raised_when (find_irq n 0 pending o.crt_irq) one)),
        omega arith,
        both_bits stat' o.mask (find_irq n 0 pending o.crt_irq) one,
        λ k h. not_both stat' o.mask k (none_set k (omega arith) h),
      )
    ];
  }

outputs_at :
    (s : Aicu) (nb_out i : ℕ) (edge : ℕ → Edge) (outs : List Output) (j : ℕ) {o : Output}
    → get_elem? outs j ≡ some o
    → get_elem? (update_outputs s nb_out edge i outs) j
      ≡ some (update_output (nb_irqs s) (λ k. edge (input_of s nb_out (i + j) k)) o)
unfolding update_outputs
outputs_at s nb_out i edge [] j h = cc
outputs_at s nb_out i edge (o ∷ rest) zero h =
    let at : i + 0 ≡ i = omega arith in rw at (ground arith)
outputs_at s nb_out i edge (o ∷ rest) (suc j) h =
    let at : i + suc j ≡ i + 1 + j = omega arith in
    rw at (outputs_at s nb_out (i + 1) edge rest j h)

-- A round with the control bit set updates every output `j` by the edges of its own inputs; with
-- the bit clear it changes nothing.
pub irq_update_lem :
    (s : Aicu) (nb_out : ℕ) (edge : ℕ → Edge) (j : ℕ) {o : Output}
    → nb_irqs s ≤ 32
    → o.stat < 2 ^ nb_irqs s
    → get_elem? s.outputs j ≡ some o
    → (bit s.control 0 ≡ 0 → irq_update s nb_out edge ≡ s)
      × (bit s.control 0 ≡ 1
          → (o' : Output) × (get_elem? (irq_update s nb_out edge).outputs j ≡ some o')
            × Updated (nb_irqs s) (λ k. edge (input_of s nb_out j k)) o o')
unfolding irq_update
irq_update_lem s nb_out edge j {o} few small at = (
  λ off. rw (bit_test s.control 0, off) refl,
  λ running.
      let test : (bit_and s.control 1 == 0) ≡ false =
        bit_test s.control 0 ∙ ==_of_ne _ _ (omega arith) in
      (
        update_output (nb_irqs s) (λ k. edge (input_of s nb_out (0 + j) k)) o,
        rw test (outputs_at s nb_out 0 edge s.outputs j at),
        let same : 0 + j ≡ j = omega arith in
            rw same (update_output_lem (nb_irqs s) (λ k. edge (input_of s nb_out j k)) o few small),
      ),
)
