-- ===== src/Etrace/Update.antt =====
-- What a change of mode adds to the samples that the scope keeps.
use rabbits.Base.{
  ℕ, zero, suc, ◌+◌, ◌-◌, ◌*◌, ◌^◌, ◌≤◌, ◌<◌, max, ◌≡◌, ◌∙◌, refl, sym, ap, List, [], ◌∷◌, Outcome,
  returns, length-replicate, lt→ltb, ltb_of_le, arith, lt_or_le, inl, inr,
}
use rabbits.Etrace.{
  word64, Periph, Sample, max_peripherals, unused, sample_new, first_or_new, rest, cost, mark,
  r_update_samples,
}
use rabbits.Etrace.Cells.{energy_at, spent, Chain, amend-eq, word64_of_lt, get_or-replicate}
use rabbits.Etrace.Visit.{due, Covers, visit-Covers}

pub first-Chain :
    (period last : ℕ) (samples : List Sample)
    → last + period < 2 ^ 64
    → Chain period last samples
    → Chain period last (first_or_new period last samples ∷ rest samples)
unfolding sample_new
first-Chain period last [] fits chain =
    (word64_of_lt (last + period) fits, length-replicate max_peripherals unused, tt)
first-Chain period last (sample ∷ samples) fits chain = chain

spent-first :
    (period last i : ℕ) (samples : List Sample)
    → spent i (first_or_new period last samples ∷ rest samples) ≡ spent i samples
unfolding sample_new spent
spent-first period last i [] =
    ap (λ cell. word64 (cell.energy + 0)) (get_or-replicate max_peripherals i)
    ∙ word64_of_lt 0 (omega arith)
spent-first period last i (sample ∷ samples) = refl

word64-lt : (a : ℕ) → word64 a < 2 ^ 64
unfolding word64
word64-lt a = omega arith

spent-lt : (i : ℕ) (samples : List Sample) → spent i samples < 2 ^ 64
unfolding spent
spent-lt i [] = omega arith
spent-lt i (sample ∷ samples) = word64-lt (energy_at i sample + spent i samples)

done-Covers :
    (period : ℕ) (p : Periph) (time last c : ℕ) (samples : List Sample)
    → time ≤ last
    → Chain period last samples
    → Covers period p time last c samples (returns samples)
done-Covers period p time last c samples done chain =
    let over : time - max last p.last_change_stamp ≡ 0 = omega arith in
    let nothing : spent p.idx samples + 0 * c ≡ spent p.idx samples = grind arith in
    (
      samples,
      refl,
      chain,
      sym (
          ap (λ d. word64 (spent p.idx samples + d * c)) over
          ∙ ap word64 nothing
          ∙ word64_of_lt (spent p.idx samples) (spent-lt p.idx samples)),
      λ j ne. refl,
    )

from-Covers :
    (period : ℕ) (p : Periph) (time last c : ℕ) (xs ys : List Sample) (o : Outcome (List Sample))
    → ((j : ℕ) → spent j xs ≡ spent j ys)
    → Covers period p time last c xs o
    → Covers period p time last c ys o
from-Covers period p time last c xs ys o same (samples, eq, chain, own, apart) = (
  samples,
  eq,
  chain,
  own ∙ ap (λ e. word64 (e + due p time last c)) (same p.idx),
  λ j ne. apart j ne ∙ same j,
)

-- An update at `time` returns, on fuel for each unit of time since `last`, whatever samples have begun
-- and whichever it must add, if times do not pass 64 bits. The samples still follow each other by one
-- period. Together they hold for the peripheral what they held and, in 64 bits, the cost of its mode
-- for the time since its last change or the last measure; for any other they hold what they held.
pub r_update_samples-conserves :
    (n period : ℕ) (p : Periph) (time last c : ℕ) (samples : List Sample)
    → cost p ≡ returns c
    → p.idx < max_peripherals
    → 0 < period
    → time + period < 2 ^ 64
    → p.last_change_stamp ≤ time
    → time ≤ last + n
    → Chain period last samples
    → Covers period p time last c samples (r_update_samples n period p time last samples)
unfolding r_update_samples
r_update_samples-conserves zero period p time last c samples priced slot pos fits before enough
      chain =
    rw (ltb_of_le last time (omega arith))
      (done-Covers period p time last c samples (omega arith) chain)
r_update_samples-conserves (suc n) period p time last c samples priced slot pos fits before enough
      chain =
    elim (lt_or_le last time) [
      | inr done ↦
          rw (ltb_of_le last time done) (done-Covers period p time last c samples done chain)
      | inl moved ↦
          let sample = first_or_new period last samples in
          let whole = first-Chain period last samples (omega arith) chain in
          let ih =
            r_update_samples-conserves n period p time sample.time_stamp c (rest samples) priced
              slot pos fits before (omega (arith, whole.0)) whole.2 in
          rw (lt→ltb last time moved, priced, amend-eq mark p.idx sample (omega (arith, whole.1)))
            (from-Covers period p time last c (sample ∷ rest samples) samples _
              (λ j. spent-first period last j samples)
              (visit-Covers period p time last c sample (rest samples) _ slot (omega arith) moved
                before whole ih))
    ]
