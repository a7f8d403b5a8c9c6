-- ===== src/Etrace/Visit.antt =====
-- One step of the update: the sample at the head is marked and charged.
use rabbits.Base.{
  get_or, ℕ, ◌+◌, ◌-◌, ◌*◌, ◌^◌, ◌≤◌, ◌<◌, max, ◌≡◌, ◌≢◌, ◌∙◌, refl, ap, ap₂, List, ◌∷◌, Outcome,
  returns, ◌>>=◌, length, ltb, lt→ltb, ltb_of_le, if◌then◌else◌, arith, lt_or_le, inl, inr,
}
use rabbits.Etrace.{
  word64, sub64, Periph, Sample, max_peripherals, unused, mark, charge, begin_stamp, end_stamp,
  account,
}
use rabbits.Etrace.Cells.{
  energy_at, spent, Chain, amended, amend-eq, amended_self, amended_ne, length-amended, sub64_eq,
  sum_later, sum_split, sum_here, span_split,
}

-- The energy of the time from `last` to `time` that no change before has counted.
abbrev pub due : Periph → (time last c : ℕ) → ℕ
due p time last c = (time - max last p.last_change_stamp) * c

-- What an update that starts at `last` makes of the samples.
abbrev pub Covers :
    (period : ℕ) → Periph → (time last c : ℕ) → List Sample → Outcome (List Sample) → Type 0
Covers period p time last c samples o =
    (samples' : List Sample) × (o ≡ returns samples')
    × Chain period last samples'
    × (spent p.idx samples' ≡ word64 (spent p.idx samples + due p time last c))
    × ((j : ℕ) → p.idx ≢ j → spent j samples' ≡ spent j samples)

-- One cell of a visited sample after `mark` and `charge`.
abbrev pub charged : Periph → ℕ → Sample → Sample
charged p en sample = amended (charge en) p.idx (amended mark p.idx sample)

pub charged_ne :
    (p : Periph) (en : ℕ) (sample : Sample) (j : ℕ)
    → p.idx ≢ j
    → get_or (charged p en sample).per_costs j unused ≡ get_or sample.per_costs j unused
charged_ne p en sample j ne =
    amended_ne (charge en) p.idx j (amended mark p.idx sample) ne
    ∙ amended_ne mark p.idx j sample ne

module _ (p : Periph) (en : ℕ) (sample : Sample) (inside : p.idx < length sample.per_costs) where
  energy_marked : energy_at p.idx (amended mark p.idx sample) ≡ energy_at p.idx sample
  energy_marked = ap (λ cell. cell.energy) (amended_self mark p.idx sample inside)

  energy_charged : energy_at p.idx (charged p en sample) ≡ word64 (energy_at p.idx sample + en)
  energy_charged =
      ap (λ cell. cell.energy)
        (amended_self (charge en) p.idx (amended mark p.idx sample)
          (omega (arith, length-amended mark p.idx sample)))
      ∙ ap (λ e. word64 (e + en)) energy_marked

  energy_ne : (j : ℕ) → p.idx ≢ j → energy_at j (charged p en sample) ≡ energy_at j sample
  energy_ne j ne = ap (λ cell. cell.energy) (charged_ne p en sample j ne)

pub length-charged :
    (p : Periph) (en : ℕ) (sample : Sample)
    → length (charged p en sample).per_costs ≡ length sample.per_costs
length-charged p en sample =
    length-amended (charge en) p.idx (amended mark p.idx sample) ∙ length-amended mark p.idx sample

-- The energy that one visit charges.
unfoldable pub part : Periph → (time last c : ℕ) → Sample → ℕ
part p time last c sample =
    word64 (sub64 (end_stamp time sample.time_stamp) (begin_stamp last p.last_change_stamp) * c)

module _ (p : Periph) (time last c : ℕ) (sample : Sample) (others : List Sample)
    (next : Outcome (List Sample)) where
  account_earlier :
      sample.time_stamp < p.last_change_stamp
      → account p time last c sample others next ≡ (next >>= λ samples. returns (sample ∷ samples))
  unfolding account
  account_earlier early = rw (lt→ltb sample.time_stamp p.last_change_stamp early) refl

  pub account_late :
      p.last_change_stamp ≤ sample.time_stamp
      → p.idx < length sample.per_costs
      → account p time last c sample others next ≡ (
          if ltb sample.time_stamp time
          then (next >>= λ samples.
              returns (amended (charge (part p time last c sample)) p.idx sample ∷ samples))
          else returns (amended (charge (part p time last c sample)) p.idx sample ∷ others))
  unfolding account part
  account_late late slot = rw (ltb_of_le sample.time_stamp p.last_change_stamp late) (
      ap
        (λ o. o >>= λ charged.
          if ltb sample.time_stamp time
          then (next >>= λ samples. returns (charged ∷ samples))
          else returns (charged ∷ others))
        (amend-eq (charge (part p time last c sample)) p.idx sample slot))

begin_stamp-eq : (a b : ℕ) → begin_stamp a b ≡ max a b
begin_stamp-eq a b = ground arith

end_stamp_past : (time stamp : ℕ) → stamp < time → end_stamp time stamp ≡ stamp
end_stamp_past time stamp h = ground arith

end_stamp_within : (time stamp : ℕ) → time ≤ stamp → end_stamp time stamp ≡ time
end_stamp_within time stamp h = ground arith

module _ (p : Periph) (time last c : ℕ) (fits : time < 2 ^ 64) (moved : last < time)
    (before : p.last_change_stamp ≤ time) where
  part_through :
      (sample : Sample)
      → p.last_change_stamp ≤ sample.time_stamp
      → last ≤ sample.time_stamp
      → sample.time_stamp < time
      → part p time last c sample ≡ word64 ((sample.time_stamp - max last p.last_change_stamp) * c)
  unfolding part
  part_through sample late order past =
      rw (end_stamp_past time sample.time_stamp past, begin_stamp-eq last p.last_change_stamp)
        (ap (λ d. word64 (d * c))
          (sub64_eq sample.time_stamp (max last p.last_change_stamp) (omega arith) (omega arith)))

  part_here :
      (sample : Sample)
      → p.last_change_stamp ≤ sample.time_stamp
      → time ≤ sample.time_stamp
      → part p time last c sample ≡ word64 (due p time last c)
  unfolding part
  part_here sample late within =
      rw (end_stamp_within time sample.time_stamp within, begin_stamp-eq last p.last_change_stamp)
        (ap (λ d. word64 (d * c))
          (sub64_eq time (max last p.last_change_stamp) (omega arith) (omega arith)))

module _ (period : ℕ) (p : Periph) (time last c : ℕ) (sample : Sample) (others : List Sample)
    (at : sample.time_stamp ≡ last + period) (size : length sample.per_costs ≡ max_peripherals)
    (slot : p.idx < max_peripherals) (fits : time < 2 ^ 64) (moved : last < time)
    (before : p.last_change_stamp ≤ time) where
  inside : p.idx < length sample.per_costs
  inside = omega arith

  abbrev marked : Sample
  marked = amended mark p.idx sample

  inside_marked : p.idx < length marked.per_costs
  inside_marked = omega (arith, inside, length-amended mark p.idx sample)

  abbrev Visits : Outcome (List Sample) → Type 0
  Visits next =
      Covers period p time last c (sample ∷ others) (account p time last c marked others next)

  -- A sample that ends before the last change is left to the samples after it.
  earlier-Covers :
      (next : Outcome (List Sample))
      → sample.time_stamp < p.last_change_stamp
      → Covers period p time sample.time_stamp c others next
      → Visits next
  unfolding spent
  earlier-Covers next early (samples, eq, chain, own, apart) = (
    marked ∷ samples,
    account_earlier p time last c marked others next early
        ∙ ap (λ o. o >>= λ xs. returns (marked ∷ xs)) eq,
    (at, length-amended mark p.idx sample ∙ size, chain),
    ap₂ (λ e s. word64 (e + s)) (energy_marked p 0 sample inside) own
        ∙ sum_later (energy_at p.idx sample) (spent p.idx others) (due p time sample.time_stamp c)
        ∙ ap (λ m. word64 (word64 (energy_at p.idx sample + spent p.idx others) + (time - m) * c))
            (omega arith),
    λ j ne.
        ap₂ (λ e s. word64 (e + s)) (ap (λ cell. cell.energy) (amended_ne mark p.idx j sample ne))
          (apart j ne),
  )

  -- A sample that ends before `time` is charged up to its end, and the update goes on.
  through-Covers :
      (next : Outcome (List Sample))
      → p.last_change_stamp ≤ sample.time_stamp
      → sample.time_stamp < time
      → Covers period p time sample.time_stamp c others next
      → Visits next
  unfolding spent
  through-Covers next late past (samples, eq, chain, own, apart) =
      let en = part p time last c marked in
      let at_stamp : max sample.time_stamp p.last_change_stamp ≡ sample.time_stamp = omega arith in
      (
        charged p en sample ∷ samples,
        account_late p time last c marked others next late inside_marked
            ∙ rw (lt→ltb sample.time_stamp time past)
                (ap (λ o. o >>= λ xs. returns (charged p en sample ∷ xs)) eq),
        (at, length-charged p en sample ∙ size, chain),
        ap₂ (λ e s. word64 (e + s))
              (energy_charged p en sample inside
                ∙ ap (λ x. word64 (energy_at p.idx sample + x))
                    (part_through p time last c fits moved before marked late (omega arith) past))
              own
            ∙ sum_split (energy_at p.idx sample) (spent p.idx others)
                ((sample.time_stamp - max last p.last_change_stamp) * c)
                (due p time sample.time_stamp c) (due p time last c)
                (ap (λ m. (sample.time_stamp - max last p.last_change_stamp) * c + (time - m) * c)
                    at_stamp
                  ∙ span_split (max last p.last_change_stamp) sample.time_stamp time c (omega arith)
                      (omega arith)),
        λ j ne. ap₂ (λ e s. word64 (e + s)) (energy_ne p en sample inside j ne) (apart j ne),
      )

  -- In the sample that holds `time` the update ends.
  here-Covers :
      (next : Outcome (List Sample))
      → p.last_change_stamp ≤ sample.time_stamp
      → time ≤ sample.time_stamp
      → Chain period sample.time_stamp others
      → Visits next
  unfolding spent
  here-Covers next late within chain =
      let en = part p time last c marked in
      (
        charged p en sample ∷ others,
        account_late p time last c marked others next late inside_marked
            ∙ rw (ltb_of_le sample.time_stamp time within) refl,
        (at, length-charged p en sample ∙ size, chain),
        ap (λ e. word64 (e + spent p.idx others))
              (energy_charged p en sample inside
                ∙ ap (λ x. word64 (energy_at p.idx sample + x))
                    (part_here p time last c fits moved before marked late within))
            ∙ sum_here (energy_at p.idx sample) (spent p.idx others) (due p time last c),
        λ j ne. ap (λ e. word64 (e + spent j others)) (energy_ne p en sample inside j ne),
      )

pub visit-Covers :
    (period : ℕ) (p : Periph) (time last c : ℕ) (sample : Sample) (others : List Sample)
    (next : Outcome (List Sample))
    → p.idx < max_peripherals
    → time < 2 ^ 64
    → last < time
    → p.last_change_stamp ≤ time
    → Chain period last (sample ∷ others)
    → Covers period p time sample.time_stamp c others next
    → Covers period p time last c
        (sample ∷ others)
        (account p time last c (amended mark p.idx sample) others next)
visit-Covers period p time last c sample others next slot fits moved before (at, size, chain) ih =
    elim (lt_or_le sample.time_stamp p.last_change_stamp) [
      | inl early ↦
          earlier-Covers period p time last c sample others at size slot fits moved before next
            early ih
      | inr late ↦ elim (lt_or_le sample.time_stamp time) [
        | inl past ↦
            through-Covers period p time last c sample others at size slot fits moved before next
              late past ih
        | inr within ↦
            here-Covers period p time last c sample others at size slot fits moved before next late
              within chain
      ]
    ]
