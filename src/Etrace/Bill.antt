-- ===== src/Etrace/Bill.antt =====
-- What the thread adds to a sample for each peripheral at the end of its period.
use rabbits.Base.{
  ℕ, ◌+◌, ◌-◌, ◌*◌, ◌^◌, ◌≤◌, ◌<◌, max, ◌≡◌, ◌≢◌, ◌∙◌, refl, sym, ap, Bool, false, List, [], ◌∷◌,
  returns, ◌>>=◌, length, get_or, load-eq, lt→ltb, ltb_of_le, arith, lt_or_le, inl, inr,
}
use rabbits.Etrace.{
  word64, Periph, Sample, max_peripherals, unused, cost, amend, charge, update_en, bill, bill_all,
}
use rabbits.Etrace.Cells.{
  energy_at, amended, amend-eq, amended_self, amended_ne, length-amended, sub64_eq, word64_right,
}
use rabbits.Etrace.Visit.{due}

abbrev pub cell_flag : ℕ → Sample → Bool
cell_flag i sample = (get_or sample.per_costs i unused).processed

-- The cost of each mode of the class is in its table, and the peripheral is in a mode of the class.
abbrev pub InTable : Periph → Type 0
InTable p =
    (p.curr_mode < p.pclass.nmodes)
    × (p.curr_fvset < p.pclass.nfvsets)
    × (p.pclass.nmodes * p.pclass.nfvsets ≤ length p.pclass.mode_cost)

index-lt : (n v m f k : ℕ) → m < n → f < v → n * v ≤ k → n * f + m < k
index-lt n v m f k hm hf room = grind arith

abbrev pub price : Periph → ℕ
price p = get_or p.pclass.mode_cost (p.pclass.nmodes * p.curr_fvset + p.curr_mode) 0

pub cost-eq : (p : Periph) → InTable p → cost p ≡ returns (price p)
unfolding cost
cost-eq p (mode, fvset, room) =
    load-eq p.pclass.mode_cost (p.pclass.nmodes * p.curr_fvset + p.curr_mode) 0 (
      index-lt p.pclass.nmodes p.pclass.nfvsets p.curr_mode p.curr_fvset (length p.pclass.mode_cost)
        mode fvset room)

-- A peripheral as a sample that begins at `last` and ends at `stop` finds it: a change within the
-- sample has marked it, and no other has.
abbrev pub Timely : (last stop : ℕ) → Sample → Periph → Type 0
Timely last stop sample p =
    (p.idx < max_peripherals)
    × InTable p
    × (p.last_change_stamp ≤ stop)
    × (p.last_change_stamp ≤ last → cell_flag p.idx sample ≡ false)

abbrev pub AllTimely : (last stop : ℕ) → Sample → List Periph → Type 0
AllTimely last stop sample [] = Unit
AllTimely last stop sample (p ∷ ps) = Timely last stop sample p × AllTimely last stop sample ps

-- No peripheral of the list uses cell `i`.
abbrev pub Apart : ℕ → List Periph → Type 0
Apart i [] = Unit
Apart i (p ∷ ps) = (p.idx ≢ i) × Apart i ps

abbrev pub Distinct : List Periph → Type 0
Distinct [] = Unit
Distinct (p ∷ ps) = Apart p.idx ps × Distinct ps

mul_comm : (a b : ℕ) → a * b ≡ b * a
mul_comm a b = omega arith

-- The energy added at the end is that of the time since the last change or the last sample.
update_en-due :
    (period last stop : ℕ) (p : Periph) (c : ℕ) (flag : Bool)
    → stop ≡ last + period
    → stop < 2 ^ 64
    → p.last_change_stamp ≤ stop
    → (p.last_change_stamp ≤ last → flag ≡ false)
    → update_en period stop p.last_change_stamp c flag ≡ word64 (due p stop last c)
unfolding update_en
update_en-due period last stop p c flag end fits before fresh =
    rw (sub64_eq stop p.last_change_stamp before fits) (elim (lt_or_le last p.last_change_stamp) [
      | inl late ↦
          let span : stop - max last p.last_change_stamp ≡ stop - p.last_change_stamp =
            omega arith in
          rw
            (
              lt→ltb (stop - p.last_change_stamp) period (omega arith),
              span,
              mul_comm c (stop - p.last_change_stamp),
            )
            refl
      | inr early ↦
          let span : stop - max last p.last_change_stamp ≡ period = omega arith in
          rw
            (
              ltb_of_le (stop - p.last_change_stamp) period (omega arith),
              fresh early,
              span,
              mul_comm c period,
            )
            refl
    ])

-- The sample after one peripheral is billed.
abbrev billed : (last stop : ℕ) → Periph → Sample → Sample
billed last stop p sample = amended (charge (word64 (due p stop last (price p)))) p.idx sample

module _ (period last stop : ℕ) (end : stop ≡ last + period) (fits : stop < 2 ^ 64) where
  bill-eq :
      (p : Periph) (sample : Sample)
      → length sample.per_costs ≡ max_peripherals
      → Timely last stop sample p
      → bill period stop p sample ≡ returns (billed last stop p sample)
  unfolding bill
  bill-eq p sample size (slot, table, before, fresh) =
      rw (cost-eq p table, load-eq sample.per_costs p.idx unused (omega arith))
        (ap (λ en. amend (charge en) p.idx sample)
            (update_en-due period last stop p (price p) (cell_flag p.idx sample) end fits before
              fresh)
          ∙ amend-eq (charge (word64 (due p stop last (price p)))) p.idx sample (omega arith))

-- What `sample'` holds for the peripherals of a list: what `sample` held, and the cost of the mode
-- for the time that no change has counted.
abbrev pub Billed : (last stop : ℕ) → Sample → Sample → List Periph → Type 0
Billed last stop sample sample' [] = Unit
Billed last stop sample sample' (p ∷ ps) =
    (energy_at p.idx sample' ≡ word64 (energy_at p.idx sample + due p stop last (price p)))
    × Billed last stop sample sample' ps

module _ (last stop : ℕ) (p : Periph) (sample : Sample) where
  cell_apart :
      (j : ℕ)
      → p.idx ≢ j
      → get_or (billed last stop p sample).per_costs j unused ≡ get_or sample.per_costs j unused
  cell_apart j ne = amended_ne (charge (word64 (due p stop last (price p)))) p.idx j sample ne

  Billed-billed :
      (sample' : Sample) (ps : List Periph)
      → Apart p.idx ps
      → Billed last stop (billed last stop p sample) sample' ps
      → Billed last stop sample sample' ps
  Billed-billed sample' [] apart done = tt
  Billed-billed sample' (q ∷ qs) (ne, apart) (own, done) = (
    own
        ∙ ap (λ cell. word64 (cell.energy + due q stop last (price q)))
            (cell_apart q.idx (λ e. ne (sym e))),
    Billed-billed sample' qs apart done,
  )

  AllTimely-billed :
      (ps : List Periph)
      → Apart p.idx ps
      → AllTimely last stop sample ps
      → AllTimely last stop (billed last stop p sample) ps
  AllTimely-billed [] apart all = tt
  AllTimely-billed (q ∷ qs) (ne, apart) ((slot, table, before, fresh), all) = (
    (
      slot,
      table,
      before,
      λ early. ap (λ cell. cell.processed) (cell_apart q.idx (λ e. ne (sym e))) ∙ fresh early,
    ),
    AllTimely-billed qs apart all,
  )

pub bill_all-eq :
    (period last stop : ℕ) (ps : List Periph) (sample : Sample)
    → stop ≡ last + period
    → stop < 2 ^ 64
    → length sample.per_costs ≡ max_peripherals
    → Distinct ps
    → AllTimely last stop sample ps
    → (sample' : Sample) × (bill_all period stop ps sample ≡ returns sample')
      × ((j : ℕ) → Apart j ps → energy_at j sample' ≡ energy_at j sample)
      × Billed last stop sample sample' ps
      × (length sample'.per_costs ≡ max_peripherals)
unfolding bill_all
bill_all-eq period last stop [] sample end fits size distinct all =
    (sample, refl, λ j apart. refl, tt, size)
bill_all-eq period last stop (p ∷ ps) sample end fits size (apart, distinct) (timely, all) =
    let once = billed last stop p sample in
    let en = word64 (due p stop last (price p)) in
    let (sample', runs, others, done, size') =
      bill_all-eq period last stop ps once end fits (length-amended (charge en) p.idx sample ∙ size)
        distinct (AllTimely-billed last stop p sample ps apart all) in
    (
      sample',
      ap (λ o. o >>= bill_all period stop ps)
            (bill-eq period last stop end fits p sample size timely)
          ∙ runs,
      λ j (ne, far). others j far ∙ ap (λ cell. cell.energy) (cell_apart last stop p sample j ne),
      (
        others p.idx apart
            ∙ ap (λ cell. cell.energy)
                (amended_self (charge en) p.idx sample (omega (arith, timely.0)))
            ∙ word64_right (energy_at p.idx sample) (due p stop last (price p)),
        Billed-billed last stop p sample sample' ps apart done,
      ),
      size',
    )
