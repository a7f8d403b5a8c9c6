-- ===== src/Etrace/Window.antt =====
-- The state that the scope keeps from one sample to the next, under changes of mode and at the end
-- of a period.
use rabbits.Base.{
  length, ℕ, zero, suc, ◌+◌, ◌^◌, ◌≤◌, ◌<◌, ◌≡◌, ◌≢◌, ◌∙◌, refl, ap, List, [], ◌∷◌, Outcome,
  returns, ◌>>=◌, lt→ltb, ltb_of_le, ==_refl, arith, lt_or_le, inl, inr,
}
use rabbits.Etrace.{
  new_scope, Periph, Sample, ScopeState, max_peripherals, sample_new, first_or_new, rest, cost,
  get_sample, update_samples, r_update_samples, mark,
}
use rabbits.Etrace.Cells.{Chain, get_or-replicate, amended, amend-eq, length-amended}
use rabbits.Etrace.Update.{first-Chain}
use rabbits.Etrace.Visit.{charged, part, account_late, charged_ne, length-charged}
use rabbits.Etrace.Bill.{
  Timely, AllTimely, Distinct, Billed, bill_all-eq, price, cost-eq, cell_flag,
}

-- The sample that the thread takes next.
abbrev pub head : ScopeState → Sample
head scope = first_or_new scope.sample_period scope.last_measure_stamp scope.samples

abbrev pub stop : ScopeState → ℕ
stop scope = scope.last_measure_stamp + scope.sample_period

abbrev pub ReadyOf : (period last : ℕ) → List Sample → List Periph → Type 0
ReadyOf period last samples periphs =
    (0 < period)
    × Chain period last samples
    × (rest samples ≡ [])
    × AllTimely last (last + period) (first_or_new period last samples) periphs
    × Distinct periphs

-- At most one sample has begun, each peripheral has its own cell in it, and a cell is marked only by
-- a change within the sample.
abbrev pub Ready : ScopeState → Type 0
Ready scope = ReadyOf scope.sample_period scope.last_measure_stamp scope.samples scope.periphs

new_scope-Ready : Ready new_scope
unfolding new_scope
new_scope-Ready = (omega arith, tt, refl, tt, tt)

next-AllTimely :
    (period last stop : ℕ) (sample : Sample) (ps : List Periph)
    → AllTimely last stop sample ps
    → AllTimely stop (stop + period) (sample_new period stop) ps
unfolding sample_new
next-AllTimely period last stop sample [] all = tt
next-AllTimely period last stop sample (p ∷ ps) ((slot, table, before, fresh), all) = (
  (
    slot,
    table,
    omega arith,
    λ early. ap (λ cell. cell.processed) (get_or-replicate max_peripherals p.idx),
  ),
  next-AllTimely period last stop sample ps all,
)

abbrev pub next_scope : ScopeState → ScopeState
next_scope scope = record scope { samples = []; last_measure_stamp = stop scope }

-- At the end of a period the thread's `get_sample` returns the sample that ends there: it holds for
-- each peripheral, in 64 bits, the energy that the changes of mode had counted and that of the time
-- since at the cost of the mode it is in. The scope has no sample left and is ready for the next.
pub get_sample-Billed :
    (scope : ScopeState)
    → Ready scope
    → stop scope < 2 ^ 64
    → (sample : Sample) × (get_sample scope (stop scope) ≡ returns (sample, next_scope scope))
      × Billed scope.last_measure_stamp (stop scope) (head scope) sample scope.periphs
      × (length sample.per_costs ≡ max_peripherals)
      × Ready (next_scope scope)
unfolding get_sample
get_sample-Billed scope (pos, chain, single, all, distinct) fits =
    let period = scope.sample_period in
    let last = scope.last_measure_stamp in
    let whole = first-Chain period last scope.samples fits chain in
    let (sample, runs, others, done, size) =
      bill_all-eq period last (stop scope) scope.periphs (head scope) refl fits whole.1 distinct
        all in
    (
      sample,
      rw (whole.0, ==_refl (stop scope), single)
          (ap (λ o. o >>= λ samp. returns (samp, next_scope scope)) runs),
      done,
      size,
      (
        pos,
        tt,
        refl,
        next-AllTimely period last (stop scope) (head scope) scope.periphs all,
        distinct,
      ),
    )

-- An update within the period of the sample at the head, which alone it changes.
update_within :
    (n period : ℕ) (p : Periph) (time last c : ℕ) (samples : List Sample)
    → cost p ≡ returns c
    → p.idx < max_peripherals
    → last + period < 2 ^ 64
    → p.last_change_stamp ≤ last + period
    → last < time
    → time ≤ last + period
    → Chain period last samples
    → r_update_samples (suc n) period p time last samples
      ≡ returns (
          charged p
            (part p time last c (amended mark p.idx (first_or_new period last samples)))
            (first_or_new period last samples)
          ∷ rest samples)
unfolding r_update_samples
update_within n period p time last c samples priced slot fits before moved within chain =
    let sample = first_or_new period last samples in
    let whole = first-Chain period last samples fits chain in
    rw (lt→ltb last time moved, priced, amend-eq mark p.idx sample (omega (arith, whole.1)))
      (account_late p time last c (amended mark p.idx sample) (rest samples)
          (r_update_samples n period p time sample.time_stamp (rest samples))
          (omega (arith, whole.0)) (omega (arith, whole.1, length-amended mark p.idx sample))
        ∙ rw (ltb_of_le sample.time_stamp time (omega (arith, whole.0))) refl)

update_idle :
    (n period : ℕ) (p : Periph) (time last : ℕ) (samples : List Sample)
    → time ≤ last
    → r_update_samples n period p time last samples ≡ returns samples
unfolding r_update_samples
update_idle zero period p time last samples idle = rw (ltb_of_le last time idle) refl
update_idle (suc n) period p time last samples idle = rw (ltb_of_le last time idle) refl

-- What a change of mode at `time` leaves of the samples.
abbrev pub Changed : ScopeState → Periph → ℕ → Outcome ScopeState → Type 0
Changed scope p time o =
    (samples : List Sample) × (o ≡ returns (record scope { samples = samples }))
    × Chain scope.sample_period scope.last_measure_stamp samples
    × (rest samples ≡ [])
    × ((j : ℕ)
        → p.idx ≢ j
        → cell_flag j (first_or_new scope.sample_period scope.last_measure_stamp samples)
          ≡ cell_flag j (head scope))
    × (time ≤ scope.last_measure_stamp
        → cell_flag p.idx (first_or_new scope.sample_period scope.last_measure_stamp samples)
          ≡ cell_flag p.idx (head scope))

pub unchanged :
    (scope : ScopeState) (p : Periph) (time : ℕ)
    → Ready scope
    → Changed scope p time (returns scope)
unchanged scope p time (pos, chain, single, all, distinct) =
    (scope.samples, refl, chain, single, λ j ne. refl, λ idle. refl)

pub update_samples-Changed :
    (scope : ScopeState) (p : Periph) (time : ℕ)
    → Ready scope
    → Timely scope.last_measure_stamp (stop scope) (head scope) p
    → stop scope < 2 ^ 64
    → time ≤ stop scope
    → Changed scope p time (update_samples scope p time)
unfolding update_samples
update_samples-Changed scope p zero ready timely fits within =
    rw
      (update_idle zero scope.sample_period p zero scope.last_measure_stamp scope.samples
        (omega arith))
      (unchanged scope p zero ready)
update_samples-Changed scope p (suc n) ready timely fits within =
    elim (lt_or_le scope.last_measure_stamp (suc n)) [
      | inr idle ↦
          rw
            (update_idle (suc n) scope.sample_period p (suc n) scope.last_measure_stamp
              scope.samples idle)
            (unchanged scope p (suc n) ready)
      | inl moved ↦
          let (pos, chain, single, all, distinct) = ready in
          let (slot, table, before, fresh) = timely in
          let sample = head scope in
          let whole =
            first-Chain scope.sample_period scope.last_measure_stamp scope.samples fits chain in
          let en = part p (suc n) scope.last_measure_stamp (price p) (amended mark p.idx sample) in
          (
            charged p en sample ∷ rest scope.samples,
            rw
                (update_within n scope.sample_period p (suc n) scope.last_measure_stamp (price p)
                  scope.samples (cost-eq p table) slot fits before moved within chain)
                refl,
            (whole.0, length-charged p en sample ∙ whole.1, whole.2),
            single,
            λ j ne. ap (λ cell. cell.processed) (charged_ne p en sample j ne),
            λ idle. absurd (omega arith),
          )
    ]
