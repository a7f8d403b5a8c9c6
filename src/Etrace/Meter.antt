-- ===== src/Etrace/Meter.antt =====
-- The thread of the trace, `etrace_if::scope_trigger`, one period at a time, and the measure of the
-- mean power between `start_measure` and `stop_measure`. The bytes that the thread writes to its
-- display are the list `vals`.
use rabbits.Base.{
  ℕ, ◌+◌, ◌-◌, ◌*◌, ◌/◌, ◌%◌, ◌^◌, ◌<◌, ◌≡◌, ◌≢◌, ◌∙◌, refl, sym, ap, ap₂, Bool, true, false, List,
  [], ◌∷◌, Outcome, returns, faults, ◌>>=◌, length, load, store, ltb, ◌==◌, if◌then◌else◌, ==_of_ne,
  arith,
}
use rabbits.Etrace.{word64, Periph, Sample, ScopeState, get_sample}
use rabbits.Etrace.Cells.{word64_of_lt, word64_left}
use rabbits.Etrace.Newest.{sum, empty_of_length}
use rabbits.Etrace.Average.{Average, roll_average}

-- `m_measure_started`, `m_measure_accum`, `m_measure_nbsamp`.
pub record Measure : Type 0 where
  pub started : Bool
  pub accum : ℕ
  pub nbsamp : ℕ

pub record Trace : Type 0 where
  pub scope : ScopeState
  pub average : Average
  pub measure : Measure
  pub vals : List ℕ

-- The `uint64_t` of an `int` that is kept as its 32 bits.
unfoldable pub extended : ℕ → ℕ
extended v = if ltb v (2 ^ 31) then v else v + (2 ^ 64 - 2 ^ 32)

-- The processor traps a division by zero.
unfoldable pub divide : (a b : ℕ) → Outcome ℕ
divide a b = if b == 0 then faults else returns (a / b)

-- `(uint8_t) ((en * 100) / (samp_per * max_energy_ms))`.
unfoldable pub percent : (en samp_per max_energy_ms : ℕ) → Outcome ℕ
percent en samp_per max_energy_ms =
    divide (word64 (en * 100)) (word64 (samp_per * extended max_energy_ms)) >>= λ q.
    returns (q % 256)

unfoldable pub show_all :
    (samp_per : ℕ) → Sample → List Periph → (sum : ℕ) → List ℕ → Outcome (ℕ × List ℕ)
show_all samp_per samp [] sum vals = returns (sum, vals)
show_all samp_per samp (p ∷ ps) sum vals = do
  cell ← load samp.per_costs p.idx
  v ← percent cell.energy samp_per p.pclass.max_energy_ms
  vals' ← store vals p.idx v
  show_all samp_per samp ps (word64 (sum + cell.energy)) vals'

unfoldable pub measured : Measure → ℕ → Measure
measured m sum =
    if m.started
    then record m { accum = word64 (m.accum + sum); nbsamp = (m.nbsamp + 1) % 2 ^ 32 }
    else m

-- One round of the thread, whose period ends at `stamp`.
unfoldable pub scope_trigger : Trace → (stamp : ℕ) → Outcome Trace
scope_trigger t stamp = do
  taken ← get_sample t.scope stamp
  shown ← show_all t.scope.sample_period taken.0 taken.1.periphs 0 t.vals
  total ← percent shown.0 t.scope.sample_period taken.1.max_energy_ms
  vals ← store shown.1 taken.1.nb_periphs total
  rolled ← roll_average t.average shown.0
  mean ← percent rolled.0 t.scope.sample_period taken.1.max_energy_ms
  vals' ← store vals (taken.1.nb_periphs + 1) mean
  returns (record {
    scope = taken.1;
    average = rolled.1;
    measure = measured t.measure shown.0;
    vals = vals';
  })

unfoldable pub start_measure : Measure → Measure
start_measure m = record { started = true; accum = 0; nbsamp = 0 }

unfoldable pub stop_measure : (sample_period : ℕ) → Measure → Outcome (ℕ × Measure)
stop_measure sample_period m = do
  energy ← divide m.accum sample_period
  val ← divide energy m.nbsamp
  returns (val % 2 ^ 32, record m { started = false })

-- The samples of a measure, the newest first.
unfoldable pub measure_all : Measure → List ℕ → Measure
measure_all m [] = start_measure m
measure_all m (sum ∷ sums) = measured (measure_all m sums) sum

measure_all-eq :
    (m : Measure) (sums : List ℕ)
    → measure_all m sums
      ≡ record { started = true; accum = word64 (sum sums); nbsamp = length sums % 2 ^ 32 }
unfolding measure_all measured start_measure
measure_all-eq m [] =
    ap (λ a. record { started = true; accum = a; nbsamp = 0 }) (sym (word64_of_lt 0 (omega arith)))
measure_all-eq m (x ∷ sums) = rw (measure_all-eq m sums) (
    ap₂ (λ a n. record { started = true; accum = a; nbsamp = n })
      (word64_left (sum sums) x ∙ ap word64 (omega arith)) (omega arith))

pub divide_eq : (a b : ℕ) → b ≢ 0 → divide a b ≡ returns (a / b)
unfolding divide
divide_eq a b ne = rw (==_of_ne b 0 ne) refl

divide_zero : (a : ℕ) → divide a 0 ≡ faults
unfolding divide
divide_zero a = refl

-- Between `start_measure` and `stop_measure` the sums of the samples are added in 64 bits. The stop
-- returns their mean over the period, in 32 bits, and divides by zero when no sample has been taken between.
pub stop_measure-mean :
    (m : Measure) (period : ℕ) (sums : List ℕ)
    → period ≢ 0
    → length sums < 2 ^ 32
    → (sums ≡ [] → stop_measure period (measure_all m sums) ≡ faults)
      × (sums ≢ []
          → (m' : Measure) × (stop_measure period (measure_all m sums)
              ≡ returns (word64 (sum sums) / period / length sums % 2 ^ 32, m'))
            × (m'.started ≡ false))
unfolding stop_measure
stop_measure-mean m period sums ne few =
    let narrow : length sums % 2 ^ 32 ≡ length sums = omega arith in
    (
      λ e.
          rw
            (
              measure_all-eq m sums,
              e,
              divide_eq (word64 0) period ne,
              divide_zero (word64 0 / period),
            )
            refl,
      λ some_sums. (
        record { started = false; accum = word64 (sum sums); nbsamp = length sums % 2 ^ 32 },
        rw
            (
              measure_all-eq m sums,
              divide_eq (word64 (sum sums)) period ne,
              narrow,
              divide_eq (word64 (sum sums) / period) (length sums)
                  (λ e. some_sums (empty_of_length sums e)),
            )
            refl,
        refl,
      ),
    )
