-- ===== src/Etrace/Tests.antt =====
-- The energy trace at concrete inputs.
use rabbits.Base.{
  ◌^◌, ◌%◌, Option, List, load, ℕ, ◌*◌, ◌/◌, ◌<◌, ◌≡◌, ◌≢◌, refl, false, none, some, [], ◌∷◌,
  returns, faults, length, arith,
}
use mathlib.Core.Option.{some-injective}
use rabbits.Etrace.{
  PeriphClass, Periph, Sample, ScopeState, word64, sample_new, cost, r_update_samples, get_sample,
}
use rabbits.Etrace.Visit.{Covers}
use rabbits.Etrace.Update.{r_update_samples-conserves}
use rabbits.Etrace.Bill.{Billed, Distinct}
use rabbits.Etrace.Window.{head, stop, Ready, next_scope, get_sample-Billed}
use rabbits.Etrace.Modes.{change_energy_mode, find}
use rabbits.Etrace.Change.{change_energy_mode-Ready}
use rabbits.Etrace.Register.{
  new_periph, add_periph, Placed, Registered, AllGroups, add_periph-Placed, display_init,
  display_init-numbered,
}
use rabbits.Etrace.Average.{Average, roll_average, after}
use rabbits.Etrace.Rounds.{mean_of_last, roll_average-mean, Recent}
use rabbits.Etrace.Meter.{
  Measure, Trace, extended, measure_all, stop_measure, stop_measure-mean, scope_trigger, measured,
}
use rabbits.Etrace.Trigger.{total, scope_trigger-Ready}

abbrev cpu_class : PeriphClass
cpu_class = record { max_energy_ms = 4; nmodes = 2; nfvsets = 1; mode_cost = 1 ∷ 4 ∷ [] }

abbrev cpu : Periph
cpu = record {
  handle = 100;
  pclass = cpu_class;
  group_id = 0;
  idx = 0;
  last_change_stamp = 0;
  curr_mode = 1;
  curr_fvset = 0;
}

abbrev dma : Periph
dma = record {
  handle = 200;
  pclass = cpu_class;
  group_id = 1;
  idx = 1;
  last_change_stamp = 0;
  curr_mode = 0;
  curr_fvset = 0;
}

-- An update over two whole samples and a half.
r_update_samples-conserves_example : Covers 10 cpu 25 0 4 [] (r_update_samples 25 10 cpu 25 0 [])
unfolding cost load
r_update_samples-conserves_example =
    r_update_samples-conserves 25 10 cpu 25 0 4 [] refl (omega arith) (omega arith) (omega arith)
      (omega arith) (omega arith) tt

abbrev fresh_scope : ScopeState
fresh_scope = record {
  sample_period = 10;
  samples = [];
  last_measure_stamp = 0;
  periphs = cpu ∷ dma ∷ [];
  nb_periphs = 2;
  nb_groups = 2;
  max_energy_ms = 8;
}

fresh_scope-Ready : Ready fresh_scope
unfolding sample_new
fresh_scope-Ready = (
  omega arith,
  tt,
  refl,
  (
    (omega arith, (omega arith, omega arith, omega arith), omega arith, λ e. refl),
    ((omega arith, (omega arith, omega arith, omega arith), omega arith, λ e. refl), tt),
  ),
  ((λ e. absurd (omega arith), tt), (tt, tt)),
)

get_sample-Billed_example :
    (sample : Sample) × (get_sample fresh_scope 10 ≡ returns (sample, next_scope fresh_scope))
    × Billed 0 10 (head fresh_scope) sample (cpu ∷ dma ∷ [])
    × (length sample.per_costs ≡ 20)
    × Ready (next_scope fresh_scope)
get_sample-Billed_example = get_sample-Billed fresh_scope fresh_scope-Ready (omega arith)

change_energy_mode-Ready_example :
    (scope' : ScopeState) × (change_energy_mode fresh_scope 100 0 7 ≡ returns scope')
    × (stop scope' ≡ 10)
    × Ready scope'
unfolding find
change_energy_mode-Ready_example =
    change_energy_mode-Ready fresh_scope 100 0 7 cpu fresh_scope-Ready refl (omega arith)
      (omega arith)

fresh_scope-Registered : Registered fresh_scope
fresh_scope-Registered = (((omega arith, tt), (tt, tt)), (omega arith, (omega arith, tt)))

abbrev of_cpu : Option ℕ
of_cpu = some 0

add_periph-Placed_example :
    let (scope', group) = add_periph fresh_scope 300 cpu_class of_cpu in
    Placed (new_periph 300 cpu_class group) (cpu ∷ dma ∷ []) scope'.periphs
    × Registered scope'
    × (of_cpu ≡ none → AllGroups (λ g. g < group) (cpu ∷ dma ∷ []))
add_periph-Placed_example =
    add_periph-Placed fresh_scope 300 cpu_class of_cpu fresh_scope-Registered
      (λ g e. omega (arith, some-injective 0 g e))

display_init-numbered_example :
    (most : ℕ) × (display_init fresh_scope
      ≡ returns (record fresh_scope { periphs = cpu ∷ dma ∷ []; max_energy_ms = most }))
    × Distinct (cpu ∷ dma ∷ [])
display_init-numbered_example = display_init-numbered fresh_scope

roll_average-mean_example :
    (a : Average) × (a' : Average) × (after (5 ∷ 7 ∷ []) ≡ returns a)
    × (roll_average a 9 ≡ returns (mean_of_last (9 ∷ 5 ∷ 7 ∷ []), a'))
roll_average-mean_example = roll_average-mean 9 (5 ∷ 7 ∷ [])

abbrev two_sums : List ℕ
two_sums = 40 ∷ 80 ∷ []

abbrev idle_measure : Measure
idle_measure = record { started = false; accum = 0; nbsamp = 0 }

stop_measure-mean_example :
    (two_sums ≡ [] → stop_measure 10 (measure_all idle_measure two_sums) ≡ faults)
    × (two_sums ≢ []
        → (m' : Measure) × (stop_measure 10 (measure_all idle_measure two_sums)
            ≡ returns (word64 120 / 10 / 2 % 2 ^ 32, m'))
          × (m'.started ≡ false))
stop_measure-mean_example =
    stop_measure-mean idle_measure 10 two_sums (λ e. absurd (omega arith)) (omega arith)

abbrev started_trace : Trace
started_trace = record {
  scope = fresh_scope;
  average = record {
    full_average = false;
    curr_idx = 0;
    history = 0 ∷ 0 ∷ 0 ∷ 0 ∷ 0 ∷ 0 ∷ 0 ∷ 0 ∷ 0 ∷ 0 ∷ [];
  };
  measure = idle_measure;
  vals = 0 ∷ 0 ∷ 0 ∷ 0 ∷ [];
}

not_zero : word64 (10 * extended 4) ≢ 0
unfolding word64 extended
not_zero e = absurd (omega arith)

not_zero_eight : word64 (10 * extended 8) ≢ 0
unfolding word64 extended
not_zero_eight e = absurd (omega arith)

scope_trigger-Ready_example :
    (sample : Sample) × (t' : Trace) × (scope_trigger started_trace 10 ≡ returns t')
    × Billed 0 10 (head fresh_scope) sample (cpu ∷ dma ∷ [])
    × (t'.measure ≡ measured idle_measure (total 0 sample (cpu ∷ dma ∷ [])))
    × Recent t'.average (total 0 sample (cpu ∷ dma ∷ []) ∷ [])
    × Ready t'.scope
scope_trigger-Ready_example =
    scope_trigger-Ready started_trace [] fresh_scope-Ready (omega arith)
      ([], 0, 0 ∷ 0 ∷ 0 ∷ 0 ∷ 0 ∷ 0 ∷ 0 ∷ 0 ∷ 0 ∷ [], refl, refl, refl, (refl, omega arith))
      ((omega arith, not_zero, (omega arith, not_zero, tt))) not_zero_eight (omega arith)
