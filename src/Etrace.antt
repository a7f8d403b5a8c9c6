-- ===== src/Etrace.antt =====
-- The energy trace, `rabbits/components/etrace/etrace_if.{h,cpp}`: the list of samples that the
-- scope keeps, the changes of a peripheral's mode, the registration of the peripherals, the rolling
-- average and the thread that reads one sample in each period. `malloc` gives its memory, and a
-- recursion that never ends runs past the end of the stack, so that it faults.
mod Cells
mod Visit
mod Update
mod Bill
mod Window
mod Change
mod Modes
mod Register
mod Average
mod Newest
mod Rounds
mod Meter
mod Trigger
mod Tests
use rabbits.Base.{
  ℕ, zero, suc, ◌+◌, ◌-◌, ◌*◌, ◌/◌, ◌%◌, ◌^◌, Bool, true, false, not, ◌&&◌, List, [], ◌∷◌, Outcome,
  returns, faults, ◌>>=◌, load, store, replicate, ltb, leb, ◌==◌, if◌then◌else◌, bit_and,
}

abbrev pub max_peripherals : ℕ
max_peripherals = 20

abbrev pub max_history : ℕ
max_history = 10

-- The arithmetic of `uint64_t`.
unfoldable pub word64 : ℕ → ℕ
word64 n = n % 2 ^ 64

unfoldable pub sub64 : ℕ → ℕ → ℕ
sub64 a b = word64 (a + 2 ^ 64 - b)

pub record PeriphClass : Type 0 where
  max_energy_ms : ℕ
  nmodes : ℕ
  nfvsets : ℕ
  mode_cost : List ℕ

-- `handle` stands for the address, which the callers keep as `periph_id`.
pub record Periph : Type 0 where
  handle : ℕ
  pclass : PeriphClass
  group_id : ℕ
  idx : ℕ
  last_change_stamp : ℕ
  curr_mode : ℕ
  curr_fvset : ℕ

pub record PerEn : Type 0 where
  processed : Bool
  energy : ℕ

-- The samples that follow by `next` are the rest of a list.
pub record Sample : Type 0 where
  time_stamp : ℕ
  per_costs : List PerEn

pub record ScopeState : Type 0 where
  sample_period : ℕ
  samples : List Sample
  last_measure_stamp : ℕ
  periphs : List Periph
  nb_periphs : ℕ
  nb_groups : ℕ
  max_energy_ms : ℕ

-- The scope that the constructor makes.
unfoldable pub new_scope : ScopeState
new_scope = record {
  sample_period = 20 * 1000 * 1000;
  samples = [];
  last_measure_stamp = 0;
  periphs = [];
  nb_periphs = 0;
  nb_groups = 0;
  max_energy_ms = 0;
}

abbrev pub unused : PerEn
unused = record { processed = false; energy = 0 }

unfoldable pub sample_new : ℕ → ℕ → Sample
sample_new period prev_stamp = record {
  time_stamp = word64 (prev_stamp + period);
  per_costs = replicate max_peripherals unused;
}

-- The sample at the head, a new one at the end of the list, and the samples after it.
abbrev pub first_or_new : ℕ → ℕ → List Sample → Sample
first_or_new period last_time [] = sample_new period last_time
first_or_new period last_time (sample ∷ _) = sample

abbrev pub rest : List Sample → List Sample
rest [] = []
rest (_ ∷ samples) = samples

unfoldable pub cost : Periph → Outcome ℕ
cost p = load p.pclass.mode_cost (p.pclass.nmodes * p.curr_fvset + p.curr_mode)

-- `sample->per_costs[i]` passes through `f`.
unfoldable pub amend : (PerEn → PerEn) → ℕ → Sample → Outcome Sample
amend f i sample = do
  cell ← load sample.per_costs i
  cells ← store sample.per_costs i (f cell)
  returns (record sample { per_costs = cells })

abbrev pub mark : PerEn → PerEn
mark cell = record cell { processed = true }

abbrev pub charge : ℕ → PerEn → PerEn
charge en cell = record cell { energy = word64 (cell.energy + en) }

abbrev pub begin_stamp : ℕ → ℕ → ℕ
begin_stamp last_time last_change = if ltb last_time last_change then last_change else last_time

abbrev pub end_stamp : ℕ → ℕ → ℕ
end_stamp time stamp = if ltb stamp time then stamp else time

-- The part of a visit after the sample is marked; `next` is the result of the recursive call.
unfoldable pub account :
    Periph
    → (time last_time mode_cost : ℕ) → Sample
    → List Sample
    → Outcome (List Sample)
    → Outcome (List Sample)
account p time last_time mode_cost sample others next =
    if ltb sample.time_stamp p.last_change_stamp
    then (next >>= λ samples. returns (sample ∷ samples))
    else (amend
          (charge (
            word64 (
              sub64 (end_stamp time sample.time_stamp) (begin_stamp last_time p.last_change_stamp)
              * mode_cost)))
          p.idx sample
        >>= λ charged.
            if ltb sample.time_stamp time
            then (next >>= λ samples. returns (charged ∷ samples))
            else returns (charged ∷ others))

unfoldable pub r_update_samples :
    (rounds period : ℕ) → Periph → (time last_time : ℕ) → List Sample → Outcome (List Sample)
r_update_samples zero period p time last_time samples =
    if ltb last_time time then faults else returns samples
r_update_samples (suc n) period p time last_time samples =
    let sample = first_or_new period last_time samples in
    let next = r_update_samples n period p time sample.time_stamp (rest samples) in
    if ltb last_time time
    then (cost p >>= λ mode_cost. amend mark p.idx sample >>= λ marked.
        account p time last_time mode_cost marked (rest samples) next)
    else returns samples

-- Each round of the recursion ends a later sample, so that the time to cover bounds their number.
unfoldable pub update_samples : ScopeState → Periph → ℕ → Outcome ScopeState
update_samples scope p time = do
  samples ← r_update_samples time scope.sample_period p time scope.last_measure_stamp scope.samples
  returns (record scope { samples = samples })

-- The energy of one peripheral at the end of a sample.
unfoldable pub update_en : (period time last_change mode_cost : ℕ) → Bool → ℕ
update_en period time last_change mode_cost processed =
    if ltb (sub64 time last_change) period
    then word64 (mode_cost * sub64 time last_change)
    else if processed
    then 0
    else word64 (mode_cost * period)

unfoldable pub bill : (period time : ℕ) → Periph → Sample → Outcome Sample
bill period time p sample = do
  mode_cost ← cost p
  cell ← load sample.per_costs p.idx
  amend (charge (update_en period time p.last_change_stamp mode_cost cell.processed)) p.idx sample

unfoldable pub bill_all : (period time : ℕ) → List Periph → Sample → Outcome Sample
bill_all period time [] sample = returns sample
bill_all period time (p ∷ ps) sample = bill period time p sample >>= bill_all period time ps

-- The sample that ends at `time`, and the scope after it. A null sample is dereferenced by the
-- thread that asked for it.
unfoldable pub get_sample : ScopeState → ℕ → Outcome (Sample × ScopeState)
get_sample scope time =
    let samp = first_or_new scope.sample_period scope.last_measure_stamp scope.samples in
    if samp.time_stamp == time
    then (bill_all scope.sample_period time scope.periphs samp >>= λ done.
        returns (
          done,
          record scope { samples = rest scope.samples; last_measure_stamp = samp.time_stamp },
        ))
    else faults
