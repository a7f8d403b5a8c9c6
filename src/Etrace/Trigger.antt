-- ===== src/Etrace/Trigger.antt =====
-- A round of the thread of the trace returns, and what it measures.
use rabbits.Base.{
  ℕ, ◌+◌, ◌*◌, ◌/◌, ◌%◌, ◌^◌, ◌≤◌, ◌<◌, ◌≡◌, ◌≢◌, ◌∙◌, refl, sym, List, [], ◌∷◌, returns, length,
  set, length-set, load-eq, store-eq, arith,
}
use mathlib.Core.Path.{subst}
use rabbits.Etrace.Bill.{AllTimely, Billed}
use rabbits.Etrace.Window.{Ready, stop, head, next_scope, get_sample-Billed}
use rabbits.Etrace.Rounds.{Recent, roll_average-Recent, mean_of_last}
use rabbits.Etrace.{max_peripherals, unused, word64, Periph, Sample}
use rabbits.Etrace.Cells.{energy_at}
use rabbits.Etrace.Meter.{Trace, extended, divide_eq, percent, show_all, measured, scope_trigger}

-- The display has a place for each peripheral of the list, and no greatest power is zero.
abbrev pub Shown : (samp_per places : ℕ) → List Periph → Type 0
Shown samp_per places [] = Unit
Shown samp_per places (p ∷ ps) =
    (p.idx < places)
    × (word64 (samp_per * extended p.pclass.max_energy_ms) ≢ 0)
    × Shown samp_per places ps

-- The sum in 64 bits of what the sample holds for the peripherals of a list, from `acc` on.
unfoldable pub total : ℕ → Sample → List Periph → ℕ
total acc sample [] = acc
total acc sample (p ∷ ps) = total (word64 (acc + energy_at p.idx sample)) sample ps

abbrev AllSlots : ℕ → List Periph → Type 0
AllSlots n [] = Unit
AllSlots n (p ∷ ps) = (p.idx < n) × AllSlots n ps

percent-Returns :
    (en samp_per m : ℕ)
    → word64 (samp_per * extended m) ≢ 0
    → (v : ℕ) × (percent en samp_per m ≡ returns v)
unfolding percent
percent-Returns en samp_per m ne = (
  word64 (en * 100) / word64 (samp_per * extended m) % 256,
  rw (divide_eq (word64 (en * 100)) (word64 (samp_per * extended m)) ne) refl,
)

show_all-total :
    (samp_per acc : ℕ) (sample : Sample) (ps : List Periph) (vals : List ℕ)
    → AllSlots (length sample.per_costs) ps
    → Shown samp_per (length vals) ps
    → (vals' : List ℕ) × (length vals' ≡ length vals)
      × (show_all samp_per sample ps acc vals ≡ returns (total acc sample ps, vals'))
unfolding show_all total
show_all-total samp_per acc sample [] vals slots shown = (vals, refl, refl)
show_all-total samp_per acc sample (p ∷ ps) vals (slot, slots) (place, ne, shown) =
    let (v, out) = percent-Returns (energy_at p.idx sample) samp_per p.pclass.max_energy_ms ne in
    let (vals', size, runs) =
      show_all-total samp_per (word64 (acc + energy_at p.idx sample)) sample ps (set vals p.idx v)
        slots (subst (λ n. Shown samp_per n ps) (sym (length-set vals p.idx v)) shown) in
    (
      vals',
      size ∙ length-set vals p.idx v,
      rw (load-eq sample.per_costs p.idx unused slot, out, store-eq vals p.idx v place) runs,
    )

slots-AllSlots :
    (last stop : ℕ) (sample : Sample) (ps : List Periph)
    → AllTimely last stop sample ps
    → AllSlots max_peripherals ps
slots-AllSlots last stop sample [] all = tt
slots-AllSlots last stop sample (p ∷ ps) ((slot, table, before, fresh), all) =
    (slot, slots-AllSlots last stop sample ps all)

-- On a scope that is ready, with a display that has room and no greatest power that is zero, a round
-- of the thread returns: it takes the sample of the period, adds the sum over the peripherals to the
-- measure when one is under way, gives it to the rolling average, and leaves the scope ready.
pub scope_trigger-Ready :
    (t : Trace) (xs : List ℕ)
    → Ready t.scope
    → stop t.scope < 2 ^ 64
    → Recent t.average xs
    → Shown t.scope.sample_period (length t.vals) t.scope.periphs
    → word64 (t.scope.sample_period * extended t.scope.max_energy_ms) ≢ 0
    → t.scope.nb_periphs + 2 ≤ length t.vals
    → (sample : Sample) × (t' : Trace) × (scope_trigger t (stop t.scope) ≡ returns t')
      × Billed t.scope.last_measure_stamp (stop t.scope) (head t.scope) sample t.scope.periphs
      × (t'.measure ≡ measured t.measure (total 0 sample t.scope.periphs))
      × Recent t'.average (total 0 sample t.scope.periphs ∷ xs)
      × Ready t'.scope
unfolding scope_trigger
scope_trigger-Ready t xs ready fits recent shown ne room =
    let scope = t.scope in
    let (sample, taken, billed, size, ready') = get_sample-Billed scope ready fits in
    let slots =
      slots-AllSlots scope.last_measure_stamp (stop scope) (head scope) scope.periphs ready.3 in
    let (vals, same, shows) =
      show_all-total scope.sample_period 0 sample scope.periphs t.vals
        (subst (λ n. AllSlots n scope.periphs) (sym size) slots) shown in
    let sum = total 0 sample scope.periphs in
    let (whole, out) = percent-Returns sum scope.sample_period scope.max_energy_ms ne in
    let (average, rolls, recent') = roll_average-Recent t.average sum xs recent in
    let mean = mean_of_last (sum ∷ xs) in
    let (rolled, out') = percent-Returns mean scope.sample_period scope.max_energy_ms ne in
    let wider = set vals scope.nb_periphs whole in
    (
      sample,
      record {
        scope = next_scope scope;
        average = average;
        measure = measured t.measure sum;
        vals = set wider (scope.nb_periphs + 1) rolled;
      },
      rw
          (
            taken,
            shows,
            out,
            store-eq vals scope.nb_periphs whole (omega arith),
            rolls,
            out',
            store-eq wider (scope.nb_periphs + 1) rolled
                (omega (arith, length-set vals scope.nb_periphs whole)),
          )
          refl,
      billed,
      refl,
      recent',
      ready',
    )
