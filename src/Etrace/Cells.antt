-- ===== src/Etrace/Cells.antt =====
-- The cells of the samples, and sums of wrapped numbers.
use rabbits.Base.{
  ℕ, zero, suc, ◌+◌, ◌-◌, ◌*◌, ◌^◌, ◌≤◌, ◌<◌, ◌≡◌, ◌≢◌, refl, List, [], ◌∷◌, returns, load-eq,
  store-eq, length, get_or, set, length-set, replicate, get_or-set_self, get_or-set_ne, arith,
}
use rabbits.Etrace.{word64, sub64, PerEn, Sample, max_peripherals, unused, amend}

abbrev pub energy_at : ℕ → Sample → ℕ
energy_at i sample = (get_or sample.per_costs i unused).energy

-- The energy that the samples hold for one peripheral.
unfoldable pub spent : ℕ → List Sample → ℕ
spent i [] = 0
spent i (sample ∷ samples) = word64 (energy_at i sample + spent i samples)

-- Each sample ends one period after the sample before it.
abbrev pub Chain : ℕ → ℕ → List Sample → Type 0
Chain period last [] = Unit
Chain period last (sample ∷ samples) =
    (sample.time_stamp ≡ last + period)
    × (length sample.per_costs ≡ max_peripherals)
    × Chain period sample.time_stamp samples

abbrev pub amended : (PerEn → PerEn) → ℕ → Sample → Sample
amended f i sample = record sample {
  per_costs = set sample.per_costs i (f (get_or sample.per_costs i unused));
}

pub amend-eq :
    (f : PerEn → PerEn) (i : ℕ) (sample : Sample)
    → i < length sample.per_costs
    → amend f i sample ≡ returns (amended f i sample)
unfolding amend
amend-eq f i sample inside =
    rw
      (
        load-eq sample.per_costs i unused inside,
        store-eq sample.per_costs i (f (get_or sample.per_costs i unused)) inside,
      )
      refl

pub amended_self :
    (f : PerEn → PerEn) (i : ℕ) (sample : Sample)
    → i < length sample.per_costs
    → get_or (amended f i sample).per_costs i unused ≡ f (get_or sample.per_costs i unused)
amended_self f i sample inside = get_or-set_self sample.per_costs i (f _) unused inside

pub amended_ne :
    (f : PerEn → PerEn) (i j : ℕ) (sample : Sample)
    → i ≢ j
    → get_or (amended f i sample).per_costs j unused ≡ get_or sample.per_costs j unused
amended_ne f i j sample ne = get_or-set_ne sample.per_costs i j (f _) unused ne

pub length-amended :
    (f : PerEn → PerEn) (i : ℕ) (sample : Sample)
    → length (amended f i sample).per_costs ≡ length sample.per_costs
length-amended f i sample = length-set sample.per_costs i _

pub get_or-replicate : (n i : ℕ) → get_or (replicate n unused) i unused ≡ unused
get_or-replicate zero i = refl
get_or-replicate (suc n) zero = refl
get_or-replicate (suc n) (suc i) = get_or-replicate n i

pub word64_of_lt : (a : ℕ) → a < 2 ^ 64 → word64 a ≡ a
unfolding word64
word64_of_lt a h = omega arith

pub sub64_eq : (a b : ℕ) → b ≤ a → a < 2 ^ 64 → sub64 a b ≡ a - b
unfolding sub64 word64
sub64_eq a b le h = omega arith

-- Sums of wrapped numbers.
pub word64_right : (a b : ℕ) → word64 (a + word64 b) ≡ word64 (a + b)
unfolding word64
word64_right a b = omega arith

pub word64_left : (a b : ℕ) → word64 (word64 a + b) ≡ word64 (a + b)
unfolding word64
word64_left a b = omega arith

pub sum_later : (e s d : ℕ) → word64 (e + word64 (s + d)) ≡ word64 (word64 (e + s) + d)
unfolding word64
sum_later e s d = omega arith

pub sum_split :
    (e s x y z : ℕ)
    → x + y ≡ z
    → word64 (word64 (e + word64 x) + word64 (s + y)) ≡ word64 (word64 (e + s) + z)
unfolding word64
sum_split e s x y z h = omega arith

pub sum_here : (e s x : ℕ) → word64 (word64 (e + word64 x) + s) ≡ word64 (word64 (e + s) + x)
unfolding word64
sum_here e s x = omega arith

pub span_split :
    (begin stamp time c : ℕ)
    → begin ≤ stamp
    → stamp ≤ time
    → (stamp - begin) * c + (time - stamp) * c ≡ (time - begin) * c
span_split begin stamp time c lo hi = grind arith
