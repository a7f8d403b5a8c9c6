-- ===== src/Devices/Mem/Run.antt =====
-- The `default` case of a write: the loop over a run of lanes as one copy.
use rabbits.Base.{
  ℕ, zero, suc, ◌+◌, ◌/◌, ◌%◌, ◌<◌, ◌≤◌, ◌≡◌, ◌≢◌, inl, inr, refl, ap, ◌∙◌, Bool, true, false, ◌&&◌,
  ◌||◌, List, leb, ◌==◌, returns, length, get_or, set, arith, ==_of_ne, Bool-cases, load-eq,
  store-eq, length-set,
}
use rabbits.Bits.{all_below, all_below_lem}
use rabbits.Move.{blit}
use rabbits.Master.{lanes, skip_zeros, count_ones}
use rabbits.Devices.Mem.{copy_ones, write_run}

count_ones-add : (fuel tbe n : ℕ) → count_ones fuel tbe n ≡ n + count_ones fuel tbe 0
unfolding count_ones
count_ones-add zero tbe n = omega arith
count_ones-add (suc fuel) tbe n = elim (Bool-cases (tbe % 2 == 0)) [
  | inl even ↦ rw even (omega arith)
  | inr odd ↦
      rw odd (omega (arith, count_ones-add fuel (tbe / 2) (n + 1), count_ones-add fuel (tbe / 2) 1))
]

count_ones_odd :
    (fuel tbe : ℕ)
    → (tbe % 2 == 0) ≡ false
    → count_ones (suc fuel) tbe 0 ≡ suc (count_ones fuel (tbe / 2) 0)
unfolding count_ones
count_ones_odd fuel tbe odd = rw odd (omega (arith, count_ones-add fuel (tbe / 2) 1))

copy_ones_odd :
    (fuel tbe i ofs : ℕ) (bytes mem : List ℕ)
    → (tbe % 2 == 0) ≡ false
    → i < length bytes
    → ofs + i < length mem
    → copy_ones (suc fuel) tbe i ofs bytes mem
      ≡ copy_ones fuel (tbe / 2) (i + 1) ofs bytes (set mem (ofs + i) (get_or bytes i 0))
unfolding copy_ones
copy_ones_odd fuel tbe i ofs bytes mem odd src dst =
    rw (odd, load-eq bytes i 0 src, store-eq mem (ofs + i) (get_or bytes i 0) dst) refl

copy_ones_even :
    (fuel tbe i ofs : ℕ) (bytes mem : List ℕ)
    → (tbe % 2 == 0) ≡ true
    → copy_ones (suc fuel) tbe i ofs bytes mem
      ≡ returns (blit (count_ones (suc fuel) tbe 0) bytes i mem (ofs + i))
unfolding copy_ones count_ones blit
copy_ones_even fuel tbe i ofs bytes mem even = rw even refl

copy_ones_out :
    (tbe i ofs : ℕ) (bytes mem : List ℕ)
    → copy_ones zero tbe i ofs bytes mem
      ≡ returns (blit (count_ones zero tbe 0) bytes i mem (ofs + i))
unfolding copy_ones count_ones blit
copy_ones_out tbe i ofs bytes mem = refl

blit_one_more :
    (n i p : ℕ) (bytes mem : List ℕ)
    → blit n bytes (i + 1) (set mem p (get_or bytes i 0)) (p + 1) ≡ blit (suc n) bytes i mem p
unfolding blit
blit_one_more n i p bytes mem = refl

-- The loop of the `default` case is one copy of as many bytes as it finds lanes.
copy_ones_lem :
    (fuel tbe i ofs : ℕ) (bytes mem : List ℕ)
    → i + count_ones fuel tbe 0 ≤ length bytes
    → ofs + i + count_ones fuel tbe 0 ≤ length mem
    → copy_ones fuel tbe i ofs bytes mem
      ≡ returns (blit (count_ones fuel tbe 0) bytes i mem (ofs + i))
copy_ones_lem zero tbe i ofs bytes mem src dst = copy_ones_out tbe i ofs bytes mem
copy_ones_lem (suc fuel) tbe i ofs bytes mem src dst = elim (Bool-cases (tbe % 2 == 0)) [
  | inl even ↦ copy_ones_even fuel tbe i ofs bytes mem even
  | inr odd ↦
      let count = count_ones_odd fuel tbe odd in
      let next : ofs + (i + 1) ≡ ofs + i + 1 = omega arith in
      let mem' : List ℕ = set mem (ofs + i) (get_or bytes i 0) in
      let rest =
        copy_ones_lem fuel (tbe / 2) (i + 1) ofs bytes mem' (omega arith)
          (omega (arith, length-set mem (ofs + i) (get_or bytes i 0))) in
      copy_ones_odd fuel tbe i ofs bytes mem odd (omega arith) (omega arith)
      ∙ rest
      ∙ rw (count, next)
          (ap returns (blit_one_more (count_ones fuel (tbe / 2) 0) i (ofs + i) bytes mem))
]

-- Each byte enable other than 0 marks lanes of the line.
abbrev marks : ℕ → Bool
marks be = be == 0 || (leb ((lanes be).0 + (lanes be).1) 8 && leb 1 (lanes be).1)

table : all_below 256 marks ≡ true
unfolding all_below lanes
table = refl

pub run_fits : (be : ℕ) → be < 256 → be ≢ 0 → ((lanes be).0 + (lanes be).1 ≤ 8) × (1 ≤ (lanes be).1)
run_fits be small some_lane = let entry = all_below_lem 256 marks be table small in ground arith

abbrev from : ℕ → ℕ × ℕ
from be = skip_zeros 8 be 0

lanes_found : (be : ℕ) → be ≢ 0 → lanes be ≡ ((from be).1, count_ones 8 (from be).0 0)
unfolding lanes
lanes_found be some_lane = rw (==_of_ne be 0 some_lane) refl

write_run_lanes :
    (ofs be : ℕ) (bytes mem : List ℕ)
    → write_run ofs be bytes mem ≡ copy_ones 8 (from be).0 (from be).1 ofs bytes mem
unfolding write_run
write_run_lanes ofs be bytes mem = refl

pub write_run-blit :
    (ofs be : ℕ) (bytes mem : List ℕ)
    → be ≢ 0
    → (lanes be).0 + (lanes be).1 ≤ length bytes
    → ofs + (lanes be).0 + (lanes be).1 ≤ length mem
    → write_run ofs be bytes mem
      ≡ returns (blit (lanes be).1 bytes (lanes be).0 mem (ofs + (lanes be).0))
write_run-blit ofs be bytes mem some_lane src dst =
    let found = lanes_found be some_lane in
    write_run_lanes ofs be bytes mem
    ∙ rw found
        (copy_ones_lem 8 (from be).0 (from be).1 ofs bytes mem (rw found at src) (rw found at dst))
