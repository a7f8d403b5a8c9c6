-- ===== src/Devices/Lanes/Agree.antt =====
-- The table of the devices against the byte enables: bit `k` of `be` selects byte `k` of a line.
use rabbits.Base.{
  ℕ, ◌+◌, ◌*◌, ◌<◌, ◌≤◌, ◌≡◌, refl, Bool, true, false, ◌&&◌, Option, none, some, ◌==◌, leb, ltb,
  arith, if◌then◌else◌,
}
use rabbits.Bits.{bit, all_below, all_below_lem}
use rabbits.Master.{lanes}
use rabbits.Devices.Lanes.{switch_be}

-- The offset and the number of the bytes that `be` selects, with the case of all 8.
unfoldable pub selected : ℕ → Option (ℕ × ℕ)
selected be =
    if be == 0
    then none
    else if be == 0xFF
    then some (0, 8)
    else elim (switch_be be) [ none ↦ none | some (i, w) ↦ some (w * i, w) ]

abbrev pub is_set : ℕ → ℕ → Bool
is_set be k = bit be k == 1

abbrev same : Bool → Bool → Bool
same true b = b
same false true = false
same false false = true

abbrev agrees : ℕ → Bool
agrees be = elim (selected be) [
  | none ↦ true
  | some (o, n) ↦
      ((lanes be).0 == o)
      && ((lanes be).1 == n)
      && leb (o + n) 8
      && leb 1 n
      && all_below 8 (λ k. same (is_set be k) (leb o k && ltb k (o + n)))
]

table : all_below 256 agrees ≡ true
unfolding all_below selected switch_be lanes
table = refl

-- The bytes that a byte enable selects are those of its set bits; they are the run of lanes that
-- `response_thread` finds in it, and lie in the 8 bytes of a packet.
pub record IsRun (be o n : ℕ) : Type 0 where
  pub run : lanes be ≡ (o, n)
  pub fits : o + n ≤ 8
  pub one : 1 ≤ n
  pub bits : (k : ℕ) → k < 8 → is_set be k ≡ (leb o k && ltb k (o + n))

same→eq : (a b : Bool) → same a b ≡ true → a ≡ b
same→eq a b h = ground arith

-- The element that a memory selects for a byte enable is the run of lanes that a master reads off the
-- same byte: it starts at the same byte, has the same length, lies in the line and is not empty, and
-- a byte is in it exactly when its enable is set.
pub selected-IsRun : (be : ℕ) {o n : ℕ} → be < 256 → selected be ≡ some (o, n) → IsRun be o n
selected-IsRun be {o} {n} small h =
    let entry = all_below_lem 256 agrees be table small in
    record {
      run = ground arith;
      fits = ground arith;
      one = ground arith;
      bits = λ k below. same→eq _ _ (
          all_below_lem 8 (λ k. same (is_set be k) (leb o k && ltb k (o + n))) k (ground arith)
            below);
    }
