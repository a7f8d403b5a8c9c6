-- ===== src/Devices/Mem/Picked.antt =====
-- The byte enables of an aligned access, in the table of the devices.
use rabbits.Base.{
  ℕ, ◌+◌, ◌%◌, ◌<◌, ◌≤◌, ◌≡◌, inl, inr, refl, Bool, true, false, not, ◌&&◌, ◌||◌, none, some, ltb,
  leb, ◌==◌, arith,
}
use rabbits.Bits.{all_below, all_below_lem}
use rabbits.Master.Marks.{IsSize, lane_mask}
use rabbits.Devices.Lanes.{switch_be}
use rabbits.Devices.Lanes.Agree.{selected}

-- The byte enables of an aligned access are in the table of the devices.
abbrev picks : ℕ → ℕ → Bool
picks n o =
    not (o % n == 0 && leb (o + n) 8)
    || (ltb 0 (lane_mask n o)
        && ltb (lane_mask n o) 255
        && elim (selected (lane_mask n o)) [ none ↦ false | some (a, b) ↦ a == o && b == n ])

abbrev pub Picked : ℕ → ℕ → Type 0
Picked n o = (selected (lane_mask n o) ≡ some (o, n)) × (0 < lane_mask n o) × (lane_mask n o < 255)

one_byte : all_below 8 (picks 1) ≡ true
unfolding all_below selected switch_be
one_byte = refl

two_bytes : all_below 8 (picks 2) ≡ true
unfolding all_below selected switch_be
two_bytes = refl

four_bytes : all_below 8 (picks 4) ≡ true
unfolding all_below selected switch_be
four_bytes = refl

table-Picked : (n o : ℕ) → all_below 8 (picks n) ≡ true → o < 8 → o % n ≡ 0 → o + n ≤ 8 → Picked n o
table-Picked n o table below aligned fits =
    let entry = all_below_lem 8 (picks n) o table below in ground arith

pub aligned-Picked : (n o : ℕ) → IsSize n → o < 8 → o % n ≡ 0 → o + n ≤ 8 → Picked n o
aligned-Picked n o (inl one) below aligned fits =
    rw one (table-Picked 1 o one_byte below (rw one at aligned) (rw one at fits))
aligned-Picked n o (inr (inl two)) below aligned fits =
    rw two (table-Picked 2 o two_bytes below (rw two at aligned) (rw two at fits))
aligned-Picked n o (inr (inr four)) below aligned fits =
    rw four (table-Picked 4 o four_bytes below (rw four at aligned) (rw four at fits))
