-- ===== src/Master/Marks.antt =====
-- The byte enables of an access, which `s_operation_mask_be` holds.
use rabbits.Base.{
  ℕ, ◌+◌, ◌-◌, ◌*◌, ◌%◌, ◌^◌, ◌<◌, ◌≤◌, ◌≡◌, ◌⊎◌, inl, inr, refl, Bool, true, ◌==◌, returns, load,
  arith, ◌&&◌,
}
use rabbits.Bits.{all_below, all_below_lem}
use rabbits.Master.{operation_mask_be, lanes}

-- The sizes of an access that the masters make.
abbrev pub IsSize : ℕ → Type 0
IsSize n = (n ≡ 1) ⊎ (n ≡ 2) ⊎ (n ≡ 4)

-- `be` for an access of `n` bytes at offset `ofs`.
abbrev pub lane_mask : ℕ → ℕ → ℕ
lane_mask n ofs = (2 ^ n - 1) * 2 ^ ofs

-- The lanes that `send_req` marks at each offset are those that `response_thread` finds.
abbrev reads_back : ℕ → ℕ → ℕ → Bool
reads_back mask n ofs =
    (lanes (mask * 2 ^ ofs % 256)).0 == ofs
    && (lanes (mask * 2 ^ ofs % 256)).1 == n
    && mask * 2 ^ ofs % 256 == lane_mask n ofs

module _ (mask n k : ℕ) (table : all_below k (reads_back mask n) ≡ true) where
  lanes_of_table :
      (ofs : ℕ)
      → ofs < k
      → (lanes (mask * 2 ^ ofs % 256) ≡ (ofs, n)) × (mask * 2 ^ ofs % 256 ≡ lane_mask n ofs)
  lanes_of_table ofs below = ground (arith, all_below_lem k (reads_back mask n) ofs table below)

one_lane : all_below 8 (reads_back 0x01 1) ≡ true
unfolding all_below lanes
one_lane = refl

two_lanes : all_below 7 (reads_back 0x03 2) ≡ true
unfolding all_below lanes
two_lanes = refl

four_lanes : all_below 5 (reads_back 0x0F 4) ≡ true
unfolding all_below lanes
four_lanes = refl

-- The entry of `s_operation_mask_be` for a size, at an offset that leaves room for it.
abbrev pub Marks : ℕ → ℕ → ℕ → Type 0
Marks n ofs mask =
    (load operation_mask_be n ≡ returns mask)
    × (lanes (mask * 2 ^ ofs % 256) ≡ (ofs, n))
    × (mask * 2 ^ ofs % 256 ≡ lane_mask n ofs)

pub operation_mask_lem : (n ofs : ℕ) → IsSize n → ofs + n ≤ 8 → (mask : ℕ) × Marks n ofs mask
unfolding load
operation_mask_lem n ofs (inl one) room =
    let marked = lanes_of_table 0x01 1 8 one_lane ofs (omega arith) in
    (0x01, (rw one refl, rw one marked.0, rw one marked.1))
operation_mask_lem n ofs (inr (inl two)) room =
    let marked = lanes_of_table 0x03 2 7 two_lanes ofs (omega arith) in
    (0x03, (rw two refl, rw two marked.0, rw two marked.1))
operation_mask_lem n ofs (inr (inr four)) room =
    let marked = lanes_of_table 0x0F 4 5 four_lanes ofs (omega arith) in
    (0x0F, (rw four refl, rw four marked.0, rw four marked.1))
