-- ===== src/Devices/Aicu/Edges.antt =====
-- The edges of the inputs, bit by bit.
use rabbits.Base.{
  ℕ, zero, suc, ◌+◌, ◌^◌, ◌<◌, ◌≤◌, ◌≡◌, ap, ◌&&◌, ltb, leb, ◌==◌, if◌then◌else◌, arith,
}
use rabbits.Bits.{
  bit, complement, bit-lt, bit-bit_and, bit-bit_or, bit-two_pow, bit-complement, bit_and-le,
  bit_or-lt, two_pow-lt,
}
use native.Mathlib.Decide.{ℕ_discrete}
use rabbits.Devices.Aicu.{Edge, rose, fell, steady, apply_edge, scan_edges}

-- What an edge makes of a status bit.
abbrev pub edge_bit : Edge → ℕ → ℕ
edge_bit rose old = 1
edge_bit fell old = 0
edge_bit steady old = old

bit-apply_edge :
    (e : Edge) (j k stat : ℕ)
    → j < 32
    → k < 32
    → bit (apply_edge e j stat) k ≡ (if j == k then edge_bit e (bit stat k) else bit stat k)
unfolding apply_edge
bit-apply_edge rose j k stat hj hk =
    ground (arith, bit-bit_or k stat (2 ^ j), bit-two_pow k j, bit-lt k stat)
bit-apply_edge fell j k stat hj hk = ground (
  arith,
  bit-bit_and k stat (complement 32 (2 ^ j)),
  bit-complement k 32 (2 ^ j) hk (two_pow-lt j 32 hj),
  bit-two_pow k j,
  bit-lt k stat,
)
bit-apply_edge steady j k stat hj hk = ground arith

pub bit-scan_edges :
    (edge : ℕ → Edge) (n j k stat : ℕ)
    → j + n ≤ 32
    → k < 32
    → bit (scan_edges edge n j stat) k
      ≡ (if leb j k && ltb k (j + n) then edge_bit (edge k) (bit stat k) else bit stat k)
unfolding scan_edges
bit-scan_edges edge zero j k stat hj hk = ground arith
bit-scan_edges edge (suc n) j k stat hj hk = elim (ℕ_discrete j k) [
  | yes here ↦ ground (
    arith,
    bit-scan_edges edge n (j + 1) k (apply_edge (edge j) j stat) (omega arith) hk,
    bit-apply_edge (edge j) j k stat (omega arith) hk,
    ap edge here,
  )
  | no there ↦ ground (
    arith,
    bit-scan_edges edge n (j + 1) k (apply_edge (edge j) j stat) (omega arith) hk,
    bit-apply_edge (edge j) j k stat (omega arith) hk,
  )
]

apply_edge-lt :
    (e : Edge) (w j stat : ℕ) → j < w → w ≤ 32 → stat < 2 ^ w → apply_edge e j stat < 2 ^ w
unfolding apply_edge
apply_edge-lt rose w j stat hj hw small = bit_or-lt w stat (2 ^ j) small (two_pow-lt j w hj)
apply_edge-lt fell w j stat hj hw small = omega (arith, bit_and-le stat (complement 32 (2 ^ j)))
apply_edge-lt steady w j stat hj hw small = small

pub scan_edges-lt :
    (edge : ℕ → Edge) (n j w stat : ℕ)
    → j + n ≤ w
    → w ≤ 32
    → stat < 2 ^ w
    → scan_edges edge n j stat < 2 ^ w
unfolding scan_edges
scan_edges-lt edge zero j w stat hj hw small = small
scan_edges-lt edge (suc n) j w stat hj hw small =
    scan_edges-lt edge n (j + 1) w (apply_edge (edge j) j stat) (omega arith) hw
      (apply_edge-lt (edge j) w j stat (omega arith) hw small)
