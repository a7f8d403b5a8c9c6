-- ===== src/Devices/Lanes/Copy.antt =====
-- Copies of the bytes that a byte enable selects, between a packet and a line of a memory.
use rabbits.Base.{
  ℕ, ◌+◌, ◌-◌, ◌<◌, ◌≤◌, ◌≡◌, ap, arith, ◌&&◌, List, ltb, leb, if◌then◌else◌, length, get_or,
}
use native.Mathlib.Decide.{dec_lt}
use rabbits.Move.{blit, get_or-blit}
use rabbits.Devices.Lanes.Agree.{is_set, IsRun}

-- What a write leaves at each place of the memory, and a read at each place of the packet: the
-- byte enables choose between the new byte and the old one.
abbrev pub Written : ℕ → ℕ → List ℕ → List ℕ → List ℕ → Type 0
Written ofs be bytes old new =
    (j : ℕ)
    → get_or new j 0 ≡ (
        if leb ofs j && ltb j (ofs + 8) && is_set be (j - ofs)
        then get_or bytes (j - ofs) 0
        else get_or old j 0)

abbrev pub Fetched : ℕ → ℕ → List ℕ → List ℕ → List ℕ → Type 0
Fetched ofs be mem old new =
    (k : ℕ)
    → k < 8
    → get_or new k 0 ≡ (if is_set be k then get_or mem (ofs + k) 0 else get_or old k 0)

module _ (ofs be : ℕ) {o n : ℕ} where
  pub blit-Written :
      (bytes mem : List ℕ)
      → IsRun be o n
      → ofs + 8 ≤ length mem
      → Written ofs be bytes mem (blit n bytes o mem (ofs + o))
  blit-Written bytes mem r room j = elim (dec_lt j ofs) [
    | yes before ↦ ground (arith, r, get_or-blit n bytes o mem (ofs + o) j)
    | no from ↦ elim (dec_lt j (ofs + 8)) [
      | yes inside ↦ ground (
        arith,
        r,
        get_or-blit n bytes o mem (ofs + o) j,
        r.bits (j - ofs) (omega arith),
        λ (le : ofs + o ≤ j). ap (λ (k : ℕ). get_or bytes k 0) (source j le),
      )
      | no after ↦ ground (arith, r, get_or-blit n bytes o mem (ofs + o) j)
    ]
  ]
    where
      source : (j : ℕ) → ofs + o ≤ j → o + (j - (ofs + o)) ≡ j - ofs
      source j le = omega arith

  pub blit-Fetched :
      (mem old : List ℕ)
      → IsRun be o n
      → length old ≡ 8
      → Fetched ofs be mem old (blit n mem (ofs + o) old o)
  blit-Fetched mem old r width k below = ground (
    arith,
    r,
    get_or-blit n mem (ofs + o) old o k,
    r.bits k below,
    λ (le : o ≤ k). ap (λ (i : ℕ). get_or mem i 0) (source k le),
  )
    where
      source : (k : ℕ) → o ≤ k → ofs + o + (k - o) ≡ ofs + k
      source k le = omega arith
