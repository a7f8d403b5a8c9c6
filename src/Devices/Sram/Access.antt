-- ===== src/Devices/Sram/Access.antt =====
-- Accesses to the static memory inside its array, and just past it.
use rabbits.Base.{
  ℕ, ◌+◌, ◌<◌, ◌≤◌, ◌≡◌, inl, inr, refl, ◌∙◌, Bool, true, false, List, none, some, returns, faults,
  ◌>>=◌, length, arith, Option-cases,
}
use rabbits.Move.{move, blit, length-blit, move-eq, move-past}
use rabbits.Slave.{Served}
use rabbits.Slave.Protocol.{Contract}
use rabbits.Devices.Lanes.Copy.{Written, Fetched, blit-Written, blit-Fetched}
use rabbits.Devices.Lanes.Agree.{selected, selected-IsRun}
use rabbits.Devices.Sram.{Sram, write, read, rcv_rqst}

-- The array has the size that is tested.
abbrev pub Inv : ℕ → Sram → Type 0
Inv n s = (s.size ≡ n) × (length s.mem ≡ n)

-- A whole line of 8 bytes lies in the memory.
abbrev pub Legal : ℕ → ℕ → ℕ → Bool → Type 0
Legal n ofs be w = (ofs + 8 ≤ n) × (be < 256)

-- With an element selected, both functions are one copy.
write-selected :
    (s : Sram) (ofs be : ℕ) (bytes : List ℕ) {o k : ℕ}
    → ofs ≤ s.size
    → selected be ≡ some (o, k)
    → write s ofs be bytes
      ≡ (move k bytes o s.mem (ofs + o) >>= λ mem'. returns (record s { mem = mem' }, false))
unfolding write selected
write-selected s ofs be bytes low h = ground arith

read-selected :
    (s : Sram) (ofs be : ℕ) (bytes : List ℕ) {o k : ℕ}
    → ofs < s.size
    → selected be ≡ some (o, k)
    → read s ofs be bytes ≡ (move k s.mem (ofs + o) bytes o >>= λ bytes'. returns (bytes', false))
unfolding read selected
read-selected s ofs be bytes low h = ground arith

read_past :
    (s : Sram) (ofs be : ℕ) (bytes : List ℕ)
    → s.size ≤ ofs
    → read s ofs be bytes ≡ returns (bytes, true)
unfolding read
read_past s ofs be bytes h = ground arith

write_unselected :
    (s : Sram) (ofs be : ℕ) (bytes : List ℕ)
    → selected be ≡ none
    → write s ofs be bytes ≡ returns (s, true)
unfolding write selected
write_unselected s ofs be bytes h = ground arith

read_unselected :
    (s : Sram) (ofs be : ℕ) (bytes : List ℕ)
    → selected be ≡ none
    → read s ofs be bytes ≡ returns (bytes, true)
unfolding read selected
read_unselected s ofs be bytes h = ground arith

module _ (n : ℕ) (s : Sram) (ofs be : ℕ) (bytes : List ℕ) (inv : Inv n s)
    (legal : Legal n ofs be true) (width : length bytes ≡ 8) where
  -- A write of selected bytes to a line inside the memory stores exactly the bytes whose enable is
  -- set, without an error.
  write-Written :
      {o k : ℕ}
      → selected be ≡ some (o, k)
      → (s' : Sram) × (write s ofs be bytes ≡ returns (s', false))
        × Inv n s'
        × Written ofs be bytes s.mem s'.mem
  write-Written {o} {k} sel =
      let r = selected-IsRun be legal.1 sel in
      (
        record s { mem = blit k bytes o s.mem (ofs + o) },
        rw
            (
              write-selected s ofs be bytes (omega arith) sel,
              move-eq k bytes o s.mem (ofs + o) (omega arith) (omega arith),
            )
            refl,
        (inv.0, length-blit k bytes o s.mem (ofs + o) ∙ inv.1),
        blit-Written ofs be bytes s.mem r (omega arith),
      )

  -- A read of selected bytes fetches exactly the bytes whose enable is set, without an error.
  read-Fetched :
      {o k : ℕ}
      → selected be ≡ some (o, k)
      → (bytes' : List ℕ) × (read s ofs be bytes ≡ returns (bytes', false))
        × (length bytes' ≡ 8)
        × Fetched ofs be s.mem bytes bytes'
  read-Fetched {o} {k} sel =
      let r = selected-IsRun be legal.1 sel in
      (
        blit k s.mem (ofs + o) bytes o,
        rw
            (
              read-selected s ofs be bytes (omega arith) sel,
              move-eq k s.mem (ofs + o) bytes o (omega arith) (omega arith),
            )
            refl,
        length-blit k s.mem (ofs + o) bytes o ∙ width,
        blit-Fetched ofs be s.mem bytes r (omega arith),
      )

-- Without a selected element an access is an error, whatever its offset, and changes nothing.
unselected_lem :
    (s : Sram) (ofs be : ℕ) (bytes : List ℕ)
    → selected be ≡ none
    → (write s ofs be bytes ≡ returns (s, true)) × (read s ofs be bytes ≡ returns (bytes, true))
unselected_lem s ofs be bytes none_selected =
    (write_unselected s ofs be bytes none_selected, read_unselected s ofs be bytes none_selected)

-- The test of a write lets the offset just past the last byte through, which that of a read does
-- not: there a write of selected bytes leaves the array, and a read is an error.
write_at_end :
    (n : ℕ) (s : Sram) (be : ℕ) (bytes : List ℕ) {o k : ℕ}
    → Inv n s
    → be < 256
    → selected be ≡ some (o, k)
    → (write s n be bytes ≡ faults) × (read s n be bytes ≡ returns (bytes, true))
write_at_end n s be bytes {o} {k} inv small sel =
    let r = selected-IsRun be small sel in
    (
      rw
          (
            write-selected s n be bytes (omega arith) sel,
            move-past k bytes o s.mem (n + o) (omega (arith, r)),
          )
          refl,
      read_past s n be bytes (omega arith),
    )

-- A line inside the memory: with any byte enable an access returns and keeps the array.
Sram-Contract : (n : ℕ) → Contract rcv_rqst (Inv n) (Legal n)
unfolding rcv_rqst
Sram-Contract n = record {
  serves = λ s ofs be bytes w inv legal width. serve s ofs be bytes w inv legal width;
}
  where
    serve :
        (s : Sram) (ofs be : ℕ) (bytes : List ℕ) (w : Bool)
        → Inv n s
        → Legal n ofs be w
        → length bytes ≡ 8
        → (r : Served Sram) × (rcv_rqst s ofs be bytes w ≡ returns r)
          × Inv n r.state
          × (length r.bytes ≡ 8)
    serve s ofs be bytes true inv legal width = elim (Option-cases (selected be)) [
      | inl e ↦ (
        record { state = s; bytes = bytes; error = true },
        rw (write_unselected s ofs be bytes e) refl,
        inv,
        width,
      )
      | inr ((o, k), e) ↦
          let (s', runs, inv', written) = write-Written n s ofs be bytes inv legal width e in
          (record { state = s'; bytes = bytes; error = false }, rw runs refl, inv', width)
    ]
    serve s ofs be bytes false inv legal width = elim (Option-cases (selected be)) [
      | inl e ↦ (
        record { state = s; bytes = bytes; error = true },
        rw (read_unselected s ofs be bytes e) refl,
        inv,
        width,
      )
      | inr ((o, k), e) ↦
          let (bytes', runs, len, fetched) = read-Fetched n s ofs be bytes inv legal width e in
          (record { state = s; bytes = bytes'; error = false }, rw runs refl, inv, len)
    ]
