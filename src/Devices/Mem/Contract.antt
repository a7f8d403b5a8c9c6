-- ===== src/Devices/Mem/Contract.antt =====
-- The main memory as a device of the slave's thread.
use rabbits.Base.{
  ℕ, ◌+◌, ◌%◌, ◌<◌, ◌≤◌, ◌≡◌, inl, inr, refl, ◌∙◌, Bool, true, false, List, ltb, returns, length,
  arith, Option-cases, Bool-cases,
}
use native.Mathlib.Decide.{ℕ_discrete}
use rabbits.Move.{blit, length-blit}
use rabbits.Bytes.{length-set_word32}
use rabbits.Noc.Packet.{word_mod}
use rabbits.Master.{lanes}
use rabbits.Slave.{Served}
use rabbits.Slave.Protocol.{Contract}
use rabbits.Devices.Lanes.Agree.{selected}
use rabbits.Devices.Mem.{Mem, write, read_single, read_burst, read, rcv_rqst}
use rabbits.Devices.Mem.Access.{Inv, Legal, read-Fetched_single, read_unselected, write_run_lem}

write_none : (s : Mem) (ofs : ℕ) (bytes : List ℕ) → write s ofs 0 bytes ≡ returns s
unfolding write
write_none s ofs bytes = ground arith

length-read_burst :
    (s : Mem) (ofs be : ℕ) (bytes : List ℕ) → length (read_burst s ofs be bytes) ≡ length bytes
unfolding read_burst
length-read_burst s ofs be bytes = ground (
  arith,
  length-set_word32 bytes 1 ((s.base + ofs + 4) % word_mod),
  length-set_word32 bytes 0 ((s.base + ofs) % word_mod),
)

read_single-returns :
    (n : ℕ) (s : Mem) (ofs be : ℕ) (bytes : List ℕ)
    → Inv n s
    → ofs + 8 ≤ n
    → be < 256
    → length bytes ≡ 8
    → (bytes' : List ℕ) × (err : Bool) × (read_single s ofs be bytes ≡ returns (bytes', err))
      × (length bytes' ≡ 8)
read_single-returns n s ofs be bytes inv room small width = elim (Option-cases (selected be)) [
  | inl e ↦ (bytes, true, read_unselected s ofs be bytes e, width)
  | inr ((o, k), e) ↦
      let (line, part) = read-Fetched_single n s ofs be bytes inv room small width e in
      elim (ℕ_discrete be 0xFF) [
        | yes all ↦ (bytes, true, line all, width)
        | no some_of ↦ let (bytes', runs, len, fetched) = part some_of in (bytes', false, runs, len)
      ]
]

-- An access to a line inside the memory returns and keeps the array, whatever its byte enables and
-- however many words the request is long.
pub Mem-Contract : (plen n : ℕ) → Contract (rcv_rqst plen) (Inv n) (Legal n)
unfolding rcv_rqst read
Mem-Contract plen n = record {
  serves = λ s ofs be bytes w inv legal width. serve s ofs be bytes w inv legal width;
}
  where
    serve :
        (s : Mem) (ofs be : ℕ) (bytes : List ℕ) (w : Bool)
        → Inv n s
        → Legal n ofs be w
        → length bytes ≡ 8
        → (r : Served Mem) × (rcv_rqst plen s ofs be bytes w ≡ returns r)
          × Inv n r.state
          × (length r.bytes ≡ 8)
    serve s ofs be bytes true inv legal width = elim (ℕ_discrete be 0) [
      | yes none_marked ↦ (
        record { state = s; bytes = bytes; error = false },
        rw (none_marked, write_none s ofs bytes) refl,
        inv,
        width,
      )
      | no marked ↦
          let mem' : List ℕ = blit (lanes be).1 bytes (lanes be).0 s.mem (ofs + (lanes be).0) in
          (
            record { state = record s { mem = mem' }; bytes = bytes; error = false },
            rw (write_run_lem n s ofs be bytes inv legal.0 legal.1 marked width) refl,
            (inv.0, length-blit (lanes be).1 bytes (lanes be).0 s.mem (ofs + (lanes be).0) ∙ inv.1),
            width,
          )
    ]
    serve s ofs be bytes false inv legal width = elim (Bool-cases (ltb 1 plen)) [
      | inl burst ↦ (
        record { state = s; bytes = read_burst s ofs be bytes; error = false },
        rw burst refl,
        inv,
        length-read_burst s ofs be bytes ∙ width,
      )
      | inr single ↦
          let (bytes', err, runs, len) =
            read_single-returns n s ofs be bytes inv legal.0 legal.1 width in
          (record { state = s; bytes = bytes'; error = err }, rw (single, runs) refl, inv, len)
    ]
