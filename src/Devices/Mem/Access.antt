-- ===== src/Devices/Mem/Access.antt =====
-- Accesses to the main memory: which bytes a write stores and a read fetches.
use rabbits.Base.{
  ℕ, ◌+◌, ◌<◌, ◌≤◌, ◌≡◌, ◌≢◌, inl, inr, refl, ◌∙◌, Bool, true, false, List, none, some, returns,
  ◌>>=◌, length, arith, Option-cases,
}
use rabbits.Move.{move, blit, length-blit, move-eq}
use rabbits.Master.{lanes}
use rabbits.Devices.Lanes.{switch_be}
use rabbits.Devices.Lanes.Copy.{Fetched, blit-Fetched}
use rabbits.Devices.Lanes.Agree.{selected, selected-IsRun}
use rabbits.Devices.Mem.{Mem, write_run, write, read_single}
use rabbits.Devices.Mem.Run.{run_fits, write_run-blit}

-- The array has the size that is tested.
abbrev pub Inv : ℕ → Mem → Type 0
Inv n s = (s.size ≡ n) × (length s.mem ≡ n)

-- A whole line of 8 bytes lies in the memory.
abbrev pub Legal : ℕ → ℕ → ℕ → Bool → Type 0
Legal n ofs be w = (ofs + 8 ≤ n) × (be < 256)

write-selected :
    (s : Mem) (ofs be : ℕ) (bytes : List ℕ) {o k : ℕ}
    → ofs ≤ s.size
    → selected be ≡ some (o, k)
    → write s ofs be bytes
      ≡ (move k bytes o s.mem (ofs + o) >>= λ mem'. returns (record s { mem = mem' }))
unfolding write selected
write-selected s ofs be bytes low h = ground arith

write_default :
    (s : Mem) (ofs be : ℕ) (bytes : List ℕ)
    → ofs ≤ s.size
    → be ≢ 0
    → selected be ≡ none
    → write s ofs be bytes
      ≡ (write_run ofs be bytes s.mem >>= λ mem'. returns (record s { mem = mem' }))
unfolding write selected
write_default s ofs be bytes low some_lane h = ground arith

-- A write of lanes to a line inside the memory is one copy of the run that `response_thread` finds,
-- whichever case of the `switch` it takes.
pub write_run_lem :
    (n : ℕ) (s : Mem) (ofs be : ℕ) (bytes : List ℕ)
    → Inv n s
    → ofs + 8 ≤ n
    → be < 256
    → be ≢ 0
    → length bytes ≡ 8
    → write s ofs be bytes
      ≡ returns (record s { mem = blit (lanes be).1 bytes (lanes be).0 s.mem (ofs + (lanes be).0) })
write_run_lem n s ofs be bytes inv room small some_lane width = elim (Option-cases (selected be)) [
  | inl e ↦
      let fits = run_fits be small some_lane in
      rw
        (
          write_default s ofs be bytes (omega arith) some_lane e,
          write_run-blit ofs be bytes s.mem some_lane (omega arith) (omega arith),
        )
        refl
  | inr ((o, k), e) ↦
      let r = selected-IsRun be small e in
      rw
        (
          r.run,
          write-selected s ofs be bytes (omega arith) e,
          move-eq k bytes o s.mem (ofs + o) (omega (arith, r)) (omega (arith, r)),
        )
        refl
]

read-selected :
    (s : Mem) (ofs be : ℕ) (bytes : List ℕ) {o k : ℕ}
    → ofs < s.size
    → be ≢ 0xFF
    → selected be ≡ some (o, k)
    → read_single s ofs be bytes
      ≡ (move k s.mem (ofs + o) bytes o >>= λ bytes'. returns (bytes', false))
unfolding read_single selected
read-selected s ofs be bytes low some_of h = ground arith

read_line :
    (s : Mem) (ofs : ℕ) (bytes : List ℕ) → read_single s ofs 0xFF bytes ≡ returns (bytes, true)
unfolding read_single switch_be
read_line s ofs bytes = ground arith

pub read_unselected :
    (s : Mem) (ofs be : ℕ) (bytes : List ℕ)
    → selected be ≡ none
    → read_single s ofs be bytes ≡ returns (bytes, true)
unfolding read_single selected
read_unselected s ofs be bytes h = ground arith

-- A read of one word of selected bytes in a line inside the memory fetches exactly those bytes; the
-- enable of all 8 bytes, which a write takes, is an error of a read.
pub read-Fetched_single :
    (n : ℕ) (s : Mem) (ofs be : ℕ) (bytes : List ℕ) {o k : ℕ}
    → Inv n s
    → ofs + 8 ≤ n
    → be < 256
    → length bytes ≡ 8
    → selected be ≡ some (o, k)
    → (be ≡ 0xFF → read_single s ofs be bytes ≡ returns (bytes, true))
      × (be ≢ 0xFF
          → (bytes' : List ℕ) × (read_single s ofs be bytes ≡ returns (bytes', false))
            × (length bytes' ≡ 8)
            × Fetched ofs be s.mem bytes bytes')
read-Fetched_single n s ofs be bytes {o} {k} inv room small width sel =
    let r = selected-IsRun be small sel in
    (
      λ all. rw all (read_line s ofs bytes),
      λ some_of. (
        blit k s.mem (ofs + o) bytes o,
        rw
            (
              read-selected s ofs be bytes (omega arith) some_of sel,
              move-eq k s.mem (ofs + o) bytes o (omega (arith, r)) (omega (arith, r)),
            )
            refl,
        length-blit k s.mem (ofs + o) bytes o ∙ width,
        blit-Fetched ofs be s.mem bytes r (omega arith),
      ),
    )
