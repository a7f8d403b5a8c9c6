-- ===== src/Devices/Sem.antt =====
-- sem_device.{h,cpp}: the semaphores. A read of a word takes its lock, a write gives it back.
pub mod Lock
pub mod Word
pub mod Refine
pub mod Exclusion
mod Tests
use rabbits.Base.{
  ℕ, ◌+◌, ◌*◌, ◌%◌, ◌≤◌, ◌<◌, Bool, true, false, List, Option, none, some, ltb, leb, ◌==◌,
  if◌then◌else◌, Outcome, returns, exits, faults, ◌>>=◌, length, replicate,
}
use rabbits.Move.{move}
use rabbits.Bytes.{word_at, set_word_at}
use rabbits.Noc.Packet.{word_mod}
use rabbits.Slave.{Served, Device}
use rabbits.Devices.Lanes.{switch_be}

pub record Sem : Type 0 where
  pub size : ℕ
  pub mem : List ℕ

-- The constructor: 8 bytes more than asked for.
pub new : ℕ → Sem
new size = record { size = (size + 8) % word_mod; mem = replicate ((size + 8) % word_mod) 0 }

-- `*((unsigned long *) (mem + ofs) + offset_dd)`, as a value and as the target of an assignment.
pub load_word : List ℕ → ℕ → Outcome ℕ
load_word mem p = if leb (p + 4) (length mem) then returns (word_at mem p) else faults

pub store_word : List ℕ → ℕ → ℕ → Outcome (List ℕ)
store_word mem p v = if leb (p + 4) (length mem) then returns (set_word_at mem p v) else faults

-- What is stored for a new value of 1 over an old one; 1 over 2 ends the simulation.
pub relock : ℕ → Outcome ℕ
relock oldval = if oldval == 1 then returns 2 else if oldval == 2 then exits else returns 1

-- The branch of `write` for 4 bytes.
pub write_word : Sem → ℕ → ℕ → Outcome Sem
write_word s p newval = do
  v ← (if newval == 1 then (do oldval ← load_word s.mem p; relock oldval) else returns newval)
  mem' ← store_word s.mem p v
  returns (record s { mem = mem' })

pub write : Sem → ℕ → ℕ → List ℕ → Outcome Sem
write s ofs be bytes = if ltb s.size ofs then exits else elim (switch_be be) [
  | none ↦ exits
  | some (i, w) ↦
      if w == 4
      then write_word s (ofs + w * i) (word_at bytes (w * i))
      else (do mem' ← move w bytes (w * i) s.mem (ofs + w * i); returns (record s { mem = mem' }))
]

-- The branch of `read` for 4 bytes: `data` and the memory that it leaves.
pub read_word : Sem → ℕ → ℕ → List ℕ → Outcome (List ℕ × Sem)
read_word s p q bytes = do
  val ← load_word s.mem p
  mem' ← (if val == 0 then store_word s.mem p 1 else returns s.mem)
  returns (set_word_at bytes q (if val == 2 then 1 else val), record s { mem = mem' })

pub read : Sem → ℕ → ℕ → List ℕ → Outcome (List ℕ × Sem)
read s ofs be bytes =
    let zeroed = set_word_at (set_word_at bytes 0 0) 4 0 in
    if ltb s.size ofs then exits else elim (switch_be be) [
      | none ↦ exits
      | some (i, w) ↦
          if w == 4
          then read_word s (ofs + w * i) (w * i) zeroed
          else (do bytes' ← move w s.mem (ofs + w * i) zeroed (w * i); returns (bytes', s))
    ]

pub rcv_rqst : Device Sem
rcv_rqst s ofs be bytes true = do
  s' ← write s ofs be bytes
  returns (record { state = s'; bytes = bytes; error = false })
rcv_rqst s ofs be bytes false = do
  (bytes', s') ← read s ofs be bytes
  returns (record { state = s'; bytes = bytes'; error = false })
