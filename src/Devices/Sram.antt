-- ===== src/Devices/Sram.antt =====
-- sram_device.{h,cpp}: a static memory.
pub mod Access
mod Tests
use rabbits.Base.{
  ℕ, ◌+◌, ◌*◌, Bool, true, false, ◌||◌, List, Option, none, some, ltb, leb, ◌==◌, if◌then◌else◌,
  Outcome, returns, exits, faults, ◌>>=◌, replicate,
}
use rabbits.Move.{move}
use rabbits.Slave.{Served, Device}
use rabbits.Devices.Lanes.{switch_be}

pub record Sram : Type 0 where
  pub size : ℕ
  pub mem : List ℕ

pub new : ℕ → Sram
new size = record { size = size; mem = replicate size 0 }

-- `write`: the memory, and `bErr`. The `switch` has one more case than the shared one.
pub write : Sram → ℕ → ℕ → List ℕ → Outcome (Sram × Bool)
write s ofs be bytes =
    if ltb s.size ofs || be == 0
    then returns (s, true)
    else if be == 0xFF
    then (do mem' ← move 8 bytes 0 s.mem ofs; returns (record s { mem = mem' }, false))
    else elim (switch_be be) [
      | none ↦ returns (s, true)
      | some (loffs, lwid) ↦ (do
        mem' ← move lwid bytes (lwid * loffs) s.mem (ofs + lwid * loffs)
        returns (record s { mem = mem' }, false))
    ]

-- `read`: what it leaves in `data`, and `bErr`.
pub read : Sram → ℕ → ℕ → List ℕ → Outcome (List ℕ × Bool)
read s ofs be bytes =
    if leb s.size ofs || be == 0
    then returns (bytes, true)
    else if be == 0xFF
    then (do bytes' ← move 8 s.mem ofs bytes 0; returns (bytes', false))
    else elim (switch_be be) [
      | none ↦ returns (bytes, true)
      | some (loffs, lwid) ↦ (do
        bytes' ← move lwid s.mem (ofs + lwid * loffs) bytes (lwid * loffs)
        returns (bytes', false))
    ]

pub rcv_rqst : Device Sram
rcv_rqst s ofs be bytes true = do
  (s', err) ← write s ofs be bytes
  returns (record { state = s'; bytes = bytes; error = err })
rcv_rqst s ofs be bytes false = do
  (bytes', err) ← read s ofs be bytes
  returns (record { state = s; bytes = bytes'; error = err })
