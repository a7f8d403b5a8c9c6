-- ===== src/Devices/Mem.antt =====
-- mem_device.{h,cpp}: the main memory. A burst is answered with a host pointer into it.
pub mod Access
pub mod Contract
pub mod Run
pub mod Transfer
pub mod Picked
mod Tests
use rabbits.Base.{
  ℕ, zero, suc, ◌+◌, ◌*◌, ◌/◌, ◌%◌, Bool, true, false, ◌||◌, List, Option, none, some, ltb, leb,
  ◌==◌, if◌then◌else◌, Outcome, returns, exits, faults, ◌>>=◌, load, store, replicate,
}
use rabbits.Move.{move}
use rabbits.Bytes.{set_word32}
use rabbits.Noc.Packet.{word_mod}
use rabbits.Master.{skip_zeros}
use rabbits.Slave.{Served, Device}
use rabbits.Devices.Lanes.{switch_be}

-- `mem_device`: `base` is the host address of the array.
pub record Mem : Type 0 where
  pub size : ℕ
  pub base : ℕ
  pub mem : List ℕ

pub new : ℕ → ℕ → Mem
new size base = record { size = size; base = base; mem = replicate size 0 }

-- `while (tbe & 1)` of the `default` case, with the byte that it copies: at most 8 rounds.
pub copy_ones : ℕ → ℕ → ℕ → ℕ → List ℕ → List ℕ → Outcome (List ℕ)
copy_ones zero tbe i ofs bytes mem = returns mem
copy_ones (suc fuel) tbe i ofs bytes mem =
    let on = (do
      b ← load bytes i
      mem' ← store mem (ofs + i) b
      copy_ones fuel (tbe / 2) (i + 1) ofs bytes mem') in
    if tbe % 2 == 0 then returns mem else on

-- The `default` case: the first run of lanes, found as `response_thread` finds it.
pub write_run : ℕ → ℕ → List ℕ → List ℕ → Outcome (List ℕ)
write_run ofs be bytes mem = let (tbe, i) = skip_zeros 8 be 0 in copy_ones 8 tbe i ofs bytes mem

-- `write`, after which `bErr` is false whatever happened.
pub write : Mem → ℕ → ℕ → List ℕ → Outcome Mem
write s ofs be bytes =
    if ltb s.size ofs || be == 0
    then returns s
    else if be == 0xFF
    then (do mem' ← move 8 bytes 0 s.mem ofs; returns (record s { mem = mem' }))
    else elim (switch_be be) [
      | none ↦ (do mem' ← write_run ofs be bytes s.mem; returns (record s { mem = mem' }))
      | some (i, w) ↦ (do
        mem' ← move w bytes (w * i) s.mem (ofs + w * i)
        returns (record s { mem = mem' }))
    ]

-- `read` of more than one word, which stores the host address of the data.
pub read_burst : Mem → ℕ → ℕ → List ℕ → List ℕ
read_burst s ofs be bytes =
    if be == 0xF0
    then set_word32 bytes 1 ((s.base + ofs + 4) % word_mod)
    else set_word32 bytes 0 ((s.base + ofs) % word_mod)

-- `read` of one word: what it leaves in `data`, and `bErr`.
pub read_single : Mem → ℕ → ℕ → List ℕ → Outcome (List ℕ × Bool)
read_single s ofs be bytes =
    if leb s.size ofs || be == 0 then returns (bytes, true) else elim (switch_be be) [
      | none ↦ returns (bytes, true)
      | some (i, w) ↦ (do
        bytes' ← move w s.mem (ofs + w * i) bytes (w * i)
        returns (bytes', false))
    ]

pub read : Mem → ℕ → ℕ → ℕ → List ℕ → Outcome (List ℕ × Bool)
read s plen ofs be bytes =
    if ltb 1 plen then returns (read_burst s ofs be bytes, false) else read_single s ofs be bytes

-- `plen` is `m_req.plen`.
pub rcv_rqst : ℕ → Device Mem
rcv_rqst plen s ofs be bytes true = do
  s' ← write s ofs be bytes
  returns (record { state = s'; bytes = bytes; error = false })
rcv_rqst plen s ofs be bytes false = do
  (bytes', err) ← read s plen ofs be bytes
  returns (record { state = s; bytes = bytes'; error = err })
