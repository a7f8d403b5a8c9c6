-- ===== src/Devices/BlockDevice.antt =====
-- sl_block_device.{h,cpp}: the registers of a disk over a file of the host, and how a program reads and
-- writes them.
pub mod Op
pub mod Status
pub mod Control
use rabbits.Base.{
  ℕ, Bool, true, false, List, Option, none, some, ◌==◌, if◌then◌else◌, Outcome, returns,
}
use rabbits.Bytes.{word32, set_word32, lane, reg_index}
use rabbits.Slave.{Served, Device}
use rabbits.Devices.BlockDevice.Status

-- `sl_block_device_CSregs`, and the two events, each notified and not yet seen by its thread.
pub record Registers : Type 0 where
  pub status : ℕ
  pub buffer : ℕ
  pub op : ℕ
  pub lba : ℕ
  pub count : ℕ
  pub size : ℕ
  pub block_size : ℕ
  pub irqen : ℕ
  pub irq : ℕ
  pub op_start : Bool
  pub irq_update : Bool

-- The `switch` of `write`: a register that a program does not write is only reported.
unfoldable pub write_reg : Registers → ℕ → ℕ → Registers
write_reg r reg value =
    if reg == 0
    then record r { buffer = value }
    else if reg == 1
    then record r { lba = value }
    else if reg == 2
    then record r { count = value }
    else if reg == 3
    then (if r.status == Status.idle then record r { op = value; op_start = true } else r)
    else if reg == 5
    then record r { irqen = value; irq_update = true }
    else r

-- A read of the status, once the device is not busy, makes it idle and takes the interrupt back.
unfoldable pub read_status : Registers → Registers
read_status r =
    if r.status == Status.busy
    then r
    else record r { status = Status.idle; irq = 0; irq_update = true }

-- The `switch` of `read`: the value and what the registers are then; `none` leaves `*val` as it is.
unfoldable pub read_reg : Registers → ℕ → Option (ℕ × Registers)
unfolding read_status
read_reg r reg =
    if reg == 0
    then some (r.buffer, r)
    else if reg == 1
    then some (r.lba, r)
    else if reg == 2
    then some (r.count, r)
    else if reg == 3
    then some (r.op, r)
    else if reg == 4
    then some (r.status, read_status r)
    else if reg == 5
    then some (r.irqen, r)
    else if reg == 6
    then some (r.size, r)
    else if reg == 7
    then some (r.block_size, r)
    else none

-- What `read` leaves of the registers and in `data`.
pub answer : Registers → List ℕ → ℕ → Option (ℕ × Registers) → Served Registers
answer r bytes i none = record { state = r; bytes = bytes; error = false }
answer r bytes i (some (v, r')) = record { state = r'; bytes = set_word32 bytes i v; error = false }

pub rcv_rqst : Device Registers
unfolding write_reg read_reg
rcv_rqst r ofs be bytes true = returns (record {
  state = write_reg r (reg_index ofs be) (word32 bytes (lane be));
  bytes = bytes;
  error = false;
})
rcv_rqst r ofs be bytes false = returns (answer r bytes (lane be) (read_reg r (reg_index ofs be)))
