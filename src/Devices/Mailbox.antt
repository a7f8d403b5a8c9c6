-- ===== src/Devices/Mailbox.antt =====
-- sl_mailbox_device.{h,cpp}: a bank of mailboxes with an interrupt line each, and ten global
-- registers.
pub mod Irq
pub mod Contract
pub mod Registers
mod Tests
use rabbits.Base.{
  ℕ, ◌+◌, ◌-◌, ◌/◌, ◌%◌, Bool, true, false, List, ltb, leb, ◌==◌, if◌then◌else◌, Outcome, returns,
  exits, faults, ◌>>=◌, load, store, replicate,
}
use rabbits.Bytes.{word32, set_word32, lane, reg_index}
use rabbits.Slave.{Served, Device}

abbrev pub global_start_addr : ℕ
global_start_addr = 0x1000

abbrev pub global_no_regs : ℕ
global_no_regs = 10

abbrev pub clear : ℕ
clear = 0

abbrev pub new_message : ℕ
new_message = 1

-- `sl_mailbox_device`; a fixed `nb_mailbox` is the length of the arrays.
pub record Mailbox : Type 0 where
  pub command : List ℕ
  pub message : List ℕ
  pub status : List ℕ
  pub reserved : List ℕ
  pub global_reg : List ℕ
  pub irq : List Bool

pub new : ℕ → Mailbox
new nb_mailbox = record {
  command = replicate nb_mailbox 0;
  message = replicate nb_mailbox 0;
  status = replicate nb_mailbox 0;
  reserved = replicate nb_mailbox 0;
  global_reg = replicate global_no_regs 0;
  irq = replicate nb_mailbox false;
}

-- The `switch` of `write` on the register `reg` of one mailbox.
pub write_local : Mailbox → ℕ → ℕ → ℕ → Outcome Mailbox
write_local s mailbox reg value =
    if reg == 0
    then (do
      command' ← store s.command mailbox value
      status' ← store s.status mailbox new_message
      irq' ← store s.irq mailbox true
      returns (record s { command = command'; status = status'; irq = irq' }))
    else if reg == 1
    then (do message' ← store s.message mailbox value; returns (record s { message = message' }))
    else if reg == 2
    then (do
      reserved' ← store s.reserved mailbox value
      returns (record s { reserved = reserved' }))
    else if reg == 3
    then (do
      status' ← store s.status mailbox clear
      irq' ← store s.irq mailbox false
      returns (record s { status = status'; irq = irq' }))
    else exits

pub write_global : Mailbox → ℕ → ℕ → Outcome Mailbox
write_global s idx value =
    if leb global_no_regs idx
    then exits
    else (do regs ← store s.global_reg idx value; returns (record s { global_reg = regs }))

-- `write`; `bErr` ends the simulation.
pub write : Mailbox → ℕ → ℕ → List ℕ → Outcome Mailbox
write s ofs be bytes =
    let idx = reg_index ofs be in
    let value = word32 bytes (lane be) in
    if leb global_start_addr ofs
    then write_global s (idx - global_start_addr / 4) value
    else write_local s (idx / 4) (idx % 4) value

-- The `switch` of `read`.
pub read_local : Mailbox → ℕ → ℕ → Outcome ℕ
read_local s mailbox reg =
    if reg == 0
    then load s.command mailbox
    else if reg == 1
    then load s.message mailbox
    else if reg == 2
    then load s.reserved mailbox
    else if reg == 3
    then load s.status mailbox
    else exits

pub read_global : Mailbox → ℕ → Outcome ℕ
read_global s idx = if leb global_no_regs idx then exits else load s.global_reg idx

-- The value that `read` leaves in `*val`.
pub read : Mailbox → ℕ → ℕ → Outcome ℕ
read s ofs be =
    let idx = reg_index ofs be in
    if leb global_start_addr ofs
    then read_global s (idx - global_start_addr / 4)
    else read_local s (idx / 4) (idx % 4)

pub rcv_rqst : Device Mailbox
rcv_rqst s ofs be bytes true = do
  s' ← write s ofs be bytes
  returns (record { state = s'; bytes = bytes; error = false })
rcv_rqst s ofs be bytes false = do
  v ← read s ofs be
  returns (record { state = s; bytes = set_word32 bytes (lane be) v; error = false })
