-- ===== src/Devices/BlockDevice/Control.antt =====
-- sl_block_device.cpp: `control_thread` with the bus master that it drives, and `irq_update_thread`.
-- A thread runs from one `wait` to the next; between them the program may access the registers.
-- The file behind the device is the host's: `Host` has the calls that the device makes on it.
pub mod Busy
pub mod Invariant
pub mod Stores
pub mod Transfer
pub mod Reading
pub mod Loads
pub mod Writing
pub mod Disk
pub mod Errors
mod Tests
use rabbits.Base.{
  ℕ, ◌+◌, ◌*◌, ◌/◌, ◌%◌, Bool, true, false, not, ◌&&◌, List, [], ◌∷◌, ◌++◌, Option, none, some, ltb,
  leb, ◌==◌, if◌then◌else◌, Outcome, returns, exits, faults, ◌>>=◌, length, replicate, bit_and,
  take, drop,
}
use rabbits.Move.{move}
use rabbits.Noc.Packet.{Request, word_mod}
use rabbits.Master.{Received, send_req}
use rabbits.Slave.{Served}
use rabbits.Devices.BlockDevice.Op
use rabbits.Devices.BlockDevice.Status
use rabbits.Devices.BlockDevice.{Registers, rcv_rqst}

-- The calls on the file, whose state is an `H`: `lseek` and `::read` (`none` for a negative value),
-- `lseek` and `::write`, `get_file_size`, and the opening of another file by its name, with whether
-- there is a descriptor afterwards.
pub record Host (H : Type 0) : Type 0 where
  pub read_at : H → ℕ → ℕ → Option (List ℕ)
  pub write_at : H → ℕ → List ℕ → H
  pub file_size : H → ℕ
  pub open_file : H → List ℕ → H × Bool

-- `sl_block_device_master`.
pub record BusMaster : Type 0 where
  pub node_id : ℕ
  pub crt_tid : ℕ
  pub status : ℕ
  pub tr_rdata : List ℕ
  pub tr_nbytes : ℕ

abbrev pub master_cmd_success : ℕ
master_cmd_success = 1

abbrev pub master_cmd_error : ℕ
master_cmd_error = 2

-- Where `control_thread` is: in `wait (ev_op_start)`; behind the `send_req` of a `cmd_write` (of the
-- loop over words, or of the one over bytes) or of a `cmd_read` (of a write, or of the name of a
-- file), with the address, `data_buff`, `transfer_size` and `offset`; or in the loop that never waits.
pub data Location : Type 0 where
  waiting : Location
  storing : Bool → ℕ → List ℕ → ℕ → ℕ → Location
  loading : Bool → ℕ → List ℕ → ℕ → ℕ → Location
  spinning : Location

-- `sl_block_device`. `func_ret` says whether the variable of that name is not 0.
pub record BlockDevice (H : Type 0) : Type 0 where
  pub regs : Registers
  pub at : Location
  pub func_ret : Bool
  pub host : H
  pub bus : BusMaster
  pub irq : Bool

-- What a thread does until it waits: the request that it sends, and the device then.
abbrev pub Turn : Type 0 → Type 0
Turn H = Outcome (Option Request × BlockDevice H)

-- Unsigned division, which traps on 0.
abbrev pub divide : ℕ → ℕ → Outcome ℕ
divide a b = if b == 0 then faults else returns (a / b)

-- The bytes that `::read` puts at the start of a buffer.
abbrev pub fill : List ℕ → List ℕ → Outcome (List ℕ)
fill bytes buf =
    if leb (length bytes) (length buf) then returns (bytes ++ drop (length bytes) buf) else faults

-- `new uint8_t[transfer_size + 4]`.
abbrev pub data_buff : ℕ → List ℕ
data_buff size = replicate ((size + 4) % word_mod) 0

abbrev pub transfer_size : Registers → ℕ
transfer_size r = r.count * r.block_size % word_mod

-- The offset in the file.
abbrev pub position : Registers → ℕ
position r = r.lba * r.block_size % word_mod

abbrev pub raise_irq : Registers → Registers
raise_irq r = if not (r.irqen == 0) then record r { irq = 1; irq_update = true } else r

abbrev pub end_op : Registers → ℕ → Registers
end_op r status = record r { op = Op.noop; status = status }

-- The constructor, for a file that the host has opened, with what the fields that it leaves unset hold.
pub new : {H : Type 0} → Host H → H → ℕ → ℕ → Bool → ℕ → ℕ → Outcome (BlockDevice H)
new host h node_id block_size func_ret tr_rdata tr_nbytes = do
  size ← divide (host.file_size h) block_size
  returns (record {
    regs = record {
      status = Status.idle;
      buffer = 0;
      op = Op.noop;
      lba = 0;
      count = 0;
      size = size;
      block_size = block_size;
      irqen = 0;
      irq = 0;
      op_start = false;
      irq_update = false;
    };
    at = waiting;
    func_ret = func_ret;
    host = h;
    bus = record {
      node_id = node_id;
      crt_tid = 0;
      status = 0;
      tr_rdata = replicate 4 tr_rdata;
      tr_nbytes = tr_nbytes;
    };
    irq = false;
  })

-- `rcv_rsp` of the bus master.
pub rcv_rsp : BusMaster → Received → Outcome BusMaster
rcv_rsp b r = do
  data' ← (if r.write then returns b.tr_rdata else move b.tr_nbytes r.bytes r.start b.tr_rdata 0)
  returns (record b {
    status = if r.error then master_cmd_error else master_cmd_success;
    tr_rdata = data';
    crt_tid = (b.crt_tid + 1) % 256;
  })

module _ {H : Type 0} (host : Host H) where
  -- The end of a read behind its loops, by the last `func_ret`.
  pub finish_stores : BlockDevice H → ℕ → Bool → Turn H
  finish_stores d offset true = returns (
    none,
    record d {
      regs = end_op (raise_irq d.regs) Status.read_success;
      at = waiting;
      func_ret = true;
    },
  )
  finish_stores d offset false = do
    count ← divide offset d.regs.block_size
    returns (
      none,
      record d {
        regs = record (end_op d.regs Status.read_error) { count = count };
        at = waiting;
        func_ret = false;
      },
    )

  -- `cmd_write` up to its `wait`.
  pub cmd_write : BlockDevice H → Bool → ℕ → List ℕ → ℕ → ℕ → Turn H
  cmd_write d words addr buf size offset = do
    q ←
        send_req d.bus.node_id d.bus.crt_tid ((addr + offset) % word_mod) (drop offset buf)
          (if words then 4 else 1) true
    returns (some q, record d { at = storing words addr buf size offset })

  -- The two loops of a read, each from its test on.
  pub store_bytes : BlockDevice H → ℕ → List ℕ → ℕ → ℕ → Bool → Turn H
  store_bytes d addr buf size offset ok =
      if ltb offset size then cmd_write d false addr buf size offset else finish_stores d offset ok

  pub store_words : BlockDevice H → ℕ → List ℕ → ℕ → ℕ → Bool → Turn H
  store_words d addr buf size offset ok =
      if ltb offset (bit_and size 0xFFFFFFFC)
      then cmd_write d true addr buf size offset
      else store_bytes d addr buf size offset ok

  -- What a read does with what `::read` returned.
  pub store_all : BlockDevice H → ℕ → Option (List ℕ) → Turn H
  store_all d size none = returns (
    none,
    record d {
      regs = record (end_op d.regs Status.read_error) { count = 0 };
      at = waiting;
      func_ret = true;
    },
  )
  store_all d size (some bytes) = do
    buf ← fill bytes (data_buff size)
    count ← divide (length bytes) d.regs.block_size
    let d' : BlockDevice H = record d { regs = record d.regs { count = count } }
    (if length bytes == 0
        then returns (
          none,
          record d' {
            regs = end_op (raise_irq d'.regs) Status.read_success;
            at = waiting;
            func_ret = false;
          },
        )
        else store_words d' d.regs.buffer buf (length bytes) 0 true)

  -- The end of a write, and of the name of a file, behind the loop.
  pub finish_loads : BlockDevice H → Bool → List ℕ → ℕ → Bool → Turn H
  finish_loads d naming buf size false =
      returns
        (none, record d { regs = end_op d.regs Status.write_error; at = waiting; func_ret = false })
  finish_loads d false buf size true = do
    let h' : H = host.write_at d.host (position d.regs) (take size buf)
    blocks ← divide (host.file_size h') d.regs.block_size
    returns (
      none,
      record d {
        regs = end_op (raise_irq (record d.regs { size = blocks })) Status.write_success;
        host = h';
        at = waiting;
        func_ret = true;
      },
    )
  finish_loads d true buf size true = do
    let (h', opened) = host.open_file d.host buf
    blocks ← (if opened then divide (host.file_size h') d.regs.block_size else returns d.regs.size)
    returns (
      none,
      record d {
        regs =
            end_op (record d.regs { size = blocks })
              (if opened then Status.write_success else Status.write_error);
        host = h';
        at = waiting;
        func_ret = true;
      },
    )

  -- `cmd_read` up to its `wait`.
  pub cmd_read : BlockDevice H → Bool → ℕ → List ℕ → ℕ → ℕ → Turn H
  cmd_read d naming addr buf size offset = do
    q ← send_req d.bus.node_id d.bus.crt_tid ((addr + offset) % word_mod) [] 4 false
    returns (
      some q,
      record d {
        bus = record d.bus { tr_nbytes = 4; tr_rdata = replicate 4 0 };
        at = loading naming addr buf size offset;
      },
    )

  -- The loop that reads from memory, from its test on.
  pub load_words : BlockDevice H → Bool → ℕ → List ℕ → ℕ → ℕ → Bool → Turn H
  load_words d naming addr buf size offset ok =
      if ltb offset size
      then cmd_read d naming addr buf size offset
      else finish_loads d naming buf size ok

  -- The `switch` of `control_thread`, by the operation.
  pub dispatch : BlockDevice H → ℕ → Turn H
  dispatch d op =
      let busy = record d { regs = record d.regs { status = Status.busy } } in
      let size = transfer_size d.regs in
      if op == Op.noop
      then returns (none, record d { at = waiting })
      else if op == Op.read
      then store_all busy size (host.read_at d.host (position d.regs) size)
      else if op == Op.write
      then load_words busy false d.regs.buffer (data_buff size) size 0 d.func_ret
      else if op == Op.file_name
      then load_words busy true d.regs.buffer (data_buff size) size 0 d.func_ret
      else returns (none, record d { at = spinning })

  -- `control_thread` once `ev_op_start` has woken it.
  pub run_control : BlockDevice H → Location → Bool → Turn H
  run_control d waiting true =
      dispatch (record d { regs = record d.regs { op_start = false } }) d.regs.op
  run_control d place start = returns (none, d)

  -- `control_thread` behind the `wait` of a command, by where it is and whether the command succeeded.
  pub resume : BlockDevice H → Location → Bool → Turn H
  resume d (storing true addr buf size offset) true =
      store_words d addr buf size ((offset + 4) % word_mod) true
  resume d (storing true addr buf size offset) false = store_bytes d addr buf size offset false
  resume d (storing false addr buf size offset) true =
      store_bytes d addr buf size ((offset + 1) % word_mod) true
  resume d (storing false addr buf size offset) false = finish_stores d offset false
  resume d (loading naming addr buf size offset) true = do
    buf' ← move 4 d.bus.tr_rdata 0 buf offset
    load_words d naming addr buf' size ((offset + 4) % word_mod) true
  resume d (loading naming addr buf size offset) false = do
    buf' ← move 4 d.bus.tr_rdata 0 buf offset
    finish_loads d naming buf' size false
  resume d place ok = returns (none, d)

  pub respond : BlockDevice H → Received → Turn H
  respond d r = do
    bus' ← rcv_rsp d.bus r
    resume (record d { bus = bus' }) d.at (bus'.status == master_cmd_success)

  -- One round of `irq_update_thread`.
  pub run_irq : BlockDevice H → Turn H
  run_irq d =
      if d.regs.irq_update
      then returns
          (none, record d { regs = record d.regs { irq_update = false }; irq = d.regs.irq == 1 })
      else returns (none, d)

  -- A notification that finds its thread elsewhere is lost.
  pub hear : Location → Registers → Registers
  hear waiting r = r
  hear place r = record r { op_start = false }

  pub access : BlockDevice H → ℕ → ℕ → List ℕ → Bool → Turn H
  access d ofs be bytes write = do
    s ← rcv_rqst d.regs ofs be bytes write
    returns (none, record d { regs = hear d.at s.state })

-- What happens to the device: an access to its registers, a response from the network, or a run of one
-- of its threads.
pub data Event : Type 0 where
  register : ℕ → ℕ → List ℕ → Bool → Event
  response : Received → Event
  control : Event
  update : Event

module _ {H : Type 0} (host : Host H) where
  pub act : BlockDevice H → Event → Turn H
  act d (register ofs be bytes write) = access host d ofs be bytes write
  act d (response r) = respond host d r
  act d control = run_control host d d.at d.regs.op_start
  act d update = run_irq host d

  -- Threads give way only in `wait`: once this thread never waits no event comes any more, and a list
  -- of events that has one there is not a run of the program. It is given no result, by `exits`.
  pub step_at : Location → BlockDevice H → Event → Turn H
  step_at spinning d e = exits
  step_at place d e = act d e

  -- Events in any order, with all the requests.
  pub run : BlockDevice H → List Event → Outcome (List (Option Request) × BlockDevice H)
  run d [] = returns ([], d)
  run d (e ∷ es) = do (q, d') ← step_at d.at d e; (qs, d'') ← run d' es; returns (q ∷ qs, d'')
