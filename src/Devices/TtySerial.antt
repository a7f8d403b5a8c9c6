-- ===== src/Devices/TtySerial.antt =====
-- tty_serial_device.{h,cpp}: a serial terminal. Characters that arrive wait in a ring for a read.
-- The pipes to the terminal are what arrives and what is sent.
pub mod Buffer
pub mod Irq
mod Tests
use rabbits.Base.{
  ℕ, ◌+◌, ◌-◌, ◌*◌, ◌/◌, ◌%◌, ◌^◌, Bool, true, false, not, List, [], ◌∷◌, ◌++◌, ltb, ◌==◌,
  if◌then◌else◌, Outcome, returns, exits, faults, ◌>>=◌, load, store, get_or, replicate, bit_and,
  bit_or,
}
use rabbits.Bits.{complement}
use rabbits.Bytes.{word32, set_word32, lane, reg_index}
use rabbits.Slave.{Served, Device}
use rabbits.Noc.Queue.{Attempt, done, waits}

abbrev pub tty_int_read : ℕ
tty_int_read = 1

abbrev pub read_buf_size : ℕ
read_buf_size = 256

-- `tty_state`, the characters sent to the terminal, and the interrupt line.
pub record Tty : Type 0 where
  pub int_enabled : ℕ
  pub int_level : ℕ
  pub read_buf : List ℕ
  pub read_pos : ℕ
  pub read_count : ℕ
  pub sent : List ℕ
  pub irq_line : Bool

pub new : Tty
new = record {
  int_enabled = 0;
  int_level = 0;
  read_buf = replicate read_buf_size 0;
  read_pos = 0;
  read_count = 0;
  sent = [];
  irq_line = false;
}

-- What `read_thread` does with a character: it waits while the ring is full.
pub receive : Tty → ℕ → Outcome (Attempt Tty)
receive t ch = if t.read_count == read_buf_size then returns waits else do
  buf' ← store t.read_buf ((t.read_pos + t.read_count) % read_buf_size) ch
  returns (
      done (record t {
        read_buf = buf';
        read_count = t.read_count + 1;
        int_level = bit_or t.int_level tty_int_read;
      }))

-- One round of `irq_update_thread`.
pub irq_update : Tty → Tty
irq_update t = record t { irq_line = not (bit_and t.int_level t.int_enabled == 0) }

pub write : Tty → ℕ → ℕ → List ℕ → Outcome Tty
write t ofs be bytes =
    let idx = reg_index ofs be in
    let value = word32 bytes (lane be) in
    if idx == 0
    then returns (record t { sent = t.sent ++ (get_or bytes 0 0 ∷ []) })
    else if idx == 1
    then returns (record t { int_enabled = value })
    else exits

-- The state after a read of the character register.
pub take : Tty → Tty
take t =
    let count' = t.read_count - 1 in
    let pos' = if t.read_pos + 1 == read_buf_size then 0 else t.read_pos + 1 in
    if t.read_count == 0 then t else record t {
      read_count = count';
      read_pos = pos';
      int_level =
          if count' == 0 then bit_and t.int_level (complement 32 tty_int_read) else t.int_level;
    }

-- The value that `read` answers for a register, and the state that it leaves.
pub read_reg : Tty → ℕ → Outcome (ℕ × Tty)
read_reg t idx =
    if idx == 0
    then (do c ← load t.read_buf t.read_pos; returns (c, take t))
    else if idx == 1
    then returns (1, t)
    else if idx == 2
    then returns (if t.read_count == 0 then 0 else 1, t)
    else if idx == 3
    then returns (t.int_enabled, t)
    else if idx == 4
    then returns (t.int_level, t)
    else if idx == 5
    then returns (bit_and t.int_level t.int_enabled, t)
    else if idx == 6
    then returns (0, t)
    else exits

pub rcv_rqst : Device Tty
rcv_rqst t ofs be bytes true = do
  t' ← write t ofs be bytes
  returns (record { state = t'; bytes = bytes; error = false })
rcv_rqst t ofs be bytes false = do
  (v, t') ← read_reg t (reg_index ofs be)
  returns (record {
    state = t';
    bytes = set_word32 (set_word32 (set_word32 bytes 0 0) 1 0) (lane be) v;
    error = false;
  })
