-- ===== src/Devices/SlTimer.antt =====
-- sl_timer_device.{h,cpp}: a timer that raises its interrupt at the end of each period. The time of the
-- simulation, in picoseconds, is an argument of what reads it; a 64-bit number is kept modulo 2 ^ 64.
pub mod Period
mod Tests
use rabbits.Base.{
  ℕ, zero, suc, ◌+◌, ◌-◌, ◌*◌, ◌/◌, ◌%◌, ◌^◌, Bool, true, false, not, List, Option, none, some,
  ◌==◌, if◌then◌else◌, Outcome, returns, exits, faults, ◌>>=◌, bit_and, bit_xor,
}
use rabbits.Bytes.{word32, set_word32, lane, reg_index}
use rabbits.Slave.{Served, Device}

-- The modulus of `uint64_t`, and of `uint32_t`.
abbrev pub dword_mod : ℕ
dword_mod = 2 ^ 64

abbrev word_mod : ℕ
word_mod = 2 ^ 32

abbrev pub system_clock_fv : ℕ
system_clock_fv = 1000000000

abbrev pub timer_div : ℕ
timer_div = 10

abbrev pub timer_running : ℕ
timer_running = 1

abbrev pub timer_irq_enabled : ℕ
timer_irq_enabled = 2

-- `sl_timer_device`. `woken` and `irq_update` are the two events, each notified and not yet seen by its
-- thread, `irq` is the port, and `deadline` the time at which the timed `wait` of the thread ends.
pub record SlTimer : Type 0 where
  pub period : ℕ
  pub mode : ℕ
  pub value : ℕ
  pub last_period : ℕ
  pub next_period : ℕ
  pub m_irq : Bool
  pub config_mod : Bool
  pub woken : Bool
  pub irq_update : Bool
  pub irq : Bool
  pub deadline : Option ℕ

pub new : SlTimer
new = record {
  period = 0;
  mode = 0;
  value = 0;
  last_period = 0;
  next_period = 0;
  m_irq = false;
  config_mod = false;
  woken = false;
  irq_update = false;
  irq = false;
  deadline = none;
}

-- `sc_time_stamp ().value () - m_last_period`.
abbrev pub elapsed : ℕ → ℕ → ℕ
elapsed last now = (now + dword_mod - last) % dword_mod

-- A number of ticks in picoseconds.
abbrev pub span : ℕ → ℕ
span ticks = 1000000000000 / (system_clock_fv / timer_div) * ticks % dword_mod

abbrev pub configure : SlTimer → SlTimer
configure t = record t { config_mod = true; woken = true }

-- A write of `TIMER_MODE`.
pub write_mode : SlTimer → ℕ → ℕ → SlTimer
write_mode t now value =
    let started = record t { last_period = now; value = 0 } in
    let changed =
      if bit_and (bit_xor t.mode value) timer_running == 0
      then t
      else configure (if bit_and value timer_running == 0 then t else started) in
    record changed { mode = bit_and value 3 }

-- A write of `TIMER_PERIOD`.
pub write_period : SlTimer → ℕ → ℕ → SlTimer
write_period t now value = configure (record t {
  period = value;
  next_period = (elapsed t.last_period now + span value) % dword_mod;
})

pub write : SlTimer → ℕ → ℕ → ℕ → List ℕ → Outcome SlTimer
unfolding write_mode write_period
write t now ofs be bytes =
    let reg = reg_index ofs be in
    let value = word32 bytes (lane be) in
    if reg == 0
    then returns t
    else if reg == 1
    then returns (write_mode t now value)
    else if reg == 2
    then returns (write_period t now value)
    else if reg == 3
    then returns (record t { m_irq = false; irq_update = true })
    else exits

-- The value of a register.
pub read : SlTimer → ℕ → ℕ → Outcome ℕ
read t now reg =
    if reg == 0
    then returns (
        elapsed t.last_period now
        / 1000
        * (system_clock_fv / timer_div)
        % dword_mod
        / 1000000000
        % word_mod)
    else if reg == 1
    then returns t.mode
    else if reg == 2
    then returns t.period
    else if reg == 3
    then returns (if t.m_irq then 1 else 0)
    else exits

pub rcv_rqst : ℕ → Device SlTimer
rcv_rqst now t ofs be bytes true = do
  t' ← write t now ofs be bytes
  returns (record { state = t'; bytes = bytes; error = false })
rcv_rqst now t ofs be bytes false = do
  v ← read t now (reg_index ofs be)
  returns (record { state = t; bytes = set_word32 bytes (lane be) v; error = false })

-- The head of the loop of `sl_timer_thread`: how long it waits.
pub wait_next : SlTimer → ℕ → SlTimer
wait_next t now = record t {
  deadline =
      if t.period == 0
      then none
      else some (now + (t.next_period + dword_mod - elapsed t.last_period now) % dword_mod);
}

-- What the thread does behind its `wait`: for a change of the registers, or at the end of a period.
pub settle : SlTimer → ℕ → Bool → SlTimer
settle t now true = record t { m_irq = false; irq_update = true; config_mod = false }
settle t now false =
    let rung =
      if bit_and t.mode timer_irq_enabled == 0
      then t
      else record t { m_irq = true; irq_update = true } in
    record rung { next_period = (elapsed t.last_period now + span t.period) % dword_mod }

-- From one `wait` of `sl_timer_thread` to the next.
pub resume : SlTimer → ℕ → SlTimer
unfolding wait_next settle
resume t now = wait_next (settle (record t { woken = false }) now t.config_mod) now

-- `irq_update_thread`.
pub run_irq : SlTimer → SlTimer
run_irq t = record t { irq = t.m_irq; irq_update = false }

-- The thread at the end of its timed `wait`.
pub expire : SlTimer → Option ℕ → SlTimer
unfolding resume
expire t none = t
expire t (some now) = resume t now

-- `k` ends of periods, with nothing else between them.
pub periods : ℕ → SlTimer → SlTimer
unfolding expire
periods zero t = t
periods (suc k) t = periods k (expire t t.deadline)
