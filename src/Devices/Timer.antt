-- ===== src/Devices/Timer.antt =====
-- timer_device.{h,cpp}: a periodic timer. The lengths of the periods are left to the scheduler: a
-- step says that one has passed.
pub mod Line
mod Tests
use rabbits.Base.{
  ℕ, ◌≡◌, ◌≢◌, Bool, true, false, not, ◌&&◌, List, ◌==◌, if◌then◌else◌, Outcome, returns, exits,
  faults, ◌>>=◌,
}
use rabbits.Bytes.{word32, set_word32}
use rabbits.Slave.{Served, Device}

-- Where `timer_thread` is: in the `wait` at the head of its loop, or in the one behind `irq = true`.
pub data Phase : Type 0 where
  counting ringing : Phase

-- `timer_device`. `runnable` says that the thread has been woken, and `zero_time` that `ev_wake`
-- is notified for the next delta cycle.
pub record Timer : Type 0 where
  pub divisor : ℕ
  pub divisor_changed : Bool
  pub one_shot : Bool
  pub irq : Bool
  pub phase : Phase
  pub runnable : Bool
  pub zero_time : Bool

pub new : Timer
new = record {
  divisor = 0;
  divisor_changed = false;
  one_shot = false;
  irq = false;
  phase = counting;
  runnable = false;
  zero_time = false;
}

-- An immediate notification cancels one for the next delta cycle.
pub write : Timer → ℕ → List ℕ → Outcome Timer
write t ofs bytes =
    let val1 = word32 bytes 0 in
    if ofs == 0x00
    then (if not (val1 == 0xFFFFFFFF)
        then returns (record t { divisor = val1; divisor_changed = true; zero_time = true })
        else returns (record t { runnable = true; zero_time = false }))
    else if ofs == 0x08
    then returns (record t { one_shot = not (val1 == 0) })
    else exits

-- `read`: what it leaves in `data`.
pub read : ℕ → ℕ → List ℕ → Outcome (List ℕ)
read ofs be bytes =
    let zeroed = set_word32 (set_word32 bytes 0 0) 1 0 in
    if ofs == 0x00 && be == 0x0F then returns (set_word32 zeroed 0 1) else exits

pub rcv_rqst : Device Timer
rcv_rqst t ofs be bytes true = do
  t' ← write t ofs bytes
  returns (record { state = t'; bytes = bytes; error = false })
rcv_rqst t ofs be bytes false = do
  bytes' ← read ofs be bytes
  returns (record { state = t; bytes = bytes'; error = false })

-- From one `wait` of `timer_thread` to the next.
pub resume : Timer → Timer
resume t = elim t.phase [
  | counting ↦
      if t.divisor_changed
      then record t { divisor_changed = false; irq = false }
      else record t { divisor = if t.one_shot then 0 else t.divisor; irq = true; phase = ringing }
  | ringing ↦ record t { irq = false; phase = counting }
]

-- What happens to the timer: an access, the end of a period, a delta cycle, or a run of its thread.
pub data Step : Timer → Timer → Type 0 where
  access :
      {t t' : Timer} (ofs be : ℕ) (bytes bytes' : List ℕ) (w : Bool)
      → rcv_rqst t ofs be bytes w ≡ returns (record { state = t'; bytes = bytes'; error = false })
      → Step t t'
  expire :
      {t : Timer}
      → t.phase ≡ counting
      → t.runnable ≡ false
      → t.divisor ≢ 0
      → Step t (record t { runnable = true })
  delta :
      {t : Timer}
      → t.runnable ≡ false
      → t.zero_time ≡ true
      → Step t (record t { runnable = true; zero_time = false })
  thread : {t : Timer} → t.runnable ≡ true → Step t (resume (record t { runnable = false }))

-- The states that the timer comes to.
pub data Reachable : Timer → Type 0 where
  start : Reachable new
  after : {t t' : Timer} → Reachable t → Step t t' → Reachable t'
