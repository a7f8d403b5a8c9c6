-- ===== src/Devices/Timer/Line.antt =====
-- The timer's interrupt line.
use rabbits.Base.{ℕ, ◌≡◌, ◌≢◌, refl, Bool, true, false, List, returns, arith, ==_of_ne}
use rabbits.Bytes.{word32}
use rabbits.Slave.{Served}
use rabbits.Devices.Timer.{
  Phase, counting, ringing, Timer, new, write, read, rcv_rqst, resume, Step, access, expire, delta,
  thread, Reachable, start, after,
}

abbrev pub rings : Phase → Bool
rings counting = false
rings ringing = true

-- The line is up while the thread waits for the program, and only then.
abbrev pub InStep : Timer → Type 0
InStep t = t.irq ≡ rings t.phase

resume-InStep :
    (t : Timer) (p : Phase) (c : Bool) → t.phase ≡ p → t.divisor_changed ≡ c → InStep (resume t)
unfolding resume
resume-InStep t counting true at changed = rw (at, changed) refl
resume-InStep t counting false at same = rw (at, same) refl
resume-InStep t ringing c at kept = rw at refl

access-InStep :
    (t : Timer) (ofs be : ℕ) (bytes : List ℕ) (w : Bool) {r : Served Timer}
    → rcv_rqst t ofs be bytes w ≡ returns r
    → InStep t
    → InStep r.state
unfolding rcv_rqst write read
access-InStep t ofs be bytes true runs h = ground arith
access-InStep t ofs be bytes false runs h = ground arith

step-InStep : {t t' : Timer} → Step t t' → InStep t → InStep t'
step-InStep (access {t = t} ofs be bytes bytes' w runs) h = access-InStep t ofs be bytes w runs h
step-InStep (expire at idle running) h = h
step-InStep (delta idle notified) h = h
step-InStep (thread {t = t} woken) h =
    resume-InStep (record t { runnable = false }) t.phase t.divisor_changed refl refl

new-InStep : InStep new
unfolding new
new-InStep = refl

-- In every state that the timer comes to, its line is up exactly while its thread waits for the
-- program behind `irq = true`.
pub Reachable-InStep : (t : Timer) → Reachable t → InStep t
Reachable-InStep _ start = new-InStep
Reachable-InStep _ (after before step) = step-InStep step (Reachable-InStep _ before)

abbrev programmed : Timer → ℕ → Timer
programmed t period = record t { divisor = period; divisor_changed = true; zero_time = true }

write_period :
    (t : Timer) (bytes : List ℕ)
    → word32 bytes 0 ≢ 0xFFFFFFFF
    → write t 0 bytes ≡ returns (programmed t (word32 bytes 0))
unfolding write
write_period t bytes period = rw (==_of_ne (word32 bytes 0) 0xFFFFFFFF period) refl

resume_ringing :
    (t : Timer) → t.phase ≡ ringing → resume t ≡ record t { irq = false; phase = counting }
unfolding resume
resume_ringing t at = rw at refl

resume_changed :
    (t : Timer)
    → t.phase ≡ counting
    → t.divisor_changed ≡ true
    → resume t ≡ record t { divisor_changed = false; irq = false }
unfolding resume
resume_changed t at changed = rw (at, changed) refl

-- A new period that is written while the line is up loses its first tick: the write wakes the thread,
-- which lowers the line, and the end of the period finds the mark of the change still set and raises
-- nothing.
write_drops_tick :
    (t : Timer) (bytes : List ℕ)
    → t.phase ≡ ringing
    → word32 bytes 0 ≢ 0xFFFFFFFF
    → (t' : Timer) × (write t 0 bytes ≡ returns t')
      × ((resume t').irq ≡ false)
      × ((resume t').divisor ≡ word32 bytes 0)
      × ((resume (resume t')).irq ≡ false)
      × ((resume (resume t')).phase ≡ counting)
write_drops_tick t bytes at period =
    let t' : Timer = programmed t (word32 bytes 0) in
    let lowered : Timer = record t' { irq = false; phase = counting } in
    let first = resume_ringing t' at in
    let second = resume_changed lowered refl refl in
    (
      t',
      write_period t bytes period,
      rw first refl,
      rw first refl,
      rw (first, second) refl,
      rw (first, second) refl,
    )
