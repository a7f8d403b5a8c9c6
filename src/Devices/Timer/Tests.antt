-- ===== src/Devices/Timer/Tests.antt =====
-- The timer at concrete inputs.
use rabbits.Base.{ℕ, ◌≡◌, refl, true, false, List, [], ◌∷◌, returns, arith}
use rabbits.Bytes.{word32}
use rabbits.Devices.Timer.{
  Timer, counting, ringing, new, write, rcv_rqst, resume, Reachable, start, after, access, expire,
  delta, thread,
}
use rabbits.Devices.Timer.Line.{InStep, Reachable-InStep}

abbrev period : List ℕ
period = 100 ∷ 0 ∷ 0 ∷ 0 ∷ 0 ∷ 0 ∷ 0 ∷ 0 ∷ []

abbrev programmed : Timer
programmed = record {
  divisor = 100;
  divisor_changed = true;
  one_shot = false;
  irq = false;
  phase = counting;
  runnable = false;
  zero_time = true;
}

set_up :
    rcv_rqst new 0 0x0F period true
    ≡ returns (record { state = programmed; bytes = period; error = false })
unfolding new rcv_rqst write word32
set_up = refl

abbrev ringing_timer : Timer
ringing_timer = record programmed {
  divisor_changed = false;
  irq = true;
  phase = ringing;
  zero_time = false;
}

-- Programmed, woken by its program, and at the end of a period.
rings : Reachable ringing_timer
unfolding resume
rings =
    after
      (after
        (after (after (after start (access 0 0x0F period period true set_up)) (delta refl refl))
          (thread refl))
        (expire refl refl (λ e. absurd (omega arith))))
      (thread refl)

Reachable-InStep_example : InStep ringing_timer
Reachable-InStep_example = Reachable-InStep ringing_timer rings

abbrev shorter : List ℕ
shorter = 50 ∷ 0 ∷ 0 ∷ 0 ∷ 0 ∷ 0 ∷ 0 ∷ 0 ∷ []
