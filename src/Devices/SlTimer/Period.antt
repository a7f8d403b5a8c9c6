-- ===== src/Devices/SlTimer/Period.antt =====
-- When the timer rings.
use rabbits.Base.{
  ℕ, zero, suc, ◌+◌, ◌-◌, ◌*◌, ◌%◌, ◌<◌, ◌≡◌, ◌≢◌, refl, ap, ◌∙◌, true, false, some, ◌==◌, bit_and,
  arith, ==_of_ne,
}
use rabbits.Devices.SlTimer.{
  dword_mod, new, SlTimer, elapsed, span, timer_irq_enabled, write_mode, write_period, wait_next,
  settle, resume, expire, periods,
}

-- The wait for a moment that lies `p` after the present one.
wait_of :
    (s p : ℕ)
    → s < dword_mod
    → p < dword_mod
    → ((s + p) % dword_mod + dword_mod - s) % dword_mod ≡ p
wait_of s p hs hp = omega arith

-- The interrupt is enabled, and the thread waits for the end of a period at `d`.
pub record Rings (t : SlTimer) (d : ℕ) : Type 0 where
  pub deadline : t.deadline ≡ some d
  pub settled : t.config_mod ≡ false
  pub enabled : (bit_and t.mode timer_irq_enabled == 0) ≡ false
  pub periodic : (t.period == 0) ≡ false

-- The timer behind the end of a period.
abbrev rung : SlTimer → ℕ → SlTimer
rung t d = record t {
  woken = false;
  m_irq = true;
  irq_update = true;
  next_period = (elapsed t.last_period d + span t.period) % dword_mod;
  deadline = some (d + span t.period);
}

resume-rung : (t : SlTimer) (d : ℕ) → Rings t d → resume t d ≡ rung t d
unfolding resume settle wait_next
resume-rung t d rings =
    let wait = wait_of (elapsed t.last_period d) (span t.period) (omega arith) (omega arith) in
    simp (rings.settled, rings.enabled, rings.periodic, wait) refl

rung-Rings : (t : SlTimer) (d : ℕ) → Rings t d → Rings (rung t d) (d + span t.period)
rung-Rings t d rings = record {
  deadline = refl;
  settled = rings.settled;
  enabled = rings.enabled;
  periodic = rings.periodic;
}

expire-rung : (t : SlTimer) (d : ℕ) → Rings t d → expire t t.deadline ≡ rung t d
unfolding expire
expire-rung t d rings = ap (λ o. expire t o) rings.deadline ∙ resume-rung t d rings

periods-rung : (k : ℕ) (t : SlTimer) (d : ℕ) → Rings t d → periods (suc k) t ≡ periods k (rung t d)
unfolding periods
periods-rung k t d rings = ap (periods k) (expire-rung t d rings)

periods_zero : (t : SlTimer) → periods 0 t ≡ t
unfolding periods
periods_zero t = refl

-- A timer whose interrupt is enabled rings at the end of each period, and one period behind another: at
-- the end of `k` more periods, with no access between them, its interrupt is raised, and the wait that
-- follows ends exactly `k + 1` periods behind the first.
pub periods_lem :
    (k : ℕ) (t : SlTimer) (d : ℕ)
    → Rings t d
    → ((periods (suc k) t).m_irq ≡ true)
      × ((periods (suc k) t).deadline ≡ some (d + suc k * span t.period))
periods_lem zero t d rings =
    let same = periods-rung zero t d rings ∙ periods_zero (rung t d) in
    let p : ℕ = span t.period in
    let next : d + p ≡ d + 1 * p = omega arith in
    (
      ap (λ (u : SlTimer). u.m_irq) same,
      ap (λ (u : SlTimer). u.deadline) same ∙ ap (λ x. some x) next,
    )
periods_lem (suc k) t d rings =
    let same = periods-rung (suc k) t d rings in
    let p : ℕ = span t.period in
    let next : d + p + suc k * p ≡ d + suc (suc k) * p = grind arith in
    let (up, at) = periods_lem k (rung t d) (d + p) (rung-Rings t d rings) in
    (
      ap (λ (u : SlTimer). u.m_irq) same ∙ up,
      ap (λ (u : SlTimer). u.deadline) same ∙ at ∙ ap (λ x. some x) next,
    )

-- The timer that a program stops, and then the thread's turn.
stopped : SlTimer → ℕ → SlTimer
stopped t now = record t {
  mode = 2;
  config_mod = false;
  woken = false;
  m_irq = false;
  irq_update = true;
  deadline = some (now + (t.next_period + dword_mod - elapsed t.last_period now) % dword_mod);
}

stop_lem :
    (t : SlTimer) (now : ℕ)
    → t.mode ≡ 3
    → (t.period == 0) ≡ false
    → resume (write_mode t now 2) now ≡ stopped t now
unfolding write_mode resume settle wait_next stopped
stop_lem t now mode periodic = simp (mode, periodic) refl

-- A program that takes the running bit out of the mode does not stop the timer: the thread goes on to
-- wait for the end of the period, and rings there and at each end of a period behind it, as long as the
-- interrupt is enabled.
stop_goes_on :
    (t : SlTimer) (now : ℕ) (k : ℕ)
    → t.mode ≡ 3
    → t.period ≢ 0
    → (d : ℕ) × ((resume (write_mode t now 2) now).deadline ≡ some d)
      × ((periods (suc k) (resume (write_mode t now 2) now)).m_irq ≡ true)
      × ((periods (suc k) (resume (write_mode t now 2) now)).deadline
          ≡ some (d + suc k * span t.period))
unfolding stopped
stop_goes_on t now k mode periodic =
    let d : ℕ = now + (t.next_period + dword_mod - elapsed t.last_period now) % dword_mod in
    let same = stop_lem t now mode (==_of_ne t.period 0 periodic) in
    let rings : Rings (stopped t now) d = record {
      deadline = refl;
      settled = refl;
      enabled = refl;
      periodic = ==_of_ne t.period 0 periodic;
    } in
    let (up, at) = periods_lem k (stopped t now) d rings in
    (
      d,
      ap (λ (u : SlTimer). u.deadline) same,
      ap (λ u. (periods (suc k) u).m_irq) same ∙ up,
      ap (λ u. (periods (suc k) u).deadline) same ∙ at,
    )

-- A timer that is given its period and then started, from its construction: the first period ends, not
-- one period behind the start, but later by the whole time at which the period was written, since the
-- end of the period is kept relative to the start, and the start moves.
start_is_late :
    (written started ticks : ℕ)
    → ticks ≢ 0
    → written + span ticks < dword_mod
    → started < dword_mod
    → (resume
        (write_mode (resume (write_period new written ticks) written) started 3)
        started).deadline
      ≡ some (started + (written + span ticks))
unfolding new write_mode write_period resume settle wait_next
start_is_late written started ticks some_ticks small later =
    let none_passed : (started + dword_mod - started) % dword_mod ≡ 0 = omega arith in
    let passed : (written + dword_mod - 0) % dword_mod ≡ written = omega arith in
    let wait : ((written + span ticks) % dword_mod + dword_mod - 0) % dword_mod
        ≡ written + span ticks =
      omega arith in
    simp (==_of_ne ticks 0 some_ticks, none_passed, passed, wait) refl
