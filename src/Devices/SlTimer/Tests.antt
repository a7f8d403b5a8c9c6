-- ===== src/Devices/SlTimer/Tests.antt =====
-- A timer with a period of 5 ticks, that is 50000 picoseconds.
use rabbits.Base.{◌+◌, ◌*◌, ◌≡◌, refl, true, false, some}
use rabbits.Devices.SlTimer.{SlTimer, periods}
use rabbits.Devices.SlTimer.Period.{Rings, periods_lem}

abbrev five_ticks : SlTimer
five_ticks = record {
  period = 5;
  mode = 3;
  value = 0;
  last_period = 1000;
  next_period = 50000;
  m_irq = false;
  config_mod = false;
  woken = false;
  irq_update = false;
  irq = false;
  deadline = some 51000;
}

five_ticks-Rings : Rings five_ticks 51000
five_ticks-Rings = record { deadline = refl; settled = refl; enabled = refl; periodic = refl }

periods_lem_example :
    ((periods 3 five_ticks).m_irq ≡ true)
    × ((periods 3 five_ticks).deadline ≡ some (51000 + 3 * 50000))
periods_lem_example = periods_lem 2 five_ticks 51000 five_ticks-Rings
