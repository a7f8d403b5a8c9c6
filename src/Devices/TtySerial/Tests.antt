-- ===== src/Devices/TtySerial/Tests.antt =====
-- The terminal at concrete inputs.
use rabbits.Base.{ℕ, ◌≡◌, refl, List, [], ◌∷◌, some, none, returns, arith, replicate, set}
use rabbits.Noc.Queue
use rabbits.Noc.Queue.{done, waits, Op, put, get, Reply}
use rabbits.Devices.TtySerial.{Tty, new, read_buf_size}
use rabbits.Devices.TtySerial.Buffer.{Holds, run, run-Queue}

-- One character waits in the last place of the ring.
abbrev waiting : Tty
waiting = record new {
  read_buf = set (replicate read_buf_size 0) 255 65;
  read_pos = 255;
  read_count = 1;
  int_level = 1;
  int_enabled = 1;
}

waiting-Holds : Holds waiting (65 ∷ [])
unfolding new
waiting-Holds = record {
  storage = refl;
  pos_in = omega arith;
  count = refl;
  fits = omega arith;
  slots = (refl, tt);
  level = refl;
}

abbrev script : List (Op ℕ)
script = put 66 ∷ get ∷ get ∷ get ∷ []

run-Queue_example :
    run waiting script ≡ returns (done none ∷ done (some 65) ∷ done (some 66) ∷ waits ∷ [])
unfolding Queue.run Queue.step Queue.read Queue.write
run-Queue_example = run-Queue script waiting (65 ∷ []) waiting-Holds
