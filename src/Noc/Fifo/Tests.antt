-- ===== src/Noc/Fifo/Tests.antt =====
-- The fifo at concrete inputs: three slots, so a queue of two.
use rabbits.Base.{ℕ, ◌≡◌, refl, List, [], ◌∷◌, some, none, returns, arith, load, store}
use rabbits.Noc.Queue
use rabbits.Noc.Queue.{Op, put, get, done, waits}
use rabbits.Noc.Fifo.{Fifo, new, is_empty, is_full, read, write, apply, run}
use rabbits.Noc.Fifo.Refine.{Refines, run-Refines}

abbrev script : List (Op ℕ)
script = get ∷ put 1 ∷ put 2 ∷ put 3 ∷ get ∷ put 4 ∷ get ∷ get ∷ []

-- One item, in the last slot.
abbrev wrapped : Fifo ℕ
wrapped = record { buf = 0 ∷ 0 ∷ 7 ∷ []; size = 3; idx_read = 2; idx_write = 0 }

wrapped-Refines : Refines wrapped (7 ∷ [])
wrapped-Refines = record {
  storage = refl;
  read_in = omega arith;
  write_in = omega arith;
  fits = omega arith;
  span = omega arith;
  slots = (refl, tt);
}

run-script :
    run (new 2 0) script
    ≡ returns (
        waits
        ∷ done none
        ∷ done none
        ∷ waits
        ∷ done (some 1)
        ∷ done none
        ∷ done (some 2)
        ∷ done (some 4)
        ∷ [])
unfolding run apply read write is_empty is_full new load store
run-script = refl

run-Refines_example : run wrapped script ≡ returns (Queue.run 2 (7 ∷ []) script)
run-Refines_example = run-Refines script wrapped-Refines
