-- ===== src/Devices/Sem/Tests.antt =====
-- The semaphores at concrete inputs.
use rabbits.Base.{◌≤◌, ◌≡◌, refl, true, false, List, [], ◌∷◌, some, none, returns, exits, arith}
use rabbits.Devices.Lanes.{switch_be}
use rabbits.Devices.Sem.{
  Sem, write, read, write_word, read_word, load_word, store_word, relock, rcv_rqst,
}
use rabbits.Devices.Sem.Lock.{Act, test, release, lock, free, held, Answer}
use rabbits.Devices.Sem.Word.{Holds, accesses}
use rabbits.Devices.Sem.Refine.{accesses-run}
use rabbits.Devices.Sem.Exclusion.{grants, mutual_exclusion}

-- Two words, the second one taken.
abbrev sems : Sem
sems = record { size = 8; mem = 0 ∷ 0 ∷ 0 ∷ 0 ∷ 1 ∷ 0 ∷ 0 ∷ 0 ∷ [] }

first_free : Holds 0 false sems free
first_free = record { inside = omega arith; low = omega arith; value = refl }

second_taken : Holds 0 true sems held
second_taken = record { inside = omega arith; low = omega arith; value = refl }

abbrev script : List Act
script = test ∷ test ∷ release ∷ test ∷ []

abbrev replies : List Answer
replies = some true ∷ some false ∷ none ∷ some true ∷ []

accesses-run_example : accesses sems 0 false script ≡ returns replies
accesses-run_example = accesses-run script sems 0 false free first_free

-- The same from the code alone.
script_runs : accesses sems 0 false script ≡ returns replies
unfolding rcv_rqst write read write_word read_word load_word store_word relock switch_be
script_runs = refl

third_lock : accesses sems 0 true (lock ∷ lock ∷ []) ≡ exits
unfolding rcv_rqst write read write_word read_word load_word store_word relock switch_be
third_lock = refl

mutual_exclusion_example : grants replies ≤ 2
mutual_exclusion_example = mutual_exclusion script sems 0 false free first_free script_runs
