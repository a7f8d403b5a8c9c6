-- ===== src/Devices/Sem/Exclusion.antt =====
-- Mutual exclusion by the semaphores.
use rabbits.Base.{
  ℕ, ◌+◌, ◌≤◌, ◌≡◌, refl, sym, ◌∙◌, Bool, true, false, List, [], ◌∷◌, some, none, Outcome, returns,
  exits, faults, ◌>>=◌, arith,
}
use rabbits.Devices.Sem.{Sem}
use rabbits.Devices.Sem.Lock.{Act, test, release, lock, Lock, free, held, held_twice, Answer, run}
use rabbits.Devices.Sem.Word.{Holds, accesses}
use rabbits.Devices.Sem.Refine.{accesses-run}

-- How many tests were granted, and how often the lock was given back.
abbrev pub grants : List Answer → ℕ
grants [] = 0
grants (some true ∷ rest) = 1 + grants rest
grants (some false ∷ rest) = grants rest
grants (none ∷ rest) = grants rest

abbrev pub releases : List Act → ℕ
releases [] = 0
releases (release ∷ rest) = 1 + releases rest
releases (test ∷ rest) = releases rest
releases (lock ∷ rest) = releases rest

-- One more may be granted from a free lock.
abbrev pub spare : Lock → ℕ
spare free = 1
spare held = 0
spare held_twice = 0

-- A run that returns is a first answer and the answers of the rest.
after :
    (o : Outcome (List Answer)) (x : Answer) {answers : List Answer}
    → (o >>= λ rest. returns (x ∷ rest)) ≡ returns answers
    → (rest : List Answer) × (o ≡ returns rest) × (answers ≡ x ∷ rest)
after (returns rest) x h = (rest, refl, cc)
after exits x h = cc
after faults x h = cc

run-grants :
    (acts : List Act) (l : Lock) {answers : List Answer}
    → run l acts ≡ returns answers
    → grants answers ≤ releases acts + spare l
run-grants [] l {answers} h = let none_given : answers ≡ [] = cc in rw none_given (omega arith)
run-grants (test ∷ rest) free h =
    let (more, runs, eq) = after (run held rest) (some true) h in
    rw eq (omega (arith, run-grants rest held runs))
run-grants (test ∷ rest) held h =
    let (more, runs, eq) = after (run held rest) (some false) h in
    rw eq (omega (arith, run-grants rest held runs))
run-grants (test ∷ rest) held_twice h =
    let (more, runs, eq) = after (run held_twice rest) (some false) h in
    rw eq (omega (arith, run-grants rest held_twice runs))
run-grants (release ∷ rest) free h =
    let (more, runs, eq) = after (run free rest) none h in
    rw eq (omega (arith, run-grants rest free runs))
run-grants (release ∷ rest) held h =
    let (more, runs, eq) = after (run free rest) none h in
    rw eq (omega (arith, run-grants rest free runs))
run-grants (release ∷ rest) held_twice h =
    let (more, runs, eq) = after (run free rest) none h in
    rw eq (omega (arith, run-grants rest free runs))
run-grants (lock ∷ rest) free h =
    let (more, runs, eq) = after (run held rest) none h in
    rw eq (omega (arith, run-grants rest held runs))
run-grants (lock ∷ rest) held h =
    let (more, runs, eq) = after (run held_twice rest) none h in
    rw eq (omega (arith, run-grants rest held_twice runs))
run-grants (lock ∷ rest) held_twice h = cc

-- Along any accesses to a word that return, no more tests are granted than the lock was given back,
-- and one more when the word was free at first.
pub mutual_exclusion :
    (acts : List Act) (s : Sem) (ofs : ℕ) (upper : Bool) (l : Lock) {answers : List Answer}
    → Holds ofs upper s l
    → accesses s ofs upper acts ≡ returns answers
    → grants answers ≤ releases acts + spare l
mutual_exclusion acts s ofs upper l holds runs =
    run-grants acts l (sym (accesses-run acts s ofs upper l holds) ∙ runs)
