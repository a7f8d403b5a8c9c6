-- ===== src/Devices/Sem/Refine.antt =====
-- The semaphores against the lock.
use rabbits.Base.{ℕ, ◌≡◌, refl, Bool, List, [], ◌∷◌, Outcome, returns, exits, faults, ◌>>=◌, arith}
use rabbits.Devices.Sem.{Sem, relock}
use rabbits.Devices.Sem.Lock.{
  Act, test, release, lock, Lock, free, held, held_twice, Answer, step, run,
}
use rabbits.Devices.Sem.Word.{
  Holds, access, accesses, loads, storing, storing-Holds, lock_stores, test_answers, answered,
  released,
}

-- An access ends as the lock's step does, and leaves the lock that the step leaves.
abbrev pub Follows : ℕ → Bool → Outcome (Lock × Answer) → Outcome (Sem × Answer) → Type 0
Follows ofs upper (returns (l, answer)) out =
    (s' : Sem) × (out ≡ returns (s', answer)) × Holds ofs upper s' l
Follows ofs upper exits out = out ≡ exits
Follows ofs upper faults out = ⊥

pub access-Follows :
    (s : Sem) (ofs : ℕ) (upper : Bool) (l : Lock) (a : Act)
    → Holds ofs upper s l
    → Follows ofs upper (step l a) (access s ofs upper a)
unfolding relock
access-Follows s ofs upper free test h = (
  storing s ofs upper free h 1,
  rw
      (
        test_answers s ofs upper free h free (loads s ofs upper free h),
        answered upper 0 (omega arith),
      )
      refl,
  storing-Holds s ofs upper free h held (omega arith),
)
access-Follows s ofs upper held test h = (
  s,
  rw
      (
        test_answers s ofs upper held h held (loads s ofs upper held h),
        answered upper 1 (omega arith),
      )
      refl,
  h,
)
access-Follows s ofs upper held_twice test h = (
  s,
  rw
      (
        test_answers s ofs upper held_twice h held_twice (loads s ofs upper held_twice h),
        answered upper 1 (omega arith),
      )
      refl,
  h,
)
access-Follows s ofs upper free release h = released s ofs upper free h
access-Follows s ofs upper held release h = released s ofs upper held h
access-Follows s ofs upper held_twice release h = released s ofs upper held_twice h
access-Follows s ofs upper free lock h = (
  storing s ofs upper free h 1,
  rw (lock_stores s ofs upper free h free (loads s ofs upper free h)) refl,
  storing-Holds s ofs upper free h held (omega arith),
)
access-Follows s ofs upper held lock h = (
  storing s ofs upper held h 2,
  rw (lock_stores s ofs upper held h held (loads s ofs upper held h)) refl,
  storing-Holds s ofs upper held h held_twice (omega arith),
)
access-Follows s ofs upper held_twice lock h =
    rw (lock_stores s ofs upper held_twice h held_twice (loads s ofs upper held_twice h)) refl

follow :
    (out : Outcome (Sem × Answer)) (ofs : ℕ) (upper : Bool) (now : Outcome (Lock × Answer))
    (acts : List Act)
    → Follows ofs upper now out
    → ((s : Sem) (l : Lock) → Holds ofs upper s l → accesses s ofs upper acts ≡ run l acts)
    → (out >>= λ r. accesses r.0 ofs upper acts >>= λ answers. returns (r.1 ∷ answers))
      ≡ (now >>= λ r. run r.0 acts >>= λ answers. returns (r.1 ∷ answers))
follow out ofs upper (returns (l, answer)) acts (s', runs, holds) later =
    rw (runs, later s' l holds) refl
follow out ofs upper exits acts ends later = rw ends refl
follow out ofs upper faults acts ends later = elim ends [ ]

-- Any list of tests, releases and locks of a word runs as it runs on the lock that the word holds:
-- with the same answers, and ending the simulation exactly when a lock is locked a third time.
pub accesses-run :
    (acts : List Act) (s : Sem) (ofs : ℕ) (upper : Bool) (l : Lock)
    → Holds ofs upper s l
    → accesses s ofs upper acts ≡ run l acts
accesses-run [] s ofs upper l h = refl
accesses-run (a ∷ rest) s ofs upper l h =
    follow (access s ofs upper a) ofs upper (step l a) rest (access-Follows s ofs upper l a h)
      (λ s' l' h'. accesses-run rest s' ofs upper l' h')
