-- ===== src/Devices/Sem/Lock.antt =====
-- A lock, as the processors use a word of the semaphores.
use rabbits.Base.{
  ℕ, Bool, true, false, List, [], ◌∷◌, Option, none, some, Outcome, returns, exits, ◌>>=◌,
}

-- What the processors do to a lock, and what it is. A lock that is locked again by a write is held
-- twice; a third time is an error.
pub data Act : Type 0 where
  test release lock : Act

pub data Lock : Type 0 where
  free held held_twice : Lock

-- The answer to a test: granted or not.
abbrev pub Answer : Type 0
Answer = Option Bool

abbrev pub step : Lock → Act → Outcome (Lock × Answer)
step free test = returns (held, some true)
step held test = returns (held, some false)
step held_twice test = returns (held_twice, some false)
step l release = returns (free, none)
step free lock = returns (held, none)
step held lock = returns (held_twice, none)
step held_twice lock = exits

abbrev pub run : Lock → List Act → Outcome (List Answer)
run l [] = returns []
run l (a ∷ rest) = do (l', answer) ← step l a; answers ← run l' rest; returns (answer ∷ answers)

-- The word that stands for a lock, and the word that a write carries.
abbrev pub code : Lock → ℕ
code free = 0
code held = 1
code held_twice = 2
