-- ===== src/Etrace/Average.antt =====
-- The average of the last samples, `etrace_if::roll_average`.
use rabbits.Base.{
  ℕ, ◌+◌, ◌-◌, ◌/◌, ◌%◌, Bool, true, false, List, [], ◌∷◌, Outcome, returns, ◌>>=◌, take, replicate,
  store, ◌==◌, if◌then◌else◌,
}
use rabbits.Etrace.{word64, max_history}

pub record Average : Type 0 where
  pub full_average : Bool
  pub curr_idx : ℕ
  pub history : List ℕ

-- The object is a global one, so that the history begins as zeros.
unfoldable pub new_average : Average
new_average = record { full_average = false; curr_idx = 0; history = replicate max_history 0 }

-- `for(...) acc += m_history[i];`
unfoldable pub accumulate : ℕ → List ℕ → ℕ
accumulate acc [] = acc
accumulate acc (x ∷ xs) = accumulate (word64 (acc + x)) xs

-- The numbers that are added, and how many they are.
abbrev pub mean : (full : Bool) → (curr_idx : ℕ) → List ℕ → ℕ
mean true i history = accumulate 0 history / max_history
mean false i history = accumulate 0 (take (i + 1) history) / (i + 1)

unfoldable pub roll_average : Average → ℕ → Outcome (ℕ × Average)
roll_average a new_samp = do
  history ← store a.history a.curr_idx new_samp
  let next = (a.curr_idx + 1) % max_history
  returns (
    mean a.full_average a.curr_idx history,
    record {
      full_average = if next == max_history - 1 then true else a.full_average;
      curr_idx = next;
      history = history;
    },
  )

-- All samples so far, the newest first, given to a new object in the order in which they come.
unfoldable pub after : List ℕ → Outcome Average
after [] = returns new_average
after (x ∷ xs) = after xs >>= λ a. roll_average a x >>= λ r. returns r.1
