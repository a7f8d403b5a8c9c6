-- ===== src/Noc/Fifo.antt =====
-- mwsr_ta_fifo.cpp: the blocking ring buffer under each queue of the network.
-- A call that finds the fifo full (or empty) suspends its thread in `wait`: that is `waits`.
pub mod Refine
mod Tests
use rabbits.Base.{
  ℕ, ◌+◌, ◌%◌, Bool, List, [], ◌∷◌, Option, none, some, ◌==◌, if◌then◌else◌, Outcome, returns,
  exits, faults, ◌>>=◌, load, store, replicate,
}
use rabbits.Noc.Queue.{Attempt, done, waits, Op, put, get, Reply}

pub record Fifo {ℓ} (A : Type ℓ) : Type ℓ where
  pub buf : List A
  pub size : ℕ
  pub idx_read : ℕ
  pub idx_write : ℕ

-- `(i + 1) % m_size`.
abbrev pub next : ℕ → ℕ → ℕ
next size i = (i + 1) % size

module _ {ℓ} {A : Type ℓ} where
  -- The constructor; `junk` stands for the default-constructed items of `new ITEM[m_size]`.
  unfoldable pub new : ℕ → A → Fifo A
  new n junk = record { buf = replicate (n + 1) junk; size = n + 1; idx_read = 0; idx_write = 0 }

  pub reset : Fifo A → Fifo A
  reset f = record f { idx_read = 0; idx_write = 0 }

  unfoldable pub is_empty : Fifo A → Bool
  is_empty f = f.idx_read == f.idx_write

  unfoldable pub is_full : Fifo A → Bool
  is_full f = f.idx_read == next f.size f.idx_write

  unfoldable pub read : Fifo A → Outcome (Attempt (A × Fifo A))
  read f = if is_empty f then returns waits else do
    item ← load f.buf f.idx_read
    returns (done (item, record f { idx_read = next f.size f.idx_read }))

  unfoldable pub write : Fifo A → A → Outcome (Attempt (Fifo A))
  write f p = if is_full f then returns waits else do
    buf' ← store f.buf f.idx_write p
    returns (done (record f { buf = buf'; idx_write = next f.size f.idx_write }))

  -- One call, with the fifo it leaves; a call that waits leaves it as it was.
  unfoldable pub apply : Fifo A → Op A → Outcome (Reply A × Fifo A)
  apply f (put x) = do
    r ← write f x
    elim r [ done f' ↦ returns (done none, f') | waits ↦ returns (waits, f) ]
  apply f get = do
    r ← read f
    elim r [ done (x, f') ↦ returns (done (some x), f') | waits ↦ returns (waits, f) ]

  pub run : Fifo A → List (Op A) → Outcome (List (Reply A))
  run f [] = returns []
  run f (op ∷ ops) = do (reply, f') ← apply f op; replies ← run f' ops; returns (reply ∷ replies)
